-- ===== src/Schemas/Settings.antt =====
-- The settings that the modelled components read (deepCab/schemas/settings.py), and the reference to
-- a data slice of deepCab/schemas/config.py.
use text.Mathlib.Text.{◌==◌}
use deep_cab.Prelude.{String, Bool, false, not, Option, none, some, if◌then◌else◌}
use deep_cab.Schemas.Enums.{DataSize}

-- `DataRef`
pub record DataRef : Type 0 where
  pub size : DataSize
  pub validation_size : DataSize

pub record MlflowSettings : Type 0 where
  pub tracking_uri : Option String
  pub experiment : Option String
  pub model_name : Option String
  pub champion_alias : String
  pub challenger_alias : String

-- The notification fields of `ObsSettings`.
pub record ObsSettings : Type 0 where
  pub slack_webhook_url : Option String
  pub telegram_bot_token : Option String
  pub telegram_chat_id : Option String

-- The truth value of an optional text: None and "" are false.
abbrev pub truthy : Option String → Bool
truthy none = false
truthy (some text) = not (text == "")

-- `a or b` on optional texts.
abbrev pub or_else : Option String → Option String → Option String
or_else a b = if truthy a then a else b

-- The text, or a default for None.
abbrev pub text_or : String → Option String → String
text_or default none = default
text_or default (some text) = text
