-- ===== src/Obs/Notify.antt =====
-- The notifier: `post` of deepCab/obs/slack.py and deepCab/obs/telegram.py, and the fan-out of
-- deepCab/obs/notify.py. A delivery is what is handed to `requests.post`; its outcome is swallowed
-- by both backends, so it is no part of the model.
pub mod Fanout
use deep_cab.Prelude.{String, ◌<>◌, Option, none, some, List, [], ◌∷◌, ◌++◌, if◌then◌else◌}
use deep_cab.Prelude.Dict.{Dict}
use deep_cab.Schemas.Settings.{ObsSettings, truthy, or_else}

pub data Delivery : Type 0 where
  slack_message : (url body : String) → Delivery
  telegram_message : (token chat body : String) → Delivery

-- `" ".join(f"{k}={v}" for k, v in extra.items())`
pub join_fields : Dict String → String
join_fields [] = ""
join_fields ((k, v) ∷ []) = k <> "=" <> v
join_fields ((k, v) ∷ rest) = k <> "=" <> v <> " " <> join_fields rest

-- The line that both backends build: an empty `extra` is false, like None.
unfoldable pub message_body : String → String → Dict String → String
unfolding join_fields
message_body text tag [] = "[" <> tag <> "] " <> text
message_body text tag extra = "[" <> tag <> "] " <> text <> " — " <> join_fields extra

-- `_webhook_url` of obs/slack.py
unfoldable pub webhook_url : ObsSettings → Option String
webhook_url obs = or_else obs.slack_webhook_url none

abbrev pub both : Option String → Option String → Option (String × String)
both (some token) (some chat) = some (token, chat)
both _ _ = none

-- `_credentials` of obs/telegram.py
unfoldable pub credentials : ObsSettings → Option (String × String)
credentials obs =
    if truthy obs.telegram_bot_token
    then (if truthy obs.telegram_chat_id
        then both obs.telegram_bot_token obs.telegram_chat_id
        else none)
    else none

unfoldable pub slack_post : ObsSettings → String → String → Dict String → List Delivery
unfolding webhook_url
slack_post obs text tag extra = elim (webhook_url obs) [
  | none ↦ []
  | some url ↦ slack_message url (message_body text tag extra) ∷ []
]

unfoldable pub telegram_post : ObsSettings → String → String → Dict String → List Delivery
unfolding credentials
telegram_post obs text tag extra = elim (credentials obs) [
  | none ↦ []
  | some (token, chat) ↦ telegram_message token chat (message_body text tag extra) ∷ []
]

-- `post` of obs/notify.py: to each of `_BACKENDS`, Slack first.
unfoldable pub post : ObsSettings → String → String → Dict String → List Delivery
unfolding slack_post telegram_post
post obs text tag extra = slack_post obs text tag extra ++ telegram_post obs text tag extra

unfoldable pub notify_alias_change : ObsSettings → String → String → String → List Delivery
notify_alias_change obs model alias version =
    post obs ("alias `@" <> alias <> "` -> " <> model <> " v" <> version) "mlflow"
      (("model", model) ∷ ("alias", alias) ∷ ("version", version) ∷ [])

unfoldable pub notify_flow_event : ObsSettings → String → String → String → List Delivery
notify_flow_event obs flow state run_id =
    post obs ("flow `" <> flow <> "` -> " <> state) "flow" (("run_id", run_id) ∷ [])
