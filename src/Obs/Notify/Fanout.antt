-- ===== src/Obs/Notify/Fanout.antt =====
-- To whom a notification goes: the fan-out of deepCab/obs/notify.py over its two backends.
use deep_cab.Prelude.{String, ◌+◌, ◌≡◌, ◌&&◌, arith, length, length-append, if◌then◌else◌}
use deep_cab.Prelude.Dict.{Dict}
use deep_cab.Schemas.Settings.{ObsSettings, truthy}
use deep_cab.Obs.Notify.{slack_post, telegram_post, post}

length-slack_post :
    (obs : ObsSettings) (text tag : String) (extra : Dict String)
    → length (slack_post obs text tag extra) ≡ (if truthy obs.slack_webhook_url then 1 else 0)
unfolding slack_post
length-slack_post obs text tag extra = ground arith

length-telegram_post :
    (obs : ObsSettings) (text tag : String) (extra : Dict String)
    → length (telegram_post obs text tag extra)
      ≡ (if truthy obs.telegram_bot_token && truthy obs.telegram_chat_id then 1 else 0)
unfolding telegram_post
length-telegram_post obs text tag extra = ground arith

-- A message goes once to each backend that is configured, and to no other: to Slack if the webhook
-- is a non-empty text, to Telegram if both the token and the chat are.
pub length-post :
    (obs : ObsSettings) (text tag : String) (extra : Dict String)
    → length (post obs text tag extra)
      ≡ (if truthy obs.slack_webhook_url then 1 else 0)
        + (if truthy obs.telegram_bot_token && truthy obs.telegram_chat_id then 1 else 0)
unfolding post
length-post obs text tag extra = omega (
  arith,
  length-append (slack_post obs text tag extra) (telegram_post obs text tag extra),
  length-slack_post obs text tag extra,
  length-telegram_post obs text tag extra,
)
