-- ===== src/Notifications/RoundTrip.antt =====
-- web/static/js/admin.js: the settings of a channel from its form to the shape that is sent and back into the form.
use server_status_rust_l.Prelude.{String, Option, some, [], ◌∷◌, ◌==◌, ◌≡◌, if◌then◌else◌}
use server_status_rust_l.Prelude.Dict.{Dict}
use server_status_rust_l.Prelude.Json.{Json}
use server_status_rust_l.Notifications.{Forms}
use server_status_rust_l.Notifications.Shown.{
  render_tgbot_notification, render_wechat_notification, render_email_notification,
  render_log_notification,
}
use server_status_rust_l.Notifications.Collected.{
  Tgbot, Wechat, Email, Log, collect_tgbot_settings, tgbot_json, collect_wechat_settings,
  wechat_json, collect_email_settings, email_json, collect_log_settings, log_json,
}

-- The value of a key in an object with another's keys over it.
last_of : String → Dict Json → Option Json → Option Json
last_of key [] value = value
last_of key ((k, v) ∷ rest) value = last_of key rest (if k == key then some v else value)

-- What the forms of the channels give when they show what the back end has stored of each.
abbrev pub shown_tgbot : Option Json → Option Json → Forms → Tgbot
shown_tgbot config stored forms =
    collect_tgbot_settings (render_tgbot_notification config stored forms.tg)

abbrev pub shown_wechat : Option Json → Option Json → Forms → Wechat
shown_wechat config stored forms =
    collect_wechat_settings (render_wechat_notification config stored forms.wechat)

abbrev pub shown_email : Option Json → Option Json → Forms → Email
shown_email config stored forms =
    collect_email_settings (render_email_notification config stored forms.email)

abbrev pub shown_log : Option Json → Option Json → Forms → Log
shown_log config stored forms =
    collect_log_settings (render_log_notification config stored forms.log)

-- Settings that no form has given.
abbrev pub AreUnchanged : Option Json → Option Json → Forms → Forms → Type 0
AreUnchanged config stored page shown =
    (shown_tgbot config (some (tgbot_json (shown_tgbot config stored page))) shown
      ≡ shown_tgbot config stored page)
    × (shown_wechat config (some (wechat_json (shown_wechat config stored page))) shown
        ≡ shown_wechat config stored page)
    × (shown_email config (some (email_json (shown_email config stored page))) shown
        ≡ shown_email config stored page)
    × (shown_log config (some (log_json (shown_log config stored page))) shown
        ≡ shown_log config stored page)
