-- ===== src/Tests/Channels.antt =====
-- Runs of the notification channels of web/static/js/admin.js.
use server_status_rust_l.Prelude.{
  true, false, some, [], ◌∷◌, ◌≡◌, ◌≢◌, ◌↔◌, refl, is_empty, concat, inr,
}
use server_status_rust_l.Prelude.Json.{Json, null, nat, str, bool, obj}
use server_status_rust_l.Settings.{Settings, no_settings, merge_scoped_settings}
use server_status_rust_l.Prelude.Sort.{sort_by}
use server_status_rust_l.Editors.{number_or}
use server_status_rust_l.Notifications.{tg, log, Forms, fields_of}
use server_status_rust_l.Notifications.Receivers.{collect_webhook_settings}
use server_status_rust_l.Notifications.Checks.{validate_webhook_settings_for_test}
use server_status_rust_l.Notifications.Timeouts.{AllReady, enabled_rows, webhook_accepted}
use server_status_rust_l.Notifications.Page.{
  Page, collect_expire_notify_settings, local_snapshot, refresh_local_dirty,
}
use server_status_rust_l.Saving.{App, Backend, body, rejected}
use server_status_rust_l.Saving.Channels.{
  set_page, save_notification_module, save_channel, reset_notification_override, drawn_forms,
}
use server_status_rust_l.Saving.Channels.Kept.{IsKept}
use server_status_rust_l.Saving.Channels.Outcomes.{saved_module, save_channel_lem}
use server_status_rust_l.Tests.Sample.{forms, page, browser}
use server_status_rust_l.Tests.Console.{app}

-- What the back end might have stored of a channel.
abbrev stored_channel : Json
stored_channel =
    obj (fields_of (("enabled", bool true) ∷ ("username", str " user ") ∷ ("port", null) ∷ []))

webhook_accepted_example :
    (is_empty (
        validate_webhook_settings_for_test browser.other_value forms.webhook
          (collect_webhook_settings forms.webhook))
      ≡ true)
    ↔ ((forms.webhook.enabled ≡ true)
        × (enabled_rows forms.webhook ≢ [])
        × AllReady browser.other_value forms.webhook.receivers (enabled_rows forms.webhook))
webhook_accepted_example = webhook_accepted browser.other_value forms.webhook

-- The days of a reminder are put in order, and each once.
reminders :
    collect_expire_notify_settings browser forms.expire
    ≡ inr (record { enabled = true; days = 1 ∷ 7 ∷ []; interval = nat 86400 })
unfolding collect_expire_notify_settings sort_by number_or
reminders = refl

-- A page just drawn, and the change of a form.
abbrev drawn_page : Page
drawn_page = record page {
  locals = λ scope. record {
    baseline = local_snapshot browser forms scope;
    dirty = false;
    message = "";
    save_disabled = true;
  };
}

abbrev changed_forms : Forms
changed_forms = record forms { log = record { enabled = true; template = "x" } }

-- The settings of the back end once the log's channel has been saved.
abbrev stored : Settings
stored = record no_settings {
  fields = ("log", obj (fields_of (("enabled", bool true) ∷ ("template", str "x") ∷ []))) ∷ [];
}

-- A back end whose settings are not the same before and after a save.
abbrev pub answering : Backend
answering = record {
  post_settings = λ payload. body stored;
  get_settings = body no_settings;
  reload_settings = body stored;
  get_stats = rejected "offline";
  get_config = body (record { hosts = []; configured_methods = []; channels = [] });
  notify_test = λ kind payload. body "";
}

-- The log's form is changed, its save fails, and the page tells so.
abbrev offline : Backend
offline = record answering { get_settings = rejected "offline" }

abbrev changed_app : App
changed_app =
    set_page (refresh_local_dirty browser log (record drawn_page { forms = changed_forms }))
      (record app { page = drawn_page; dirty = false })

abbrev failed_app : App
failed_app = (save_channel browser offline log changed_app).1

saved_module_example :
    let (r, s') = save_notification_module browser answering log "log" (str "x") "本地日志" app in
    (r ≡ some stored)
    × ((s'.page.locals log).dirty ≡ false)
    × ((s'.page.locals log).baseline ≡ local_snapshot browser s'.page.forms log)
    × (s'.page.forms
        ≡ drawn_forms browser []
            (merge_scoped_settings
              ("log" ∷ [])
              stored
              (merge_scoped_settings ("log" ∷ []) stored app.settings)).fields
            log
            app.page.forms)
    × ((s'.page.locals log).message ≡ concat ("本地日志" ∷ " 已同步到后端" ∷ []))
    × (s'.toast ≡ concat ("本地日志" ∷ " 已同步到后端" ∷ []))
saved_module_example =
    saved_module browser answering log "log" "本地日志" (str "x") app no_settings stored stored
      (record { hosts = []; configured_methods = []; channels = [] }) refl refl refl refl refl

save_channel_lem_example :
    IsKept browser tg "tgbot" app (save_channel browser answering tg app).1
    × IsKept browser tg "tgbot" app
        (reset_notification_override browser answering tg "tgbot" "Telegram" app).1
save_channel_lem_example = save_channel_lem browser answering tg "tgbot" "Telegram" app refl
