-- ===== src/Saving/Channels/Trials.antt =====
-- web/static/js/admin.js: the test messages, `testNotification` and `testTgbotSettings` and the like.
use server_status_rust_l.Prelude.{String, not, [], ◌∷◌, is_empty, ◌or_text◌, concat, if◌then◌else◌}
use server_status_rust_l.Prelude.Json.{Json, obj}
use server_status_rust_l.Notifications.{
  Scope, tg, bark, wechat, email, webhook, log, Browser, fields_of,
}
use server_status_rust_l.Notifications.Collected.{
  collect_tgbot_settings, tgbot_json, collect_bark_settings, bark_json, collect_wechat_settings,
  wechat_json, collect_email_settings, email_json, collect_log_settings, log_json,
}
use server_status_rust_l.Notifications.Receivers.{collect_webhook_settings, webhook_json}
use server_status_rust_l.Notifications.Checks.{
  validate_tgbot_settings_for_test, validate_bark_settings_for_test,
  validate_wechat_settings_for_test, validate_email_settings_for_test,
  validate_webhook_settings_for_test, validate_log_settings_for_test,
}
use server_status_rust_l.Notifications.Page.{set_local, local_snapshot, same_snapshot}
use server_status_rust_l.Saving.{App, Backend, Result, ok, err, read_json, announce, expire_session}
use server_status_rust_l.Saving.Channels.{set_page}
use mathlib.Core.Option.{some}

module _ (browser : Browser) (backend : Backend) where
  -- The `finally`: the mark and the button, but not the message.
  unfoldable pub mark_again : Scope → App → App
  unfolding set_page set_local local_snapshot
  mark_again scope s =
      let dirty = not (
        same_snapshot (local_snapshot browser s.page.forms scope) (s.page.locals scope).baseline) in
      set_page (set_local scope (λ l. record l { dirty = dirty; save_disabled = not dirty }) s.page)
        s

  unfoldable pub answered : Scope → String → Result String × App → App
  unfolding announce expire_session
  answered scope success_message (ok message, s) =
      announce (some scope) (message or_text success_message) s
  answered scope success_message (err e, s) =
      announce (some scope) (concat ("测试失败: " ∷ e.message ∷ [])) (expire_session e s)

  unfoldable pub test_notification : String → Scope → Json → String → App → App
  unfolding answered mark_again read_json
  test_notification kind scope payload success_message s =
      mark_again scope
        (answered scope success_message (read_json (backend.notify_test kind payload) s))

  -- A message of the form's own test, or a test message.
  tested : Scope → String → String → Json → String → App → App
  unfolding announce test_notification
  tested scope validation_message kind value success_message s =
      let sent =
        test_notification kind scope (obj (fields_of ((kind, value) ∷ []))) success_message s in
      if is_empty validation_message then sent else announce (some scope) validation_message s

  unfoldable pub test_tgbot_settings : App → App
  unfolding tested collect_tgbot_settings tgbot_json validate_tgbot_settings_for_test
  test_tgbot_settings s =
      let tgbot = collect_tgbot_settings s.page.forms.tg in
      tested tg (validate_tgbot_settings_for_test s.page.forms.tg tgbot) "tgbot" (tgbot_json tgbot)
        "测试通知已发送" s

  unfoldable pub test_bark_settings : App → App
  unfolding tested collect_bark_settings bark_json validate_bark_settings_for_test
  test_bark_settings s =
      let value = collect_bark_settings s.page.forms.bark in
      tested bark (validate_bark_settings_for_test browser.path_parts s.page.forms.bark value)
        "bark" (bark_json value) "Bark 测试请求已发送，请检查手机通知" s

  unfoldable pub test_wechat_settings : App → App
  unfolding tested collect_wechat_settings wechat_json validate_wechat_settings_for_test
  test_wechat_settings s =
      let value = collect_wechat_settings s.page.forms.wechat in
      tested wechat (validate_wechat_settings_for_test s.page.forms.wechat value) "wechat"
        (wechat_json value) "测试通知已发送" s

  unfoldable pub test_email_settings : App → App
  unfolding tested collect_email_settings email_json validate_email_settings_for_test
  test_email_settings s =
      let value = collect_email_settings s.page.forms.email in
      tested email (validate_email_settings_for_test s.page.forms.email value) "email"
        (email_json value) "测试通知已发送" s

  unfoldable pub test_webhook_settings : App → App
  unfolding tested collect_webhook_settings webhook_json validate_webhook_settings_for_test
  test_webhook_settings s =
      let value = collect_webhook_settings s.page.forms.webhook in
      tested webhook
        (validate_webhook_settings_for_test browser.other_value s.page.forms.webhook value)
        "webhook" (webhook_json value) "测试通知已发送" s

  unfoldable pub test_log_settings : App → App
  unfolding tested collect_log_settings log_json validate_log_settings_for_test
  test_log_settings s =
      let value = collect_log_settings s.page.forms.log in
      tested log (validate_log_settings_for_test value) "log" (log_json value) "测试通知已发送" s
