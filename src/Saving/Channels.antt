-- ===== src/Saving/Channels.antt =====
-- web/static/js/admin.js: the saves of one notification channel, which read the channel back from the
-- back end and show it again, its return to the configuration file, and the saves of the addresses and
-- of the reminders. `busyButton` only changes how a button looks.
pub mod Kept
pub mod Trials
pub mod Marked
pub mod Outcomes
use server_status_rust_l.Prelude.{
  String, ℕ, Bool, true, false, not, Option, none, some, List, [], ◌∷◌, ◌⊎◌, inl, inr, concat,
  if◌then◌else◌,
}
use server_status_rust_l.Prelude.Dict.{Dict, lookup}
use server_status_rust_l.Prelude.Json.{Json, null, str}
use server_status_rust_l.Settings.{Settings, merge_scoped_settings}
use server_status_rust_l.Notifications.{
  Scope, tg, bark, wechat, email, webhook, log, access, expire, Forms, AccessForm, Browser,
}
use server_status_rust_l.Notifications.Shown.{
  render_tgbot_notification, render_bark_notification, render_wechat_notification,
  render_email_notification, render_webhook_notification, render_log_notification,
}
use server_status_rust_l.Notifications.Collected.{
  collect_tgbot_settings, tgbot_json, collect_bark_settings, bark_json, collect_wechat_settings,
  wechat_json, collect_email_settings, email_json, collect_log_settings, log_json,
}
use server_status_rust_l.Notifications.Receivers.{collect_webhook_settings, webhook_json}
use server_status_rust_l.Notifications.Page.{
  Page, Local, set_local, local_snapshot, reset_local_baseline, collect_access_settings,
  access_json, collect_expire_notify_settings, expire_json,
}
use server_status_rust_l.Saving.{
  App, Config, Backend, Options, Failure, Result, ok, err, Exec, ◌>>=◌, ◌>>◌, pure, modify,
  continue, read_json, set_settings, nothing, announce, save_scoped_settings, merge_saved,
  save_failed,
}

abbrev pub notification_setting_key : Scope → Option String
notification_setting_key tg = some "tgbot"
notification_setting_key bark = some "bark"
notification_setting_key wechat = some "wechat"
notification_setting_key email = some "email"
notification_setting_key webhook = some "webhook"
notification_setting_key log = some "log"
notification_setting_key _ = none

abbrev pub key_list : Option String → List String
key_list none = []
key_list (some key) = key ∷ []

unfoldable pub set_page : Page → App → App
set_page page s = record s { page = page }

-- `Promise.all` of two requests; if both fail, the failure is that of the first.
unfoldable pub read_both : Backend → Exec (Config × Settings)
unfolding read_json
read_both backend s =
    let (config, s1) = read_json backend.get_config s in
    let (settings, s2) = read_json backend.reload_settings s1 in
    (
      elim config [
        | err e ↦ err e
        | ok c ↦ elim settings [ err e ↦ err e | ok saved ↦ ok (c, saved) ]
      ],
      s2,
    )

unfoldable pub set_config : Config → App → App
set_config config s = record s {
  console = record s.console { config_hosts = config.hosts };
  configured_methods = config.configured_methods;
  config_channels = config.channels;
}

-- The options of a save at a local button that completes nothing.
abbrev pub local_options : Scope → String → Options
local_options scope success_message = record {
  success_message = success_message;
  message_target = some scope;
  render = nothing;
  mark_clean = false;
  preserve_state = true;
  merge_saved_state = λ saved s. s;
  complete_transaction = λ saved. pure tt;
  failure_message = save_failed;
}

module _ (browser : Browser) where
  -- The forms with one channel drawn anew, from the configuration and the settings.
  unfoldable pub drawn_forms : Dict Json → Dict Json → Scope → Forms → Forms
  unfolding render_tgbot_notification render_bark_notification render_wechat_notification
      render_email_notification render_webhook_notification render_log_notification
  drawn_forms config settings tg forms = record forms {
    tg = render_tgbot_notification (lookup "tgbot" config) (lookup "tgbot" settings) forms.tg;
  }
  drawn_forms config settings bark forms = record forms {
    bark = render_bark_notification (lookup "bark" config) (lookup "bark" settings) forms.bark;
  }
  drawn_forms config settings wechat forms = record forms {
    wechat =
        render_wechat_notification (lookup "wechat" config) (lookup "wechat" settings) forms.wechat;
  }
  drawn_forms config settings email forms = record forms {
    email = render_email_notification (lookup "email" config) (lookup "email" settings) forms.email;
  }
  drawn_forms config settings webhook forms = record forms {
    webhook =
        render_webhook_notification browser.stable_id (lookup "webhook" config)
          (lookup "webhook" settings);
  }
  drawn_forms config settings log forms = record forms {
    log = render_log_notification (lookup "log" config) (lookup "log" settings) forms.log;
  }
  drawn_forms config settings _ forms = forms

  unfoldable pub render_notification : Scope → App → App
  unfolding drawn_forms reset_local_baseline set_page
  render_notification scope s = elim (notification_setting_key scope) [
    | none ↦ s
    | some key ↦
        set_page
          (reset_local_baseline browser scope "" (record s.page {
            forms = drawn_forms s.config_channels s.settings.fields scope s.page.forms;
          }))
          s
  ]

module _ (browser : Browser) (backend : Backend) where
  -- A change of the configured methods draws the alert rules anew, which changes no state.
  unfoldable pub reload_notification_state : Scope → Exec (Unit {0})
  unfolding read_both set_config merge_saved render_notification
  reload_notification_state scope = read_both backend >>= λ (config, settings).
      modify (set_config config)
      >> modify (merge_saved (key_list (notification_setting_key scope)) settings)
      >> modify (render_notification browser scope)

  unfoldable pub notification_transaction_options : Scope → String → String → Options
  unfolding reload_notification_state reset_local_baseline set_page
  notification_transaction_options scope success_message reload_failure_message = record {
    success_message = success_message;
    message_target = some scope;
    render = nothing;
    mark_clean = false;
    preserve_state = true;
    merge_saved_state = λ saved s. s;
    complete_transaction = λ saved.
        reload_notification_state scope
        >> modify (λ s. set_page (reset_local_baseline browser scope success_message s.page) s);
    failure_message = λ e saved.
        if saved
        then concat (reload_failure_message ∷ ": " ∷ e.message ∷ [])
        else concat ("保存失败: " ∷ e.message ∷ []);
  }

  unfoldable pub save_notification_module :
      Scope → String → Json → String → App → Option Settings × App
  unfolding notification_transaction_options save_scoped_settings
  save_notification_module scope key value label =
      save_scoped_settings backend ((key, value) ∷ []) (
        notification_transaction_options scope (concat (label ∷ " 已同步到后端" ∷ []))
          (concat (label ∷ " 已保存，但重新加载失败" ∷ [])))

  unfoldable pub reset_notification_override : Scope → String → String → App → Option Settings × App
  unfolding notification_transaction_options save_scoped_settings
  reset_notification_override scope key label s =
      if not browser.confirms
      then (none, s)
      else save_scoped_settings backend ((key, null) ∷ [])
          (notification_transaction_options scope (concat (label ∷ " 已还原为配置文件设置" ∷ []))
            (concat (label ∷ " 已还原，但重新加载失败" ∷ [])))
          s

  -- `saveTgbotSettings` and the like; the scopes without a channel have no such handler.
  unfoldable pub save_channel : Scope → App → Option Settings × App
  unfolding save_notification_module collect_tgbot_settings tgbot_json collect_bark_settings
      bark_json collect_wechat_settings wechat_json collect_email_settings email_json
      collect_webhook_settings webhook_json collect_log_settings log_json
  save_channel tg s =
      save_notification_module tg "tgbot" (tgbot_json (collect_tgbot_settings s.page.forms.tg))
        "Telegram" s
  save_channel bark s =
      save_notification_module bark "bark" (bark_json (collect_bark_settings s.page.forms.bark))
        "Bark" s
  save_channel wechat s =
      save_notification_module wechat "wechat"
        (wechat_json (collect_wechat_settings s.page.forms.wechat)) "企业微信" s
  save_channel email s =
      save_notification_module email "email"
        (email_json (collect_email_settings s.page.forms.email)) "Email" s
  save_channel webhook s =
      save_notification_module webhook "webhook"
        (webhook_json (collect_webhook_settings s.page.forms.webhook)) "Webhook" s
  save_channel log s =
      save_notification_module log "log" (log_json (collect_log_settings s.page.forms.log)) "本地日志" s
  save_channel _ s = (none, s)

  -- What follows a save of the addresses.
  unfoldable pub access_saved : AccessForm → Option Settings × App → App
  unfolding merge_saved reset_local_baseline set_page
  access_saved collected (none, s) = s
  access_saved collected (some saved, s) =
      let s' = merge_saved ("access_base_url" ∷ "agent_base_url" ∷ []) saved s in
      let page = record s'.page { forms = record s'.page.forms { access = collected } } in
      set_page (reset_local_baseline browser access "接入地址已同步到后端" page) s'

  unfoldable pub save_access_settings : App → App
  unfolding access_saved collect_access_settings save_scoped_settings
  save_access_settings s =
      let collected = collect_access_settings s.page.forms.access in
      access_saved collected (
        save_scoped_settings backend
          (("access_base_url", str collected.access_base_url)
            ∷ ("agent_base_url", str collected.agent_base_url)
            ∷ [])
          (local_options access "接入地址已同步到后端") s)

  unfoldable pub expire_saved : Option Settings × App → App
  unfolding merge_saved reset_local_baseline set_page
  expire_saved (none, s) = s
  expire_saved (some saved, s) =
      let s' = merge_saved ("expire_notify" ∷ []) saved s in
      set_page (reset_local_baseline browser expire "到期提醒已同步到后端" s'.page) s'

  unfoldable pub save_expire_notify_settings : App → App
  unfolding expire_saved collect_expire_notify_settings expire_json save_scoped_settings announce
  save_expire_notify_settings s =
      elim (collect_expire_notify_settings browser s.page.forms.expire) [
        | inl message ↦ announce (some expire) message s
        | inr settings ↦ expire_saved (
            save_scoped_settings backend (("expire_notify", expire_json settings) ∷ [])
              (local_options expire "到期提醒已同步到后端") s)
      ]
