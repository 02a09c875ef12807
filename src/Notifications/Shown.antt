-- ===== src/Notifications/Shown.antt =====
-- web/static/js/admin.js: `renderTgbotNotification` and the like. `base` is what the configuration
-- file has of a channel, `saved` what the settings of the back end override of it.
use server_status_rust_l.Prelude.{
  String, ℕ, zero, suc, Bool, true, false, ◌||◌, Option, some, List, [], ◌∷◌, ◌++◌, map,
  if◌then◌else◌, ◌or_text◌, to_string,
}
use server_status_rust_l.Prelude.Dict.{Dict, lookup}
use server_status_rust_l.Prelude.Json.{Json, num, str, nat, other}
use server_status_rust_l.Secrets.{SecretInput, set_secret_input_state}
use server_status_rust_l.Notifications.{
  TgForm, BarkForm, WechatForm, EmailForm, HeaderRow, ReceiverRow, WebhookForm, LogForm, object,
  spread, flag, words, elements, is_set,
}

-- `saved.clear_… ? false : Boolean(saved.…_configured || base.…_configured)`
unfoldable pub is_configured : Dict Json → Dict Json → String → String → Bool
unfolding flag
is_configured base saved configured clear =
    if flag saved clear then false else flag saved configured || flag base configured

unfoldable pub show_secret : Dict Json → Dict Json → String → String → SecretInput → SecretInput
unfolding is_configured set_secret_input_state
show_secret base saved configured clear input =
    set_secret_input_state (is_configured base saved configured clear) (flag saved clear) input

unfoldable pub render_tgbot_notification : Option Json → Option Json → TgForm → TgForm
unfolding show_secret spread words
render_tgbot_notification config settings form =
    let base = object config in
    let saved = object settings in
    let tg = spread base saved in
    record {
      enabled = flag tg "enabled";
      token = show_secret base saved "bot_token_configured" "clear_bot_token" form.token;
      chat = show_secret base saved "chat_id_configured" "clear_chat_id" form.chat;
      title = words tg "title" "";
      expire = words tg "expire_tpl" "";
      health = words tg "health_tpl" "";
    }

unfoldable pub render_bark_notification : Option Json → Option Json → BarkForm → BarkForm
unfolding show_secret spread words
render_bark_notification config settings form =
    let base = object config in
    let saved = object settings in
    let bark = spread base saved in
    record {
      enabled = flag bark "enabled";
      server = words bark "server" "https://api.day.app";
      key = show_secret base saved "device_key_configured" "clear_device_key" form.key;
      title = words bark "title" "ServerStatus";
      group = words bark "group" "ServerStatus";
      expire = words bark "expire_tpl" "";
      health = words bark "health_tpl" "";
    }

unfoldable pub render_wechat_notification : Option Json → Option Json → WechatForm → WechatForm
unfolding show_secret spread words
render_wechat_notification config settings form =
    let base = object config in
    let saved = object settings in
    let wechat = spread base saved in
    record {
      enabled = flag wechat "enabled";
      corp_id = words wechat "corp_id" "";
      corp_secret =
          show_secret base saved "corp_secret_configured" "clear_corp_secret" form.corp_secret;
      agent_id = words wechat "agent_id" "";
      title = words wechat "title" "";
      online = words wechat "online_tpl" "";
      offline = words wechat "offline_tpl" "";
      expire = words wechat "expire_tpl" "";
      health = words wechat "health_tpl" "";
    }

unfoldable pub render_email_notification : Option Json → Option Json → EmailForm → EmailForm
unfolding show_secret spread words
render_email_notification config settings form =
    let base = object config in
    let saved = object settings in
    let email = spread base saved in
    record {
      enabled = flag email "enabled";
      server = words email "server" "";
      username = words email "username" "";
      password = show_secret base saved "password_configured" "clear_password" form.password;
      to = words email "to" "";
      subject = words email "subject" "";
      title = words email "title" "";
      online = words email "online_tpl" "";
      offline = words email "offline_tpl" "";
      expire = words email "expire_tpl" "";
      health = words email "health_tpl" "";
    }

unfoldable pub render_log_notification : Option Json → Option Json → LogForm → LogForm
unfolding spread words
render_log_notification config settings form =
    let log = spread (object config) (object settings) in
    record { enabled = flag log "enabled"; template = words log "tpl" "" }

-- An input as `webhookSecretField` makes it.
abbrev new_secret_input : SecretInput
new_secret_input = record {
  value = "";
  placeholder = "";
  configured = false;
  original_configured = false;
  masked = false;
  clear = false;
  button_is_active = false;
  button_disabled = false;
}

unfoldable pub webhook_secret_field : Bool → Bool → SecretInput
unfolding set_secret_input_state
webhook_secret_field configured clear_flag =
    set_secret_input_state configured clear_flag new_secret_input

unfoldable pub webhook_header_row : Dict Json → HeaderRow
unfolding webhook_secret_field words flag
webhook_header_row header = record {
  name = words header "name" "";
  value = webhook_secret_field (flag header "value_configured") (flag header "clear_value");
}

-- `receiver.timeout || 5`, in an input of a number.
abbrev timeout_text : Option Json → String
timeout_text (some (num (nat zero))) = "5"
timeout_text (some (num (nat (suc n)))) = to_string (suc n)
timeout_text (some (num (other t))) = t
timeout_text (some (str t)) = t or_text "5"
timeout_text _ = "5"

unfoldable pub webhook_receiver_row : String → Dict Json → ReceiverRow
unfolding webhook_header_row webhook_secret_field words flag elements
webhook_receiver_row id receiver = record {
  id = id;
  enabled = flag receiver "enabled";
  name = words receiver "name" "";
  url = webhook_secret_field (flag receiver "url_configured") (flag receiver "clear_url");
  username = words receiver "username" "";
  password =
      webhook_secret_field (flag receiver "password_configured") (flag receiver "clear_password");
  timeout = timeout_text (lookup "timeout" receiver);
  body = words receiver "body_tpl" "";
  headers = map (λ header. webhook_header_row (object (some header))) (elements receiver "headers");
}

-- The texts that `stableId` gives to the receivers without an id are a parameter, by their positions.
module _ (stable_id : ℕ → String) where
  unfoldable pub receiver_rows : ℕ → List Json → List ReceiverRow
  unfolding webhook_receiver_row words
  receiver_rows n [] = []
  receiver_rows n (value ∷ rest) =
      let receiver = object (some value) in
      webhook_receiver_row (words receiver "id" (stable_id n)) receiver ∷ receiver_rows (suc n) rest

  unfoldable pub render_webhook_notification : Option Json → Option Json → WebhookForm
  unfolding receiver_rows flag elements
  render_webhook_notification config settings =
      let base = object config in
      let saved = object settings in
      if is_set settings
      then record {
        enabled = flag saved "enabled";
        source = "当前使用后台结构化 Webhook 覆盖配置。";
        receivers = receiver_rows 0 (elements saved "receivers");
      }
      else record {
        enabled = flag base "enabled";
        source =
            if flag base "legacy_configured"
            then "当前使用配置文件中的旧版 Webhook；保存将切换为结构化接收器。"
            else "尚未配置 Webhook 接收器。";
        receivers = [];
      }

  -- The receiver that the button adds.
  unfoldable pub add_webhook_receiver : ℕ → WebhookForm → WebhookForm
  unfolding webhook_receiver_row
  add_webhook_receiver n form = record form {
    receivers =
        form.receivers ++ record (webhook_receiver_row (stable_id n) []) { enabled = true } ∷ [];
  }
