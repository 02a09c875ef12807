-- ===== src/Notifications/Collected.antt =====
-- web/static/js/admin.js: `collectTgbotSettings` and the like, and the JSON objects that they make.
use server_status_rust_l.Prelude.{String, Bool, [], ◌∷◌, trim}
use server_status_rust_l.Prelude.Json.{Json, bool, str, obj}
use server_status_rust_l.Secrets.{read_secret_input}
use server_status_rust_l.Notifications.{TgForm, BarkForm, WechatForm, EmailForm, LogForm, fields_of}

pub record Tgbot : Type 0 where
  pub enabled : Bool
  pub bot_token : String
  pub clear_bot_token : Bool
  pub chat_id : String
  pub clear_chat_id : Bool
  pub title : String
  pub expire_tpl : String
  pub health_tpl : String

unfoldable pub collect_tgbot_settings : TgForm → Tgbot
unfolding read_secret_input
collect_tgbot_settings form = record {
  enabled = form.enabled;
  bot_token = read_secret_input form.token;
  clear_bot_token = form.token.clear;
  chat_id = read_secret_input form.chat;
  clear_chat_id = form.chat.clear;
  title = form.title;
  expire_tpl = form.expire;
  health_tpl = form.health;
}

pub record Bark : Type 0 where
  pub enabled : Bool
  pub server : String
  pub device_key : String
  pub clear_device_key : Bool
  pub title : String
  pub group : String
  pub expire_tpl : String
  pub health_tpl : String

unfoldable pub collect_bark_settings : BarkForm → Bark
unfolding read_secret_input trim
collect_bark_settings form = record {
  enabled = form.enabled;
  server = trim form.server;
  device_key = read_secret_input form.key;
  clear_device_key = form.key.clear;
  title = form.title;
  group = form.group;
  expire_tpl = form.expire;
  health_tpl = form.health;
}

pub record Wechat : Type 0 where
  pub enabled : Bool
  pub corp_id : String
  pub corp_secret : String
  pub clear_corp_secret : Bool
  pub agent_id : String
  pub title : String
  pub online_tpl : String
  pub offline_tpl : String
  pub expire_tpl : String
  pub health_tpl : String

unfoldable pub collect_wechat_settings : WechatForm → Wechat
unfolding read_secret_input trim
collect_wechat_settings form = record {
  enabled = form.enabled;
  corp_id = trim form.corp_id;
  corp_secret = read_secret_input form.corp_secret;
  clear_corp_secret = form.corp_secret.clear;
  agent_id = trim form.agent_id;
  title = form.title;
  online_tpl = form.online;
  offline_tpl = form.offline;
  expire_tpl = form.expire;
  health_tpl = form.health;
}

pub record Email : Type 0 where
  pub enabled : Bool
  pub server : String
  pub username : String
  pub password : String
  pub clear_password : Bool
  pub to : String
  pub subject : String
  pub title : String
  pub online_tpl : String
  pub offline_tpl : String
  pub expire_tpl : String
  pub health_tpl : String

unfoldable pub collect_email_settings : EmailForm → Email
unfolding read_secret_input trim
collect_email_settings form = record {
  enabled = form.enabled;
  server = trim form.server;
  username = trim form.username;
  password = read_secret_input form.password;
  clear_password = form.password.clear;
  to = trim form.to;
  subject = trim form.subject;
  title = form.title;
  online_tpl = form.online;
  offline_tpl = form.offline;
  expire_tpl = form.expire;
  health_tpl = form.health;
}

pub record Log : Type 0 where
  pub enabled : Bool
  pub tpl : String

unfoldable pub collect_log_settings : LogForm → Log
collect_log_settings form = record { enabled = form.enabled; tpl = form.template }

-- The objects, with their keys in the order of the literals.
unfoldable pub tgbot_json : Tgbot → Json
tgbot_json t = obj (
    fields_of (
      ("enabled", bool t.enabled)
      ∷ ("bot_token", str t.bot_token)
      ∷ ("clear_bot_token", bool t.clear_bot_token)
      ∷ ("chat_id", str t.chat_id)
      ∷ ("clear_chat_id", bool t.clear_chat_id)
      ∷ ("title", str t.title)
      ∷ ("expire_tpl", str t.expire_tpl)
      ∷ ("health_tpl", str t.health_tpl)
      ∷ []))

unfoldable pub bark_json : Bark → Json
bark_json b = obj (
    fields_of (
      ("enabled", bool b.enabled)
      ∷ ("server", str b.server)
      ∷ ("device_key", str b.device_key)
      ∷ ("clear_device_key", bool b.clear_device_key)
      ∷ ("title", str b.title)
      ∷ ("group", str b.group)
      ∷ ("expire_tpl", str b.expire_tpl)
      ∷ ("health_tpl", str b.health_tpl)
      ∷ []))

unfoldable pub wechat_json : Wechat → Json
wechat_json w = obj (
    fields_of (
      ("enabled", bool w.enabled)
      ∷ ("corp_id", str w.corp_id)
      ∷ ("corp_secret", str w.corp_secret)
      ∷ ("clear_corp_secret", bool w.clear_corp_secret)
      ∷ ("agent_id", str w.agent_id)
      ∷ ("title", str w.title)
      ∷ ("online_tpl", str w.online_tpl)
      ∷ ("offline_tpl", str w.offline_tpl)
      ∷ ("expire_tpl", str w.expire_tpl)
      ∷ ("health_tpl", str w.health_tpl)
      ∷ []))

unfoldable pub email_json : Email → Json
email_json e = obj (
    fields_of (
      ("enabled", bool e.enabled)
      ∷ ("server", str e.server)
      ∷ ("username", str e.username)
      ∷ ("password", str e.password)
      ∷ ("clear_password", bool e.clear_password)
      ∷ ("to", str e.to)
      ∷ ("subject", str e.subject)
      ∷ ("title", str e.title)
      ∷ ("online_tpl", str e.online_tpl)
      ∷ ("offline_tpl", str e.offline_tpl)
      ∷ ("expire_tpl", str e.expire_tpl)
      ∷ ("health_tpl", str e.health_tpl)
      ∷ []))

unfoldable pub log_json : Log → Json
log_json l = obj (fields_of (("enabled", bool l.enabled) ∷ ("tpl", str l.tpl) ∷ []))
