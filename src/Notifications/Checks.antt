-- ===== src/Notifications/Checks.antt =====
-- web/static/js/admin.js: the tests before a test message is sent, `validateTgbotSettingsForTest` and
-- the like. They return the reason of a refusal, or the empty text.
use server_status_rust_l.Prelude.{
  String, ℕ, Bool, true, false, not, ◌&&◌, ◌||◌, Option, none, some, List, [], ◌∷◌, is_empty, find,
  filter, trim, to_lower_case, ltb, ◌==◌, if◌then◌else◌,
}
use server_status_rust_l.Prelude.Json.{Number, nat, other}
use server_status_rust_l.Secrets.{secret_configured}
use server_status_rust_l.Notifications.{
  TgForm, BarkForm, WechatForm, EmailForm, ReceiverRow, WebhookForm,
}
use server_status_rust_l.Notifications.Collected.{Tgbot, Bark, Wechat, Email, Log}
use server_status_rust_l.Notifications.Receivers.{Receiver, Webhook, row_of}

unfoldable pub validate_tgbot_settings_for_test : TgForm → Tgbot → String
unfolding secret_configured
validate_tgbot_settings_for_test form tgbot =
    if not tgbot.enabled
    then "请先勾选启用 Telegram"
    else if is_empty tgbot.bot_token && not (secret_configured form.token)
    then "Telegram Bot Token 不能为空"
    else if is_empty tgbot.chat_id && not (secret_configured form.chat)
    then "Telegram Chat ID 不能为空"
    else ""

-- `new URL(server).pathname.split("/")` is the parameter: no parts where the text is not an address.
module _ (path_parts : String → Option (List String)) where
  has_key_part : List String → Bool
  has_key_part [] = false
  has_key_part (part ∷ parts) =
      let later = has_key_part parts in
      if is_empty (trim part) then later else not (to_lower_case (trim part) == "push")

  unfoldable pub bark_server_contains_device_key : String → Bool
  unfolding has_key_part
  bark_server_contains_device_key server = elim (path_parts server) [
    | none ↦ false
    | some parts ↦ has_key_part parts
  ]

  unfoldable pub validate_bark_settings_for_test : BarkForm → Bark → String
  unfolding secret_configured bark_server_contains_device_key
  validate_bark_settings_for_test form bark =
      if not bark.enabled
      then "请先勾选启用 Bark"
      else if is_empty bark.server
      then "Bark Server 不能为空"
      else if is_empty bark.device_key
          && not (secret_configured form.key)
          && not (bark_server_contains_device_key bark.server)
      then "Bark Device Key 不能为空"
      else ""

unfoldable pub validate_wechat_settings_for_test : WechatForm → Wechat → String
unfolding secret_configured
validate_wechat_settings_for_test form wechat =
    if not wechat.enabled
    then "请先勾选启用企业微信"
    else if is_empty wechat.corp_id
    then "Corp ID 不能为空"
    else if is_empty wechat.corp_secret && not (secret_configured form.corp_secret)
    then "Corp Secret 不能为空"
    else if is_empty wechat.agent_id
    then "Agent ID 不能为空"
    else ""

unfoldable pub validate_email_settings_for_test : EmailForm → Email → String
unfolding secret_configured
validate_email_settings_for_test form email =
    if not email.enabled
    then "请先勾选启用 Email"
    else if is_empty email.server || is_empty email.username || is_empty email.to
    then "SMTP Server、发件人和收件人不能为空"
    else if is_empty email.password && not (secret_configured form.password)
    then "SMTP Password 不能为空"
    else ""

unfoldable pub validate_log_settings_for_test : Log → String
unfolding trim
validate_log_settings_for_test log =
    if not log.enabled then "请先勾选启用本地日志" else if is_empty (trim log.tpl) then "日志模板不能为空" else ""

-- The natural number, if it is one, of a text that is not a row of digits is a parameter.
module _ (other_value : String → Option ℕ) where
  abbrev pub natural : Number → Option ℕ
  natural (nat n) = some n
  natural (other t) = other_value t

  -- `!Number.isInteger(timeout) || timeout < 1 || timeout > 60`
  unfoldable pub is_bad_timeout : Number → Bool
  is_bad_timeout timeout = elim (natural timeout) [ none ↦ true | some n ↦ ltb n 1 || ltb 60 n ]

  -- The body of the loop, for the receiver with the id of the row.
  unfoldable pub receiver_message : List ReceiverRow → ReceiverRow → Option Receiver → String
  unfolding secret_configured is_bad_timeout row_of trim
  receiver_message rows row none = "启用的 Webhook 接收器需要名称和请求体模板"
  receiver_message rows row (some receiver) =
      if is_empty receiver.name || is_empty (trim receiver.body_tpl)
      then "启用的 Webhook 接收器需要名称和请求体模板"
      else if is_empty receiver.url && not (secret_configured (row_of rows row).url)
      then "启用的 Webhook 接收器需要 URL"
      else if is_bad_timeout receiver.timeout
      then "Webhook 超时必须在 1 到 60 秒之间"
      else ""

  unfoldable pub first_message : List ReceiverRow → List Receiver → List ReceiverRow → String
  unfolding receiver_message
  first_message rows receivers [] = ""
  first_message rows receivers (row ∷ rest) =
      let later = first_message rows receivers rest in
      let message =
        receiver_message rows row (find (λ (item : Receiver). item.id == row.id) receivers) in
      if is_empty message then later else message

  unfoldable pub validate_webhook_settings_for_test : WebhookForm → Webhook → String
  unfolding first_message
  validate_webhook_settings_for_test form webhook =
      if not webhook.enabled
      then "请先勾选启用结构化 Webhook"
      else elim (filter (λ (row : ReceiverRow). row.enabled) form.receivers) [
        | [] ↦ "请至少启用一个 Webhook 接收器"
        | row ∷ rows ↦ first_message form.receivers webhook.receivers (row ∷ rows)
      ]
