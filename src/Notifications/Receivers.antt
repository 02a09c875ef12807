-- ===== src/Notifications/Receivers.antt =====
-- web/static/js/admin.js: `collectWebhookSettings`. The inputs of a receiver's secrets are found by the
-- receiver's id, so that of two rows with one id the first gives the secrets of both; the input of a
-- header's value has an id of its own. No row is without an id, for `webhookReceiverRow` gives it one.
use server_status_rust_l.Prelude.{String, Bool, none, some, List, [], ◌∷◌, map, find, trim, ◌==◌}
use server_status_rust_l.Prelude.Json.{Json, bool, num, str, arr, obj, Number}
use server_status_rust_l.Secrets.{read_secret_input}
use server_status_rust_l.Editors.{number_or}
use server_status_rust_l.Notifications.{HeaderRow, ReceiverRow, WebhookForm, fields_of, items_of}

pub record Header : Type 0 where
  pub name : String
  pub value : String
  pub clear_value : Bool

pub record Receiver : Type 0 where
  pub id : String
  pub name : String
  pub enabled : Bool
  pub url : String
  pub clear_url : Bool
  pub username : String
  pub password : String
  pub clear_password : Bool
  pub timeout : Number
  pub headers : List Header
  pub body_tpl : String

pub record Webhook : Type 0 where
  pub enabled : Bool
  pub receivers : List Receiver

unfoldable pub row_of : List ReceiverRow → ReceiverRow → ReceiverRow
row_of rows row = elim (find (λ (other_row : ReceiverRow). other_row.id == row.id) rows) [
  | none ↦ row
  | some first ↦ first
]

unfoldable pub collect_header : HeaderRow → Header
unfolding read_secret_input trim
collect_header row = record {
  name = trim row.name;
  value = read_secret_input row.value;
  clear_value = row.value.clear;
}

unfoldable pub collect_receiver : List ReceiverRow → ReceiverRow → Receiver
unfolding collect_header row_of number_or
collect_receiver rows row =
    let first = row_of rows row in
    record {
      id = row.id;
      name = trim row.name;
      enabled = row.enabled;
      url = read_secret_input first.url;
      clear_url = first.url.clear;
      username = trim row.username;
      password = read_secret_input first.password;
      clear_password = first.password.clear;
      timeout = number_or 5 row.timeout;
      headers = map collect_header row.headers;
      body_tpl = row.body;
    }

unfoldable pub collect_webhook_settings : WebhookForm → Webhook
unfolding collect_receiver
collect_webhook_settings form = record {
  enabled = form.enabled;
  receivers = map (collect_receiver form.receivers) form.receivers;
}

header_json : Header → Json
header_json h = obj (
    fields_of
      (("name", str h.name) ∷ ("value", str h.value) ∷ ("clear_value", bool h.clear_value) ∷ []))

receiver_json : Receiver → Json
unfolding header_json
receiver_json r = obj (
    fields_of (
      ("id", str r.id)
      ∷ ("name", str r.name)
      ∷ ("enabled", bool r.enabled)
      ∷ ("url", str r.url)
      ∷ ("clear_url", bool r.clear_url)
      ∷ ("username", str r.username)
      ∷ ("password", str r.password)
      ∷ ("clear_password", bool r.clear_password)
      ∷ ("timeout", num r.timeout)
      ∷ ("headers", arr (items_of (map header_json r.headers)))
      ∷ ("body_tpl", str r.body_tpl)
      ∷ []))

unfoldable pub webhook_json : Webhook → Json
unfolding receiver_json
webhook_json w = obj (
    fields_of (
      ("enabled", bool w.enabled)
      ∷ ("receivers", arr (items_of (map receiver_json w.receivers)))
      ∷ []))
