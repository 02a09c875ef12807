-- ===== src/Tests/Forms.antt =====
-- Filled forms and fields, and what web/static/js/admin.js makes of them.
use server_status_rust_l.Prelude.{
  not, concat, String, true, false, none, some, List, [], ◌∷◌, ◌≡◌, ◌⊎◌, refl, includes, ◌&&◌, ◌||◌,
  trim, drop_end, trim_start, is_space, starts_with, utf16_length,
}
use server_status_rust_l.Prelude.Dict.{insert, keys, add, add_all, delete, set_of, IsDistinct}
use server_status_rust_l.Prelude.Json.{nat}
use server_status_rust_l.Tests.Sample.{page}
use server_status_rust_l.Settings.{AlertRule, no_settings}
use server_status_rust_l.Billing.Dates.{Date, match_date, date_text, normalize_date_value}
use server_status_rust_l.Billing.Dates.Calendar.{IsDay, normalize_date_value_lem}
use server_status_rust_l.Servers.{Console}
use server_status_rust_l.Saving.{App, dashboard, ok}
use server_status_rust_l.Editors.Server
use server_status_rust_l.Editors.Server.{
  ServerForm, date, paid, read_server_expire_date, read_server_amount, apply_server_editor,
}
use server_status_rust_l.Editors.Server.Membership.{IsEdited, apply_server_editor_lem}
use server_status_rust_l.Editors.Rule.{
  explicit, Selection, RuleForm, notification_methods, active_alert_rule_notifications,
  update_alert_rule_notification_selection, notification_selection_for_rule,
  alert_rule_notifications_for_apply, apply_alert_rule_editor,
}
use server_status_rust_l.Editors.Rule.Choice.{
  active_alert_rule_notifications_lem, method_ids, names_none, is_explicit, update_selection_lem,
  selection_round_trip,
}
use server_status_rust_l.Editors.Rule.Edited.{
  IsUsable, IsUnchosen, IsRead, IsChosen, rules_named, rules_not_named, alert_rules,
  apply_alert_rule_editor_lem,
}
use server_status_rust_l.Secrets.{
  SecretInput, Event, focus, blur, toggle, typed, read_secret_input, set_secret_input_state, step,
  steps,
}
use server_status_rust_l.Secrets.Fields.{clear_or_value, looking_changes_nothing, typed_is_sent}
use mathlib.Core.Option
use mathlib.Core.Option.{Option}
use server_status_rust_l.AccessKeys.{
  Row, Collected, key_of_row, is_renamed, collect_row, collect_rows, collect_access_keys,
}
use server_status_rust_l.AccessKeys.Names.{ids, NoneRenamed, collect_access_keys_lem}
use server_status_rust_l.Account.{
  Form, Saved, Request, account_request, collect_admin_path_settings, validate_admin_path,
  normalize_admin_path, admin_path_error, segment_of, all_chars, account_error,
  valid_admin_username, password_error, request_for,
}
use server_status_rust_l.Account.Checks.{IsAcceptable, account_request_lem}

abbrev console : Console
console = record {
  state = record { settings = no_settings; deleted_hosts = []; deleted_access_keys = [] };
  config_hosts = [];
  stats = [];
}

abbrev server_form : ServerForm
server_form = record {
  alias = "First";
  note = "";
  public_note = "";
  spec = "";
  weight = "";
  expire_mode = date;
  expire = "2026-3-1";
  auto = true;
  cycle = "month";
  fee_mode = paid;
  amount = "5";
  currency = "USD";
  custom_currency = "";
  notify = true;
  groups = "g1" ∷ [];
}

-- Two groups, of which the form has checked the one that does not have the server yet.
abbrev grouped : Console
grouped = record console {
  state = record console.state {
    settings = record no_settings {
      server_groups = some (
          record { id = "g1"; name = "G1"; servers = "h1" ∷ "h2" ∷ [] }
          ∷ record { id = "g2"; name = "G2"; servers = [] }
          ∷ []);
    };
  };
}

apply_server_editor_lem_example :
    ((message : String) × (apply_server_editor "h1" server_form grouped ≡ Server.err message)
      × ((read_server_expire_date date "2026-3-1" ≡ Server.err message)
          ⊎ (read_server_amount paid "5" "USD" "" ≡ Server.err message)))
    ⊎ ((expire_date : String) × (amount : String) × (c : Console) × (apply_server_editor "h1"
            server_form grouped
          ≡ Server.ok c)
        × (read_server_expire_date date "2026-3-1" ≡ Server.ok expire_date)
        × (read_server_amount paid "5" "USD" "" ≡ Server.ok amount)
        × IsEdited "h1" server_form expire_date amount grouped c)
apply_server_editor_lem_example = apply_server_editor_lem "h1" server_form grouped

abbrev rule : AlertRule
rule = record {
  id = "r1";
  name = "r1";
  enabled = true;
  metric = "cpu";
  threshold = some (nat 90);
  duration = nat 120;
  repeat_interval = nat 3600;
  notification_group = "";
  notifications = "tg" ∷ "bark" ∷ [];
  server_groups = "g2" ∷ [];
  servers = [];
}

active_alert_rule_notifications_lem_example :
    includes (active_alert_rule_notifications ("tg" ∷ "log" ∷ []) rule) "tg" ≡ (
      (includes ("tg" ∷ "log" ∷ []) "tg" && includes method_ids "tg")
      && (names_none rule || includes ("tg" ∷ "bark" ∷ []) "tg"))
active_alert_rule_notifications_lem_example =
    active_alert_rule_notifications_lem ("tg" ∷ "log" ∷ []) rule "tg"

abbrev selection : Selection
selection = record { mode = explicit; values = "tg" ∷ "bark" ∷ [] }

-- `bark` is not set up, so its box is not shown and it stays.
updated :
    (update_alert_rule_notification_selection ("tg" ∷ "log" ∷ []) ("log" ∷ []) selection).values
    ≡ "bark" ∷ "log" ∷ []
unfolding update_alert_rule_notification_selection notification_methods includes add_all add
updated = refl

update_selection_lem_example :
    let updated =
      update_alert_rule_notification_selection ("tg" ∷ "log" ∷ []) ("log" ∷ []) selection in
    (updated.mode ≡ explicit)
    × ((id : String)
        → includes updated.values id ≡ (
            includes ("log" ∷ []) id
            || (is_explicit selection.mode
                && (includes selection.values id
                    && not (includes ("tg" ∷ "log" ∷ []) id && includes method_ids id)))))
    × (alert_rule_notifications_for_apply updated
        ≡ (elim updated.values as (λ _. Option (List String)) [
          | [] ↦ none
          | id ∷ ids ↦ some updated.values
        ]))
update_selection_lem_example = update_selection_lem ("tg" ∷ "log" ∷ []) ("log" ∷ []) selection

selection_round_trip_example :
    alert_rule_notifications_for_apply (notification_selection_for_rule rule)
    ≡ some (set_of ("tg" ∷ "bark" ∷ []))
selection_round_trip_example = selection_round_trip rule

abbrev rule_form : RuleForm
rule_form = record {
  name = "CPU";
  enabled = true;
  metric = "cpu";
  threshold = "80";
  threshold_is_valid = true;
  duration = "60";
  duration_is_valid = true;
  repeat = "";
  repeat_is_valid = true;
  repeat_is_disabled = false;
  selection = selection;
  server_groups = [];
  servers = "h1" ∷ [];
}

apply_alert_rule_editor_lem_example :
    ((apply_alert_rule_editor "r1" rule_form console ≡ none)
      × (¬ IsUsable rule_form ⊎ IsUnchosen selection))
    ⊎ ((c : Console) × (apply_alert_rule_editor "r1" rule_form console ≡ some c)
        × IsUsable rule_form
        × ((rule : AlertRule) × (rules_named "r1" (alert_rules c) ≡ rule ∷ [])
            × IsRead "r1" rule_form rule
            × IsChosen selection rule.notifications)
        × (rules_not_named "r1" (alert_rules c) ≡ rules_not_named "r1" (alert_rules console)))
apply_alert_rule_editor_lem_example = apply_alert_rule_editor_lem "r1" rule_form console

abbrev blank : SecretInput
blank = record {
  value = "";
  placeholder = "";
  configured = false;
  original_configured = false;
  masked = false;
  clear = false;
  button_is_active = false;
  button_disabled = false;
}

abbrev events : List Event
events = focus ∷ typed "secret" ∷ blur ∷ toggle ∷ []

clear_or_value_example :
    let input = steps events (set_secret_input_state true false blank) in
    (input.clear ≡ true → read_secret_input input ≡ "") × (input.button_is_active ≡ input.clear)
clear_or_value_example = clear_or_value true false blank events

looking_changes_nothing_example :
    step blur (steps (focus ∷ blur ∷ focus ∷ []) (set_secret_input_state true false blank))
    ≡ set_secret_input_state true false blank
looking_changes_nothing_example =
    looking_changes_nothing true false blank (focus ∷ blur ∷ focus ∷ []) (tt, (tt, (tt, tt)))

typed_is_sent_example :
    let input = steps (blur ∷ focus ∷ []) (step (typed "secret") blank) in
    (read_secret_input input ≡ "secret") × (input.clear ≡ false)
typed_is_sent_example = typed_is_sent blank "secret" (blur ∷ focus ∷ []) refl refl (tt, (tt, tt))

abbrev saved : Saved
saved = record { username = "admin"; admin_path = "/admin" }

abbrev form : Form
form = record {
  admin_path = " panel/ ";
  username = "root";
  current_password = "old";
  new_password = "correct-horse";
  confirm_password = "correct-horse";
}

abbrev request : Request
request = record {
  username = "root";
  current_password = "old";
  new_password = "correct-horse";
  admin_path = "/panel";
}

sent : account_request saved form ≡ ok request
unfolding account_request request_for collect_admin_path_settings normalize_admin_path
    validate_admin_path admin_path_error segment_of all_chars account_error valid_admin_username
    password_error trim trim_start drop_end is_space starts_with utf16_length includes concat
sent = refl

account_request_lem_example : IsAcceptable saved form request
account_request_lem_example = account_request_lem saved form request sent

abbrev app : App
app = record {
  console = console;
  configured_methods = [];
  config_channels = [];
  page = page;
  token = "t";
  view = dashboard;
  dirty = true;
  saving = false;
  message = "";
  login_message = "";
  toast = "";
}

normalize_date_value_lem_example :
    ((day : Date) × (match_date (trim " 2024-2-30 ") ≡ some day)
      × IsDay day
      × (normalize_date_value " 2024-2-30 " ≡ date_text day))
    ⊎ ((normalize_date_value " 2024-2-30 " ≡ "")
        × ((day : Date) → match_date (trim " 2024-2-30 ") ≡ some day → ¬ IsDay day))
normalize_date_value_lem_example = normalize_date_value_lem " 2024-2-30 "

abbrev key_row : String → String → Row
key_row old_id id = record {
  old_id = old_id;
  source_id = "";
  unsaved = false;
  id = id;
  password = "";
  location = "";
  kind = "";
  labels = "";
}

abbrev key_rows : List Row
key_rows = key_row "a" "a" ∷ key_row "b" " b " ∷ []

abbrev key_rows_collected : Collected
key_rows_collected = record {
  access_keys = ("a", key_of_row (key_row "a" "a")) ∷ ("b", key_of_row (key_row "b" " b ")) ∷ [];
  deleted = "c" ∷ [];
  seen = "a" ∷ "b" ∷ [];
}

collected : collect_access_keys key_rows ("b" ∷ "c" ∷ []) ≡ some key_rows_collected
unfolding collect_access_keys collect_rows collect_row is_renamed insert add add_all delete includes
    trim trim_start drop_end is_space
collected = refl

collect_access_keys_lem_example :
    ((k : String) → includes (keys key_rows_collected.access_keys) k ≡ includes (ids key_rows) k)
    × IsDistinct (keys key_rows_collected.access_keys)
    × IsDistinct (ids key_rows)
    × (NoneRenamed key_rows
        → (k : String)
        → includes key_rows_collected.deleted k
          ≡ (includes (set_of ("b" ∷ "c" ∷ [])) k && not (includes (ids key_rows) k)))
collect_access_keys_lem_example =
    collect_access_keys_lem key_rows ("b" ∷ "c" ∷ []) key_rows_collected collected

-- Two keys that swap their names are both collected, and one of them is deleted too.
swapped :
    Option.map {B = List String × List String}
      (λ (c : Collected). (keys c.access_keys, c.deleted))
      (collect_access_keys (key_row "a" "b" ∷ key_row "b" "a" ∷ []) [])
    ≡ some ("b" ∷ "a" ∷ [], "b" ∷ [])
unfolding collect_access_keys collect_rows collect_row is_renamed insert add add_all delete includes
    trim trim_start drop_end is_space
swapped = refl
