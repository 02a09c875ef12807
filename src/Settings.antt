-- ===== src/Settings.antt =====
-- web/static/js/admin.js: the settings that the console edits, as `/api/admin/settings` gives them,
-- with the operations that complete them, send them and merge them. A field that may be absent is an
-- `Option`. The settings that the console passes on as they are (`admin_path`, the two base
-- addresses, `expire_notify` and one entry for each notification channel) stand in `fields`.
pub mod Ensure
pub mod Sending
use server_status_rust_l.Prelude.{
  String, ℕ, Bool, true, false, not, ◌&&◌, ◌||◌, Option, none, some, List, [], ◌∷◌, map, ◌==◌,
  ◌or_else◌, is_empty, find, if◌then◌else◌,
}
use server_status_rust_l.Prelude.Dict.{Dict, lookup, insert, remove, set_of}
use Prim.Native.String
use server_status_rust_l.Prelude.Json.{Json, str, Number}

pub record BillingOverride : Type 0 where
  pub end_date : Option String
  pub auto_renewal : Option String
  pub cycle : Option String
  pub amount : Option String

pub record HostOverride : Type 0 where
  pub alias : Option String
  pub note : Option String
  pub public_note : Option String
  pub spec : Option String
  pub expire : Option String
  pub billing : Option BillingOverride
  pub expire_notify : Option Bool
  pub weight : Option Number

pub record ServerGroup : Type 0 where
  pub id : String
  pub name : String
  pub servers : List String

pub record AccessKey : Type 0 where
  pub source_gid : String
  pub password : String
  pub location : String
  pub kind : String
  pub notify : Option Bool
  pub labels : String
  pub expire : Option String
  pub billing : Option BillingOverride
  pub expire_notify : Option Bool
  pub weight : Option Number

pub record NotificationGroup : Type 0 where
  pub id : String
  pub name : String
  pub notifications : List String

pub record AlertRule : Type 0 where
  pub id : String
  pub name : String
  pub enabled : Bool
  pub metric : String
  pub threshold : Option Number
  pub duration : Number
  pub repeat_interval : Number
  pub notification_group : String
  pub notifications : List String
  pub server_groups : List String
  pub servers : List String

pub record Settings : Type 0 where
  pub hosts : Option (Dict HostOverride)
  pub groups : Option (Dict HostOverride)
  pub deleted_hosts : Option (List String)
  pub server_groups : Option (List ServerGroup)
  pub access_keys : Option (Dict AccessKey)
  pub deleted_access_keys : Option (List String)
  pub notification_groups : Option (List NotificationGroup)
  pub alert_rules : Option (List AlertRule)
  pub fields : Dict Json

-- `{}`
abbrev pub no_settings : Settings
no_settings = record {
  hosts = none;
  groups = none;
  deleted_hosts = none;
  server_groups = none;
  access_keys = none;
  deleted_access_keys = none;
  notification_groups = none;
  alert_rules = none;
  fields = [];
}

-- The rule with the methods of its notification group, if it has none of its own.
unfoldable pub migrate_rule : List NotificationGroup → AlertRule → AlertRule
migrate_rule groups rule = elim rule.notifications [
  | method ∷ methods ↦ rule
  | [] ↦ if is_empty rule.notification_group then rule else record rule {
    notification_group = "";
    notifications = elim (find (λ group. group.id == rule.notification_group) groups) [
      | none ↦ []
      | some group ↦ group.notifications
    ];
  }
]

-- The part of `ensureSettings` under `if (settings.notification_groups.length)`.
migrate_rules : List NotificationGroup → List AlertRule → List AlertRule
migrate_rules [] rules = rules
migrate_rules (group ∷ groups) rules = map (migrate_rule (group ∷ groups)) rules

-- What `ensureSettings` makes of the settings.
unfoldable pub ensured : Settings → Settings
unfolding migrate_rules
ensured settings = record settings {
  hosts = some (settings.hosts or_else []);
  groups = some (settings.groups or_else []);
  deleted_hosts = some (settings.deleted_hosts or_else []);
  server_groups = some (settings.server_groups or_else []);
  access_keys = some (settings.access_keys or_else []);
  deleted_access_keys = some (settings.deleted_access_keys or_else []);
  notification_groups = some [];
  alert_rules =
      some
        (migrate_rules (settings.notification_groups or_else []) (settings.alert_rules or_else []));
}

-- The settings of the script's `state`, with its two sets of deleted names.
pub record SettingsState : Type 0 where
  pub settings : Settings
  pub deleted_hosts : List String
  pub deleted_access_keys : List String

unfoldable pub ensure_settings : SettingsState → SettingsState
unfolding ensured
ensure_settings s = record s { settings = ensured s.settings }

unfoldable pub hydrate_settings : Settings → SettingsState
unfolding ensured
hydrate_settings saved = record {
  settings = ensured saved;
  deleted_hosts = set_of (saved.deleted_hosts or_else []);
  deleted_access_keys = set_of (saved.deleted_access_keys or_else []);
}

-- A deep copy: later writes to the state do not reach it.
unfoldable pub snapshot_settings_state : SettingsState → SettingsState
snapshot_settings_state s = record {
  settings = s.settings;
  deleted_hosts = set_of s.deleted_hosts;
  deleted_access_keys = set_of s.deleted_access_keys;
}

unfoldable pub restore_settings_state : SettingsState → SettingsState
unfolding ensure_settings
restore_settings_state snapshot = ensure_settings record {
  settings = snapshot.settings;
  deleted_hosts = set_of snapshot.deleted_hosts;
  deleted_access_keys = set_of snapshot.deleted_access_keys;
}

-- What is sent to `/api/admin/settings`.
pub record Payload : Type 0 where
  pub hosts : Dict HostOverride
  pub groups : Dict HostOverride
  pub deleted_hosts : List String
  pub server_groups : List ServerGroup
  pub access_keys : Dict AccessKey
  pub deleted_access_keys : List String
  pub notification_groups : List NotificationGroup
  pub alert_rules : List AlertRule
  pub fields : Dict Json

abbrev text_or : String → Option Json → Json
text_or default (some (str String.[])) = str default
text_or default (some value) = value
text_or default none = str default

-- `key: current.key`, which leaves out a key that is absent.
copy_key : Dict Json → String → Dict Json → Dict Json
copy_key fields key out = elim (lookup key fields) [
  | none ↦ out
  | some value ↦ insert key value out
]

abbrev pub channel_keys : List String
channel_keys = "expire_notify" ∷ "tgbot" ∷ "bark" ∷ "wechat" ∷ "email" ∷ "webhook" ∷ "log" ∷ []

copy_keys : Dict Json → List String → Dict Json → Dict Json
copy_keys fields [] out = out
copy_keys fields (key ∷ keys) out = copy_keys fields keys (copy_key fields key out)

-- `...overrides`
insert_all : Dict Json → Dict Json → Dict Json
insert_all [] out = out
insert_all ((key, value) ∷ rest) out = insert_all rest (insert key value out)

unfoldable pub settings_payload_from_settings : Settings → Dict Json → Payload
unfolding copy_keys copy_key insert_all
settings_payload_from_settings current overrides = record {
  hosts = current.hosts or_else [];
  groups = current.groups or_else [];
  deleted_hosts = current.deleted_hosts or_else [];
  server_groups = current.server_groups or_else [];
  access_keys = current.access_keys or_else [];
  deleted_access_keys = current.deleted_access_keys or_else [];
  notification_groups = current.notification_groups or_else [];
  alert_rules = current.alert_rules or_else [];
  fields = insert_all overrides (
      copy_keys current.fields channel_keys (
        ("admin_path", text_or "/admin" (lookup "admin_path" current.fields))
        ∷ ("access_base_url", text_or "" (lookup "access_base_url" current.fields))
        ∷ ("agent_base_url", text_or "" (lookup "agent_base_url" current.fields))
        ∷ []));
}

unfoldable pub settings_payload_from_state : SettingsState → Dict Json → Payload
unfolding ensured settings_payload_from_settings
settings_payload_from_state s overrides =
    settings_payload_from_settings
      (record (ensured s.settings) {
        deleted_hosts = some s.deleted_hosts;
        deleted_access_keys = some s.deleted_access_keys;
      })
      overrides

-- One key of `mergeScopedSettings`; a key that was not saved becomes undefined.
merge_key : Dict Json → String → Dict Json → Dict Json
merge_key saved key fields = elim (lookup key saved) [
  | none ↦ remove key fields
  | some value ↦ insert key value fields
]

merge_keys : Dict Json → List String → Dict Json → Dict Json
merge_keys saved [] fields = fields
merge_keys saved (key ∷ keys) fields = merge_keys saved keys (merge_key saved key fields)

unfoldable pub merge_scoped_settings : List String → Settings → Settings → Settings
unfolding merge_key merge_keys
merge_scoped_settings keys saved settings = record settings {
  fields = merge_keys saved.fields keys settings.fields;
}
