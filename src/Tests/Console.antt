-- ===== src/Tests/Console.antt =====
-- A console with two servers, and what web/static/js/admin.js makes of its settings.
use server_status_rust_l.Prelude.{
  Member, ◌↔◌, ◌==◌, String, true, false, none, some, List, [], ◌∷◌, ◌≡◌, refl, includes,
  if◌then◌else◌, map, not, ◌&&◌, ◌||◌, ◌or_else◌,
}
use server_status_rust_l.Prelude.Dict.{Dict, lookup, keys, IsDistinct}
use server_status_rust_l.Prelude.Json.{Json, str, nat}
use server_status_rust_l.Tests.Sample.{page}
use server_status_rust_l.Settings.{
  ServerGroup, AlertRule, Settings, no_settings, ensured, migrate_rule, ensure_settings,
  hydrate_settings, settings_payload_from_settings,
}
use server_status_rust_l.Settings.Sending.{first_value, passed_on, always_sent, payload_overrides}
use server_status_rust_l.Servers.{ConfigHost, Console, ServerItem}
use server_status_rust_l.Servers.Keys.{is_known}
use server_status_rust_l.Servers.Merge.{server_groups, deleted_set, server_items}
use server_status_rust_l.Servers.Merge.Listed.{ids, is_reporting, ids-server_items}
use server_status_rust_l.Saving.{
  App, dashboard, login, Reply, body, refused, rejected, Backend, save_settings_payload,
  payload_from_state, table_options, save_scoped_settings,
}
use server_status_rust_l.Saving.Outcomes.{completed, refusal, refused_save, accepted_save}
use server_status_rust_l.Saving.Scoped.{scoped_options, IsMerged, save_scoped_settings_lem}
use server_status_rust_l.Editors.Server.{deleted}
use server_status_rust_l.Editors.Server.Membership.{IsForgotten, deleted-IsForgotten}
use server_status_rust_l.Editors.Group.{apply_server_group_editor, delete_server_group}
use server_status_rust_l.Editors.Group.Deletion.{delete_server_group_lem}
use server_status_rust_l.Editors.Submit.Kept.{apply_editor_lem}
use server_status_rust_l.Editors.Submit.{
  server_group, apply_editor, delete_server, duplicate_server,
}
use server_status_rust_l.Editors.Submit.Rollback.{delete_server_lem, duplicate_server_lem}

abbrev rule : String → String → List String → AlertRule
rule id group notifications = record {
  id = id;
  name = id;
  enabled = true;
  metric = "cpu";
  threshold = some (nat 90);
  duration = nat 120;
  repeat_interval = nat 3600;
  notification_group = group;
  notifications = notifications;
  server_groups = [];
  servers = "h1" ∷ "h2" ∷ [];
}

abbrev settings : Settings
settings = record no_settings {
  server_groups = some (record { id = "g1"; name = "G1"; servers = "h1" ∷ "h2" ∷ [] } ∷ []);
  notification_groups = some (record { id = "ops"; name = "Ops"; notifications = "tg" ∷ [] } ∷ []);
  alert_rules = some (rule "r1" "ops" [] ∷ rule "r2" "" ("log" ∷ []) ∷ []);
  fields = ("access_base_url", str "https://a") ∷ [];
}

-- The rule of a notification group takes over its methods.
migrated :
    map (λ (r : AlertRule). r.notifications) ((ensured settings).alert_rules or_else [])
    ≡ ("tg" ∷ []) ∷ ("log" ∷ []) ∷ []
unfolding ensured migrate_rule
migrated = refl

abbrev overrides : Dict Json
overrides = ("access_base_url", str "https://b") ∷ []

payload_overrides_example :
    let payload = settings_payload_from_settings settings overrides in
    ((k : String)
      → lookup k payload.fields
        ≡ first_value (lookup k overrides) (
            first_value
              (if includes passed_on k then lookup k settings.fields else none)
              (lookup k (always_sent settings.fields))))
    × (payload.hosts ≡ [])
    × (payload.groups ≡ [])
    × (payload.deleted_hosts ≡ [])
    × (payload.server_groups ≡ settings.server_groups or_else [])
    × (payload.access_keys ≡ [])
    × (payload.deleted_access_keys ≡ [])
    × (payload.notification_groups ≡ settings.notification_groups or_else [])
    × (payload.alert_rules ≡ settings.alert_rules or_else [])
unfolding includes
payload_overrides_example = payload_overrides settings overrides (refl, tt)

abbrev host : String → ConfigHost
host name = record {
  name = name;
  alias = none;
  gid = "";
  labels = "";
  weight = none;
  expire = none;
  expire_notify = none;
  billing = none;
}

abbrev console : Console
console = record {
  state = record { settings = settings; deleted_hosts = "h2" ∷ []; deleted_access_keys = [] };
  config_hosts = host "h1" ∷ host "h2" ∷ [];
  stats = [];
}

ids-server_items_example :
    IsDistinct (ids (server_items console))
    × ((k : String)
        → includes (ids (server_items console)) k ≡ (
            is_known console k
            && (is_reporting console k || not (includes (deleted_set console) k))))
ids-server_items_example = ids-server_items console

abbrev pub app : App
app = record {
  console = console;
  configured_methods = "tg" ∷ [];
  config_channels = [];
  page = page;
  token = "t";
  view = dashboard;
  dirty = true;
  saving = false;
  message = "";
  login_message = "";
  toast = "";
}

-- A back end that answers every save alike.
abbrev backend : Reply Settings → Backend
backend reply = record {
  post_settings = λ payload. reply;
  get_settings = body settings;
  reload_settings = body settings;
  get_stats = rejected "offline";
  get_config = rejected "offline";
  notify_test = λ kind payload. rejected "offline";
}

refused_save_example :
    save_settings_payload
      (backend (refused 401 "" "Unauthorized"))
      payload_from_state
      (table_options "ok")
      app
    ≡ (
      none,
      record (completed app) {
        token = "";
        view = login;
        login_message = "登录已过期，请重新登录";
        message = refusal 401 "" "Unauthorized";
        toast = refusal 401 "" "Unauthorized";
      },
    )
refused_save_example =
    refused_save (backend (refused 401 "" "Unauthorized")) "ok" app 401 "" "Unauthorized" refl

accepted_save_example :
    let (r, s') =
      save_settings_payload (backend (body settings)) payload_from_state (table_options "ok") app in
    (r ≡ some settings)
    × (s'.state ≡ hydrate_settings settings)
    × (s'.dirty ≡ false)
    × (s'.saving ≡ false)
    × (s'.toast ≡ "ok")
    × (s'.view ≡ dashboard)
accepted_save_example = accepted_save (backend (body settings)) "ok" app settings refl

save_scoped_settings_lem_example :
    let (r, s') =
      save_scoped_settings
        (backend (body settings))
        overrides
        (scoped_options (table_options "ok"))
        app in
    (r ≡ some settings)
    × IsMerged (keys overrides) (some settings) app.settings s'.settings
    × (s'.deleted_hosts ≡ app.deleted_hosts)
    × (s'.deleted_access_keys ≡ app.deleted_access_keys)
    × (s'.dirty ≡ true)
save_scoped_settings_lem_example =
    save_scoped_settings_lem (backend (body settings)) overrides (table_options "ok") app

deleted-IsForgotten_example : IsForgotten "h1" console (deleted "h1" console)
deleted-IsForgotten_example = deleted-IsForgotten "h1" console

abbrev item : ServerItem
item = record {
  id = "h1";
  alias = "First";
  gid = "";
  stat = none;
  labels = "";
  groups = [];
  os = "";
  region = "";
  note = "";
  public_note = "";
  spec = "";
  weight = none;
  expire_notify = none;
  billing = record { end_date = ""; auto_renewal = ""; cycle = ""; amount = "" };
}

delete_server_lem_example :
    (delete_server (backend (rejected "offline")) item app).state ≡ ensure_settings app.state
unfolding includes
delete_server_lem_example = delete_server_lem (backend (rejected "offline")) item app (refl, tt) tt

duplicate_server_lem_example :
    (duplicate_server (backend (body settings)) item "h3" app).state ≡ hydrate_settings settings
unfolding includes
duplicate_server_lem_example =
    duplicate_server_lem (backend (body settings)) item "h3" app (refl, tt) tt

apply_editor_lem_example :
    (apply_editor (backend (rejected "offline")) (server_group "g2" "G2" ("h1" ∷ [])) app).state
    ≡ ensure_settings (apply_server_group_editor "g2" "G2" ("h1" ∷ []) console).state
apply_editor_lem_example =
    apply_editor_lem (backend (rejected "offline")) (server_group "g2" "G2" ("h1" ∷ [])) app

delete_server_group_lem_example :
    let c = delete_server_group "g1" console in
    ((group : ServerGroup)
      → Member group (c.settings.server_groups or_else [])
        ↔ (Member group (server_groups console) × (not (group.id == "g1") ≡ true)))
    × ((r : AlertRule)
        → Member r (c.settings.alert_rules or_else [])
        → includes r.server_groups "g1" ≡ false)
delete_server_group_lem_example = delete_server_group_lem "g1" console
