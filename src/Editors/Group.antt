-- ===== src/Editors/Group.antt =====
-- web/static/js/admin.js: `applyServerGroupEditor`, and `deleteCurrentEditorItem` before it saves.
pub mod Deletion
use server_status_rust_l.Prelude.{
  String, not, some, List, [], ◌∷◌, ◌++◌, map, ◌==◌, ◌or_else◌, ◌or_text◌, trim, filter,
}
use server_status_rust_l.Settings.{ServerGroup, AlertRule}
use server_status_rust_l.Servers.{Console}
use server_status_rust_l.Servers.Merge.{server_groups}
use server_status_rust_l.Editors.{set_server_groups}

-- `servers` are those whose boxes are checked.
unfoldable pub apply_server_group_editor : String → String → List String → Console → Console
unfolding set_server_groups
apply_server_group_editor id name servers c =
    set_server_groups
      (filter (λ (group : ServerGroup). not (group.id == id)) (server_groups c)
        ++ record { id = id; name = trim name or_text id; servers = servers } ∷ [])
      c

unfoldable pub set_alert_rules : List AlertRule → Console → Console
set_alert_rules rules c = record c {
  state = record c.state { settings = record c.settings { alert_rules = some rules } };
}

abbrev without_group : String → AlertRule → AlertRule
without_group id rule = record rule {
  server_groups = filter (λ group. not (group == id)) rule.server_groups;
}

unfoldable pub delete_server_group : String → Console → Console
unfolding set_server_groups set_alert_rules
delete_server_group id c =
    let c' =
      set_server_groups (filter (λ (group : ServerGroup). not (group.id == id)) (server_groups c))
        c in
    set_alert_rules (map (without_group id) (c'.settings.alert_rules or_else [])) c'

unfoldable pub delete_alert_rule : String → Console → Console
unfolding set_alert_rules
delete_alert_rule id c =
    set_alert_rules
      (filter (λ (rule : AlertRule). not (rule.id == id)) (c.settings.alert_rules or_else [])) c
