-- ===== src/Editors/Group/Deletion.antt =====
-- What the deletion of a group in web/static/js/admin.js leaves of it.
use server_status_rust_l.Prelude.{
  String, false, true, not, [], ◌↔◌, ◌==◌, ◌≡◌, ◌or_else◌, sym, subst, includes, Member,
  Member-filter,
}
use server_status_rust_l.Settings.{ServerGroup, AlertRule}
use server_status_rust_l.Servers.{Console}
use server_status_rust_l.Servers.Merge.{server_groups}
use server_status_rust_l.Editors.{set_server_groups}
use server_status_rust_l.Editors.Server.Membership.{Member-map, not_in_without}
use server_status_rust_l.Editors.Group.{without_group, set_alert_rules, delete_server_group}

-- The groups that are written are exactly those that there were under another id, and no alert
-- rule that is written names the deleted group.
pub delete_server_group_lem :
    (id : String) (c : Console)
    → let c' = delete_server_group id c in
      ((group : ServerGroup)
        → Member group (c'.settings.server_groups or_else [])
          ↔ (Member group (server_groups c) × (not (group.id == id) ≡ true)))
      × ((rule : AlertRule)
          → Member rule (c'.settings.alert_rules or_else [])
          → includes rule.server_groups id ≡ false)
unfolding delete_server_group set_server_groups set_alert_rules
delete_server_group_lem id c = (
  λ group. Member-filter (λ (g : ServerGroup). not (g.id == id)) group (server_groups c),
  λ rule m.
      let (before, n, e) =
        Member-map (without_group id) rule (c.settings.alert_rules or_else []) m in
      subst (λ (r : AlertRule). includes r.server_groups id ≡ false) (sym e)
        (not_in_without id before.server_groups),
)
