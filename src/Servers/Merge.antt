-- ===== src/Servers/Merge.antt =====
-- web/static/js/admin.js: `serverItems`, `serverGroups` and `serverGroupsForServer`.
pub mod Listed
use server_status_rust_l.Prelude.{
  String, ℕ, Bool, true, false, not, ◌&&◌, ◌||◌, Option, none, some, List, [], ◌∷◌, ◌++◌, map, ◌==◌,
  ◌or_else◌, ◌or_text◌, is_empty, truthy, find, filter, includes, if◌then◌else◌,
}
use server_status_rust_l.Prelude.Dict.{Dict, lookup, insert, values, add_all}
use server_status_rust_l.Billing.Labels.{label_value}
use server_status_rust_l.Settings.{HostOverride, ServerGroup}
use server_status_rust_l.Servers.{
  ConfigHost, Stat, Console, ServerItem, ◌or_option◌, field_of, text_of, stat_os, stat_region,
  billing_from, all_hosts,
}

unfoldable pub stat_of : Console → String → Option Stat
stat_of c name = find (λ (server : Stat). server.name == name) c.stats

unfoldable pub deleted_set : Console → List String
deleted_set c = add_all c.deleted_hosts (add_all (c.settings.deleted_hosts or_else []) [])

-- The hosts that are shown: those that report, and those that have not been deleted.
unfoldable pub is_shown : Console → ConfigHost → Bool
unfolding stat_of deleted_set
is_shown c host = elim (stat_of c host.name) [
  | some stat ↦ true
  | none ↦ not (includes (deleted_set c) host.name)
]

-- One item of `serverItems`; `groups` is what it shows as its groups.
server_item : Console → (String → String → List String) → ConfigHost → ServerItem
unfolding stat_of stat_os stat_region billing_from
server_item c groups host =
    let stat = stat_of c host.name in
    let over = lookup host.name (c.settings.hosts or_else []) in
    let labels = host.labels or_text text_of (λ (s : Stat). s.labels) stat in
    let gid = host.gid or_text text_of (λ (s : Stat). s.gid) stat in
    record {
      id = host.name;
      alias =
          field_of (λ (o : HostOverride). o.alias) over
            or_option host.alias
            or_option field_of (λ (s : Stat). some s.alias) stat
          or_else host.name;
      gid = gid;
      stat = stat;
      labels = labels;
      groups = groups host.name gid;
      os = stat_os stat labels;
      region = stat_region stat;
      note = field_of (λ (o : HostOverride). o.note) over or_else label_value labels "note";
      public_note =
          field_of (λ (o : HostOverride). o.public_note) over
          or_else label_value labels "public_note";
      spec = field_of (λ (o : HostOverride). o.spec) over or_else label_value labels "spec";
      weight =
          field_of (λ (o : HostOverride). o.weight) over
          or_option host.weight
          or_option field_of (λ (s : Stat). s.weight) stat;
      expire_notify =
          field_of (λ (o : HostOverride). o.expire_notify) over or_option host.expire_notify;
      billing = billing_from host.expire host.billing over stat;
    }

items_with : Console → (String → String → List String) → List ServerItem
unfolding server_item is_shown
items_with c groups = map (server_item c groups) (filter (is_shown c) (values (all_hosts c)))

-- `serverItems(false)`
unfoldable pub plain_server_items : Console → List ServerItem
unfolding items_with
plain_server_items c = items_with c (λ id gid. [])

-- Puts a server into the group of its `gid`.
group_server : Dict ServerGroup → ServerItem → Dict ServerGroup
group_server groups server =
    if is_empty server.gid then groups else elim (lookup server.gid groups) [
      | none ↦
          insert server.gid
            (record { id = server.gid; name = server.gid; servers = server.id ∷ [] }) groups
      | some group ↦
          insert server.gid (record group { servers = group.servers ++ server.id ∷ [] }) groups
    ]

group_servers : Dict ServerGroup → List ServerItem → Dict ServerGroup
group_servers groups [] = groups
group_servers groups (server ∷ servers) = group_servers (group_server groups server) servers

-- The groups of the settings, or, where these have none, those of the `gid`s.
groups_or_default : List ServerGroup → List ServerItem → List ServerGroup
unfolding group_server group_servers
groups_or_default (group ∷ groups) items = group ∷ groups
groups_or_default [] items = values (group_servers [] items)

unfoldable pub server_groups : Console → List ServerGroup
unfolding groups_or_default plain_server_items
server_groups c = groups_or_default (c.settings.server_groups or_else []) (plain_server_items c)

abbrev group_label : ServerGroup → String
group_label group = group.name or_text group.id

abbrev is_default_group : ServerGroup → Bool
is_default_group group = group.id == "default" || group.name == "default"

-- The groups that name the server, or else the default group for a server of that `gid`.
direct_or_default : List ServerGroup → String → List String → List String
direct_or_default groups gid (group ∷ direct) = group ∷ direct
direct_or_default groups gid [] =
    if not (gid == "default")
    then []
    else elim (find is_default_group groups) [ none ↦ [] | some group ↦ group_label group ∷ [] ]

unfoldable pub server_groups_for_server : Console → String → String → List String
unfolding direct_or_default server_groups
server_groups_for_server c id gid = direct_or_default (server_groups c) gid (
    map group_label (filter (λ (group : ServerGroup). includes group.servers id) (server_groups c)))

-- `serverItems()`
unfoldable pub server_items : Console → List ServerItem
unfolding items_with
server_items c = items_with c (server_groups_for_server c)
