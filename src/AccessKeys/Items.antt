-- ===== src/AccessKeys/Items.antt =====
-- web/static/js/admin.js: `accessKeyItems`, the access keys that the table shows, and the row of
-- `addAccessKey`. `le` is the order of `localeCompare`; the groups are the `hosts_group` of the
-- configuration.
use server_status_rust_l.Prelude.{
  String, zero, Bool, true, false, ◌||◌, Option, none, some, List, [], ◌∷◌, ◌or_else◌, ◌or_text◌,
  includes, if◌then◌else◌,
}
use server_status_rust_l.Prelude.Dict.{Dict, lookup, insert, has, values, add_all}
use mathlib.Core.Option
use server_status_rust_l.Prelude.Json.{Number, nat}
use server_status_rust_l.Prelude.Sort.{sort_by}
use server_status_rust_l.Billing.{Billing}
use server_status_rust_l.Settings.{AccessKey, BillingOverride, HostOverride}
use server_status_rust_l.Servers.{Console, billing_from}
use server_status_rust_l.AccessKeys.{Row}
use server_status_rust_l.AccessKeys.Next.{next_access_key_id}

-- An entry of `config.hosts_group`; its texts are empty where they are absent.
pub record ConfigGroup : Type 0 where
  pub gid : String
  pub location : String
  pub kind : String
  pub notify : Option Bool
  pub labels : String
  pub expire : Option String
  pub billing : Option BillingOverride
  pub expire_notify : Option Bool
  pub weight : Option Number

pub record Item : Type 0 where
  pub id : String
  pub source_gid : String
  pub runtime : Bool
  pub location : String
  pub kind : String
  pub notify : Option Bool
  pub labels : String
  pub expire : String
  pub billing : Billing
  pub expire_notify : Option Bool
  pub weight : Option Number

abbrev no_key : AccessKey
no_key = record {
  source_gid = "";
  password = "";
  location = "";
  kind = "";
  notify = none;
  labels = "";
  expire = none;
  billing = none;
  expire_notify = none;
  weight = none;
}

-- What `billingFrom` reads of a key.
abbrev billing_of : AccessKey → HostOverride
billing_of key = record {
  alias = none;
  note = none;
  public_note = none;
  spec = none;
  expire = key.expire;
  billing = key.billing;
  expire_notify = none;
  weight = none;
}

-- `a ?? b`
abbrev or_option {ℓ} : {A : Type ℓ} → Option A → Option A → Option A
or_option (some a) b = some a
or_option none b = b

-- `weight || ""`
abbrev weight_or_none : Option Number → Option Number
weight_or_none (some (nat zero)) = none
weight_or_none weight = weight

-- `Set` of the names in the settings and in the state.
unfoldable pub deleted_keys : Console → List String
unfolding add_all
deleted_keys c =
    add_all c.deleted_access_keys (add_all (c.settings.deleted_access_keys or_else []) [])

unfoldable pub group_item : Console → ConfigGroup → Item
unfolding lookup billing_from
group_item c group =
    let saved = lookup group.gid (c.settings.access_keys or_else []) in
    let over = saved or_else no_key in
    record {
      id = group.gid;
      source_gid = over.source_gid or_text group.gid;
      runtime = elim saved [ none ↦ false | some key ↦ true ];
      location = over.location or_text group.location;
      kind = over.kind or_text group.kind;
      notify = or_option over.notify group.notify;
      labels = over.labels or_text group.labels;
      expire = (over.expire or_else "") or_text (group.expire or_else "");
      billing = billing_from group.expire group.billing (some (billing_of over)) none;
      expire_notify = or_option over.expire_notify group.expire_notify;
      weight = or_option over.weight group.weight;
    }

unfoldable pub key_item : String → AccessKey → Item
key_item id value =
    let billing =
      value.billing
      or_else record { end_date = none; auto_renewal = none; cycle = none; amount = none } in
    record {
      id = id;
      source_gid = value.source_gid or_text id;
      runtime = true;
      location = value.location;
      kind = value.kind;
      notify = some (value.notify or_else true);
      labels = value.labels;
      expire = value.expire or_else "";
      billing = record {
        end_date = billing.end_date or_else "";
        auto_renewal = billing.auto_renewal or_else "";
        cycle = billing.cycle or_else "";
        amount = billing.amount or_else "";
      };
      expire_notify = some (value.expire_notify or_else true);
      weight = weight_or_none value.weight;
    }

add_groups : Console → List ConfigGroup → Dict Item → Dict Item
unfolding group_item deleted_keys insert includes
add_groups c [] items = items
add_groups c (group ∷ groups) items = add_groups c groups (
    if includes (deleted_keys c) group.gid
    then items
    else insert group.gid (group_item c group) items)

add_keys : Console → Dict AccessKey → Dict Item → Dict Item
unfolding key_item deleted_keys has insert includes
add_keys c [] items = items
add_keys c ((id, value) ∷ rest) items = add_keys c rest (
    if includes (deleted_keys c) id || has id items
    then items
    else insert id (key_item id value) items)

-- The settings are completed first, which changes no key.
unfoldable pub access_key_items : (String → String → Bool) → Console → List ConfigGroup → List Item
unfolding add_groups add_keys sort_by
access_key_items le c groups =
    sort_by (λ (a b : Item). le a.id b.id)
      (values (add_keys c (c.settings.access_keys or_else []) (add_groups c groups [])))

-- The fields of a row as it is drawn.
unfoldable pub access_key_row : Bool → Item → Row
access_key_row unsaved item = record {
  old_id = item.id;
  source_id = item.source_gid or_text item.id;
  unsaved = unsaved;
  id = item.id;
  password = "";
  location = item.location;
  kind = item.kind;
  labels = item.labels;
}

-- `password` is what `randomSecret` gives; `none` is a search that does not end.
unfoldable pub add_access_key : String → List Row → Option (List Row)
unfolding next_access_key_id access_key_row
add_access_key password rows =
    Option.map
      (λ id.
        record (access_key_row true (record (key_item id no_key) { source_gid = "" })) {
          password = password;
        }
        ∷ rows)
      (next_access_key_id rows)
