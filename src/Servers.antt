-- ===== src/Servers.antt =====
-- web/static/js/admin.js: the list of servers, put together from the configuration, the reports and
-- the settings, and the groups of servers. The three functions call `ensureSettings` first, whose
-- defaults are read here by `or_else`.
pub mod Merge
pub mod Keys
use server_status_rust_l.Prelude.{
  String, ℕ, Bool, true, false, not, ◌&&◌, ◌||◌, Option, none, some, List, [], ◌∷◌, ◌++◌, map, ◌==◌,
  ◌or_else◌, ◌or_text◌, is_empty, truthy, find, filter, includes, if◌then◌else◌,
}
use mathlib.Core.Option
use server_status_rust_l.Prelude.Dict.{Dict, lookup, insert, has, values, add_all, set_of}
use server_status_rust_l.Prelude.Json.{Number}
use server_status_rust_l.Billing.{Billing}
use server_status_rust_l.Billing.Labels.{label_value}
use server_status_rust_l.Settings.{
  BillingOverride, HostOverride, ServerGroup, Settings, SettingsState,
}

-- A host of the configuration, or what stands in for one.
pub record ConfigHost : Type 0 where
  pub name : String
  pub alias : Option String
  pub gid : String
  pub labels : String
  pub weight : Option Number
  pub expire : Option String
  pub expire_notify : Option Bool
  pub billing : Option BillingOverride

pub record StatExpire : Type 0 where
  pub raw : String
  pub auto_renewal : Bool
  pub cycle : String
  pub amount : String

-- A server of `/api/admin/stats.json`.
pub record Stat : Type 0 where
  pub name : String
  pub alias : String
  pub gid : String
  pub labels : String
  pub location : String
  pub host_type : String
  pub os_release : String
  pub country_code : String
  pub country : String
  pub online4 : Bool
  pub online6 : Bool
  pub weight : Option Number
  pub expire_notify : Option Bool
  pub expire : Option StatExpire

pub record Console : Type 0 where
  pub state : SettingsState
  pub open state use *
  pub config_hosts : List ConfigHost
  pub stats : List Stat

pub record ServerItem : Type 0 where
  pub id : String
  pub alias : String
  pub gid : String
  pub stat : Option Stat
  pub labels : String
  pub groups : List String
  pub os : String
  pub region : String
  pub note : String
  pub public_note : String
  pub spec : String
  pub weight : Option Number
  pub expire_notify : Option Bool
  pub billing : Billing

-- `a ?? b` of values that may both be absent.
infixr 25 ◌or_option◌
abbrev ◌or_option◌ {ℓ} : {A : Type ℓ} → Option A → Option A → Option A
none or_option b = b
some a or_option b = some a

-- A text of an optional object, empty where there is none.
abbrev text_of {ℓ} : {A : Type ℓ} → (A → String) → Option A → String
text_of f none = ""
text_of f (some a) = f a

-- An optional field of an optional object.
abbrev field_of {ℓ κ} : {A : Type ℓ} {B : Type κ} → (A → Option B) → Option A → Option B
field_of f none = none
field_of f (some a) = f a

unfoldable pub stat_os : Option Stat → String → String
stat_os stat labels =
    label_value labels "os"
    or_text (text_of (λ s. s.os_release) stat or_text text_of (λ s. s.host_type) stat)

unfoldable pub stat_region : Option Stat → String
stat_region stat =
    text_of (λ s. s.location) stat
    or_text (text_of (λ s. s.country_code) stat or_text text_of (λ s. s.country) stat)

abbrev stat_expire : Option Stat → Option StatExpire
stat_expire stat = field_of (λ (s : Stat). s.expire) stat

abbrev no_billing : BillingOverride
no_billing = record { end_date = none; auto_renewal = none; cycle = none; amount = none }

-- `config_expire` and `config_billing` are the fields of `configItem`.
unfoldable pub billing_from :
    Option String → Option BillingOverride → Option HostOverride → Option Stat → Billing
billing_from config_expire config_billing override_item stat =
    let billing = config_billing or_else no_billing in
    let over = field_of (λ (o : HostOverride). o.billing) override_item or_else no_billing in
    let reported = stat_expire stat in
    record {
      end_date =
          over.end_date
            or_option field_of (λ (o : HostOverride). o.expire) override_item
            or_option config_expire
            or_option billing.end_date
            or_option Option.map (λ (e : StatExpire). e.raw) reported
          or_else "";
      auto_renewal =
          over.auto_renewal or_option billing.auto_renewal
          or_else elim reported [ none ↦ "0" | some e ↦ if e.auto_renewal then "1" else "0" ];
      cycle =
          over.cycle
            or_option billing.cycle
            or_option Option.map (λ (e : StatExpire). e.cycle) reported
          or_else "";
      amount =
          over.amount
            or_option billing.amount
            or_option Option.map (λ (e : StatExpire). e.amount) reported
          or_else "";
    }

-- The host that stands in for a server that only reports.
reported_host : Stat → ConfigHost
reported_host server = record {
  name = server.name;
  alias = some server.alias;
  gid = server.gid;
  labels = server.labels;
  weight = server.weight;
  expire = none;
  expire_notify = server.expire_notify;
  billing = some no_billing;
}

-- The host that stands in for a server that only the settings name.
overridden_host : String → HostOverride → ConfigHost
overridden_host id over = record {
  name = id;
  alias = some ((over.alias or_else "") or_text id);
  gid = "";
  labels = "";
  weight = over.weight;
  expire = some (
      (over.expire or_else "")
      or_text (field_of (λ (b : BillingOverride). b.end_date) over.billing or_else ""));
  expire_notify = over.expire_notify;
  billing = some (over.billing or_else no_billing);
}

unfoldable pub add_config_hosts : List ConfigHost → Dict ConfigHost → Dict ConfigHost
add_config_hosts [] hosts = hosts
add_config_hosts (host ∷ rest) hosts = add_config_hosts rest (insert host.name host hosts)

-- Puts a host under a name that has none.
unfoldable pub add_missing : String → ConfigHost → Dict ConfigHost → Dict ConfigHost
add_missing name host hosts = if has name hosts then hosts else insert name host hosts

unfoldable pub add_reported : List Stat → Dict ConfigHost → Dict ConfigHost
unfolding add_missing reported_host
add_reported [] hosts = hosts
add_reported (server ∷ rest) hosts =
    add_reported rest (add_missing server.name (reported_host server) hosts)

unfoldable pub add_overridden : Dict HostOverride → Dict ConfigHost → Dict ConfigHost
unfolding add_missing overridden_host
add_overridden [] hosts = hosts
add_overridden ((id, over) ∷ rest) hosts =
    add_overridden rest (add_missing id (overridden_host id over) hosts)

-- The `Map` of `serverItems`.
unfoldable pub all_hosts : Console → Dict ConfigHost
unfolding add_config_hosts add_reported add_overridden
all_hosts c =
    add_overridden (c.settings.hosts or_else [])
      (add_reported c.stats (add_config_hosts c.config_hosts []))
