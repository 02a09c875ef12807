-- ===== src/Editors/Server.antt =====
-- web/static/js/admin.js: `applyServerEditor` and the handlers of the server rows that change the
-- settings before they save them.
pub mod Membership
use Prim.Native.Char.{Char}
use Prim.Native.String
use server_status_rust_l.Prelude.{
  String, ℕ, Bool, true, false, not, ◌&&◌, ◌||◌, Option, none, some, List, [], ◌∷◌, map, ◌==◌,
  ◌or_else◌, ◌or_text◌, is_empty, truthy, trim, to_upper_case, is_upper, concat, includes, filter,
  if◌then◌else◌,
}
use server_status_rust_l.Prelude.Dict.{Dict, insert, remove, add, delete, set_of}
use server_status_rust_l.Prelude.Json.{Number, nat}
use server_status_rust_l.Billing.{Billing}
use server_status_rust_l.Billing.Dates.{normalize_date_value}
use server_status_rust_l.Billing.Amounts.{compose_amount}
use server_status_rust_l.Settings.{
  BillingOverride, HostOverride, ServerGroup, AlertRule, Settings, SettingsState, ensure_settings,
}
use server_status_rust_l.Servers.{Console, ServerItem, Stat}
use server_status_rust_l.Servers.Merge.{server_groups}
use server_status_rust_l.Editors.{number_or, set_server_groups}

pub data Result (A : Type 0) : Type 0 where
  ok : A → Result A
  err : String → Result A

infixl 5 ◌>>=◌
abbrev pub ◌>>=◌ : {A B : Type 0} → Result A → (A → Result B) → Result B
ok a >>= f = f a
err e >>= f = err e

pub data ExpireMode : Type 0 where
  date permanent unset : ExpireMode

pub data FeeMode : Type 0 where
  paid free : FeeMode

pub record ServerForm : Type 0 where
  pub alias : String
  pub note : String
  pub public_note : String
  pub spec : String
  pub weight : String
  pub expire_mode : ExpireMode
  pub expire : String
  pub auto : Bool
  pub cycle : String
  pub fee_mode : FeeMode
  pub amount : String
  pub currency : String
  pub custom_currency : String
  pub notify : Bool
  pub groups : List String

-- `/^[A-Z]{3}$/`
unfoldable pub is_currency_code : String → Bool
is_currency_code (String.◌∷◌ a (String.◌∷◌ b (String.◌∷◌ c String.[]))) =
    is_upper a && is_upper b && is_upper c
is_currency_code _ = false

unfoldable pub read_server_expire_date : ExpireMode → String → Result String
read_server_expire_date permanent value = ok "0000-00-00"
read_server_expire_date unset value = ok ""
read_server_expire_date date value =
    let normalized = normalize_date_value value in
    if is_empty normalized then err "请选择有效到期日，格式为 YYYY-MM-DD" else ok normalized

read_paid_amount : String → String → String → Result String
read_paid_amount amount selected custom =
    let currency = if selected == "CUSTOM" then to_upper_case (trim custom) else selected in
    if is_empty amount
    then ok ""
    else if not (is_currency_code currency)
    then err "请输入 3 位货币代码，例如 USD、EUR、HKD"
    else ok (compose_amount amount selected currency)

unfoldable pub read_server_amount : FeeMode → String → String → String → Result String
unfolding read_paid_amount
read_server_amount free amount selected custom = ok "free"
read_server_amount paid amount selected custom = read_paid_amount (trim amount) selected custom

abbrev is_date_mode : ExpireMode → Bool
is_date_mode date = true
is_date_mode _ = false

unfoldable pub host_of_form : ServerForm → String → String → HostOverride
host_of_form form expire_date amount = record {
  alias = some (trim form.alias);
  note = some (trim form.note);
  public_note = some (trim form.public_note);
  spec = some (trim form.spec);
  expire = some expire_date;
  billing = some (record {
    end_date = some expire_date;
    auto_renewal = some (if is_date_mode form.expire_mode && form.auto then "1" else "0");
    cycle = some (if is_date_mode form.expire_mode then form.cycle else "");
    amount = some amount;
  });
  expire_notify = some form.notify;
  weight = some (number_or 0 form.weight);
}

-- `state.settings.hosts[id] = host`, after `ensureSettings`.
unfoldable pub set_host : String → HostOverride → Console → Console
set_host id host c =
    let s = ensure_settings c.state in
    record c {
      state = record s {
        settings = record (s.settings) {
          hosts = some (insert id host (s.settings.hosts or_else []));
        };
      };
    }

-- Puts the server into a group whose box is checked, and out of any other.
unfoldable pub choose_group : List String → String → ServerGroup → ServerGroup
choose_group selected id group =
    let servers = set_of group.servers in
    record group {
      servers = if includes selected group.id then add id servers else delete id servers;
    }

unfoldable pub write_server : String → ServerForm → String → String → Console → Console
unfolding set_host choose_group set_server_groups
write_server id form expire_date amount c =
    let c' = set_host id (host_of_form form expire_date amount) c in
    set_server_groups (map (choose_group (set_of form.groups) id) (server_groups c')) c'

unfoldable pub apply_server_editor : String → ServerForm → Console → Result Console
unfolding write_server
apply_server_editor id form c = do
  expire_date ← read_server_expire_date form.expire_mode form.expire
  amount ← read_server_amount form.fee_mode form.amount form.currency form.custom_currency
  ok (write_server id form expire_date amount c)

-- `copiedServerAlias`
unfoldable pub copied_server_alias : ServerItem → String → String
copied_server_alias item id =
    let base = trim (item.alias or_text (item.id or_text (id or_text "server"))) or_text "server" in
    concat (base ∷ "-copy" ∷ [])

copied_host : ServerItem → String → HostOverride
copied_host item id = record {
  alias = some (copied_server_alias item id);
  note = some item.note;
  public_note = some item.public_note;
  spec = some item.spec;
  expire = some item.billing.end_date;
  billing = some (record {
    end_date = some item.billing.end_date;
    auto_renewal = some (item.billing.auto_renewal or_text "0");
    cycle = some item.billing.cycle;
    amount = some item.billing.amount;
  });
  expire_notify = some (item.expire_notify or_else true);
  weight = some (item.weight or_else nat 0);
}

-- The groups of a server, for the copy of it.
unfoldable pub copy_group : ServerItem → String → ServerGroup → ServerGroup
copy_group item id group =
    let servers = set_of group.servers in
    record group {
      servers =
          if includes servers item.id
            || item.gid == "default" && (group.id == "default" || group.name == "default")
          then add id servers
          else servers;
    }

unfoldable pub set_deleted_hosts : List String → Console → Console
set_deleted_hosts names c = record c {
  state = record c.state {
    deleted_hosts = names;
    settings = record c.settings { deleted_hosts = some names };
  };
}

-- The settings that `duplicateServer` sends; `id` is the new server's.
unfoldable pub duplicated : ServerItem → String → Console → Console
unfolding copied_host set_host copy_group set_deleted_hosts set_server_groups
duplicated item id c =
    let c' = set_host id (copied_host item id) c in
    let c'' = set_deleted_hosts (delete id c'.deleted_hosts) c' in
    set_server_groups (map (copy_group item id) (server_groups c'')) c''

abbrev pub is_online : Option Stat → Bool
is_online none = false
is_online (some stat) = stat.online4 || stat.online6

abbrev without_server : String → List String → List String
without_server id servers = filter (λ server. not (server == id)) servers

-- The settings that `deleteServer` sends.
unfoldable pub deleted : String → Console → Console
unfolding set_deleted_hosts set_server_groups
deleted id c =
    let s = ensure_settings c.state in
    let hosts = remove id (s.settings.hosts or_else []) in
    let c' : Console = record c {
      state = record s { settings = record (s.settings) { hosts = some hosts } };
    } in
    let c'' = set_deleted_hosts (add id c'.deleted_hosts) c' in
    let groups =
      map (λ (group : ServerGroup). record group { servers = without_server id group.servers })
        (server_groups c'') in
    let c₃ = set_server_groups groups c'' in
    record c₃ {
      state = record c₃.state {
        settings = record c₃.settings {
          alert_rules = some (
              map (λ (rule : AlertRule). record rule { servers = without_server id rule.servers })
                (c₃.settings.alert_rules or_else []));
        };
      };
    }
