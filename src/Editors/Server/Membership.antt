-- ===== src/Editors/Server/Membership.antt =====
-- What `applyServerEditor` and `deleteServer` of web/static/js/admin.js make of the settings: the
-- server's own entry, its groups, and what is left of it.
use server_status_rust_l.Prelude.{
  String, false, not, ◌&&◌, ◌||◌, none, some, List, [], ◌∷◌, map, ◌==◌, ◌≡◌, refl, ap, ◌∙◌, subst,
  arith, ◌or_else◌, includes, Member, if◌then◌else◌, Bool-cases, inl, inr, ◌⊎◌, sym, eq_iff,
  eq_refl,
}
use server_status_rust_l.Prelude.Dict.{
  includes-set_of, lookup, set_of, includes-add, includes-delete, lookup-insert, lookup-remove,
  Dict,
}
use server_status_rust_l.Settings.{HostOverride, ServerGroup, AlertRule, ensure_settings, ensured}
use server_status_rust_l.Servers.{Console}
use server_status_rust_l.Servers.Merge.{server_groups}
use server_status_rust_l.Editors.{set_server_groups}
use server_status_rust_l.Editors.Server.{
  Result, ok, err, ServerForm, choose_group, host_of_form, set_host, write_server,
  apply_server_editor, read_server_expire_date, read_server_amount, without_server, deleted,
  set_deleted_hosts,
}

-- A group keeps its other servers, and has this one exactly if it is selected.
choose_group_lem :
    (selected : List String) (id : String) (group : ServerGroup) (server : String)
    → includes (choose_group selected id group).servers server
      ≡ (if id == server then includes selected group.id else includes group.servers server)
unfolding choose_group
choose_group_lem selected id group server = elim (Bool-cases (includes selected group.id)) [
  | inl e ↦ rw e (
      ground (
        arith,
        includes-add id server (set_of group.servers),
        includes-set_of group.servers server,
      ))
  | inr e ↦ rw e (
      ground (
        arith,
        includes-delete id server (set_of group.servers),
        includes-set_of group.servers server,
      ))
]

abbrev pub hosts_of : Console → Dict HostOverride
hosts_of c = c.settings.hosts or_else []

pub Member-map :
    {A : Type 0} {B : Type 0} (f : A → B) (b : B) (xs : List A)
    → Member b (map f xs)
    → (a : A) × Member a xs × (b ≡ f a)
Member-map f b [] m = elim m [ ]
Member-map f b (x ∷ xs) (inl e) = (x, inl refl, e)
Member-map f b (x ∷ xs) (inr m) = let (a, n, e) = Member-map f b xs m in (a, inr n, e)

-- A group after the edit, beside the same group before it.
abbrev pub IsRegrouped : ServerForm → String → ServerGroup → ServerGroup → Type 0
IsRegrouped form id before after =
    (after.id ≡ before.id)
    × (after.name ≡ before.name)
    × ((server : String)
        → includes after.servers server ≡ (
            if id == server then includes form.groups after.id else includes before.servers server))

-- All groups after the edit, beside all those before it, in their order.
abbrev pub AreRegrouped : ServerForm → String → List ServerGroup → List ServerGroup → Type 0
AreRegrouped form id [] [] = Unit
AreRegrouped form id (before ∷ befores) (after ∷ afters) =
    IsRegrouped form id before after × AreRegrouped form id befores afters
AreRegrouped form id [] (after ∷ afters) = ⊥
AreRegrouped form id (before ∷ befores) [] = ⊥

-- What an edit that is accepted writes.
abbrev pub IsEdited : String → ServerForm → String → String → Console → Console → Type 0
IsEdited id form expire_date amount c c' =
    ((host : String)
      → lookup host (hosts_of c') ≡ (
          if id == host
          then some (host_of_form form expire_date amount)
          else lookup host (hosts_of c)))
    × AreRegrouped form id (server_groups (set_host id (host_of_form form expire_date amount) c))
        (c'.settings.server_groups or_else [])

regrouped :
    (form : ServerForm) (id : String) (before : ServerGroup)
    → IsRegrouped form id before (choose_group (set_of form.groups) id before)
unfolding choose_group
regrouped form id before = (
  refl,
  refl,
  λ server.
      choose_group_lem (set_of form.groups) id before server
      ∙ ap (λ b. if id == server then b else includes before.servers server)
          (includes-set_of form.groups before.id),
)

map-AreRegrouped :
    (form : ServerForm) (id : String) (groups : List ServerGroup)
    → AreRegrouped form id groups (map (choose_group (set_of form.groups) id) groups)
map-AreRegrouped form id [] = tt
map-AreRegrouped form id (group ∷ groups) =
    (regrouped form id group, map-AreRegrouped form id groups)

write_server-IsEdited :
    (id : String) (form : ServerForm) (expire_date amount : String) (c : Console)
    → IsEdited id form expire_date amount c (write_server id form expire_date amount c)
unfolding write_server set_host set_server_groups ensure_settings ensured
write_server-IsEdited id form expire_date amount c = (
  λ host. lookup-insert id host (host_of_form form expire_date amount) (hosts_of c),
  map-AreRegrouped form id (server_groups (set_host id (host_of_form form expire_date amount) c)),
)

pub Result-cases :
    {A : Type 0} (r : Result A) → ((a : A) × (r ≡ ok a)) ⊎ ((m : String) × (r ≡ err m))
Result-cases (ok a) = inl (a, refl)
Result-cases (err m) = inr (m, refl)

-- The dialog of a server is refused exactly when its date or its amount is. Otherwise the server's
-- entry is the one that the form describes, with that date and that amount, and every other entry
-- is as it was; and every group that there was is written, in the same order and under its id and
-- name, has this server exactly if the group's box is checked, and has every other server exactly if
-- it had it before.
pub apply_server_editor_lem :
    (id : String) (form : ServerForm) (c : Console)
    → ((message : String) × (apply_server_editor id form c ≡ err message)
        × ((read_server_expire_date form.expire_mode form.expire ≡ err message)
            ⊎ (read_server_amount form.fee_mode form.amount form.currency form.custom_currency
                ≡ err message)))
      ⊎ ((expire_date : String) × (amount : String) × (c' : Console) × (apply_server_editor id form
              c
            ≡ ok c')
          × (read_server_expire_date form.expire_mode form.expire ≡ ok expire_date)
          × (read_server_amount form.fee_mode form.amount form.currency form.custom_currency
              ≡ ok amount)
          × IsEdited id form expire_date amount c c')
unfolding apply_server_editor
apply_server_editor_lem id form c =
    elim (Result-cases (read_server_expire_date form.expire_mode form.expire)) [
      | inr (message, e) ↦ inl (message, rw e refl, inl e)
      | inl (expire_date, e) ↦
          elim (Result-cases
            (read_server_amount form.fee_mode form.amount form.currency form.custom_currency)) [
              | inr (message, f) ↦ inl (message, rw (e, f) refl, inr f)
              | inl (amount, f) ↦ inr (
                expire_date,
                amount,
                write_server id form expire_date amount c,
                rw (e, f) refl,
                e,
                f,
                write_server-IsEdited id form expire_date amount c,
              )
            ]
    ]

includes-without_server :
    (id server : String) (servers : List String)
    → includes (without_server id servers) server ≡ (not (id == server) && includes servers server)
unfolding includes
includes-without_server id server [] = ground arith
includes-without_server id server (s ∷ ss) =
    ground
      (arith, includes-without_server id server ss, eq_iff s server, eq_iff id server, eq_iff s id)

-- What the settings hold of a server that is deleted from them.
abbrev pub IsForgotten : String → Console → Console → Type 0
IsForgotten id c c' =
    ((host : String)
      → lookup host (hosts_of c') ≡ (if id == host then none else lookup host (hosts_of c)))
    × ((host : String)
        → includes c'.deleted_hosts host ≡ (id == host || includes c.deleted_hosts host))
    × (c'.settings.deleted_hosts ≡ some c'.deleted_hosts)
    × ((group : ServerGroup)
        → Member group (c'.settings.server_groups or_else [])
        → includes group.servers id ≡ false)
    × ((rule : AlertRule)
        → Member rule (c'.settings.alert_rules or_else [])
        → includes rule.servers id ≡ false)

pub not_in_without :
    (id : String) (servers : List String) → includes (without_server id servers) id ≡ false
not_in_without id servers = ground (arith, includes-without_server id id servers, eq_refl id)

-- Deleting a server takes away its entry and no other, and adds it, and no other, to the deleted
-- ones; no group and no alert rule names it any more.
pub deleted-IsForgotten : (id : String) (c : Console) → IsForgotten id c (deleted id c)
unfolding deleted set_deleted_hosts set_server_groups ensure_settings ensured
deleted-IsForgotten id c = (
  λ host. lookup-remove id host (hosts_of c),
  λ host. includes-add id host c.deleted_hosts,
  refl,
  λ group m.
      let (before, n, e) = Member-map _ group _ m in
      subst (λ (g : ServerGroup). includes g.servers id ≡ false) (sym e)
        (not_in_without id before.servers),
  λ rule m.
      let (before, n, e) = Member-map _ rule _ m in
      subst (λ (r : AlertRule). includes r.servers id ≡ false) (sym e)
        (not_in_without id before.servers),
)
