-- ===== src/Servers/Keys.antt =====
-- The `Map` of hosts that `serverItems` of web/static/js/admin.js builds: its keys are the names of
-- its hosts, each once, and which names these are.
use server_status_rust_l.Prelude.{
  String, Bool, false, ◌||◌, List, [], ◌∷◌, ◌≡◌, refl, arith, map, ◌==◌, eq_iff, includes,
  Bool-cases, inl, inr, ◌or_else◌,
}
use server_status_rust_l.Prelude.Dict.{Dict, insert, has, keys, IsDistinct}
use server_status_rust_l.Settings.{HostOverride}
use server_status_rust_l.Servers.{
  ConfigHost, Stat, Console, add_config_hosts, add_missing, add_reported, add_overridden, all_hosts,
  reported_host, overridden_host,
}

module _ {ℓ} {V : Type ℓ} where
  pub has-insert : (k j : String) (v : V) (d : Dict V) → has j (insert k v d) ≡ (k == j || has j d)
  unfolding insert has
  has-insert k j v [] = refl
  has-insert k j v ((i, w) ∷ d) =
      ground (arith, has-insert k j v d, eq_iff i k, eq_iff i j, eq_iff k j)

  pub insert-IsDistinct :
      (k : String) (v : V) (d : Dict V) → IsDistinct (keys d) → IsDistinct (keys (insert k v d))
  unfolding insert has
  insert-IsDistinct k v [] h = (refl, tt)
  insert-IsDistinct k v ((i, w) ∷ d) h =
      ground (arith, insert-IsDistinct k v d, has-insert k i v d, eq_iff i k, eq_iff k i)

-- Every host stands under its own name.
abbrev pub IsKeyed : Dict ConfigHost → Type 0
IsKeyed [] = Unit
IsKeyed ((k, host) ∷ d) = (k ≡ host.name) × IsKeyed d

insert-IsKeyed :
    (host : ConfigHost) (d : Dict ConfigHost) → IsKeyed d → IsKeyed (insert host.name host d)
unfolding insert
insert-IsKeyed host [] h = (refl, tt)
insert-IsKeyed host ((i, w) ∷ d) h = ground (arith, insert-IsKeyed host d)

pub record IsHostMap (d : Dict ConfigHost) : Type 0 where
  pub distinct : IsDistinct (keys d)
  pub keyed : IsKeyed d

insert-IsHostMap :
    (host : ConfigHost) (d : Dict ConfigHost) → IsHostMap d → IsHostMap (insert host.name host d)
insert-IsHostMap host d h = record {
  distinct = insert-IsDistinct host.name host d h.distinct;
  keyed = insert-IsKeyed host d h.keyed;
}

add_config_hosts-IsHostMap :
    (l : List ConfigHost) (d : Dict ConfigHost) → IsHostMap d → IsHostMap (add_config_hosts l d)
unfolding add_config_hosts
add_config_hosts-IsHostMap [] d h = h
add_config_hosts-IsHostMap (host ∷ l) d h =
    add_config_hosts-IsHostMap l _ (insert-IsHostMap host d h)

add_missing-IsHostMap :
    (host : ConfigHost) (d : Dict ConfigHost)
    → IsHostMap d
    → IsHostMap (add_missing host.name host d)
unfolding add_missing
add_missing-IsHostMap host d h = elim (Bool-cases (has host.name d)) [
  | inl e ↦ rw e h
  | inr e ↦ rw e (insert-IsHostMap host d h)
]

add_reported-IsHostMap :
    (l : List Stat) (d : Dict ConfigHost) → IsHostMap d → IsHostMap (add_reported l d)
unfolding add_reported
add_reported-IsHostMap [] d h = h
add_reported-IsHostMap (server ∷ l) d h = add_reported-IsHostMap l _ (add_missing-IsHostMap _ d h)

add_overridden-IsHostMap :
    (l : Dict HostOverride) (d : Dict ConfigHost) → IsHostMap d → IsHostMap (add_overridden l d)
unfolding add_overridden
add_overridden-IsHostMap [] d h = h
add_overridden-IsHostMap ((id, over) ∷ l) d h =
    add_overridden-IsHostMap l _ (add_missing-IsHostMap _ d h)

pub all_hosts-IsHostMap : (c : Console) → IsHostMap (all_hosts c)
unfolding all_hosts
all_hosts-IsHostMap c =
    let configured = add_config_hosts c.config_hosts [] in
    let first =
      add_config_hosts-IsHostMap c.config_hosts [] (record { distinct = tt; keyed = tt }) in
    add_overridden-IsHostMap (c.settings.hosts or_else []) (add_reported c.stats configured)
      (add_reported-IsHostMap c.stats configured first)

has-nil : (k : String) → has {V = ConfigHost} k [] ≡ false
unfolding has
has-nil k = refl

has-add_config_hosts :
    (l : List ConfigHost) (d : Dict ConfigHost) (k : String)
    → has k (add_config_hosts l d) ≡ (includes (map (λ (h : ConfigHost). h.name) l) k || has k d)
unfolding add_config_hosts includes
has-add_config_hosts [] d k = refl
has-add_config_hosts (host ∷ l) d k =
    ground
      (arith, has-add_config_hosts l (insert host.name host d) k, has-insert host.name k host d)

has-add_missing :
    (name : String) (host : ConfigHost) (d : Dict ConfigHost) (k : String)
    → has k (add_missing name host d) ≡ (name == k || has k d)
unfolding add_missing
has-add_missing name host d k = ground (arith, has-insert name k host d, eq_iff name k)

has-add_reported :
    (l : List Stat) (d : Dict ConfigHost) (k : String)
    → has k (add_reported l d) ≡ (includes (map (λ (s : Stat). s.name) l) k || has k d)
unfolding add_reported includes
has-add_reported [] d k = refl
has-add_reported (server ∷ l) d k =
    let host = reported_host server in
    ground (
      arith,
      has-add_reported l (add_missing server.name host d) k,
      has-add_missing server.name host d k,
    )

has-add_overridden :
    (l : Dict HostOverride) (d : Dict ConfigHost) (k : String)
    → has k (add_overridden l d) ≡ (includes (keys l) k || has k d)
unfolding add_overridden includes
has-add_overridden [] d k = refl
has-add_overridden ((id, over) ∷ l) d k =
    let host = overridden_host id over in
    ground (arith, has-add_overridden l (add_missing id host d) k, has-add_missing id host d k)

-- The names that the console knows: configured, reporting, or named by the settings.
unfoldable pub is_known : Console → String → Bool
is_known c k =
    includes (map (λ (h : ConfigHost). h.name) c.config_hosts) k
    || (includes (map (λ (s : Stat). s.name) c.stats) k
        || includes (keys (c.settings.hosts or_else [])) k)

pub has-all_hosts : (c : Console) (k : String) → has k (all_hosts c) ≡ is_known c k
unfolding all_hosts is_known
has-all_hosts c k =
    let configured = add_config_hosts c.config_hosts [] in
    ground (
      arith,
      has-add_overridden (c.settings.hosts or_else []) (add_reported c.stats configured) k,
      has-add_reported c.stats configured k,
      has-add_config_hosts c.config_hosts [] k,
      has-nil k,
    )
