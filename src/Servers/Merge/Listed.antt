-- ===== src/Servers/Merge/Listed.antt =====
-- Which servers `serverItems` of web/static/js/admin.js lists.
use server_status_rust_l.Prelude.{
  String, Bool, true, false, not, ◌&&◌, ◌||◌, none, some, List, [], ◌∷◌, ◌≡◌, refl, ap, ◌∙◌, arith,
  map, ◌==◌, eq_iff, includes, filter, find,
}
use server_status_rust_l.Prelude.Dict.{Dict, has, keys, values, IsDistinct}
use server_status_rust_l.Servers.{ConfigHost, Stat, Console, ServerItem, all_hosts}
use server_status_rust_l.Servers.Keys.{IsKeyed, all_hosts-IsHostMap, is_known, has-all_hosts}
use server_status_rust_l.Servers.Merge.{
  server_groups_for_server, stat_of, deleted_set, is_shown, server_item, server_items,
}

abbrev pub ids : List ServerItem → List String
ids items = map (λ (item : ServerItem). item.id) items

-- Whether a server of that name is among the reports.
unfoldable pub is_reporting : Console → String → Bool
is_reporting c k = includes (map (λ (s : Stat). s.name) c.stats) k

names : List ConfigHost → List String
names [] = []
names (host ∷ hosts) = host.name ∷ names hosts

-- The test of `is_shown`, of a name.
shown_name : Console → String → Bool
shown_name c k = elim (stat_of c k) [ some stat ↦ true | none ↦ not (includes (deleted_set c) k) ]

stat_of-is_reporting :
    (l : List Stat) (k : String)
    → elim (find (λ (s : Stat). s.name == k) l) [ some stat ↦ true | none ↦ false ]
      ≡ includes (map (λ (s : Stat). s.name) l) k
unfolding includes
stat_of-is_reporting [] k = refl
stat_of-is_reporting (s ∷ l) k = ground (arith, stat_of-is_reporting l k)

shown_name_lem :
    (c : Console) (k : String)
    → shown_name c k ≡ (is_reporting c k || not (includes (deleted_set c) k))
unfolding shown_name is_reporting stat_of
shown_name_lem c k = ground (arith, stat_of-is_reporting c.stats k)

ids-items_with :
    (c : Console) (groups : String → String → List String) (l : List ConfigHost)
    → ids (map (server_item c groups) l) ≡ names l
unfolding server_item names
ids-items_with c groups [] = refl
ids-items_with c groups (host ∷ l) = ap (◌∷◌ host.name) (ids-items_with c groups l)

-- A list of hosts under their names, filtered by a test of the name.
module _ (p : ConfigHost → Bool) (q : String → Bool)
    (same : (h : ConfigHost) → p h ≡ q h.name) where
  includes-names-filter :
      (d : Dict ConfigHost) (k : String)
      → IsKeyed d
      → includes (names (filter p (values d))) k ≡ (has k d && q k)
  unfolding names includes has
  includes-names-filter [] k h = refl
  includes-names-filter ((i, host) ∷ d) k h =
      ground (arith, includes-names-filter d k, same host, eq_iff i k, eq_iff host.name k)

  names-filter-IsDistinct :
      (d : Dict ConfigHost)
      → IsKeyed d
      → IsDistinct (keys d)
      → IsDistinct (names (filter p (values d)))
  unfolding names has
  names-filter-IsDistinct [] h e = tt
  names-filter-IsDistinct ((i, host) ∷ d) h e =
      ground (arith, names-filter-IsDistinct d, includes-names-filter d host.name)

-- The list names each server once, and it names exactly those that report, whether deleted or not,
-- and those that have not been deleted and stand in the configuration or in the settings.
pub ids-server_items :
    (c : Console)
    → IsDistinct (ids (server_items c))
      × ((k : String)
          → includes (ids (server_items c)) k
            ≡ (is_known c k && (is_reporting c k || not (includes (deleted_set c) k))))
unfolding server_items is_shown shown_name
ids-server_items c =
    let d = all_hosts c in
    let m = all_hosts-IsHostMap c in
    let groups = server_groups_for_server c in
    let listed = filter (is_shown c) (values d) in
    rw (ids-items_with c groups listed) (
      names-filter-IsDistinct (is_shown c) (shown_name c) (λ h. refl) d m.keyed m.distinct,
      λ k.
          includes-names-filter (is_shown c) (shown_name c) (λ h. refl) d k m.keyed
          ∙ ground (arith, has-all_hosts c k, shown_name_lem c k),
    )
