-- ===== src/AccessKeys/Names.antt =====
-- What web/static/js/admin.js collects from the rows of the access keys.
use server_status_rust_l.Prelude.{
  append-nil, append_assoc, String, Bool, true, false, not, ◌&&◌, Option, none, some, List, [], ◌∷◌,
  map, ◌≡◌, refl, arith, includes, trim, is_empty, eq_iff, Option-cases, inl, inr, if◌then◌else◌,
  ◌∙◌, ap, sym, subst, ◌++◌,
}
use server_status_rust_l.Prelude.Dict.{
  Dict, insert, keys, add, delete, set_of, includes-delete, IsDistinct, add-IsDistinct,
}
use server_status_rust_l.AccessKeys.{
  Row, Collected, key_of_row, is_renamed, collect_row, collect_rows, collect_access_keys,
}

-- The names in the fields, and those that name one row each.
abbrev pub ids : List Row → List String
ids rows = map (λ (row : Row). trim row.id) rows

keys-insert : {V : Type 0} (k : String) (v : V) (d : Dict V) → keys (insert k v d) ≡ add k (keys d)
unfolding insert add includes
keys-insert k v [] = refl
keys-insert k v ((j, w) ∷ d) = ground (arith, keys-insert k v d, eq_iff j k)

some_inj : {A : Type 0} (a b : A) → some a ≡ some b → a ≡ b
some_inj a b h = cc

passed :
    {A : Type 0} (b : Bool) (o : Option A) (a : A)
    → (if b then none else o) ≡ some a
    → (b ≡ false) × (o ≡ some a)
passed true o a h = absurd (cc)
passed false o a h = (refl, h)

-- What one row that is let pass does.
collect_row_lem :
    (row : Row) (c c' : Collected)
    → collect_row row c ≡ some c'
    → (includes c.seen (trim row.id) ≡ false)
      × (c'.seen ≡ add (trim row.id) c.seen)
      × (keys c'.access_keys ≡ add (trim row.id) (keys c.access_keys))
      × (c'.deleted ≡ (
          if is_renamed row
          then add row.old_id (delete (trim row.id) c.deleted)
          else delete (trim row.id) c.deleted))
unfolding collect_row
collect_row_lem row c c' h =
    let (named, h₁) = passed (is_empty (trim row.id)) _ c' h in
    let (fresh, h₂) = passed (includes c.seen (trim row.id)) _ c' h₁ in
    let (safe, h₃) = passed (row.unsaved && is_empty (trim row.password)) _ c' h₂ in
    let same = some_inj _ c' h₃ in
    (
      fresh,
      ap (λ (x : Collected). x.seen) (sym same),
      ap (λ (x : Collected). keys x.access_keys) (sym same)
          ∙ keys-insert (trim row.id) (key_of_row row) c.access_keys,
      ap (λ (x : Collected). x.deleted) (sym same),
    )

-- No row has been given another name.
abbrev pub NoneRenamed : List Row → Type 0
NoneRenamed [] = Unit
NoneRenamed (row ∷ rows) = (is_renamed row ≡ false) × NoneRenamed rows

add-fresh : (t : String) (ss : List String) → includes ss t ≡ false → add t ss ≡ ss ++ t ∷ []
unfolding add
add-fresh t ss h = rw h refl

-- The variables of the loop, between two rows.
record IsConsistent (c : Collected) : Type 0 where
  same : keys c.access_keys ≡ c.seen
  distinct : IsDistinct c.seen

collect_row-IsConsistent :
    (row : Row) (c c' : Collected) → collect_row row c ≡ some c' → IsConsistent c → IsConsistent c'
collect_row-IsConsistent row c c' h i =
    let (fresh, seen, named, deleted) = collect_row_lem row c c' h in
    record {
      same = named ∙ ap (add (trim row.id)) i.same ∙ sym seen;
      distinct = subst IsDistinct (sym seen) (add-IsDistinct (trim row.id) c.seen i.distinct);
    }

collect_rows_lem :
    (rows : List Row) (c c' : Collected)
    → collect_rows rows c ≡ some c'
    → IsConsistent c
    → IsConsistent c'
      × (c'.seen ≡ c.seen ++ ids rows)
      × (NoneRenamed rows
          → (k : String)
          → includes c'.deleted k ≡ (includes c.deleted k && not (includes (ids rows) k)))
unfolding collect_rows includes
collect_rows_lem [] c c' h i =
    let same = some_inj c c' h in
    (
      subst IsConsistent same i,
      ap (λ (x : Collected). x.seen) (sym same) ∙ sym (append-nil c.seen),
      λ n k. ground (arith, ap (λ (x : Collected). includes x.deleted k) same),
    )
collect_rows_lem (row ∷ rows) c c' h i = elim (Option-cases (collect_row row c)) [
  | inl e ↦ absurd (cc (rw (e, collect_rows) at h))
  | inr (next, e) ↦
      let (fresh, seen, named, deleted) = collect_row_lem row c next e in
      let (j, all_seen, kept) =
        collect_rows_lem rows next c' (rw (e, collect_rows) at h)
          (collect_row-IsConsistent row c next e i) in
      (
        j,
        all_seen
            ∙ ap (λ l. l ++ ids rows) (seen ∙ add-fresh (trim row.id) c.seen fresh)
            ∙ append_assoc c.seen (trim row.id ∷ []) (ids rows),
        λ n k.
            let only_deleted : next.deleted ≡ delete (trim row.id) c.deleted =
              deleted ∙ rw n.0 refl in
            ground (
              arith,
              kept n.1 k,
              ap (λ l. includes l k) only_deleted,
              includes-delete (trim row.id) k c.deleted,
            ),
      )
]

-- The names that are collected are exactly those in the fields, each once, and no two rows have the same
-- name. If no row has been renamed, the names that are deleted are exactly those that were and that no row has.
pub collect_access_keys_lem :
    (rows : List Row) (deleted_access_keys : List String) (c : Collected)
    → collect_access_keys rows deleted_access_keys ≡ some c
    → ((k : String) → includes (keys c.access_keys) k ≡ includes (ids rows) k)
      × IsDistinct (keys c.access_keys)
      × IsDistinct (ids rows)
      × (NoneRenamed rows
          → (k : String)
          → includes c.deleted k
            ≡ (includes (set_of deleted_access_keys) k && not (includes (ids rows) k)))
unfolding collect_access_keys
collect_access_keys_lem rows deleted_access_keys c h =
    let (i, seen, kept) = collect_rows_lem rows _ c h (record { same = refl; distinct = tt }) in
    (
      λ k. ap (λ names. includes names k) (i.same ∙ seen),
      subst IsDistinct (sym i.same) i.distinct,
      subst IsDistinct seen i.distinct,
      kept,
    )
