-- ===== src/Expiry/Rows/Replace.antt =====
-- What `replaceManagedNode` and `decorateRows` of web/static/js/expiry.js leave in the document.
use server_status_rust_l.Prelude.{
  ℕ, false, Option, none, some, List, [], ◌∷◌, ◌++◌, ◌≡◌, refl, arith, Bool-cases, Option-cases, ap,
  inl, inr,
}
use server_status_rust_l.Expiry.{Server}
use server_status_rust_l.Expiry.Element.{Element, same_html, same_html_sound, same_html_refl}
use server_status_rust_l.Expiry.Rows.{
  Child, managed, other, drop_managed, first_managed, keep_first, replace_first,
  replace_managed_node, Row, replace_if_there, is_there, decorate_rows, row_line, detail_line,
}

-- The managed nodes of a container, in order, and the other nodes.
abbrev pub managed_nodes : List Child → List Element
managed_nodes [] = []
managed_nodes (managed e ∷ cs) = e ∷ managed_nodes cs
managed_nodes (other n ∷ cs) = managed_nodes cs

abbrev pub other_nodes : List Child → List ℕ
other_nodes [] = []
other_nodes (managed e ∷ cs) = other_nodes cs
other_nodes (other n ∷ cs) = n ∷ other_nodes cs

managed-drop : (cs : List Child) → managed_nodes (drop_managed cs) ≡ []
unfolding drop_managed
managed-drop [] = refl
managed-drop (managed e ∷ cs) = managed-drop cs
managed-drop (other n ∷ cs) = managed-drop cs

other-drop : (cs : List Child) → other_nodes (drop_managed cs) ≡ other_nodes cs
unfolding drop_managed
other-drop [] = refl
other-drop (managed e ∷ cs) = other-drop cs
other-drop (other n ∷ cs) = ap (◌∷◌ n) (other-drop cs)

-- A container after the call: the next node alone, among the nodes that were there.
abbrev HoldsOnly : Element → List ℕ → List Child → Type 0
HoldsOnly next others cs = (managed_nodes cs ≡ next ∷ []) × (other_nodes cs ≡ others)

keep_first_lem :
    (cs : List Child) (e : Element)
    → first_managed cs ≡ some e
    → HoldsOnly e (other_nodes cs) (keep_first cs)
unfolding keep_first first_managed
keep_first_lem [] e h = absurd (cc)
keep_first_lem (managed c ∷ cs) e h = ground (arith, managed-drop cs, other-drop cs)
keep_first_lem (other n ∷ cs) e h = ground (arith, keep_first_lem cs e h)

replace_first_lem :
    (cs : List Child) (e next : Element)
    → first_managed cs ≡ some e
    → HoldsOnly next (other_nodes cs) (replace_first next (keep_first cs))
unfolding keep_first first_managed replace_first
replace_first_lem [] e next h = absurd (cc)
replace_first_lem (managed c ∷ cs) e next h = ground (arith, managed-drop cs, other-drop cs)
replace_first_lem (other n ∷ cs) e next h = ground (arith, replace_first_lem cs e next h)

append_lem :
    (cs : List Child) (next : Element)
    → first_managed cs ≡ none
    → HoldsOnly next (other_nodes cs) (keep_first cs ++ managed next ∷ [])
unfolding keep_first first_managed
append_lem [] next h = (refl, refl)
append_lem (managed c ∷ cs) next h = absurd (cc)
append_lem (other n ∷ cs) next h = ground (arith, append_lem cs next h)

-- Whatever was in the container, the call leaves one managed node in it, the one given, and
-- leaves the other nodes as they were.
pub replace_managed_node_lem :
    (cs : List Child) (next : Element)
    → (managed_nodes (replace_managed_node cs next).0 ≡ next ∷ [])
      × (other_nodes (replace_managed_node cs next).0 ≡ other_nodes cs)
unfolding replace_managed_node
replace_managed_node_lem cs next = elim (Option-cases (first_managed cs)) [
  | inl e ↦ rw (e, replace_managed_node) (append_lem cs next e)
  | inr (current, e) ↦ elim (Bool-cases (same_html current next)) [
    | inl same ↦
        rw (e, replace_managed_node, same)
          (rw (← same_html_sound current next same) (keep_first_lem cs current e))
    | inr differs ↦ rw (e, replace_managed_node, differs) (replace_first_lem cs current next e)
  ]
]

drop_managed_of_nil : (cs : List Child) → managed_nodes cs ≡ [] → drop_managed cs ≡ cs
unfolding drop_managed
drop_managed_of_nil [] h = refl
drop_managed_of_nil (managed e ∷ cs) h = absurd (cc)
drop_managed_of_nil (other n ∷ cs) h = ap (◌∷◌ (other n)) (drop_managed_of_nil cs h)

keep_first_of_managed :
    (cs : List Child) (next : Element)
    → managed_nodes cs ≡ next ∷ []
    → (first_managed cs ≡ some next) × (keep_first cs ≡ cs)
unfolding keep_first first_managed
keep_first_of_managed [] next h = absurd (cc)
keep_first_of_managed (managed e ∷ cs) next h = ground (arith, drop_managed_of_nil cs)
keep_first_of_managed (other n ∷ cs) next h = ground (arith, keep_first_of_managed cs next h)

-- A container that holds the given node alone is not touched.
unchanged_of_managed :
    (cs : List Child) (next : Element)
    → managed_nodes cs ≡ next ∷ []
    → replace_managed_node cs next ≡ (cs, false)
unfolding replace_managed_node
unchanged_of_managed cs next h =
    let (first, kept) = keep_first_of_managed cs next h in
    rw (first, replace_managed_node, same_html_refl next) (ap (λ c. (c, false)) kept)

replace_if_there_twice :
    (c : Option (List Child)) (next : Element)
    → replace_if_there (replace_if_there c next).0 next ≡ ((replace_if_there c next).0, 0)
unfolding replace_if_there
replace_if_there_twice none next = refl
replace_if_there_twice (some cs) next =
    rw (unchanged_of_managed _ next (replace_managed_node_lem cs next).0)

is_there_lem :
    (c : Option (List Child)) (next : Element) → is_there (replace_if_there c next).0 ≡ is_there c
unfolding replace_if_there
is_there_lem none next = refl
is_there_lem (some cs) next = refl

-- A second pass over the rows with the same servers changes nothing, finds the same rows and
-- reports no change, so the observer of the table comes to rest.
pub decorate_rows_twice :
    (servers : List Server) (rows : List Row)
    → decorate_rows servers (decorate_rows servers rows).rows
      ≡ record (decorate_rows servers rows) { changed_rows = 0 }
unfolding decorate_rows
decorate_rows_twice [] rows = refl
decorate_rows_twice (server ∷ servers) [] = refl
decorate_rows_twice (server ∷ servers) (row ∷ rows) = ground (
  arith,
  replace_if_there_twice row.cell (row_line server),
  replace_if_there_twice row.expanded_grid (detail_line server),
  is_there_lem row.cell (row_line server),
  decorate_rows_twice servers rows,
)
