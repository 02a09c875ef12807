-- ===== src/AccessKeys/Next.antt =====
-- web/static/js/admin.js: `nextAccessKeyId`, the name of a new access key.
use server_status_rust_l.Prelude.{
  String, ℕ, zero, suc, ◌+◌, ◌<◌, ◌≤◌, true, false, not, ◌&&◌, Option, none, some, List, [], ◌∷◌,
  ◌==◌, ◌≡◌, refl, sym, ap, ◌∙◌, inl, inr, arith, eq_iff, Bool-cases, ltb, if◌then◌else◌, length,
  map, trim, to_string, includes,
}
use text.Mathlib.TextLemmas.{append_cancel_left}
use server_status_rust_l.Prelude.Dict.{delete, includes-delete}
use server_status_rust_l.Prelude.Decimal.{to_string_injective}
use server_status_rust_l.AccessKeys.{Row}
use Prim.Native.String

abbrev pub access_id : ℕ → String
access_id index = String.◌++◌ "access-" (to_string index)

-- The loop; a round for each used name and one more are enough.
next_from : ℕ → ℕ → List String → Option String
next_from zero index used = none
next_from (suc fuel) index used =
    let later = next_from fuel (index + 1) used in
    if includes used (access_id index) then later else some (access_id index)

abbrev pub used_ids : List Row → List String
used_ids rows = map (λ (row : Row). trim row.id) rows

unfoldable pub next_access_key_id : List Row → Option String
unfolding next_from
next_access_key_id rows = next_from (length (used_ids rows) + 1) 1 (used_ids rows)

access_id_injective : (m n : ℕ) → access_id m ≡ access_id n → m ≡ n
access_id_injective m n h =
    to_string_injective m n (append_cancel_left "access-" (to_string m) (to_string n) h)

other_id : (m n : ℕ) → m < n → (access_id m == access_id n) ≡ false
other_id m n h = elim (Bool-cases (access_id m == access_id n)) [
  | inl e ↦
      absurd (omega (arith, h, access_id_injective m n ((eq_iff (access_id m) (access_id n)).0 e)))
  | inr e ↦ e
]

length-delete : (t : String) (ss : List String) → length (delete t ss) ≤ length ss
unfolding delete
length-delete t [] = omega arith
length-delete t (s ∷ ss) = ground (arith, length-delete t ss)

length-delete_lt :
    (t : String) (ss : List String) → includes ss t ≡ true → length (delete t ss) < length ss
unfolding delete includes
length-delete_lt t [] h = absurd (cc)
length-delete_lt t (s ∷ ss) h = ground (arith, h, length-delete t ss, length-delete_lt t ss)

-- The first free index.
abbrev pub IsFirstFree : List String → ℕ → ℕ → Type 0
IsFirstFree used from k =
    (from ≤ k)
    × (includes used (access_id k) ≡ false)
    × ((j : ℕ) → from ≤ j → j < k → includes used (access_id j) ≡ true)

later-delete :
    (i j : ℕ) (used : List String)
    → i < j
    → includes (delete (access_id i) used) (access_id j) ≡ includes used (access_id j)
later-delete i j used h =
    includes-delete (access_id i) (access_id j) used
    ∙ ap (λ b. not b && includes used (access_id j)) (other_id i j h)

-- A name below the index does not matter.
next_from-delete :
    (fuel i index : ℕ) (used : List String)
    → i < index
    → next_from fuel index (delete (access_id i) used) ≡ next_from fuel index used
unfolding next_from
next_from-delete zero i index used h = refl
next_from-delete (suc fuel) i index used h =
    rw (next_from-delete fuel i (index + 1) used (omega (arith, h)), later-delete i index used h)
      refl

next_from_lem :
    (fuel index : ℕ) (used : List String)
    → length used < fuel
    → (k : ℕ) × (next_from fuel index used ≡ some (access_id k)) × IsFirstFree used index k
unfolding next_from
next_from_lem zero index used h = absurd (omega (arith, h))
next_from_lem (suc fuel) index used h = elim (Bool-cases (includes used (access_id index))) [
  | inr e ↦ (index, rw e refl, (omega arith, e, λ j a b. absurd (omega (arith, a, b))))
  | inl e ↦
      let (k, found, first) =
        next_from_lem fuel (index + 1) (delete (access_id index) used)
          (omega (arith, h, length-delete_lt (access_id index) used e)) in
      let (least, free, below) = first in
      (
        k,
        rw e (sym (next_from-delete fuel index (index + 1) used (omega arith)) ∙ found),
        (
          omega (arith, least),
          sym (later-delete index k used (omega (arith, least))) ∙ free,
          λ j a b. elim (Bool-cases (ltb index j)) [
            | inl l ↦
                sym (later-delete index j used (ground (arith, l))) ∙ below j (ground (arith, l)) b
            | inr l ↦ ap (λ i. includes used (access_id i)) (ground (arith, l, a)) ∙ e
          ],
        ),
      )
]

-- The name of a new key is found, whatever the rows are named: it is `access-` with the least number
-- from 1 that no row has, so that it is no other row's name.
pub next_access_key_id_lem :
    (rows : List Row)
    → (k : ℕ) × (next_access_key_id rows ≡ some (access_id k)) × IsFirstFree (used_ids rows) 1 k
unfolding next_access_key_id
next_access_key_id_lem rows =
    next_from_lem (length (used_ids rows) + 1) 1 (used_ids rows) (omega arith)
