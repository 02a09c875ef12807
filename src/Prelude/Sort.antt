-- ===== src/Prelude/Sort.antt =====
-- `Array.prototype.sort` with a comparator: a stable sort. `le x y` says that the comparator's
-- answer for `x` and `y` is not positive.
use server_status_rust_l.Prelude.Tests.{if◌then◌else◌, Bool-cases}
use server_status_rust_l.Prelude.Lists.{Member, take, length}
use Prim.Native.Nat.{ℕ, zero, suc}
use mathlib.Core.Path.{◌≡◌, refl, ap}
use mathlib.Core.Logic.{◌⊎◌, ◌↔◌, inl, inr}
use mathlib.Core.Bool.{Bool, true, false}
use mathlib.Core.List.{List, [], ◌∷◌}
use native.Mathlib.Omega.{arith}

module _ {A : Type 0} (le : A → A → Bool) where
  insert_by : A → List A → List A
  insert_by x [] = x ∷ []
  insert_by x (y ∷ ys) = if le x y then x ∷ y ∷ ys else y ∷ insert_by x ys

  unfoldable pub sort_by : List A → List A
  unfolding insert_by
  sort_by [] = []
  sort_by (x ∷ xs) = insert_by x (sort_by xs)

  -- Every element is related to every later one.
  abbrev pub IsSorted : List A → Type 0
  IsSorted [] = Unit
  IsSorted (x ∷ xs) = ((y : A) → Member y xs → le x y ≡ true) × IsSorted xs

  Member-insert_by : (a x : A) (ys : List A) → Member a (insert_by x ys) ↔ ((a ≡ x) ⊎ Member a ys)
  unfolding insert_by
  Member-insert_by a x [] = ground arith
  Member-insert_by a x (y ∷ ys) = grind (arith, Member-insert_by a x ys)

  pub Member-sort_by : (a : A) (xs : List A) → Member a (sort_by xs) ↔ Member a xs
  unfolding sort_by
  Member-sort_by a [] = ground arith
  Member-sort_by a (x ∷ xs) = grind (arith, Member-sort_by a xs, Member-insert_by a x (sort_by xs))

  length-insert_by : (x : A) (ys : List A) → length (insert_by x ys) ≡ suc (length ys)
  unfolding insert_by
  length-insert_by x [] = refl
  length-insert_by x (y ∷ ys) = ground (arith, length-insert_by x ys)

  pub length-sort_by : (xs : List A) → length (sort_by xs) ≡ length xs
  unfolding sort_by
  length-sort_by [] = refl
  length-sort_by (x ∷ xs) = omega (arith, length-insert_by x (sort_by xs), length-sort_by xs)

  below_cons :
      (n : ℕ) (x : A) (xs : List A) (a : A)
      → le x a ≡ true
      → ((b : A) → Member b (take n xs) → le b a ≡ true)
      → (b : A) → Member b (x ∷ take n xs)
      → le b a ≡ true
  below_cons n x xs a h below b (inl e) = rw e h
  below_cons n x xs a h below b (inr m) = below b m

  module _ (total : (x y : A) → le x y ≡ false → le y x ≡ true)
      (trans : (x y z : A) → le x y ≡ true → le y z ≡ true → le x z ≡ true) where
    before_all :
        (y : A) (ys : List A) (x : A)
        → le x y ≡ true
        → ((z : A) → Member z ys → le y z ≡ true)
        → (z : A) → Member z (y ∷ ys)
        → le x z ≡ true
    before_all y ys x e first z (inl p) = rw p e
    before_all y ys x e first z (inr m) = trans x y z e (first z m)

    insert_by-IsSorted : (x : A) (ys : List A) → IsSorted ys → IsSorted (insert_by x ys)
    unfolding insert_by
    insert_by-IsSorted x [] h = ((λ y m. elim m [ ]), tt)
    insert_by-IsSorted x (y ∷ ys) (first, rest) = elim (Bool-cases (le x y)) [
      | inl e ↦ rw e ((λ z m. before_all y ys x e first z m), (first, rest))
      | inr e ↦ rw e (
        (λ z m. elim ((Member-insert_by z x ys).0 m) [
          | inl p ↦ rw p (total x y e)
          | inr m' ↦ first z m'
        ]),
        insert_by-IsSorted x ys rest,
      )
    ]

    pub sort_by-IsSorted : (xs : List A) → IsSorted (sort_by xs)
    unfolding sort_by
    sort_by-IsSorted [] = tt
    sort_by-IsSorted (x ∷ xs) = insert_by-IsSorted x (sort_by xs) (sort_by-IsSorted xs)

  -- A member of a sorted list is among the first `n`, or these are `n` members not above it.
  pub take_of_IsSorted :
      (n : ℕ) (xs : List A) (a : A)
      → IsSorted xs
      → Member a xs
      → Member a (take n xs)
        ⊎ ((length (take n xs) ≡ n) × ((b : A) → Member b (take n xs) → le b a ≡ true))
  take_of_IsSorted zero xs a s m = inr (refl, λ b mb. elim mb [ ])
  take_of_IsSorted (suc n) (x ∷ xs) a s (inl e) = inl (inl e)
  take_of_IsSorted (suc n) (x ∷ xs) a s (inr m) = elim (take_of_IsSorted n xs a s.1 m) [
    | inl near ↦ inl (inr near)
    | inr (full, below) ↦ inr (ap suc full, below_cons n x xs a (s.0 a m) below)
  ]
  take_of_IsSorted (suc n) [] a s m = elim m [ ]
