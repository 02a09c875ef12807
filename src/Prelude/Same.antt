-- ===== src/Prelude/Same.antt =====
-- Whether two JSON values have the same text, as `JSON.stringify` writes it: the order of keys counts.
use Prim.Native.String.{String}
use mathlib.Core.Bool.{Bool, true, false, ◌&&◌}
use mathlib.Core.Path.{◌≡◌, refl, ap}
use native.Mathlib.Omega.{arith}
use text.Mathlib.Text.{◌==◌}
use text.Mathlib.TextEquality.{eq_iff}
use text.Mathlib.TextPositions.{eq_refl}
use server_status_rust_l.Prelude.Tests.{eqb}
use server_status_rust_l.Prelude.Json.{
  Json, null, bool, num, str, arr, obj, Number, nat, other, Items, nil, cons, Fields, end, field,
}

abbrev same_number : Number → Number → Bool
same_number (nat m) (nat n) = eqb m n
same_number (other s) (other t) = s == t
same_number _ _ = false

abbrev same_bool : Bool → Bool → Bool
same_bool true b = b
same_bool false true = false
same_bool false false = true

unfoldable mutual
  pub same_json : Json → Json → Bool
  same_json null null = true
  same_json (bool a) (bool b) = same_bool a b
  same_json (num m) (num n) = same_number m n
  same_json (str s) (str t) = s == t
  same_json (arr a) (arr b) = same_items a b
  same_json (obj a) (obj b) = same_fields a b
  same_json _ _ = false

  pub same_items : Items → Items → Bool
  same_items nil nil = true
  same_items (cons a l) (cons b m) = same_json a b && same_items l m
  same_items _ _ = false

  pub same_fields : Fields → Fields → Bool
  same_fields end end = true
  same_fields (field j a l) (field k b m) = j == k && same_json a b && same_fields l m
  same_fields _ _ = false

-- What is written of a value: a number that is named by a text as `number` gives it, and all else as it is.
unfoldable mutual
  pub stable_json : (String → Json) → Json → Json
  stable_json number null = null
  stable_json number (bool b) = bool b
  stable_json number (num (nat n)) = num (nat n)
  stable_json number (num (other text)) = number text
  stable_json number (str s) = str s
  stable_json number (arr items) = arr (stable_items number items)
  stable_json number (obj fields) = obj (stable_fields number fields)

  pub stable_items : (String → Json) → Items → Items
  stable_items number nil = nil
  stable_items number (cons value items) =
      cons (stable_json number value) (stable_items number items)

  pub stable_fields : (String → Json) → Fields → Fields
  stable_fields number end = end
  stable_fields number (field key value fields) =
      field key (stable_json number value) (stable_fields number fields)

both : (p q : Bool) → (p && q) ≡ true → (p ≡ true) × (q ≡ true)
both p q h = ground arith

mutual
  unfolding same_json same_items same_fields

  pub same_json_sound : (a b : Json) → same_json a b ≡ true → a ≡ b
  same_json_sound null null h = refl
  same_json_sound (bool a) (bool b) h = ap bool (ground arith)
  same_json_sound (num (nat m)) (num (nat n)) h = ground arith
  same_json_sound (num (other s)) (num (other t)) h = ap (λ u. num (other u)) ((eq_iff s t).0 h)
  same_json_sound (str s) (str t) h = ap str ((eq_iff s t).0 h)
  same_json_sound (arr a) (arr b) h = ap arr (same_items_sound a b h)
  same_json_sound (obj a) (obj b) h = ap obj (same_fields_sound a b h)
  same_json_sound _ _ h = absurd (cc h)

  same_items_sound : (a b : Items) → same_items a b ≡ true → a ≡ b
  same_items_sound nil nil h = refl
  same_items_sound (cons a l) (cons b m) h =
      ground (arith, same_json_sound a b, same_items_sound l m)
  same_items_sound _ _ h = absurd (cc h)

  same_fields_sound : (a b : Fields) → same_fields a b ≡ true → a ≡ b
  same_fields_sound end end h = refl
  same_fields_sound (field j a l) (field k b m) h =
      let (first, more) = both (j == k && same_json a b) (same_fields l m) h in
      let (key, value) = both (j == k) (same_json a b) first in
      cc ((eq_iff j k).0 key, same_json_sound a b value, same_fields_sound l m more)
  same_fields_sound _ _ h = absurd (cc h)

mutual
  unfolding same_json same_items same_fields

  pub same_json_same : (a : Json) → same_json a a ≡ true
  same_json_same null = refl
  same_json_same (bool a) = ground arith
  same_json_same (num (nat m)) = ground arith
  same_json_same (num (other s)) = eq_refl s
  same_json_same (str s) = eq_refl s
  same_json_same (arr a) = same_items_same a
  same_json_same (obj a) = same_fields_same a

  same_items_same : (a : Items) → same_items a a ≡ true
  same_items_same nil = refl
  same_items_same (cons a l) = rw (same_json_same a) (same_items_same l)

  same_fields_same : (a : Fields) → same_fields a a ≡ true
  same_fields_same end = refl
  same_fields_same (field j a l) = rw (eq_refl j, same_json_same a) (same_fields_same l)
