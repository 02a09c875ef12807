-- ===== src/Prelude/Decimal.antt =====
-- A number is read back from its decimal text.
use Prim.Native.Nat.{ℕ, zero, suc, ◌+◌, ◌*◌, ◌/◌, ◌%◌, ◌<◌}
use Prim.Native.String.{String}
use mathlib.Core.Bool.{true}
use mathlib.Core.Logic.{inl, inr}
use mathlib.Core.Path.{◌≡◌, refl, sym, ap, ◌∙◌}
use native.Mathlib.Omega.{arith}
use server_status_rust_l.Prelude.Tests.{Bool-cases, ltb}
use server_status_rust_l.Prelude.Text.{digit_value, digit_char, digits_from, to_string}

value_from : ℕ → String → ℕ
value_from n String.[] = n
value_from n (String.◌∷◌ c s) = value_from (n * 10 + digit_value c) s

digit_value-digit_char : (d : ℕ) → d < 10 → digit_value (digit_char d) ≡ d
unfolding digit_char
digit_value-digit_char zero h = refl
digit_value-digit_char (suc zero) h = refl
digit_value-digit_char (suc (suc zero)) h = refl
digit_value-digit_char (suc (suc (suc zero))) h = refl
digit_value-digit_char (suc (suc (suc (suc zero)))) h = refl
digit_value-digit_char (suc (suc (suc (suc (suc zero))))) h = refl
digit_value-digit_char (suc (suc (suc (suc (suc (suc zero)))))) h = refl
digit_value-digit_char (suc (suc (suc (suc (suc (suc (suc zero))))))) h = refl
digit_value-digit_char (suc (suc (suc (suc (suc (suc (suc (suc zero)))))))) h = refl
digit_value-digit_char (suc (suc (suc (suc (suc (suc (suc (suc (suc zero))))))))) h = refl
digit_value-digit_char (suc (suc (suc (suc (suc (suc (suc (suc (suc (suc d)))))))))) h =
    absurd (omega (arith, h))

value_from-digits_from :
    (fuel n : ℕ) (s : String) → n < fuel → value_from 0 (digits_from fuel n s) ≡ value_from n s
unfolding value_from digits_from
value_from-digits_from zero n s h = absurd (omega (arith, h))
value_from-digits_from (suc fuel) n s h = elim (Bool-cases (ltb n 10)) [
  | inl e ↦ rw e (ap (λ m. value_from m s) (omega (arith, digit, below e)))
  | inr e ↦ rw e (
      value_from-digits_from fuel (n / 10) (String.◌∷◌ (digit_char (n % 10)) s)
        (ground (arith, e, h))
      ∙ ap (λ m. value_from m s) (omega (arith, digit)))
]
  where
    digit : digit_value (digit_char (n % 10)) ≡ n % 10
    digit = digit_value-digit_char (n % 10) (omega arith)

    below : ltb n 10 ≡ true → n < 10
    below e = ground (arith, e)

to_string-value : (n : ℕ) → value_from 0 (to_string n) ≡ n
unfolding to_string value_from
to_string-value n = value_from-digits_from (n + 1) n "" (omega arith)

pub to_string_injective : (m n : ℕ) → to_string m ≡ to_string n → m ≡ n
to_string_injective m n h = sym (to_string-value m) ∙ ap (value_from 0) h ∙ to_string-value n
