-- ===== src/Prelude/Trim.antt =====
-- A text that has been trimmed has nothing more to trim.
use Prim.Native.Char.{Char, code}
use Prim.Native.Nat.{ℕ}
use Prim.Native.String.{String}
use mathlib.Core.Bool.{Bool, false, ◌&&◌}
use mathlib.Core.Logic.{inl, inr}
use mathlib.Core.Path.{◌≡◌, refl, ap, ◌∙◌}
use server_status_rust_l.Prelude.Tests.{Bool-cases}
use server_status_rust_l.Prelude.Text.{is_space, is_empty, trim, trim_start, drop_end}

trim_start-drop_end :
    (c : Char) (s : String)
    → is_space (code c) ≡ false
    → trim_start (drop_end is_space (String.◌∷◌ c s)) ≡ drop_end is_space (String.◌∷◌ c s)
unfolding trim_start drop_end
trim_start-drop_end c s e = elim (Bool-cases (is_empty (drop_end is_space s))) [
  | inl f ↦ rw (f, e) (rw e refl)
  | inr f ↦ rw f (rw e refl)
]

trim_start-trim : (s : String) → trim_start (trim s) ≡ trim s
unfolding trim trim_start
trim_start-trim String.[] = refl
trim_start-trim (String.◌∷◌ c s) = elim (Bool-cases (is_space (code c))) [
  | inl e ↦ rw e (trim_start-trim s)
  | inr e ↦ rw e (trim_start-drop_end c s e)
]

drop_end-twice : (p : ℕ → Bool) (s : String) → drop_end p (drop_end p s) ≡ drop_end p s
unfolding drop_end
drop_end-twice p String.[] = refl
drop_end-twice p (String.◌∷◌ c s) = elim (Bool-cases (is_empty (drop_end p s) && p (code c))) [
  | inl e ↦ rw e refl
  | inr e ↦ rw e (rw (drop_end-twice p s, e) refl)
]

pub trim-trim : (s : String) → trim (trim s) ≡ trim s
unfolding trim
trim-trim s = ap (drop_end is_space) (trim_start-trim s) ∙ drop_end-twice is_space (trim_start s)
