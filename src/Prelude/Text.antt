-- ===== src/Prelude/Text.antt =====
-- Texts as JavaScript's strings, read one code point at a time. Case is mapped for ASCII letters.
use Prim.Native.Char.{Char, code}
use Prim.Native.Nat.{ℕ, zero, suc, ◌+◌, ◌-◌, ◌/◌, ◌%◌}
use Prim.Native.String
use Prim.Native.String.{String}
use mathlib.Core.Bool.{Bool, true, false, not, ◌&&◌, ◌||◌}
use mathlib.Core.List.{List, [], ◌∷◌}
use mathlib.Core.Path.{◌≡◌}
use mathlib.Core.Option
use mathlib.Core.Option.{Option, none, some}
use text.Mathlib.TextEquality.{eq_iff}
use text.Mathlib.Text.{◌==◌}
use server_status_rust_l.Prelude.Tests.{ltb, leb, eqb, if◌then◌else◌}

abbrev pub is_empty : String → Bool
is_empty String.[] = true
is_empty (String.◌∷◌ c s) = false

-- A text used as a condition.
abbrev pub truthy : String → Bool
truthy s = not (is_empty s)

-- `a || b` of two texts.
infixr 20 ◌or_text◌
abbrev pub ◌or_text◌ : String → String → String
s or_text t = if is_empty s then t else s

-- A text that is one literal is not another.
pub eq-false_of_eq : (t u v : String) → (t == u) ≡ true → (u == v) ≡ false → (t == v) ≡ false
eq-false_of_eq t u v h k = rw ((eq_iff t u).0 h) k

-- `Array.prototype.includes`, and membership of a `Set`, of texts.
unfoldable pub includes : List String → String → Bool
includes [] t = false
includes (s ∷ ss) t = s == t || includes ss t

-- A template literal, as the list of its parts.
unfoldable pub concat : List String → String
concat [] = ""
concat (s ∷ ss) = String.◌++◌ s (concat ss)

-- `Array.prototype.join`
unfoldable pub join : String → List String → String
join sep [] = ""
join sep (s ∷ []) = s
join sep (s ∷ t ∷ ss) = String.◌++◌ s (String.◌++◌ sep (join sep (t ∷ ss)))

-- The characters that `trim` removes: white space and line terminators.
unfoldable pub is_space : ℕ → Bool
is_space c =
    leb 9 c && leb c 13
    || eqb c 32
    || eqb c 160
    || eqb c 0x1680
    || leb 0x2000 c && leb c 0x200a
    || eqb c 0x2028
    || eqb c 0x2029
    || eqb c 0x202f
    || eqb c 0x205f
    || eqb c 0x3000
    || eqb c 0xfeff

unfoldable pub trim_start : String → String
trim_start String.[] = ""
trim_start (String.◌∷◌ c s) = if is_space (code c) then trim_start s else String.◌∷◌ c s

-- Removes the characters at the end that pass the test.
unfoldable pub drop_end : (ℕ → Bool) → String → String
drop_end p String.[] = ""
drop_end p (String.◌∷◌ c s) =
    let rest = drop_end p s in if is_empty rest && p (code c) then "" else String.◌∷◌ c rest

unfoldable pub trim : String → String
unfolding trim_start drop_end is_space
trim s = drop_end is_space (trim_start s)

abbrev pub is_digit : Char → Bool
is_digit c = leb b'0' (code c) && leb (code c) b'9'

abbrev pub is_upper : Char → Bool
is_upper c = leb b'A' (code c) && leb (code c) b'Z'

abbrev pub is_lower : Char → Bool
is_lower c = leb b'a' (code c) && leb (code c) b'z'

abbrev pub is_alpha : Char → Bool
is_alpha c = is_upper c || is_lower c

abbrev upper_letters : String
upper_letters = "ABCDEFGHIJKLMNOPQRSTUVWXYZ"

abbrev lower_letters : String
lower_letters = "abcdefghijklmnopqrstuvwxyz"

unfoldable pub lower_char : Char → Char
lower_char c = if is_upper c then String.char_at lower_letters (code c - 65) else c

unfoldable pub upper_char : Char → Char
upper_char c = if is_lower c then String.char_at upper_letters (code c - 97) else c

unfoldable pub to_lower_case : String → String
unfolding lower_char
to_lower_case String.[] = ""
to_lower_case (String.◌∷◌ c s) = String.◌∷◌ (lower_char c) (to_lower_case s)

unfoldable pub to_upper_case : String → String
unfolding upper_char
to_upper_case String.[] = ""
to_upper_case (String.◌∷◌ c s) = String.◌∷◌ (upper_char c) (to_upper_case s)

unfoldable pub starts_with : String → String → Bool
starts_with s String.[] = true
starts_with String.[] (String.◌∷◌ d t) = false
starts_with (String.◌∷◌ c s) (String.◌∷◌ d t) = eqb (code c) (code d) && starts_with s t

-- `length`: UTF-16 code units.
unfoldable pub utf16_length : String → ℕ
utf16_length String.[] = 0
utf16_length (String.◌∷◌ c s) = (if ltb (code c) 0x10000 then 1 else 2) + utf16_length s

unfoldable pub digit_char : ℕ → Char
digit_char d = String.char_at "0123456789" d

-- The value of a digit character.
abbrev pub digit_value : Char → ℕ
digit_value c = code c - 48

zeros : ℕ → String → String
zeros zero s = s
zeros (suc n) s = String.◌∷◌ (digit_char 0) (zeros n s)

-- A number in decimal; each round writes one digit, so `n + 1` rounds are enough for `n`.
unfoldable pub digits_from : ℕ → ℕ → String → String
digits_from zero n acc = acc
digits_from (suc fuel) n acc =
    let acc' = String.◌∷◌ (digit_char (n % 10)) acc in
    let more = digits_from fuel (n / 10) acc' in if ltb n 10 then acc' else more

unfoldable pub to_string : ℕ → String
unfolding digits_from digit_char
to_string n = digits_from (n + 1) n ""

-- `padStart(n, "0")`, of a text of ASCII characters.
unfoldable pub pad_start : ℕ → String → String
unfolding zeros digit_char
pad_start n s = zeros (n - String.count s) s

-- `split` at a character.
prepend : Char → List String → List String
prepend c [] = String.◌∷◌ c "" ∷ []
prepend c (s ∷ ss) = String.◌∷◌ c s ∷ ss

unfoldable pub split : ℕ → String → List String
unfolding prepend
split sep String.[] = "" ∷ []
split sep (String.◌∷◌ c s) = if eqb (code c) sep then "" ∷ split sep s else prepend c (split sep s)

-- What stands before the first occurrence of a character and what stands behind it.
unfoldable pub cut : ℕ → String → Option (String × String)
cut sep String.[] = none
cut sep (String.◌∷◌ c s) =
    if eqb (code c) sep then some ("", s) else Option.map (λ p. (String.◌∷◌ c p.0, p.1)) (cut sep s)
