-- ===== src/Billing/Amounts.antt =====
-- web/static/js/admin.js: amounts of money, a number with a currency.
use Prim.Native.Char.{code}
use Prim.Native.String
use server_status_rust_l.Prelude.{
  String, ◌&&◌, ◌||◌, Option, none, some, List, [], ◌∷◌, ◌==◌, is_empty, truthy, includes, concat,
  trim, to_upper_case, is_digit, is_alpha, eqb, if◌then◌else◌, trim_start,
}
use server_status_rust_l.Prelude.Dict.{Dict, lookup}
use server_status_rust_l.Billing.{is_free_amount}

pub record Amount : Type 0 where
  pub amount : String
  pub currency : String
  pub custom_currency : String

-- The codes of `currencyOptions`.
abbrev pub currency_codes : List String
currency_codes =
    "USD" ∷ "EUR" ∷ "GBP" ∷ "CNY" ∷ "HKD" ∷ "MOP" ∷ "TWD" ∷ "JPY" ∷ "KRW" ∷ "SGD" ∷ "AUD" ∷ "CAD"
    ∷ "NZD" ∷ "MYR" ∷ "THB" ∷ "VND" ∷ "PHP" ∷ "IDR" ∷ "INR" ∷ "BRL" ∷ "TRY" ∷ "RUB" ∷ "CUSTOM" ∷ []

abbrev currency_symbols : Dict String
currency_symbols =
    ("$", "USD") ∷ ("€", "EUR") ∷ ("£", "GBP") ∷ ("¥", "JPY") ∷ ("￥", "CNY") ∷ ("₩", "KRW") ∷ []

-- `replace(",", ".")`: the first comma.
unfoldable pub replace_comma : String → String
replace_comma String.[] = ""
replace_comma (String.◌∷◌ c s) =
    if eqb (code c) b',' then String.◌∷◌ "." s else String.◌∷◌ c (replace_comma s)

-- The digits that a text begins with, and the rest.
span_digits : String → String × String
span_digits String.[] = ("", "")
span_digits (String.◌∷◌ c s) =
    let (digits, rest) = span_digits s in
    if is_digit c then (String.◌∷◌ c digits, rest) else ("", String.◌∷◌ c s)

-- `(?:[.,]\d+)?` behind the digits before it.
read_fraction : String → String → String × String
read_fraction whole String.[] = (whole, "")
read_fraction whole (String.◌∷◌ c s) =
    let (digits, rest) = span_digits s in
    if (eqb (code c) b'.' || eqb (code c) b',') && truthy digits
    then (String.◌++◌ whole (String.◌∷◌ c digits), rest)
    else (whole, String.◌∷◌ c s)

-- `\d+(?:[.,]\d+)?`
unfoldable pub read_decimal : String → Option (String × String)
unfolding span_digits read_fraction
read_decimal s =
    let (whole, rest) = span_digits s in
    if is_empty whole then none else some (read_fraction whole rest)

-- `[A-Za-z]{3}`
unfoldable pub read_code : String → Option (String × String)
read_code (String.◌∷◌ a (String.◌∷◌ b (String.◌∷◌ c s))) =
    if is_alpha a && is_alpha b && is_alpha c
    then some (String.◌∷◌ a (String.◌∷◌ b (String.◌∷◌ c "")), s)
    else none
read_code _ = none

infixl 5 ◌>>=◌
abbrev ◌>>=◌ {ℓ κ} : {A : Type ℓ} {B : Type κ} → Option A → (A → Option B) → Option B
none >>= k = none
some a >>= k = k a

-- The end of a pattern: nothing may follow.
at_end {ℓ} : {A : Type ℓ} → A → String → Option A
at_end a String.[] = some a
at_end a (String.◌∷◌ c s) = none

unfoldable pub match_trailing : String → Option (String × String)
unfolding at_end
match_trailing raw = do
  (number, rest) ← read_decimal raw
  (code, end) ← read_code (trim_start rest)
  at_end (number, code) end

unfoldable pub match_leading : String → Option (String × String)
unfolding at_end
match_leading raw = do
  (code, rest) ← read_code raw
  (number, end) ← read_decimal (trim_start rest)
  at_end (number, code) end

unfoldable pub match_numeric : String → Option String
unfolding at_end
match_numeric raw = do (number, end) ← read_decimal raw; at_end number end

with_code : String → String → Amount
with_code number code =
    let upper = to_upper_case code in
    let known = includes currency_codes upper in
    record {
      amount = replace_comma number;
      currency = if known then upper else "CUSTOM";
      custom_currency = if known then "" else upper;
    }

-- The part of `parsedAmount` below the currency symbols.
parse_pattern : String → Amount
unfolding with_code
parse_pattern raw = elim (match_trailing raw) [
  | some (number, code) ↦ with_code number code
  | none ↦ elim (match_leading raw) [
    | some (number, code) ↦ with_code number code
    | none ↦ elim (match_numeric raw) [
      | some number ↦ record {
        amount = replace_comma number;
        currency = "USD";
        custom_currency = "";
      }
      | none ↦ record { amount = raw; currency = "CUSTOM"; custom_currency = "" }
    ]
  ]
]

parse_raw : String → Amount
unfolding parse_pattern
parse_raw String.[] = record { amount = ""; currency = "USD"; custom_currency = "" }
parse_raw (String.◌∷◌ c s) = elim (lookup (String.◌∷◌ c "") currency_symbols) [
  | some currency ↦ record {
    amount = replace_comma (trim s);
    currency = currency;
    custom_currency = "";
  }
  | none ↦ parse_pattern (String.◌∷◌ c s)
]

unfoldable pub parsed_amount : String → Amount
unfolding parse_raw
parsed_amount value =
    if is_empty (trim value) || is_free_amount (trim value)
    then record { amount = ""; currency = "USD"; custom_currency = "" }
    else parse_raw (trim value)

unfoldable pub compose_amount : String → String → String → String
compose_amount amount_value currency_value custom_currency_value =
    let amount = trim amount_value in
    let currency =
      if currency_value == "CUSTOM"
      then to_upper_case (trim custom_currency_value)
      else currency_value in
    if is_empty amount
    then ""
    else if is_empty currency
    then amount
    else concat (amount ∷ " " ∷ currency ∷ [])
