-- ===== src/Billing/Dates.antt =====
-- web/static/js/admin.js: `normalizeDateValue`, with the parts of `Date.UTC` that it meets: years of
-- four digits, and months and days of at most two.
pub mod Calendar
use Prim.Native.Char.{code}
use server_status_rust_l.Prelude.{
  String, ℕ, zero, suc, ◌+◌, ◌-◌, ◌*◌, ◌/◌, ◌%◌, Bool, not, ◌&&◌, ◌||◌, Option, none, some, [], ◌∷◌,
  concat, trim, to_string, pad_start, is_digit, digit_value, ltb, leb, eqb, if◌then◌else◌,
}

pub record Date : Type 0 where
  pub year : ℕ
  pub month : ℕ
  pub day : ℕ

abbrev is_leap : ℕ → Bool
is_leap year = eqb (year % 4) 0 && not (eqb (year % 100) 0) || eqb (year % 400) 0

-- The days of a month from 1 to 12.
unfoldable pub days_in_month : ℕ → ℕ → ℕ
days_in_month year month =
    if eqb month 2
    then (if is_leap year then 29 else 28)
    else if eqb month 4 || eqb month 6 || eqb month 9 || eqb month 11
    then 30
    else 31

-- A day past the end of its month is a day of the next month; with at most 99 days this happens
-- three times at most.
carry_days : ℕ → ℕ → ℕ → ℕ → Date
carry_days zero year month day = record { year = year; month = month; day = day }
carry_days (suc fuel) year month day =
    let next =
      carry_days fuel (if eqb month 12 then year + 1 else year)
        (if eqb month 12 then 1 else month + 1) (day - days_in_month year month) in
    if leb day (days_in_month year month)
    then record { year = year; month = month; day = day }
    else next

-- Day 0 is the last day of the month before.
from_month : ℕ → ℕ → ℕ → Date
unfolding carry_days
from_month year month zero =
    if eqb month 1
    then record { year = year - 1; month = 12; day = 31 }
    else record { year = year; month = month - 1; day = days_in_month year (month - 1) }
from_month year month (suc day) = carry_days 4 year month (suc day)

-- `new Date(Date.UTC(year, month - 1, day))` read back in UTC. Years below 100 are of the twentieth
-- century, month 0 is December of the year before, and months past 12 are of later years.
unfoldable pub utc_date : ℕ → ℕ → ℕ → Date
unfolding from_month
utc_date year month day =
    let full_year = if ltb year 100 then 1900 + year else year in
    if eqb month 0
    then from_month (full_year - 1) 12 day
    else from_month (full_year + (month - 1) / 12) ((month - 1) % 12 + 1) day

-- `\d{n}`
read_exactly : ℕ → ℕ → String → Option (ℕ × String)
read_exactly zero acc s = some (acc, s)
read_exactly (suc n) acc String.[] = none
read_exactly (suc n) acc (String.◌∷◌ c s) =
    let more = read_exactly n (acc * 10 + digit_value c) s in if is_digit c then more else none

-- `\d{1,2}`, where no digit follows.
read_one_or_two : String → Option (ℕ × String)
read_one_or_two String.[] = none
read_one_or_two (String.◌∷◌ c String.[]) = if is_digit c then some (digit_value c, "") else none
read_one_or_two (String.◌∷◌ c (String.◌∷◌ d s)) =
    if is_digit c
    then (if is_digit d
        then some (digit_value c * 10 + digit_value d, s)
        else some (digit_value c, String.◌∷◌ d s))
    else none

-- `[-/]`
read_separator : String → Option String
read_separator String.[] = none
read_separator (String.◌∷◌ c s) = if eqb (code c) b'-' || eqb (code c) b'/' then some s else none

infixl 5 ◌>>=◌
abbrev ◌>>=◌ {ℓ κ} : {A : Type ℓ} {B : Type κ} → Option A → (A → Option B) → Option B
none >>= k = none
some a >>= k = k a

at_end : Date → String → Option Date
at_end date String.[] = some date
at_end date (String.◌∷◌ c s) = none

-- The match of `/^(\d{4})[-/](\d{1,2})[-/](\d{1,2})$/`.
unfoldable pub match_date : String → Option Date
unfolding read_exactly read_one_or_two read_separator at_end
match_date s = do
  (year, s₁) ← read_exactly 4 0 s
  s₂ ← read_separator s₁
  (month, s₃) ← read_one_or_two s₂
  s₄ ← read_separator s₃
  (day, s₅) ← read_one_or_two s₄
  at_end (record { year = year; month = month; day = day }) s₅

unfoldable pub same_date : Date → Date → Bool
same_date a b = eqb a.year b.year && eqb a.month b.month && eqb a.day b.day

abbrev pub date_text : Date → String
date_text date = concat (
    pad_start 4 (to_string date.year)
    ∷ "-"
    ∷ pad_start 2 (to_string date.month)
    ∷ "-"
    ∷ pad_start 2 (to_string date.day)
    ∷ [])

unfoldable pub normalize_date_value : String → String
normalize_date_value value = elim (match_date (trim value)) [
  | none ↦ ""
  | some date ↦
      if same_date (utc_date date.year date.month date.day) date then date_text date else ""
]
