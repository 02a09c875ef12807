-- ===== src/Billing/Dates/Calendar.antt =====
-- Which dates `normalizeDateValue` of web/static/js/admin.js accepts.
use server_status_rust_l.Prelude.{
  String, ℕ, zero, suc, ◌+◌, ◌-◌, ◌*◌, ◌/◌, ◌%◌, ◌≤◌, ◌<◌, true, false, some, ◌≡◌, refl, subst,
  arith, trim, sym, Option-cases, leb, ltb, eqb, if◌then◌else◌, Bool-cases, inl, inr, ◌⊎◌,
}
use server_status_rust_l.Billing.Dates.{
  Date, days_in_month, carry_days, from_month, utc_date, same_date, match_date, date_text,
  normalize_date_value,
}

-- A day of the calendar in a year that `Date.UTC` takes as it is.
abbrev pub IsDay : Date → Type 0
IsDay date =
    (100 ≤ date.year)
    × (1 ≤ date.month)
    × (date.month ≤ 12)
    × (1 ≤ date.day)
    × (date.day ≤ days_in_month date.year date.month)

-- The months since year 0.
abbrev months : Date → ℕ
months date = 12 * date.year + date.month

days_in_month_bounds :
    (year month : ℕ) → (28 ≤ days_in_month year month) × (days_in_month year month ≤ 31)
unfolding days_in_month
days_in_month_bounds year month = ground arith

carry_days_later :
    (fuel year month day : ℕ)
    → 1 ≤ month
    → month ≤ 12
    → (12 * year + month ≤ months (carry_days fuel year month day))
      × (1 ≤ (carry_days fuel year month day).month)
      × ((carry_days fuel year month day).month ≤ 12)
unfolding carry_days
carry_days_later zero year month day a b = (omega arith, omega arith, omega arith)
carry_days_later (suc fuel) year month day a b =
    elim (Bool-cases (leb day (days_in_month year month))) [
      | inl e ↦ rw e (omega arith, omega arith, omega arith)
      | inr e ↦ elim (Bool-cases (eqb month 12)) [
        | inl f ↦
            let (x, y, z) =
              carry_days_later fuel (year + 1) 1 (day - days_in_month year month) (omega arith)
                (omega arith) in
            rw (e, f) (ground (arith, f, x), y, z)
        | inr f ↦
            let (x, y, z) =
              carry_days_later fuel year (month + 1) (day - days_in_month year month) (omega arith)
                (ground (arith, f)) in
            rw (e, f) (omega (arith, x), y, z)
      ]
    ]

same_date_lem :
    (a b : Date) → same_date a b ≡ true → (a.year ≡ b.year) × (a.month ≡ b.month) × (a.day ≡ b.day)
unfolding same_date
same_date_lem a b h = ground arith

-- The first day past the end of a month is one of a later month.
carry_days_past :
    (year month day : ℕ)
    → 1 ≤ month
    → month ≤ 12
    → days_in_month year month < day
    → 12 * year + month < months (carry_days 4 year month day)
unfolding carry_days
carry_days_past year month day a b past = elim (Bool-cases (eqb month 12)) [
  | inl f ↦
      let (x, y, z) =
        carry_days_later 3 (year + 1) 1 (day - days_in_month year month) (omega arith)
          (omega arith) in
      rw (too_late year month day past, f) (ground (arith, f, x))
  | inr f ↦
      let (x, y, z) =
        carry_days_later 3 year (month + 1) (day - days_in_month year month) (omega arith)
          (ground (arith, f)) in
      rw (too_late year month day past, f) (omega (arith, x))
]
  where
    too_late :
        (year month day : ℕ)
        → days_in_month year month < day
        → leb day (days_in_month year month) ≡ false
    too_late year month day past = ground (arith, past)

carry_days_within :
    (year month day : ℕ)
    → leb day (days_in_month year month) ≡ true
    → carry_days 4 year month day ≡ record { year = year; month = month; day = day }
unfolding carry_days
carry_days_within year month day h = rw h refl

abbrev date_of : ℕ → ℕ → ℕ → Date
date_of year month day = record { year = year; month = month; day = day }

from_month_same :
    (year month y m d : ℕ)
    → 1 ≤ month
    → month ≤ 12
    → 12 * y + m ≤ 12 * year + month
    → same_date (from_month year month d) (date_of y m d) ≡ true
    → (1 ≤ d)
      × (d ≤ days_in_month year month)
      × (m ≤ 12)
      × (1 ≤ m)
      × (12 * y + m ≡ 12 * year + month)
unfolding from_month
from_month_same year month y m zero a b le h = elim (Bool-cases (eqb month 1)) [
  | inl e ↦ absurd (not_day_zero 31 y m (date_of (year - 1) 12 31) refl (omega arith) (rw e at h))
  | inr e ↦
      let last = days_in_month year (month - 1) in
      absurd (
        not_day_zero last y m (date_of year (month - 1) last) refl
          (omega (arith, days_in_month_bounds year (month - 1))) (rw e at h))
]
  where
    not_day_zero :
        (day y m : ℕ) (r : Date) → r.day ≡ day → 1 ≤ day → same_date r (date_of y m 0) ≡ true → ⊥
    not_day_zero day y m r e le h =
        let (x, z, w) = same_date_lem r (date_of y m 0) h in omega (arith, e, w, le)
from_month_same year month y m (suc d) a b le h =
    elim (Bool-cases (leb (suc d) (days_in_month year month))) [
      | inl e ↦
          let (x, z, w) =
            same_date_lem (date_of year month (suc d)) (date_of y m (suc d))
              (rw (carry_days_within year month (suc d) e) at h) in
          (omega arith, ground (arith, e), omega (arith, z), omega (arith, z), omega (arith, x, z))
      | inr e ↦
          let (x, z, w) = same_date_lem (carry_days 4 year month (suc d)) (date_of y m (suc d)) h in
          let later = carry_days_past year month (suc d) a b (ground (arith, e)) in
          absurd (omega (arith, x, z, later, le))
    ]

-- The year that `Date.UTC` takes a year for.
abbrev full_year : ℕ → ℕ
full_year year = if ltb year 100 then 1900 + year else year

full_year_lem : (year : ℕ) → (year ≤ full_year year) × (full_year year ≡ year → 100 ≤ year)
full_year_lem year = ground arith

from_month_month :
    (year month day : ℕ) → 1 ≤ month → month ≤ 12 → 1 ≤ (from_month year month day).month
unfolding from_month
from_month_month year month zero a b = ground arith
from_month_month year month (suc day) a b = (carry_days_later 4 year month (suc day) a b).1

split_month : (m : ℕ) → (12 * ((m - 1) / 12) + (m - 1) % 12 ≡ m - 1) × ((m - 1) % 12 < 12)
split_month m = (omega arith, omega arith)

from_full_year :
    (y m d : ℕ)
    → 1 ≤ m
    → same_date (from_month (full_year y + (m - 1) / 12) ((m - 1) % 12 + 1) d) (date_of y m d)
      ≡ true
    → IsDay (date_of y m d)
from_full_year y m d pos h =
    let q = (m - 1) / 12 in
    let r = (m - 1) % 12 in
    let (s, t) = split_month m in
    let (le, full) = full_year_lem y in
    let (a, b, c, e, f) =
      from_month_same (full_year y + q) (r + 1) y m d (omega arith) (omega arith)
        (omega (arith, s, le)) h in
    let same_month : r + 1 ≡ m = omega (arith, s, t, c, e, f) in
    let same_year : full_year y + q ≡ y = omega (arith, s, t, c, e, f) in
    let old : full_year y ≡ y = omega (arith, same_year, le) in
    (
      full old,
      e,
      c,
      a,
      subst (λ n. d ≤ days_in_month y n) same_month
          (subst (λ n. d ≤ days_in_month n (r + 1)) same_year b),
    )

same-IsDay : (y m d : ℕ) → same_date (utc_date y m d) (date_of y m d) ≡ true → IsDay (date_of y m d)
unfolding utc_date
same-IsDay y m d h = elim (Bool-cases (eqb m 0)) [
  | inl e ↦
      let (x, z, w) =
        same_date_lem (from_month (full_year y - 1) 12 d) (date_of y m d) (rw e at h) in
      absurd
        (ground (arith, e, z, from_month_month (full_year y - 1) 12 d (omega arith) (omega arith)))
  | inr e ↦ from_full_year y m d (ground (arith, e)) (rw e at h)
]

IsDay-same : (y m d : ℕ) → IsDay (date_of y m d) → same_date (utc_date y m d) (date_of y m d) ≡ true
unfolding utc_date from_month same_date
IsDay-same y m zero h = absurd (omega (arith, h.3))
IsDay-same y m (suc d) (a, b, c, e, f) =
    let same_year : full_year y + (m - 1) / 12 ≡ y = ground (arith, a, b, c) in
    let same_month : (m - 1) % 12 + 1 ≡ m = omega (arith, b, c) in
    let nonzero : eqb m 0 ≡ false = ground (arith, b) in
    rw (nonzero, same_year, same_month) (within y m d f)
  where
    within :
        (y m d : ℕ)
        → suc d ≤ days_in_month y m
        → same_date (from_month y m (suc d)) (date_of y m (suc d)) ≡ true
    within y m d f = rw (carry_days_within y m (suc d) (ground (arith, f))) (ground arith)

-- A text is accepted exactly if it reads as a year of four digits, a month and a day, which are a
-- day of the calendar in the year 100 or later; the result is then that day as `YYYY-MM-DD`, and the
-- empty text otherwise.
pub normalize_date_value_lem :
    (value : String)
    → ((date : Date) × (match_date (trim value) ≡ some date)
        × IsDay date
        × (normalize_date_value value ≡ date_text date))
      ⊎ ((normalize_date_value value ≡ "")
          × ((date : Date) → match_date (trim value) ≡ some date → ¬ IsDay date))
unfolding normalize_date_value
normalize_date_value_lem value = elim (Option-cases (match_date (trim value))) [
  | inl e ↦ inr (rw (e, normalize_date_value) refl, λ date h. absurd (cc))
  | inr (date, e) ↦ elim (Bool-cases (same_date (utc_date date.year date.month date.day) date)) [
    | inl f ↦
        inl (
          date,
          e,
          same-IsDay date.year date.month date.day f,
          rw (e, normalize_date_value, f) refl,
        )
    | inr f ↦ inr (
      rw (e, normalize_date_value, f) refl,
      λ other h day.
          let same : date ≡ other = cc in
          let k = IsDay-same date.year date.month date.day (subst IsDay (sym same) day) in
          absurd (cc),
    )
  ]
]
