-- ===== src/Expiry/Risk.antt =====
-- web/static/js/expiry.js: the order in which servers are shown. `localeCompare` is the browser's,
-- a parameter.
use server_status_rust_l.Prelude.{
  String, ℕ, Bool, not, ◌&&◌, none, some, ◌==◌, includes, if◌then◌else◌, eqb,
}
use server_status_rust_l.Prelude.Int.{ℤ, pos, leb_ℤ, eqb_ℤ, ◌-ℤ◌}
use server_status_rust_l.Expiry.{
  Expire, Server, attention_days, has_expiry, is_permanent, display_name, renewal_failures,
  treat_as_missing,
}

-- `Number.MAX_SAFE_INTEGER`
abbrev max_safe_integer : ℤ
max_safe_integer = pos 9007199254740991

-- The tests of `riskRank` below its first, on the due date of a server that has one.
unfoldable pub expire_risk_rank : Expire → ℕ
expire_risk_rank expire =
    if is_permanent expire
    then 6
    else if expire.status == "expired"
    then 1
    else if expire.status == "unknown"
    then 2
    else if includes renewal_failures expire.renewal_status
    then 3
    else if leb_ℤ (pos 0) expire.days_left && leb_ℤ expire.days_left (pos 7)
    then 4
    else if leb_ℤ expire.days_left attention_days
    then 5
    else 6

unfoldable pub risk_rank : Server → ℕ
risk_rank server =
    if treat_as_missing server
    then 0
    else elim server.expire [ none ↦ 6 | some expire ↦ expire_risk_rank expire ]

-- The sort key of a due date: permanent and absent dates come last.
unfoldable pub due_key : Server → ℤ
due_key server = elim server.expire [
  | none ↦ max_safe_integer
  | some expire ↦
      if has_expiry server && not (is_permanent expire) then expire.days_left else max_safe_integer
]

module _ (locale_compare : String → String → ℤ) where
  unfoldable pub sort_by_due : Server → Server → ℤ
  sort_by_due a b =
      if not (eqb_ℤ (due_key a) (due_key b))
      then due_key a -ℤ due_key b
      else locale_compare (display_name a) (display_name b)

  unfoldable pub sort_by_risk : Server → Server → ℤ
  sort_by_risk a b =
      if not (eqb (risk_rank a) (risk_rank b))
      then pos (risk_rank a) -ℤ pos (risk_rank b)
      else sort_by_due a b

  -- `Array.prototype.sort` keeps two elements in order where the comparator is not positive.
  unfoldable pub due_le : Server → Server → Bool
  due_le a b = leb_ℤ (sort_by_due a b) (pos 0)

  unfoldable pub risk_le : Server → Server → Bool
  risk_le a b = leb_ℤ (sort_by_risk a b) (pos 0)
