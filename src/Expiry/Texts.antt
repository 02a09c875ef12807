-- ===== src/Expiry/Texts.antt =====
-- The texts that web/static/js/expiry.js shows for one due date.
use server_status_rust_l.Prelude.{
  String, not, Option, none, some, [], ◌∷◌, ◌==◌, ◌or_text◌, truthy, concat, join, to_string,
  if◌then◌else◌, filter,
}
use server_status_rust_l.Prelude.Int.{ℤ, pos, ltb_ℤ, eqb_ℤ, abs}
use server_status_rust_l.Expiry.{Expire, is_permanent}

-- A template with an integer in it.
integer_text : ℤ → String
integer_text n =
    if ltb_ℤ n (pos 0) then concat ("-" ∷ to_string (abs n) ∷ []) else to_string (abs n)

unfoldable pub expiry_date_text : Option Expire → String
expiry_date_text none = "-"
expiry_date_text (some expire) =
    if is_permanent expire then "永久" else expire.date or_text (expire.raw or_text "-")

unfoldable pub days_text : Option Expire → String
unfolding integer_text
days_text none = "永久"
days_text (some expire) =
    if is_permanent expire
    then "永久"
    else if expire.status == "unknown"
    then "日期无效"
    else if ltb_ℤ expire.days_left (pos 0)
    then concat ("已过期 " ∷ to_string (abs expire.days_left) ∷ " 天" ∷ [])
    else if eqb_ℤ expire.days_left (pos 0)
    then "今天"
    else concat ("剩余 " ∷ integer_text expire.days_left ∷ " 天" ∷ [])

cycle_suffix : Expire → String
cycle_suffix expire = if truthy expire.cycle then concat (" / " ∷ expire.cycle ∷ []) else ""

unfoldable pub renewal_text : Option Expire → String
unfolding cycle_suffix
renewal_text none = ""
renewal_text (some expire) =
    if not expire.auto_renewal
    then ""
    else if expire.renewal_status == "missing_cycle"
    then "自动续期 / 缺少周期"
    else if expire.renewal_status == "invalid_cycle"
    then "自动续期 / 周期无效"
    else if expire.auto_renewed
    then concat ("已自动推算 x" ∷ to_string expire.renewal_count ∷ cycle_suffix expire ∷ [])
    else concat ("自动续期" ∷ cycle_suffix expire ∷ [])

unfoldable pub money_text : Expire → String
money_text expire = join " / " (filter truthy (expire.amount ∷ expire.cycle ∷ []))
