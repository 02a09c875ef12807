-- ===== src/Billing.antt =====
-- web/static/js/admin.js: what the console keeps of a server's bill: its due date, its cycle and its
-- amount, with the tests and labels that are shown. An absent field is the empty text.
pub mod Labels
pub mod Dates
pub mod Amounts
use server_status_rust_l.Prelude.{
  String, Bool, true, false, not, ◌||◌, Option, none, some, List, [], ◌∷◌, ◌==◌, ◌or_text◌,
  is_empty, truthy, includes, concat, to_lower_case, trim, starts_with, if◌then◌else◌,
}
use server_status_rust_l.Prelude.Dict.{Dict, lookup}

pub record Billing : Type 0 where
  pub end_date : String
  pub auto_renewal : String
  pub cycle : String
  pub amount : String

abbrev pub cycle_options : Dict String
cycle_options =
    ("", "未设置")
    ∷ ("Day", "每天")
    ∷ ("Week", "每周")
    ∷ ("Month", "每月")
    ∷ ("Quarter", "每季度")
    ∷ ("HalfYear", "每半年")
    ∷ ("Year", "每年")
    ∷ []

abbrev pub metric_options : Dict String
metric_options =
    ("offline", "离线")
    ∷ ("cpu", "CPU 使用率")
    ∷ ("memory", "内存使用率")
    ∷ ("disk", "硬盘使用率")
    ∷ ("load1", "1 分钟负载")
    ∷ ("load5", "5 分钟负载")
    ∷ ("load15", "15 分钟负载")
    ∷ []

abbrev permanent_values : List String
permanent_values = "0000-00-00" ∷ "never" ∷ "permanent" ∷ "lifetime" ∷ "forever" ∷ []

abbrev free_values : List String
free_values = "0" ∷ "free" ∷ "免费" ∷ "免費" ∷ []

unfoldable pub is_permanent_expire : String → Bool
is_permanent_expire value =
    let normalized = to_lower_case (trim value) in
    starts_with normalized "0000-00-00" || includes permanent_values normalized

unfoldable pub is_free_amount : String → Bool
is_free_amount value = includes free_values (to_lower_case (trim value))

unfoldable pub amount_display : String → String
amount_display value = if is_free_amount value then "免费" else value

-- The label of an option, or the value itself.
option_label : Dict String → String → String
option_label options value = elim (lookup value options) [
  | none ↦ value
  | some label ↦ label or_text value
]

pub cycle_label : String → String
unfolding option_label
cycle_label value = option_label cycle_options value

pub metric_label : String → String
unfolding option_label
metric_label value = option_label metric_options value or_text "-"

abbrev renewal_words : List String
renewal_words = "1" ∷ "true" ∷ "yes" ∷ "on" ∷ []

-- Whether a bill asks for automatic renewal.
unfoldable pub is_auto_renewal : Billing → Bool
is_auto_renewal billing = includes renewal_words (to_lower_case billing.auto_renewal)

unfoldable pub format_expire_summary : Billing → String
unfolding cycle_label
format_expire_summary billing =
    if is_empty billing.end_date
    then "未设置"
    else if is_permanent_expire billing.end_date
    then (if truthy (amount_display billing.amount)
        then concat ("永久 · " ∷ amount_display billing.amount ∷ [])
        else "永久")
    else concat (
        billing.end_date
        ∷ (if is_auto_renewal billing then " · 自动续期" else "")
        ∷ (if truthy billing.cycle then concat (" · " ∷ cycle_label billing.cycle ∷ []) else "")
        ∷ (if truthy (amount_display billing.amount)
            then concat (" · " ∷ amount_display billing.amount ∷ [])
            else "")
        ∷ [])
