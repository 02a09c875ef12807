-- ===== src/Notifications/Page.antt =====
-- web/static/js/admin.js: the forms with the marks of unsaved changes, one for each local save button.
-- `stableJson` is taken as the value whose text it is.
pub mod Marks
use server_status_rust_l.Prelude.{
  String, ℕ, Bool, true, false, not, ◌&&◌, ◌||◌, Option, none, some, List, [], ◌∷◌, ◌++◌, ◌==◌, ◌⊎◌,
  inl, inr, map, filter, is_empty, truthy, trim, split, drop_end, starts_with, leb, eqb, any,
  if◌then◌else◌,
}
use server_status_rust_l.Prelude.Json.{Json, bool, num, str, arr, obj, nat, Number}
use server_status_rust_l.Prelude.Same.{same_json, stable_json, stable_items, stable_fields}
use server_status_rust_l.Prelude.Sort.{sort_by}
use server_status_rust_l.Editors.{number_or, to_number}
use server_status_rust_l.Notifications.{
  Scope, tg, bark, wechat, email, webhook, log, access, expire, AccessForm, ExpireForm, Forms,
  Browser, fields_of, items_of,
}
use server_status_rust_l.Notifications.Collected.{
  collect_tgbot_settings, tgbot_json, collect_bark_settings, bark_json, collect_wechat_settings,
  wechat_json, collect_email_settings, email_json, collect_log_settings, log_json,
}
use server_status_rust_l.Notifications.Receivers.{collect_webhook_settings, webhook_json}
use server_status_rust_l.Notifications.Checks.{natural}
use Prim.Native.String
use mathlib.Core.Option

abbrev pub same_scope : Scope → Scope → Bool
same_scope tg tg = true
same_scope bark bark = true
same_scope wechat wechat = true
same_scope email email = true
same_scope webhook webhook = true
same_scope log log = true
same_scope access access = true
same_scope expire expire = true
same_scope _ _ = false

-- `state.localBaseline`: the empty text at first, and the text of the form, or of its refusal.
pub data Snapshot : Type 0 where
  unset invalid : Snapshot
  taken : Json → Snapshot

abbrev pub same_snapshot : Snapshot → Snapshot → Bool
same_snapshot unset unset = true
same_snapshot invalid invalid = true
same_snapshot (taken a) (taken b) = same_json a b
same_snapshot _ _ = false

-- What belongs to one local save button.
pub record Local : Type 0 where
  pub baseline : Snapshot
  pub dirty : Bool
  pub message : String
  pub save_disabled : Bool

pub record Page : Type 0 where
  pub forms : Forms
  pub locals : Scope → Local

drop_report : String → String
drop_report String.[] = ""
drop_report (String.◌∷◌ c s) =
    let rest = drop_report s in if String.◌∷◌ c s == "/report" then "" else String.◌∷◌ c rest

-- The text without white space around it, the slashes at its end, and one `/report` at the end of that.
unfoldable pub normalize_base_url : String → String
unfolding trim drop_end drop_report
normalize_base_url value = drop_report (drop_end (λ c. eqb c 47) (trim value))

unfoldable pub collect_access_settings : AccessForm → AccessForm
unfolding normalize_base_url
collect_access_settings form = record {
  access_base_url = normalize_base_url form.access_base_url;
  agent_base_url = normalize_base_url form.agent_base_url;
}

unfoldable pub access_json : AccessForm → Json
access_json a = obj (
    fields_of
      (("access_base_url", str a.access_base_url) ∷ ("agent_base_url", str a.agent_base_url) ∷ []))

pub record ExpireNotify : Type 0 where
  pub enabled : Bool
  pub days : List ℕ
  pub interval : Number

includes_day : List ℕ → ℕ → Bool
includes_day [] day = false
includes_day (d ∷ days) day = eqb d day || includes_day days day

-- `[...new Set(days)]`
distinct_days : List ℕ → List ℕ → List ℕ
unfolding includes_day
distinct_days set [] = set
distinct_days set (day ∷ days) =
    distinct_days (if includes_day set day then set else set ++ day ∷ []) days

unfoldable pub expire_json : ExpireNotify → Json
expire_json e = obj (
    fields_of (
      ("enabled", bool e.enabled)
      ∷ ("days", arr (items_of (map (λ day. num (nat day)) e.days)))
      ∷ ("interval", num e.interval)
      ∷ []))

unfoldable pub set_local : Scope → (Local → Local) → Page → Page
set_local scope f page = record page {
  locals = λ other. if same_scope scope other then f (page.locals other) else page.locals other;
}

-- With `updateLocalSaveButton`.
unfoldable pub set_local_dirty : Scope → Bool → String → Page → Page
unfolding set_local
set_local_dirty scope dirty message =
    set_local scope (λ l. record l { dirty = dirty; message = message; save_disabled = not dirty })

module _ (browser : Browser) where
  natural_numbers : List String → Option (List ℕ)
  unfolding to_number
  natural_numbers [] = some []
  natural_numbers (text ∷ texts) = elim (natural browser.other_value (to_number text)) [
    | none ↦ none
    | some day ↦ Option.map (λ days. day ∷ days) (natural_numbers texts)
  ]

  -- The days, unless there are none or one is not a natural number.
  raw_days : String → Option (List ℕ)
  unfolding natural_numbers trim split
  raw_days text = elim (filter truthy (map trim (split 44 text))) [
    | [] ↦ none
    | day ∷ days ↦ natural_numbers (day ∷ days)
  ]

  -- The message of the exception, or the settings; `silent` decides only whether the fields show it.
  unfoldable pub collect_expire_notify_settings : ExpireForm → String ⊎ ExpireNotify
  unfolding raw_days distinct_days
  collect_expire_notify_settings form = elim (raw_days form.days) [
    | none ↦ inl "提醒阈值格式无效"
    | some days ↦
        if not (browser.interval_is_valid form.interval)
        then inl "重复间隔不能小于 60 秒"
        else inr (record {
          enabled = form.enabled;
          days = sort_by leb (distinct_days [] days);
          interval = number_or 86400 form.interval;
        })
  ]

  unfoldable pub local_snapshot : Forms → Scope → Snapshot
  unfolding stable_json stable_items stable_fields collect_tgbot_settings tgbot_json
      collect_bark_settings bark_json collect_wechat_settings wechat_json collect_email_settings
      email_json collect_webhook_settings webhook_json collect_log_settings log_json
      collect_access_settings access_json collect_expire_notify_settings expire_json
  local_snapshot forms tg =
      taken (stable_json browser.stable_number (tgbot_json (collect_tgbot_settings forms.tg)))
  local_snapshot forms bark =
      taken (stable_json browser.stable_number (bark_json (collect_bark_settings forms.bark)))
  local_snapshot forms wechat =
      taken (stable_json browser.stable_number (wechat_json (collect_wechat_settings forms.wechat)))
  local_snapshot forms email =
      taken (stable_json browser.stable_number (email_json (collect_email_settings forms.email)))
  local_snapshot forms webhook =
      taken
        (stable_json browser.stable_number (webhook_json (collect_webhook_settings forms.webhook)))
  local_snapshot forms log =
      taken (stable_json browser.stable_number (log_json (collect_log_settings forms.log)))
  local_snapshot forms access =
      taken (stable_json browser.stable_number (access_json (collect_access_settings forms.access)))
  local_snapshot forms expire = elim (collect_expire_notify_settings forms.expire) [
    | inl message ↦ invalid
    | inr settings ↦ taken (stable_json browser.stable_number (expire_json settings))
  ]

  unfoldable pub reset_local_baseline : Scope → String → Page → Page
  unfolding set_local_dirty local_snapshot
  reset_local_baseline scope message page =
      set_local_dirty scope false message
        (set_local scope (λ l. record l { baseline = local_snapshot page.forms scope }) page)

  unfoldable pub refresh_local_dirty : Scope → Page → Page
  unfolding set_local_dirty local_snapshot
  refresh_local_dirty scope page =
      let dirty =
        not (same_snapshot (local_snapshot page.forms scope) (page.locals scope).baseline) in
      set_local_dirty scope dirty (if dirty then "有未保存更改" else "") page

abbrev pub scopes : List Scope
scopes = tg ∷ bark ∷ wechat ∷ email ∷ webhook ∷ log ∷ access ∷ expire ∷ []

-- `dirty` is `state.dirty`.
unfoldable pub has_unsaved_changes : Bool → Page → Bool
has_unsaved_changes dirty page = dirty || any (λ scope. (page.locals scope).dirty) scopes
