-- ===== src/Notifications/Page/Marks.antt =====
-- web/static/js/admin.js: the marks of unsaved changes, and what sets them.
use server_status_rust_l.Prelude.{
  String, Bool, true, false, not, ◌||◌, ◌≡◌, ◌↔◌, refl, sym, subst, ap, inl, inr, Bool-cases, any,
  arith,
}
use server_status_rust_l.Prelude.Same.{same_json_sound, same_json_same}
use server_status_rust_l.Notifications.{
  Scope, tg, bark, wechat, email, webhook, log, access, expire, Browser,
}
use server_status_rust_l.Notifications.Page.{
  Snapshot, unset, invalid, taken, same_snapshot, same_scope, Page, local_snapshot, set_local,
  set_local_dirty, reset_local_baseline, refresh_local_dirty, scopes,
}

pub same_scope_sound : (a b : Scope) → same_scope a b ≡ true → a ≡ b
same_scope_sound tg tg h = refl
same_scope_sound bark bark h = refl
same_scope_sound wechat wechat h = refl
same_scope_sound email email h = refl
same_scope_sound webhook webhook h = refl
same_scope_sound log log h = refl
same_scope_sound access access h = refl
same_scope_sound expire expire h = refl
same_scope_sound _ _ h = absurd (cc h)

pub same_scope_same : (a : Scope) → same_scope a a ≡ true
same_scope_same tg = refl
same_scope_same bark = refl
same_scope_same wechat = refl
same_scope_same email = refl
same_scope_same webhook = refl
same_scope_same log = refl
same_scope_same access = refl
same_scope_same expire = refl

pub same_snapshot_sound : (a b : Snapshot) → same_snapshot a b ≡ true → a ≡ b
same_snapshot_sound unset unset h = refl
same_snapshot_sound invalid invalid h = refl
same_snapshot_sound (taken a) (taken b) h = ap taken (same_json_sound a b h)
same_snapshot_sound _ _ h = absurd (cc h)

pub same_snapshot_same : (a : Snapshot) → same_snapshot a a ≡ true
same_snapshot_same unset = refl
same_snapshot_same invalid = refl
same_snapshot_same (taken a) = same_json_same a

pub no_scope : (f : Scope → Bool) → (any f scopes ≡ false) ↔ ((scope : Scope) → f scope ≡ false)
no_scope f =
    (each, λ h. rw (h tg, h bark, h wechat, h email, h webhook, h log, h access, h expire) refl)
  where
    each : any f scopes ≡ false → (scope : Scope) → f scope ≡ false
    each h tg = ground arith
    each h bark = ground arith
    each h wechat = ground arith
    each h email = ground arith
    each h webhook = ground arith
    each h log = ground arith
    each h access = ground arith
    each h expire = ground arith

pub neither : (p q : Bool) → ((p || q) ≡ false) ↔ ((p ≡ false) × (q ≡ false))
neither p q = ground arith

module _ (browser : Browser) where
  -- The mark of a form says whether it gives something else than its baseline.
  abbrev pub IsMarked : Page → Scope → Type 0
  IsMarked page scope =
      (page.locals scope).dirty
      ≡ not (same_snapshot (local_snapshot browser page.forms scope) (page.locals scope).baseline)

  pub refresh-IsMarked :
      (page : Page) (scope other : Scope)
      → (same_scope scope other ≡ false → IsMarked page other)
      → IsMarked (refresh_local_dirty browser scope page) other
  unfolding refresh_local_dirty set_local_dirty set_local
  refresh-IsMarked page scope other m = elim (Bool-cases (same_scope scope other)) [
    | inl e ↦
        subst (IsMarked (refresh_local_dirty browser scope page)) (same_scope_sound scope other e)
          (rw (same_scope_same scope) refl)
    | inr e ↦ rw e (m e)
  ]

  pub reset-IsMarked :
      (page : Page) (message : String) (scope other : Scope)
      → (same_scope scope other ≡ false → IsMarked page other)
      → IsMarked (reset_local_baseline browser scope message page) other
  unfolding reset_local_baseline set_local_dirty set_local
  reset-IsMarked page message scope other m = elim (Bool-cases (same_scope scope other)) [
    | inl e ↦ rw e (
        subst
          (λ o.
            false
            ≡ not (
                same_snapshot (local_snapshot browser page.forms o)
                  (local_snapshot browser page.forms scope)))
          (same_scope_sound scope other e)
          (sym (ap not (same_snapshot_same (local_snapshot browser page.forms scope)))))
    | inr e ↦ rw e (m e)
  ]

  pub unmarked :
      (page : Page) (scope : Scope)
      → IsMarked page scope
      → (page.locals scope).dirty ≡ false
      → same_snapshot (local_snapshot browser page.forms scope) (page.locals scope).baseline ≡ true
  unmarked page scope m d = ground (arith, m, d)
