-- ===== src/Saving/Channels/Kept.antt =====
-- What a save of one notification channel of web/static/js/admin.js leaves alone.
use server_status_rust_l.Prelude.{
  String, Bool, true, false, ◌||◌, Option, none, some, [], ◌∷◌, ◌==◌, ◌≡◌, refl, sym, ap, subst,
  ◌∙◌, inl, inr, Bool-cases, eqb, includes,
}
use server_status_rust_l.Prelude.Dict.{Dict, keys, lookup}
use server_status_rust_l.Prelude.Json.{Json}
use server_status_rust_l.Settings.{Settings, settings_payload_from_settings}
use server_status_rust_l.Settings.Sending.{merge_scoped_settings_lem}
use server_status_rust_l.Notifications.{
  Scope, tg, bark, wechat, email, webhook, log, access, expire, Forms, Browser,
}
use server_status_rust_l.Notifications.Page.{
  Page, same_scope, set_local, set_local_dirty, local_snapshot, reset_local_baseline,
}
use server_status_rust_l.Saving.{
  App, Backend, Options, Failure, Result, ok, err, Reply, body, refused, rejected, Exec, modify,
  pure, continue, ◌>>=◌, ◌>>◌, announce, expire_session, read_json, clear_session, set_settings,
  merge_saved, save_settings_payload, save_scoped_settings, post_settings, posted, finish, failed,
  after_post, scoped_payload,
}
use server_status_rust_l.Saving.Channels.{
  notification_setting_key, key_list, set_page, drawn_forms, render_notification, read_both,
  set_config, reload_notification_state, notification_transaction_options,
}

module _ (browser : Browser) (scope : Scope) (key : String) where
  -- The other forms with their marks, the other settings, and whether other changes are unsaved.
  abbrev pub IsKept : App → App → Type 0
  IsKept s s' =
      ((other : Scope)
        → same_scope scope other ≡ false
        → (s'.page.locals other ≡ s.page.locals other)
          × (local_snapshot browser s'.page.forms other
              ≡ local_snapshot browser s.page.forms other))
      × ((k : String)
          → (key == k) ≡ false
          → lookup k s'.settings.fields ≡ lookup k s.settings.fields)
      × (record s'.settings { fields = s.settings.fields } ≡ s.settings)
      × (s'.dirty ≡ s.dirty)

  IsKept-trans : (s t u : App) → IsKept s t → IsKept t u → IsKept s u
  IsKept-trans s t u (p, f, e, d) (p', f', e', d') = (
    λ other h. ((p' other h).0 ∙ (p other h).0, (p' other h).1 ∙ (p other h).1),
    λ k h. f' k h ∙ f k h,
    ap (λ (x : Settings). record x { fields = s.settings.fields }) e' ∙ e,
    d' ∙ d,
  )

  pub IsKept-same : (s : App) → IsKept s s
  IsKept-same s = (λ other h. (refl, refl), λ k h. refl, refl, refl)

  IsKept-read : {A : Type 0} (reply : Reply A) (s : App) → IsKept s (read_json reply s).1
  unfolding read_json clear_session
  IsKept-read (body a) s = IsKept-same s
  IsKept-read (refused status error status_text) s =
      elim (Bool-cases (eqb status 401 || eqb status 403)) [
        | inl e ↦ rw e (IsKept-same s)
        | inr e ↦ rw e (IsKept-same s)
      ]
  IsKept-read (rejected message) s = IsKept-same s

  IsKept-merge : (saved : Settings) (s : App) → IsKept s (merge_saved (key ∷ []) saved s)
  unfolding merge_saved set_settings includes
  IsKept-merge saved s =
      let (fields, rest) = merge_scoped_settings_lem (key ∷ []) saved s.settings in
      (λ other h. (refl, refl), λ k h. fields k ∙ rw h refl, rest, refl)

  IsKept-reset :
      (message : String) (s : App)
      → IsKept s (set_page (reset_local_baseline browser scope message s.page) s)
  unfolding set_page reset_local_baseline set_local_dirty set_local
  IsKept-reset message s = (λ other h. (rw h refl, refl), λ k h. refl, refl, refl)

  pub kept-drawn :
      (config settings : Dict Json) (drawn other : Scope) (forms : Forms)
      → same_scope drawn other ≡ false
      → local_snapshot browser (drawn_forms browser config settings drawn forms) other
        ≡ local_snapshot browser forms other
  unfolding drawn_forms local_snapshot
  kept-drawn config settings tg tg forms h = absurd (cc h)
  kept-drawn config settings tg _ forms h = refl
  kept-drawn config settings bark bark forms h = absurd (cc h)
  kept-drawn config settings bark _ forms h = refl
  kept-drawn config settings wechat wechat forms h = absurd (cc h)
  kept-drawn config settings wechat _ forms h = refl
  kept-drawn config settings email email forms h = absurd (cc h)
  kept-drawn config settings email _ forms h = refl
  kept-drawn config settings webhook webhook forms h = absurd (cc h)
  kept-drawn config settings webhook _ forms h = refl
  kept-drawn config settings log log forms h = absurd (cc h)
  kept-drawn config settings log _ forms h = refl
  kept-drawn config settings access _ forms h = refl
  kept-drawn config settings expire _ forms h = refl

  IsKept-announce : (message : String) (s : App) → IsKept s (announce (some scope) message s)
  unfolding announce set_local
  IsKept-announce message s = (λ other h. (rw h refl, refl), λ k h. refl, refl, refl)

  IsKept-expire_session : (e : Failure) (s : App) → IsKept s (expire_session e s)
  unfolding expire_session
  IsKept-expire_session e s = elim (Bool-cases e.auth_expired) [
    | inl h ↦ rw h (IsKept-same s)
    | inr h ↦ rw h (IsKept-same s)
  ]

  abbrev KeepsOthers : {A : Type 0} → Exec A → Type 0
  KeepsOthers m = (s : App) → IsKept s (m s).1

  kept-bind :
      {A B : Type 0} (m : Exec A) (f : A → Exec B)
      → KeepsOthers m
      → ((a : A) → KeepsOthers (f a))
      → KeepsOthers (m >>= f)
  kept-bind {A = A} {B = B} m f h k s = go (m s) (h s)
    where
      go : (r : Result A × App) → IsKept s r.1 → IsKept s (continue r.0 f r.1).1
      go (ok a, t) i = IsKept-trans s t (f a t).1 i (k a t)
      go (err e, t) i = i

  module _ (backend : Backend) (of_scope : notification_setting_key scope ≡ some key) where
    kept-both : KeepsOthers (read_both backend)
    unfolding read_both
    kept-both s =
        let s1 = (read_json backend.get_config s).1 in
        IsKept-trans s s1 (read_json backend.reload_settings s1).1
          (IsKept-read backend.get_config s) (IsKept-read backend.reload_settings s1)

    redrawn : App → Page
    redrawn s = record s.page {
      forms = drawn_forms browser s.config_channels s.settings.fields scope s.page.forms;
    }

    shown_lem :
        (s : App)
        → render_notification browser scope s
          ≡ set_page (reset_local_baseline browser scope "" (redrawn s)) s
    unfolding render_notification redrawn
    shown_lem s =
        ap
          (λ (o : Option String). elim o [
            | none ↦ s
            | some k ↦ set_page (reset_local_baseline browser scope "" (redrawn s)) s
          ])
          of_scope

    IsKept-shown : (s : App) → IsKept s (render_notification browser scope s)
    unfolding set_page reset_local_baseline set_local_dirty set_local redrawn
    IsKept-shown s = subst (IsKept s) (sym (shown_lem s)) (
      λ other h.
          (rw h refl, kept-drawn s.config_channels s.settings.fields scope other s.page.forms h),
      λ k h. refl,
      refl,
      refl,
    )

    IsKept-reload : KeepsOthers (reload_notification_state browser backend scope)
    unfolding reload_notification_state set_config
    IsKept-reload =
        kept-bind (read_both backend)
          (λ (config, settings).
            modify (set_config config)
            >> modify (merge_saved (key_list (notification_setting_key scope)) settings)
            >> modify (render_notification browser scope))
          kept-both
          (λ (config, settings) s.
            let t = set_config config s in
            let u = merge_saved (key_list (notification_setting_key scope)) settings t in
            IsKept-trans s u (render_notification browser scope u)
              (IsKept-trans s t u (IsKept-same s) (
                subst (λ o. IsKept t (merge_saved (key_list o) settings t)) (sym of_scope)
                  (IsKept-merge settings t)))
              (IsKept-shown u))

    module _ (overrides : Dict Json) (only : keys overrides ≡ key ∷ [])
        (success_message reload_failure_message : String) where
      abbrev options : Options
      options =
          record (notification_transaction_options browser backend scope success_message
            reload_failure_message) {
              preserve_state = true;
              mark_clean = false;
              merge_saved_state = merge_saved (keys overrides);
            }

      IsKept-failed :
          (e : Failure) (saved : Bool) (s : App) → IsKept s (failed backend options e saved s)
      unfolding failed notification_transaction_options
      IsKept-failed e saved s =
          IsKept-trans s (expire_session e s) (failed backend options e saved s)
            (IsKept-expire_session e s)
            (IsKept-announce (options.failure_message e saved) (expire_session e s))

      IsKept-completed : (saved : Settings) → KeepsOthers (options.complete_transaction saved)
      unfolding notification_transaction_options
      IsKept-completed saved =
          let reset : Exec (Unit {0}) =
            modify (λ u. set_page (reset_local_baseline browser scope success_message u.page) u) in
          kept-bind (reload_notification_state browser backend scope) (λ _. reset) IsKept-reload
            (λ _ u. IsKept-reset success_message u)

      IsKept-after : (saved : Settings) → KeepsOthers (after_post backend options saved)
      unfolding after_post notification_transaction_options
      IsKept-after saved s =
          let t = merge_saved (keys overrides) saved s in
          let finished : Exec (Unit {0}) = modify (announce (some scope) success_message) in
          IsKept-trans s t (after_post backend options saved s).1
            (subst (λ ks. IsKept s (merge_saved ks saved s)) (sym only) (IsKept-merge saved s))
            (kept-bind (options.complete_transaction saved) (λ _. finished) (IsKept-completed saved)
              (λ _ u. IsKept-announce success_message u) t)

      IsKept-posted : (r : Result Settings × App) → IsKept r.1 (posted backend options r).1
      unfolding posted finish
      IsKept-posted (err e, s) = IsKept-failed e false s
      IsKept-posted (ok saved, s) = go (after_post backend options saved s) (IsKept-after saved s)
        where
          go :
              (r : Result (Unit {0}) × App)
              → IsKept s r.1
              → IsKept s (finish backend options saved r).1
          go (ok done, t) i = i
          go (err e, t) i =
              IsKept-trans s t (failed backend options e true t) i (IsKept-failed e true t)

      IsKept-payload : KeepsOthers (scoped_payload backend overrides)
      unfolding scoped_payload
      IsKept-payload =
          kept-bind (read_json backend.get_settings)
            (λ settings. pure (settings_payload_from_settings settings overrides))
            (IsKept-read backend.get_settings) (λ settings. IsKept-same)

      pub IsKept-saved :
          (s : App)
          → IsKept s
              (save_scoped_settings backend overrides
                (notification_transaction_options browser backend scope success_message
                  reload_failure_message)
                s).1
      unfolding save_scoped_settings save_settings_payload post_settings
      IsKept-saved s =
          let build = scoped_payload backend overrides in
          let r = (build >>= post_settings backend) s in
          IsKept-trans s r.1 (posted backend options r).1
            (kept-bind build (post_settings backend) IsKept-payload
              (λ payload. IsKept-read (backend.post_settings payload)) s)
            (IsKept-posted r)
