-- ===== src/Saving/Channels/Marked.antt =====
-- The marks of unsaved changes in web/static/js/admin.js, over a save at a local button.
pub mod Handlers
pub mod Unsaved
use server_status_rust_l.Prelude.{
  String, Bool, true, false, not, ◌||◌, Option, none, some, List, [], ◌∷◌, ◌⊎◌, ◌≡◌, ◌↔◌, refl, sym,
  ap, subst, ◌∙◌, inl, inr, Bool-cases, any, eqb,
}
use server_status_rust_l.Prelude.Dict.{Dict, keys}
use server_status_rust_l.Prelude.Json.{Json}
use server_status_rust_l.Settings.{Settings}
use server_status_rust_l.Notifications.{
  Scope, tg, bark, wechat, email, webhook, log, access, expire, Forms, AccessForm, Browser,
}
use server_status_rust_l.Notifications.Page.{
  same_scope, same_snapshot, set_local, local_snapshot, reset_local_baseline, refresh_local_dirty,
  has_unsaved_changes, scopes, collect_access_settings, collect_expire_notify_settings, expire_json,
  ExpireNotify,
}
use server_status_rust_l.Notifications.Page.Marks.{
  IsMarked, same_scope_sound, same_scope_same, same_snapshot_sound, same_snapshot_same, no_scope,
  neither, refresh-IsMarked, reset-IsMarked, unmarked,
}
use server_status_rust_l.Saving.{
  App, Backend, Options, Failure, Result, ok, err, Reply, body, refused, rejected, Exec, modify,
  continue, ◌>>=◌, ◌>>◌, announce, expire_session, read_json, clear_session, set_settings,
  merge_saved, save_settings_payload, save_scoped_settings, post_settings, posted, finish, failed,
  after_post, scoped_payload,
}
use server_status_rust_l.Saving.Channels.{
  notification_setting_key, key_list, set_page, drawn_forms, render_notification, read_both,
  set_config, reload_notification_state, notification_transaction_options, save_notification_module,
  reset_notification_override, save_channel, access_saved, expire_saved, local_options,
  save_access_settings, save_expire_notify_settings,
}
use server_status_rust_l.Saving.Channels.Kept.{kept-drawn}
use server_status_rust_l.Saving.Channels.Trials.{mark_again, answered, test_notification}

module _ (browser : Browser) where
  -- Every mark of a form says whether the form gives something else than its baseline.
  abbrev pub AreMarked : App → Type 0
  AreMarked s = (scope : Scope) → IsMarked browser s.page scope

  abbrev pub Keeps : {A : Type 0} → Exec A → Type 0
  Keeps m = (s : App) → AreMarked s → AreMarked (m s).1

  pub bind-Keeps :
      {A B : Type 0} (m : Exec A) (f : A → Exec B)
      → Keeps m
      → ((a : A) → Keeps (f a))
      → Keeps (m >>= f)
  bind-Keeps {A = A} {B = B} m f h k s i = go (m s) (h s i)
    where
      go : (r : Result A × App) → AreMarked r.1 → AreMarked (continue r.0 f r.1).1
      go (ok a, t) i = k a t i
      go (err e, t) i = i

  pub read_json-Keeps : {A : Type 0} (reply : Reply A) → Keeps (read_json reply)
  unfolding read_json clear_session
  read_json-Keeps (body a) s i = i
  read_json-Keeps (refused status error status_text) s i =
      elim (Bool-cases (eqb status 401 || eqb status 403)) [ inl e ↦ rw e i | inr e ↦ rw e i ]
  read_json-Keeps (rejected message) s i = i

  pub merge_saved-AreMarked :
      (ks : List String) (saved : Settings) (s : App)
      → AreMarked s
      → AreMarked (merge_saved ks saved s)
  unfolding merge_saved set_settings
  merge_saved-AreMarked ks saved s i = i

  pub announce-AreMarked :
      (scope : Scope) (message : String) (s : App)
      → AreMarked s
      → AreMarked (announce (some scope) message s)
  unfolding announce set_local
  announce-AreMarked scope message s i other = elim (Bool-cases (same_scope scope other)) [
    | inl e ↦ rw e (i other)
    | inr e ↦ rw e (i other)
  ]

  pub expire_session-AreMarked :
      (e : Failure) (s : App) → AreMarked s → AreMarked (expire_session e s)
  unfolding expire_session
  expire_session-AreMarked e s i = elim (Bool-cases e.auth_expired) [
    | inl h ↦ rw h i
    | inr h ↦ rw h i
  ]

  -- A form that is drawn anew, with its new baseline.
  pub redrawn-AreMarked :
      (scope : Scope) (message : String) (forms : Forms) (s : App)
      → ((other : Scope)
          → same_scope scope other ≡ false
          → local_snapshot browser forms other ≡ local_snapshot browser s.page.forms other)
      → AreMarked s
      → AreMarked (
          set_page (reset_local_baseline browser scope message (record s.page { forms = forms })) s)
  unfolding set_page
  redrawn-AreMarked scope message forms s same i other =
      reset-IsMarked browser (record s.page { forms = forms }) message scope other
        (λ e.
          i other
          ∙ ap (λ a. not (same_snapshot a (s.page.locals other).baseline)) (sym (same other e)))

  module _ (backend : Backend) where
    render_notification-AreMarked :
        (scope : Scope) (s : App) → AreMarked s → AreMarked (render_notification browser scope s)
    unfolding render_notification
    render_notification-AreMarked scope s i = drawn (notification_setting_key scope)
      where
        drawn :
            (o : Option String)
            → AreMarked (elim o as (λ _. App) [
              | none ↦ s
              | some key ↦
                  set_page
                    (reset_local_baseline browser scope "" (record s.page {
                      forms =
                          drawn_forms browser s.config_channels s.settings.fields scope
                            s.page.forms;
                    }))
                    s
            ])
        drawn none = i
        drawn (some key) =
            redrawn-AreMarked scope ""
              (drawn_forms browser s.config_channels s.settings.fields scope s.page.forms) s
              (λ other.
                kept-drawn browser scope "" s.config_channels s.settings.fields scope other
                  s.page.forms)
              i

    read_both-Keeps : Keeps (read_both backend)
    unfolding read_both
    read_both-Keeps s i =
        read_json-Keeps backend.reload_settings (read_json backend.get_config s).1
          (read_json-Keeps backend.get_config s i)

    pub reload-Keeps : (scope : Scope) → Keeps (reload_notification_state browser backend scope)
    unfolding reload_notification_state set_config
    reload-Keeps scope =
        bind-Keeps (read_both backend)
          (λ (config, settings).
            modify (set_config config)
            >> modify (merge_saved (key_list (notification_setting_key scope)) settings)
            >> modify (render_notification browser scope))
          read_both-Keeps
          (λ (config, settings) s i.
            let t = set_config config s in
            let u = merge_saved (key_list (notification_setting_key scope)) settings t in
            render_notification-AreMarked scope u
              (merge_saved-AreMarked (key_list (notification_setting_key scope)) settings t i))

    -- A scoped save at a local button keeps the marks true if what completes it does.
    module _ (overrides : Dict Json) (scope : Scope) (given : Options)
        (complete : (saved : Settings) → Keeps (given.complete_transaction saved)) where
      abbrev options : Options
      options = record given {
        message_target = some scope;
        preserve_state = true;
        mark_clean = false;
        merge_saved_state = merge_saved (keys overrides);
      }

      failed-AreMarked :
          (e : Failure) (saved : Bool) (s : App)
          → AreMarked s
          → AreMarked (failed backend options e saved s)
      unfolding failed
      failed-AreMarked e saved s i =
          announce-AreMarked scope (given.failure_message e saved) (expire_session e s)
            (expire_session-AreMarked e s i)

      after_post-Keeps : (saved : Settings) → Keeps (after_post backend options saved)
      unfolding after_post
      after_post-Keeps saved s i =
          let finished : Exec (Unit {0}) = modify (announce (some scope) given.success_message) in
          bind-Keeps (given.complete_transaction saved) (λ _. finished) (complete saved)
            (λ _ u. announce-AreMarked scope given.success_message u)
            (merge_saved (keys overrides) saved s)
            (merge_saved-AreMarked (keys overrides) saved s i)

      finish-AreMarked :
          (saved : Settings) (r : Result (Unit {0}) × App)
          → AreMarked r.1
          → AreMarked (finish backend options saved r).1
      unfolding finish
      finish-AreMarked saved (ok done, t) i = i
      finish-AreMarked saved (err e, t) i = failed-AreMarked e true t i

      posted-AreMarked :
          (r : Result Settings × App) → AreMarked r.1 → AreMarked (posted backend options r).1
      unfolding posted
      posted-AreMarked (err e, s) i = failed-AreMarked e false s i
      posted-AreMarked (ok saved, s) i =
          finish-AreMarked saved (after_post backend options saved s) (after_post-Keeps saved s i)

      scoped_payload-Keeps : Keeps (scoped_payload backend overrides)
      unfolding scoped_payload
      scoped_payload-Keeps =
          bind-Keeps (read_json backend.get_settings) _ (read_json-Keeps backend.get_settings)
            (λ settings s i. i)

      pub save_scoped_settings-AreMarked :
          (s : App)
          → AreMarked s
          → AreMarked
              (save_scoped_settings backend overrides
                (record given { message_target = some scope })
                s).1
      unfolding save_scoped_settings save_settings_payload post_settings
      save_scoped_settings-AreMarked s i =
          let build = scoped_payload backend overrides in
          posted-AreMarked ((build >>= post_settings backend) s) (
            bind-Keeps build (post_settings backend) scoped_payload-Keeps
              (λ payload. read_json-Keeps (backend.post_settings payload)) s i)
