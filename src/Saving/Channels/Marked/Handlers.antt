-- ===== src/Saving/Channels/Marked/Handlers.antt =====
-- The marks of unsaved changes in web/static/js/admin.js, over each handler that saves or tests.
use server_status_rust_l.Prelude.{
  String, false, Option, none, some, [], ◌∷◌, ◌⊎◌, ◌≡◌, refl, subst, inl, inr, Bool-cases,
}
use server_status_rust_l.Prelude.Dict.{Dict}
use server_status_rust_l.Prelude.Json.{Json}
use server_status_rust_l.Settings.{Settings}
use server_status_rust_l.Notifications.{
  Scope, tg, bark, wechat, email, webhook, log, access, expire, Forms, AccessForm, Browser,
}
use server_status_rust_l.Notifications.Page.{
  same_scope, set_local, local_snapshot, reset_local_baseline, collect_access_settings,
  collect_expire_notify_settings, expire_json, ExpireNotify,
}
use server_status_rust_l.Notifications.Page.Marks.{IsMarked, same_scope_sound, same_scope_same}
use server_status_rust_l.Saving.{
  App, Backend, Result, ok, err, modify, announce, expire_session, read_json, merge_saved,
  save_scoped_settings,
}
use server_status_rust_l.Saving.Channels.{
  set_page, reload_notification_state, notification_transaction_options, save_notification_module,
  reset_notification_override, save_channel, access_saved, expire_saved, local_options,
  save_access_settings, save_expire_notify_settings,
}
use server_status_rust_l.Saving.Channels.Trials.{mark_again, answered, test_notification}
use server_status_rust_l.Saving.Channels.Marked.{
  AreMarked, bind-Keeps, announce-AreMarked, read_json-Keeps, expire_session-AreMarked,
  merge_saved-AreMarked, redrawn-AreMarked, reload-Keeps, save_scoped_settings-AreMarked,
}

only_access :
    (browser : Browser) (forms : Forms) (form : AccessForm) (other : Scope)
    → same_scope access other ≡ false
    → local_snapshot browser (record forms { access = form }) other
      ≡ local_snapshot browser forms other
unfolding local_snapshot
only_access browser forms form access h = absurd (cc h)
only_access browser forms form _ h = refl

module _ (browser : Browser) (backend : Backend) where
  notification_save-AreMarked :
      (overrides : Dict Json) (scope : Scope) (success_message reload_message : String) (s : App)
      → AreMarked browser s
      → AreMarked browser
          (save_scoped_settings backend overrides
            (notification_transaction_options browser backend scope success_message reload_message)
            s).1
  unfolding notification_transaction_options
  notification_save-AreMarked overrides scope success_message reload_message s i =
      save_scoped_settings-AreMarked browser backend overrides scope
        (notification_transaction_options browser backend scope success_message reload_message)
        (λ saved.
          bind-Keeps browser (reload_notification_state browser backend scope)
            (λ _.
              modify (λ u. set_page (reset_local_baseline browser scope success_message u.page) u))
            (reload-Keeps browser backend scope)
            (λ _ u j.
              redrawn-AreMarked browser scope success_message u.page.forms u (λ other h. refl) j))
        s i

  pub save_channel-AreMarked :
      (scope : Scope) (s : App)
      → AreMarked browser s
      → AreMarked browser (save_channel browser backend scope s).1
  unfolding save_channel save_notification_module
  save_channel-AreMarked tg s i = notification_save-AreMarked _ tg _ _ s i
  save_channel-AreMarked bark s i = notification_save-AreMarked _ bark _ _ s i
  save_channel-AreMarked wechat s i = notification_save-AreMarked _ wechat _ _ s i
  save_channel-AreMarked email s i = notification_save-AreMarked _ email _ _ s i
  save_channel-AreMarked webhook s i = notification_save-AreMarked _ webhook _ _ s i
  save_channel-AreMarked log s i = notification_save-AreMarked _ log _ _ s i
  save_channel-AreMarked access s i = i
  save_channel-AreMarked expire s i = i

  pub reset-AreMarked :
      (scope : Scope) (key label : String) (s : App)
      → AreMarked browser s
      → AreMarked browser (reset_notification_override browser backend scope key label s).1
  unfolding reset_notification_override
  reset-AreMarked scope key label s i = elim (Bool-cases browser.confirms) [
    | inl e ↦ rw e (notification_save-AreMarked _ scope _ _ s i)
    | inr e ↦ rw e i
  ]

  mark_again-AreMarked :
      (scope : Scope) (s : App)
      → AreMarked browser s
      → AreMarked browser (mark_again browser backend scope s)
  unfolding mark_again set_page set_local
  mark_again-AreMarked scope s i other = elim (Bool-cases (same_scope scope other)) [
    | inl e ↦
        subst (IsMarked browser (mark_again browser backend scope s).page)
          (same_scope_sound scope other e) (rw (same_scope_same scope) refl)
    | inr e ↦ rw e (i other)
  ]

  answered-AreMarked :
      (scope : Scope) (success_message : String) (r : Result String × App)
      → AreMarked browser r.1
      → AreMarked browser (answered browser backend scope success_message r)
  unfolding answered
  answered-AreMarked scope success_message (ok message, s) i =
      announce-AreMarked browser scope _ s i
  answered-AreMarked scope success_message (err e, s) i =
      announce-AreMarked browser scope _ (expire_session e s)
        (expire_session-AreMarked browser e s i)

  pub test_notification-AreMarked :
      (kind : String) (scope : Scope) (payload : Json) (success_message : String) (s : App)
      → AreMarked browser s
      → AreMarked browser (test_notification browser backend kind scope payload success_message s)
  unfolding test_notification
  test_notification-AreMarked kind scope payload success_message s i =
      mark_again-AreMarked scope
        (answered browser backend scope success_message
          (read_json (backend.notify_test kind payload) s))
        (answered-AreMarked scope success_message (read_json (backend.notify_test kind payload) s)
          (read_json-Keeps browser (backend.notify_test kind payload) s i))

  access_saved-AreMarked :
      (form : AccessForm) (r : Option Settings × App)
      → AreMarked browser r.1
      → AreMarked browser (access_saved browser backend form r)
  unfolding access_saved
  access_saved-AreMarked form (none, s) i = i
  access_saved-AreMarked form (some saved, s) i =
      let t = merge_saved ("access_base_url" ∷ "agent_base_url" ∷ []) saved s in
      redrawn-AreMarked browser access "接入地址已同步到后端" (record t.page.forms { access = form }) t
        (λ other h. only_access browser t.page.forms form other h)
        (merge_saved-AreMarked browser ("access_base_url" ∷ "agent_base_url" ∷ []) saved s i)

  expire_saved-AreMarked :
      (r : Option Settings × App)
      → AreMarked browser r.1
      → AreMarked browser (expire_saved browser backend r)
  unfolding expire_saved
  expire_saved-AreMarked (none, s) i = i
  expire_saved-AreMarked (some saved, s) i =
      let t = merge_saved ("expire_notify" ∷ []) saved s in
      redrawn-AreMarked browser expire "到期提醒已同步到后端" t.page.forms t (λ other h. refl)
        (merge_saved-AreMarked browser ("expire_notify" ∷ []) saved s i)

  pub save_access-AreMarked :
      (s : App) → AreMarked browser s → AreMarked browser (save_access_settings browser backend s)
  unfolding save_access_settings
  save_access-AreMarked s i =
      access_saved-AreMarked (collect_access_settings s.page.forms.access) _ (
        save_scoped_settings-AreMarked browser backend _ access (local_options access "接入地址已同步到后端")
          (λ saved t j. j) s i)

  pub save_expire-AreMarked :
      (s : App)
      → AreMarked browser s
      → AreMarked browser (save_expire_notify_settings browser backend s)
  unfolding save_expire_notify_settings
  save_expire-AreMarked s i = sent (collect_expire_notify_settings browser s.page.forms.expire)
    where
      sent :
          (r : String ⊎ ExpireNotify)
          → AreMarked browser (elim r as (λ _. App) [
            | inl message ↦ announce (some expire) message s
            | inr settings ↦ expire_saved browser backend (
                save_scoped_settings backend
                  (("expire_notify", expire_json settings) ∷ [])
                  (local_options expire "到期提醒已同步到后端")
                  s)
          ])
      sent (inl message) = announce-AreMarked browser expire message s i
      sent (inr settings) = expire_saved-AreMarked _ (
          save_scoped_settings-AreMarked browser backend _ expire
            (local_options expire "到期提醒已同步到后端") (λ saved t j. j) s i)
