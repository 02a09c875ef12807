-- ===== src/Saving/Channels/Outcomes.antt =====
-- What a save of one notification channel of web/static/js/admin.js leaves.
use server_status_rust_l.Prelude.{
  String, false, some, [], ◌∷◌, ◌≡◌, refl, inl, inr, Bool-cases, concat, ap,
}
use server_status_rust_l.Prelude.Json.{Json}
use server_status_rust_l.Settings.{Settings, settings_payload_from_settings, merge_scoped_settings}
use server_status_rust_l.Notifications.{
  Scope, tg, bark, wechat, email, webhook, log, access, expire, Browser,
}
use server_status_rust_l.Notifications.Page.{
  local_snapshot, reset_local_baseline, set_local_dirty, set_local,
}
use server_status_rust_l.Notifications.Page.Marks.{same_scope_same}
use server_status_rust_l.Saving.{
  App, Backend, Config, body, save_scoped_settings, save_settings_payload, scoped_payload,
  post_settings, posted, finish, after_post, read_json, merge_saved, set_settings, announce,
}
use server_status_rust_l.Saving.Channels.{
  notification_setting_key, key_list, drawn_forms, reload_notification_state, read_both, set_config,
  set_page, render_notification, notification_transaction_options, save_notification_module,
  reset_notification_override, save_channel,
}
use server_status_rust_l.Saving.Channels.Kept.{IsKept, IsKept-saved, IsKept-same}

module _ (browser : Browser) (backend : Backend) where
  -- If the requests of a channel's save are all answered, the save gives what was saved, the page says
  -- so, and the channel's form is drawn anew from the configuration and from the settings that the back
  -- end gives after the save, whatever they have under the channel's key; what the form now gives is the channel's new baseline, so
  -- that it has no unsaved changes.
  pub saved_module :
      (scope : Scope) (key label : String) (value : Json) (s : App)
      (current saved reloaded : Settings) (config : Config)
      → notification_setting_key scope ≡ some key
      → backend.get_settings ≡ body current
      → backend.post_settings (settings_payload_from_settings current ((key, value) ∷ []))
        ≡ body saved
      → backend.get_config ≡ body config
      → backend.reload_settings ≡ body reloaded
      → let (r, s') = save_notification_module browser backend scope key value label s in
        (r ≡ some saved)
        × ((s'.page.locals scope).dirty ≡ false)
        × ((s'.page.locals scope).baseline ≡ local_snapshot browser s'.page.forms scope)
        × (s'.page.forms
            ≡ drawn_forms browser config.channels
                (merge_scoped_settings
                  (key ∷ [])
                  reloaded
                  (merge_scoped_settings (key ∷ []) saved s.settings)).fields
                scope
                s.page.forms)
        × ((s'.page.locals scope).message ≡ concat (label ∷ " 已同步到后端" ∷ []))
        × (s'.toast ≡ concat (label ∷ " 已同步到后端" ∷ []))
  unfolding save_notification_module save_scoped_settings save_settings_payload scoped_payload
      post_settings posted finish after_post read_json notification_transaction_options
      reload_notification_state read_both set_page reset_local_baseline set_local_dirty set_local
      announce render_notification merge_saved set_settings set_config
  saved_module scope key label value s current saved reloaded config of_scope settings post conf
        again =
      rw (settings, post, conf, again)
        (rw (of_scope, render_notification)
          (rw (same_scope_same scope) (
            refl,
            refl,
            refl,
            ap
                (λ o.
                  drawn_forms browser config.channels
                    (merge_scoped_settings (key_list o) reloaded
                      (merge_scoped_settings (key ∷ []) saved s.settings)).fields
                    scope s.page.forms)
                of_scope,
            refl,
            refl,
          )))

  save_channel-IsKept :
      (scope : Scope) (key : String) (s : App)
      → notification_setting_key scope ≡ some key
      → IsKept browser scope key s (save_channel browser backend scope s).1
  unfolding save_channel save_notification_module
  save_channel-IsKept tg key s h =
      IsKept-saved browser tg key backend h _ (ap (λ k. k ∷ []) (cc h)) _ _ s
  save_channel-IsKept bark key s h =
      IsKept-saved browser bark key backend h _ (ap (λ k. k ∷ []) (cc h)) _ _ s
  save_channel-IsKept wechat key s h =
      IsKept-saved browser wechat key backend h _ (ap (λ k. k ∷ []) (cc h)) _ _ s
  save_channel-IsKept email key s h =
      IsKept-saved browser email key backend h _ (ap (λ k. k ∷ []) (cc h)) _ _ s
  save_channel-IsKept webhook key s h =
      IsKept-saved browser webhook key backend h _ (ap (λ k. k ∷ []) (cc h)) _ _ s
  save_channel-IsKept log key s h =
      IsKept-saved browser log key backend h _ (ap (λ k. k ∷ []) (cc h)) _ _ s
  save_channel-IsKept access key s h = absurd (cc h)
  save_channel-IsKept expire key s h = absurd (cc h)

  -- Whatever the back end answers to each request, before and after the save, a save of one channel, or its return to the configuration file,
  -- leaves every other form as it was, with its baseline, its message and its mark of unsaved changes,
  -- every setting but the channel's own, and whether other changes of the state are marked unsaved.
  pub save_channel_lem :
      (scope : Scope) (key label : String) (s : App)
      → notification_setting_key scope ≡ some key
      → IsKept browser scope key s (save_channel browser backend scope s).1
        × IsKept browser scope key s
            (reset_notification_override browser backend scope key label s).1
  unfolding reset_notification_override
  save_channel_lem scope key label s h = (
    save_channel-IsKept scope key s h,
    elim (Bool-cases browser.confirms) [
      | inl e ↦ rw e (IsKept-saved browser scope key backend h _ refl _ _ s)
      | inr e ↦ rw e (IsKept-same browser scope key s)
    ],
  )
