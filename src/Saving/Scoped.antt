-- ===== src/Saving/Scoped.antt =====
-- What `saveScopedSettings` of web/static/js/admin.js leaves: the saves of one part of the settings
-- that go on while other parts are edited.
use server_status_rust_l.Prelude.{
  String, true, false, Option, none, some, List, ◌≡◌, refl, sym, ap, subst, ◌∙◌, includes,
  if◌then◌else◌, Bool-cases, inl, inr,
}
use server_status_rust_l.Prelude.Dict.{Dict, keys, lookup}
use server_status_rust_l.Prelude.Json.{Json}
use server_status_rust_l.Notifications.{Scope}
use server_status_rust_l.Settings.{
  Settings, SettingsState, settings_payload_from_settings, merge_scoped_settings,
}
use server_status_rust_l.Settings.Sending.{merge_scoped_settings_lem}
use server_status_rust_l.Saving.{
  App, Backend, Reply, body, refused, rejected, Options, show_message, Result, pure, ◌>>=◌,
  read_json, clear_session, mark_pristine, set_settings, announce, expire_session,
  save_settings_payload, post_settings, after_post, posted, finish, failed, merge_saved,
  scoped_payload, save_scoped_settings,
}
use server_status_rust_l.Saving.Outcomes.{is_expired, saved_of}

-- Any options, but for a save that completes nothing.
abbrev pub scoped_options : Options → Options
scoped_options given = record given { complete_transaction = λ saved. pure tt }

-- What the two requests give: the settings of the back end, and those that it saves of them.
abbrev pub scoped_saved : Backend → Dict Json → Reply Settings → Option Settings
scoped_saved backend overrides (body settings) =
    saved_of (backend.post_settings (settings_payload_from_settings settings overrides))
scoped_saved backend overrides _ = none

abbrev merged : List String → Option Settings → SettingsState → SettingsState
merged keys none state = state
merged keys (some saved) state = record state {
  settings = merge_scoped_settings keys saved state.settings;
}

-- The settings after the save: what was saved under the keys that it names, and nothing else of it.
abbrev pub IsMerged : List String → Option Settings → Settings → Settings → Type 0
IsMerged keys none before after = after ≡ before
IsMerged keys (some saved) before after =
    ((k : String)
      → lookup k after.fields
        ≡ (if includes keys k then lookup k saved.fields else lookup k before.fields))
    × (record after { fields = before.fields } ≡ before)

merged-IsMerged :
    (keys : List String) (saved : Option Settings) (state : SettingsState)
    → IsMerged keys saved state.settings (merged keys saved state).settings
merged-IsMerged keys none state = refl
merged-IsMerged keys (some saved) state = merge_scoped_settings_lem keys saved state.settings

merged_sets :
    (keys : List String) (saved : Option Settings) (state : SettingsState)
    → ((merged keys saved state).deleted_hosts ≡ state.deleted_hosts)
      × ((merged keys saved state).deleted_access_keys ≡ state.deleted_access_keys)
merged_sets keys none state = (refl, refl)
merged_sets keys (some saved) state = (refl, refl)

shown_state :
    (target : Option Scope) (message : String) (s : App)
    → (show_message target message s).state ≡ s.state
shown_state none message s = refl
shown_state (some scope) message s = refl

shown_dirty :
    (target : Option Scope) (message : String) (s : App)
    → (show_message target message s).dirty ≡ s.dirty
shown_dirty none message s = refl
shown_dirty (some scope) message s = refl

module _ (backend : Backend) (overrides : Dict Json) (given : Options) where
  options : Options
  options = record (scoped_options given) {
    preserve_state = true;
    mark_clean = false;
    merge_saved_state = merge_saved (keys overrides);
  }

  abbrev IsScoped : Option Settings → App → Option Settings × App → Type 0
  IsScoped saved s result =
      (result.0 ≡ saved)
      × (result.1.state ≡ merged (keys overrides) saved s.state)
      × (result.1.dirty ≡ s.dirty)

  post_replied :
      (reply : Reply Settings) (s : App)
      → IsScoped (saved_of reply) s (posted backend options (read_json reply s))
  unfolding posted finish after_post failed read_json set_settings announce expire_session
      mark_pristine clear_session merge_saved options
  post_replied (body saved) s =
      (refl, shown_state given.message_target _ _, shown_dirty given.message_target _ _)
  post_replied (refused status error status_text) s = elim (Bool-cases (is_expired status)) [
    | inl e ↦
        rw e (refl, shown_state given.message_target _ _, shown_dirty given.message_target _ _)
    | inr e ↦
        rw e (refl, shown_state given.message_target _ _, shown_dirty given.message_target _ _)
  ]
  post_replied (rejected message) s =
      (refl, shown_state given.message_target _ _, shown_dirty given.message_target _ _)

  -- The request that follows the reply to the first.
  second : Reply Settings → App → Result Settings × App
  unfolding read_json post_settings
  second reply =
      (read_json reply >>= λ settings. pure (settings_payload_from_settings settings overrides))
      >>= post_settings backend

  first_replied :
      (reply : Reply Settings) (s : App)
      → IsScoped (scoped_saved backend overrides reply) s (posted backend options (second reply s))
  unfolding second posted failed read_json post_settings announce expire_session clear_session
      options
  first_replied (body settings) s =
      post_replied (backend.post_settings (settings_payload_from_settings settings overrides)) s
  first_replied (refused status error status_text) s = elim (Bool-cases (is_expired status)) [
    | inl e ↦
        rw e (refl, shown_state given.message_target _ _, shown_dirty given.message_target _ _)
    | inr e ↦
        rw e (refl, shown_state given.message_target _ _, shown_dirty given.message_target _ _)
  ]
  first_replied (rejected message) s =
      (refl, shown_state given.message_target _ _, shown_dirty given.message_target _ _)

-- A scoped save with any options, that completes nothing besides, gives what the back end saved of its
-- own settings with the overrides, or nothing if either request fails. If it gives nothing, the
-- settings of the state are as they were; otherwise they have the saved values under the overridden
-- keys, and all else as it was. The sets of deleted names, and whether other changes are marked
-- unsaved, stay as they were.
pub save_scoped_settings_lem :
    (backend : Backend) (overrides : Dict Json) (given : Options) (s : App)
    → let saved = scoped_saved backend overrides backend.get_settings in
      let (r, s') = save_scoped_settings backend overrides (scoped_options given) s in
      (r ≡ saved)
      × IsMerged (keys overrides) saved s.settings s'.settings
      × (s'.deleted_hosts ≡ s.deleted_hosts)
      × (s'.deleted_access_keys ≡ s.deleted_access_keys)
      × (s'.dirty ≡ s.dirty)
unfolding save_scoped_settings scoped_payload save_settings_payload options second
save_scoped_settings_lem backend overrides given s =
    let saved = scoped_saved backend overrides backend.get_settings in
    let (result, state, dirty) = first_replied backend overrides given backend.get_settings s in
    let (hosts, access_keys) = merged_sets (keys overrides) saved s.state in
    (
      result,
      subst (λ (t : SettingsState). IsMerged (keys overrides) saved s.settings t.settings)
          (sym state) (merged-IsMerged (keys overrides) saved s.state),
      ap (λ (t : SettingsState). t.deleted_hosts) state ∙ hosts,
      ap (λ (t : SettingsState). t.deleted_access_keys) state ∙ access_keys,
      dirty,
    )
