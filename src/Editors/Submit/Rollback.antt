-- ===== src/Editors/Submit/Rollback.antt =====
-- What the handlers that save a change of web/static/js/admin.js leave when the save fails.
use server_status_rust_l.Prelude.{
  String, Option, none, some, concat, [], ◌∷◌, ◌≡◌, ◌∙◌, ap, refl, if◌then◌else◌, Bool-cases, inl,
  inr,
}
use server_status_rust_l.Prelude.Dict.{IsDistinct, set_of-IsDistinct}
use server_status_rust_l.Settings.{
  Settings, SettingsState, ensured, ensure_settings, snapshot_settings_state,
  restore_settings_state,
}
use server_status_rust_l.Servers.{ServerItem}
use server_status_rust_l.Saving.{
  App, Backend, set_settings, save_settings_payload, payload_from_state, table_options,
}
use server_status_rust_l.Saving.Outcomes.{saved_of, state_of, sent, save_state}
use server_status_rust_l.Editors.Server.{duplicated, deleted, is_online}
use server_status_rust_l.Editors.Submit.{
  set_console, save_tables, restore_unless_saved, duplicate_server, delete_server,
}

pub restored :
    (s : SettingsState)
    → IsDistinct s.deleted_hosts
    → IsDistinct s.deleted_access_keys
    → restore_settings_state (snapshot_settings_state (ensure_settings s)) ≡ ensure_settings s
unfolding restore_settings_state snapshot_settings_state ensure_settings ensured
restored s h k =
    rw (set_of-IsDistinct s.deleted_hosts h, set_of-IsDistinct s.deleted_access_keys k)
      (rw (set_of-IsDistinct s.deleted_hosts h, set_of-IsDistinct s.deleted_access_keys k) refl)

restored_result :
    (backend : Backend) (snapshot base : SettingsState) (saved : Option Settings)
    (result : Option Settings × App)
    → result.0 ≡ saved
    → result.1.state ≡ state_of saved base
    → (restore_unless_saved backend snapshot result).state
      ≡ state_of saved (restore_settings_state snapshot)
unfolding restore_unless_saved set_settings
restored_result backend snapshot base (some x) (some y, s) e h = h
restored_result backend snapshot base none (none, s) e h = refl
restored_result backend snapshot base (some x) (none, s) e h = absurd (cc)
restored_result backend snapshot base none (some y, s) e h = absurd (cc)

saved_or_restored :
    (backend : Backend) (message : String) (s : SettingsState) (s' : App)
    → IsDistinct s.deleted_hosts
    → IsDistinct s.deleted_access_keys
    → (restore_unless_saved backend
        (snapshot_settings_state (ensure_settings s))
        (save_tables backend message s')).state
      ≡ state_of (saved_of (backend.post_settings (sent s'))) (ensure_settings s)
unfolding save_tables
saved_or_restored backend message s s' h k =
    let saved = saved_of (backend.post_settings (sent s')) in
    let (r, state) = save_state backend message s' in
    let result = save_settings_payload backend payload_from_state (table_options message) s' in
    restored_result backend (snapshot_settings_state (ensure_settings s)) (ensure_settings s'.state)
      saved result r state
    ∙ ap (state_of saved) (restored s h k)

-- What is asked of the back end.
abbrev pub after_delete : ServerItem → App → App
unfolding set_settings set_console
after_delete item s =
    let s' = set_settings (ensure_settings s.state) s in set_console (deleted item.id s'.console) s'

-- Deleting a server that is online changes nothing. Deleting any other leaves what the saved
-- settings make of the state, if the save succeeds, and otherwise the completed settings and the two
-- sets as they were before.
pub delete_server_lem :
    (backend : Backend) (item : ServerItem) (s : App)
    → IsDistinct s.state.deleted_hosts
    → IsDistinct s.state.deleted_access_keys
    → (delete_server backend item s).state ≡ (
        if is_online item.stat
        then s.state
        else state_of
            (saved_of (backend.post_settings (sent (after_delete item s))))
            (ensure_settings s.state))
unfolding delete_server set_settings set_console save_tables restore_unless_saved
delete_server_lem backend item s h k = elim (Bool-cases (is_online item.stat)) [
  | inl e ↦ rw e refl
  | inr e ↦ rw e (saved_or_restored backend "服务器已删除并同步到后端" s.state (after_delete item s) h k)
]

abbrev pub after_duplicate : ServerItem → String → App → App
unfolding set_settings set_console
after_duplicate item id s =
    let s' = set_settings (ensure_settings s.state) s in
    set_console (duplicated item id s'.console) s'

-- Copying a server leaves what the saved settings make of the state, if the save succeeds, and
-- otherwise the completed settings and the two sets of deleted names as they were before.
pub duplicate_server_lem :
    (backend : Backend) (item : ServerItem) (id : String) (s : App)
    → IsDistinct s.state.deleted_hosts
    → IsDistinct s.state.deleted_access_keys
    → (duplicate_server backend item id s).state
      ≡ state_of
          (saved_of (backend.post_settings (sent (after_duplicate item id s))))
          (ensure_settings s.state)
unfolding duplicate_server set_settings set_console
duplicate_server_lem backend item id s h k =
    saved_or_restored backend (concat (id ∷ " 已复制并同步到后端" ∷ [])) s.state (after_duplicate item id s)
      h k
