-- ===== src/Editors/Submit.antt =====
-- web/static/js/admin.js: the handlers that change the settings and then save them. `applyEditor`
-- and `deleteCurrentEditorItem` keep their change when the save fails, `duplicateServer` and
-- `deleteServer` take it back. The dialog's own opening and closing is not modelled.
pub mod Rollback
pub mod Kept
use server_status_rust_l.Prelude.{
  String, Bool, true, false, Option, none, some, concat, List, [], ◌∷◌, if◌then◌else◌,
}
use server_status_rust_l.Settings.{
  Settings, SettingsState, ensure_settings, snapshot_settings_state, restore_settings_state,
}
use server_status_rust_l.Servers.{Console, ServerItem}
use server_status_rust_l.Saving.{
  App, Backend, set_settings, announce, save_settings_payload, payload_from_state, table_options,
}
use server_status_rust_l.Editors.Server.{
  ServerForm, ok, err, apply_server_editor, duplicated, deleted, is_online,
}
use server_status_rust_l.Editors.Group.{
  apply_server_group_editor, delete_server_group, delete_alert_rule,
}
use server_status_rust_l.Editors.Rule.{RuleForm, apply_alert_rule_editor}

-- What the dialog edits.
pub data Editor : Type 0 where
  server : String → ServerForm → Editor
  server_group : (id name : String) → (servers : List String) → Editor
  alert_rule : String → RuleForm → Editor

set_console : Console → App → App
set_console c s = record s { console = c }

module _ (backend : Backend) where
  save_tables : String → App → Option Settings × App
  save_tables message s = save_settings_payload backend payload_from_state (table_options message) s

  -- `applyEditor` for the three dialogs that save.
  unfoldable pub apply_editor : Editor → App → App
  unfolding save_tables set_console
  apply_editor (server id form) s = elim (apply_server_editor id form s.console) [
    | err message ↦ record s { toast = message }
    | ok c ↦ (save_tables "服务器配置已同步到后端" (set_console c s)).1
  ]
  apply_editor (server_group id name servers) s =
      (save_tables "服务器分组已同步到后端"
        (set_console (apply_server_group_editor id name servers s.console) s)).1
  apply_editor (alert_rule id form) s = elim (apply_alert_rule_editor id form s.console) [
    | none ↦ s
    | some c ↦ (save_tables "告警规则已同步到后端" (set_console c s)).1
  ]

  unfoldable pub delete_current_editor_item : Editor → App → App
  unfolding save_tables set_console
  delete_current_editor_item (server_group id name servers) s =
      (save_tables "服务器分组已删除并同步" (set_console (delete_server_group id s.console) s)).1
  delete_current_editor_item (alert_rule id form) s =
      (save_tables "告警规则已删除并同步" (set_console (delete_alert_rule id s.console) s)).1
  delete_current_editor_item (server id form) s = (save_tables "告警规则已删除并同步" s).1

  -- `if (!ok) restoreSettingsState(snapshot)`
  restore_unless_saved : SettingsState → Option Settings × App → App
  unfolding set_settings
  restore_unless_saved snapshot (some saved, s) = s
  restore_unless_saved snapshot (none, s) = set_settings (restore_settings_state snapshot) s

  -- `id` is the one that `nextServerId` has found.
  unfoldable pub duplicate_server : ServerItem → String → App → App
  unfolding save_tables set_console restore_unless_saved set_settings
  duplicate_server item id s =
      let s' = set_settings (ensure_settings s.state) s in
      restore_unless_saved (snapshot_settings_state s'.state) (
        save_tables (concat (id ∷ " 已复制并同步到后端" ∷ []))
          (set_console (duplicated item id s'.console) s'))

  unfoldable pub delete_server : ServerItem → App → App
  unfolding save_tables set_console restore_unless_saved set_settings
  delete_server item s =
      let s' = set_settings (ensure_settings s.state) s in
      if is_online item.stat
      then s
      else restore_unless_saved (snapshot_settings_state s'.state)
          (save_tables "服务器已删除并同步到后端" (set_console (deleted item.id s'.console) s'))
