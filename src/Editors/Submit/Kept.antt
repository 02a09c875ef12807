-- ===== src/Editors/Submit/Kept.antt =====
-- What `applyEditor` of web/static/js/admin.js leaves, which does not take its change back.
use server_status_rust_l.Prelude.{Option, none, some, ◌≡◌, refl, inl, inr, Option-cases}
use server_status_rust_l.Settings.{SettingsState, ensure_settings}
use server_status_rust_l.Servers.{Console}
use server_status_rust_l.Saving.{App, Backend}
use server_status_rust_l.Saving.Outcomes.{saved_of, state_of, sent, save_state}
use server_status_rust_l.Editors.Server.{Result, ok, err, apply_server_editor}
use server_status_rust_l.Editors.Server.Membership.{Result-cases}
use server_status_rust_l.Editors.Group.{apply_server_group_editor}
use server_status_rust_l.Editors.Rule.{apply_alert_rule_editor}
use server_status_rust_l.Editors.Submit.{
  Editor, server, server_group, alert_rule, set_console, save_tables, apply_editor,
}

abbrev of_result : Result Console → Option Console
of_result (ok c) = some c
of_result (err message) = none

-- The console with the dialog's change, or `none` where the dialog is refused.
abbrev pub changed : Editor → Console → Option Console
changed (server id form) c = of_result (apply_server_editor id form c)
changed (server_group id name servers) c = some (apply_server_group_editor id name servers c)
changed (alert_rule id form) c = apply_alert_rule_editor id form c

-- The settings after the handler, by the console that the dialog gives.
abbrev pub kept : Backend → App → Option Console → SettingsState
kept backend s none = s.state
kept backend s (some c) =
    state_of (saved_of (backend.post_settings (sent (record s { console = c }))))
      (ensure_settings c.state)

-- A dialog that is refused changes no settings. After any other the settings are those that the back
-- end has saved, or, where the save fails, still those with the dialog's change.
pub apply_editor_lem :
    (backend : Backend) (editor : Editor) (s : App)
    → (apply_editor backend editor s).state ≡ kept backend s (changed editor s.console)
unfolding apply_editor save_tables set_console
apply_editor_lem backend (server id form) s =
    elim (Result-cases (apply_server_editor id form s.console)) [
      | inl (c, e) ↦ rw (e, apply_editor) (save_state backend "服务器配置已同步到后端" (set_console c s)).1
      | inr (message, e) ↦ rw (e, apply_editor) refl
    ]
apply_editor_lem backend (server_group id name servers) s =
    (save_state backend "服务器分组已同步到后端"
      (set_console (apply_server_group_editor id name servers s.console) s)).1
apply_editor_lem backend (alert_rule id form) s =
    elim (Option-cases (apply_alert_rule_editor id form s.console)) [
      | inl e ↦ rw (e, apply_editor) refl
      | inr (c, e) ↦ rw (e, apply_editor) (save_state backend "告警规则已同步到后端" (set_console c s)).1
    ]
