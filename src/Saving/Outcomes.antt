-- ===== src/Saving/Outcomes.antt =====
-- What `saveSettingsPayload` of web/static/js/admin.js leaves behind on each reply of the back end.
use server_status_rust_l.Prelude.{
  String, ℕ, Bool, false, ◌||◌, Option, none, some, List, [], ◌∷◌, ◌≡◌, refl, ◌or_text◌, concat,
  to_string, eqb, if◌then◌else◌, Bool-cases, inl, inr,
}
use server_status_rust_l.Settings.{
  Settings, SettingsState, Payload, hydrate_settings, ensure_settings, settings_payload_from_state,
}
use server_status_rust_l.Servers.{Stat}
use server_status_rust_l.Saving.{
  App, Backend, Reply, body, refused, rejected, login, read_json, clear_session, mark_pristine,
  set_settings, announce, expire_session, save_settings_payload, payload_from_state, table_options,
  refresh_stats_for_render, tables, post_settings, after_post, posted, finish, failed,
}

-- What is sent of the whole state.
abbrev pub sent : App → Payload
sent s = settings_payload_from_state s.state []

-- What the state is when it is sent.
abbrev pub completed : App → App
completed s = set_settings (ensure_settings s.state) s

abbrev pub is_expired : ℕ → Bool
is_expired status = eqb status 401 || eqb status 403

abbrev pub refusal : ℕ → String → String → String
refusal status error status_text =
    concat ("保存失败: " ∷ (error or_text concat (to_string status ∷ " " ∷ status_text ∷ [])) ∷ [])

-- A save of the whole state that the back end refuses gives no settings. The state is only
-- completed, it stays marked unsaved if it was, and the reason is shown; the session ends, and the
-- login page is shown, exactly when the status is 401 or 403.
pub refused_save :
    (backend : Backend) (message : String) (s : App) (status : ℕ) (error status_text : String)
    → backend.post_settings (sent s) ≡ refused status error status_text
    → save_settings_payload backend payload_from_state (table_options message) s ≡ (
      none,
      record (completed s) {
        token = if is_expired status then "" else s.token;
        view = if is_expired status then login else s.view;
        login_message = if is_expired status then "登录已过期，请重新登录" else s.login_message;
        message = refusal status error status_text;
        toast = refusal status error status_text;
      },
    )
unfolding save_settings_payload payload_from_state posted post_settings finish after_post failed
    read_json set_settings announce expire_session mark_pristine clear_session
refused_save backend message s status error status_text h = elim (Bool-cases (is_expired status)) [
  | inl e ↦ rw (h, e) refl
  | inr e ↦ rw (h, e) refl
]

refresh_keeps :
    (reply : Reply (List Stat)) (s : App)
    → ((refresh_stats_for_render reply tables s).state ≡ s.state)
      × ((refresh_stats_for_render reply tables s).view ≡ s.view)
unfolding refresh_stats_for_render read_json clear_session
refresh_keeps (body stats) s = (refl, refl)
refresh_keeps (refused status error status_text) s = elim (Bool-cases (is_expired status)) [
  | inl e ↦ rw e (refl, refl)
  | inr e ↦ rw e (refl, refl)
]
refresh_keeps (rejected message) s = (refl, refl)

-- A save of the whole state that the back end accepts gives the settings that it returned, and
-- the state is what those make of it, no longer marked unsaved or busy, whatever becomes of the
-- refresh of the servers' figures that follows; the view stays.
pub accepted_save :
    (backend : Backend) (message : String) (s : App) (saved : Settings)
    → backend.post_settings (sent s) ≡ body saved
    → let (r, s') = save_settings_payload backend payload_from_state (table_options message) s in
      (r ≡ some saved)
      × (s'.state ≡ hydrate_settings saved)
      × (s'.dirty ≡ false)
      × (s'.saving ≡ false)
      × (s'.toast ≡ message)
      × (s'.view ≡ s.view)
unfolding save_settings_payload payload_from_state posted post_settings finish after_post failed
    read_json set_settings announce expire_session mark_pristine clear_session
accepted_save backend message s saved h =
    let (state, view) =
      refresh_keeps backend.get_stats (set_settings (hydrate_settings saved) (completed s)) in
    rw h (refl, state, refl, refl, refl, view)

-- What a reply to a save gives, and what the state is after it.
abbrev pub saved_of : Reply Settings → Option Settings
saved_of (body saved) = some saved
saved_of (refused status error status_text) = none
saved_of (rejected message) = none

abbrev pub state_of : Option Settings → SettingsState → SettingsState
state_of (some saved) state = hydrate_settings saved
state_of none state = state

posted_state :
    (backend : Backend) (message : String) (reply : Reply Settings) (s : App)
    → let (r, s') = posted backend (table_options message) (read_json reply s) in
      (r ≡ saved_of reply) × (s'.state ≡ state_of (saved_of reply) s.state)
unfolding posted finish after_post failed read_json set_settings announce expire_session
    mark_pristine clear_session
posted_state backend message (body saved) s =
    (refl, (refresh_keeps backend.get_stats (set_settings (hydrate_settings saved) s)).0)
posted_state backend message (refused status error status_text) s =
    elim (Bool-cases (is_expired status)) [ inl e ↦ rw e (refl, refl) | inr e ↦ rw e (refl, refl) ]
posted_state backend message (rejected m) s = (refl, refl)

-- Whatever the back end replies, a save of the whole state gives what it returned, if anything, and
-- the state is what that makes of it, or else the completed one.
pub save_state :
    (backend : Backend) (message : String) (s : App)
    → let (r, s') = save_settings_payload backend payload_from_state (table_options message) s in
      (r ≡ saved_of (backend.post_settings (sent s)))
      × (s'.state ≡ state_of (saved_of (backend.post_settings (sent s))) (ensure_settings s.state))
unfolding save_settings_payload payload_from_state post_settings
save_state backend message s =
    posted_state backend message (backend.post_settings (sent s)) (completed s)
