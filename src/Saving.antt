-- ===== src/Saving.antt =====
-- web/static/js/admin.js: requests to the back end, and the transaction that saves settings. The back
-- end's replies are a parameter. A handler runs from its call to its end with no other handler in
-- between; what it has written when it fails stays written, so a state stands beside a failure too.
pub mod Outcomes
pub mod Scoped
pub mod Channels
use server_status_rust_l.Prelude.{
  String, ℕ, Bool, true, false, not, ◌&&◌, ◌||◌, Option, none, some, List, [], ◌∷◌, ◌==◌, ◌or_text◌,
  concat, to_string, eqb, if◌then◌else◌,
}
use server_status_rust_l.Settings.{
  Settings, SettingsState, Payload, no_settings, hydrate_settings, ensure_settings,
  settings_payload_from_state, settings_payload_from_settings, merge_scoped_settings,
}
use server_status_rust_l.Prelude.Dict.{Dict, keys}
use server_status_rust_l.Prelude.Json.{Json}
use server_status_rust_l.Notifications.{Scope}
use server_status_rust_l.Notifications.Page.{Local, Page, set_local}
use server_status_rust_l.Servers.{ConfigHost, Stat, Console}

pub data View : Type 0 where
  login dashboard loading : View

-- The script's `state` and the texts that it shows. `config_channels` has the keys of `state.config` for
-- the channels and the reminders; `token` stands for the browser's stored one too.
pub record App : Type 0 where
  pub console : Console
  pub open console use *
  pub configured_methods : List String
  pub config_channels : Dict Json
  pub page : Page
  pub token : String
  pub view : View
  pub dirty : Bool
  pub saving : Bool
  pub message : String
  pub login_message : String
  pub toast : String

pub record Failure : Type 0 where
  pub message : String
  pub auth_expired : Bool

pub data Result (A : Type 0) : Type 0 where
  ok : A → Result A
  err : Failure → Result A

abbrev pub Exec : Type 0 → Type 0
Exec A = App → Result A × App

abbrev pub continue : {A B : Type 0} → Result A → (A → Exec B) → Exec B
continue (ok a) f s = f a s
continue (err e) f s = (err e, s)

infixl 5 ◌>>=◌ ◌>>◌
abbrev pub ◌>>=◌ : {A B : Type 0} → Exec A → (A → Exec B) → Exec B
◌>>=◌ m f s = let (r, s') = m s in continue r f s'

abbrev pub ◌>>◌ : {A B : Type 0} → Exec A → Exec B → Exec B
m >> n = m >>= λ _. n

abbrev pub pure : {A : Type 0} → A → Exec A
pure a s = (ok a, s)

abbrev pub modify : (App → App) → Exec (Unit {0})
modify f s = (ok tt, f s)

-- What a request comes back with: a body, a refusal, or no response at all.
pub data Reply (A : Type 0) : Type 0 where
  body : A → Reply A
  refused : (status : ℕ) (error status_text : String) → Reply A
  rejected : String → Reply A

pub record Config : Type 0 where
  pub hosts : List ConfigHost
  pub configured_methods : List String
  pub channels : Dict Json

-- The back end, as far as one handler meets it. `get_settings` is the reply to the first request for the
-- settings, and `reload_settings` that to a second one, which a handler sends after a save. The body of
-- a test's reply is its message, or empty.
pub record Backend : Type 0 where
  pub post_settings : Payload → Reply Settings
  pub get_settings : Reply Settings
  pub reload_settings : Reply Settings
  pub get_stats : Reply (List Stat)
  pub get_config : Reply Config
  pub notify_test : (kind : String) → Json → Reply String

unfoldable pub clear_session : App → App
clear_session s = record s { token = "" }

-- `error` is the reply's own text, empty where it has none.
unfoldable pub read_json : {A : Type 0} → Reply A → Exec A
unfolding clear_session
read_json (body a) s = (ok a, s)
read_json (refused status error status_text) s =
    let auth_expired = eqb status 401 || eqb status 403 in
    let message = error or_text concat (to_string status ∷ " " ∷ status_text ∷ []) in
    (
      err (record { message = message; auth_expired = auth_expired }),
      if auth_expired then clear_session s else s,
    )
read_json (rejected message) s = (err (record { message = message; auth_expired = false }), s)

unfoldable pub mark_pristine : String → App → App
mark_pristine message s = record s { dirty = false; saving = false; message = message }

unfoldable pub set_settings : SettingsState → App → App
set_settings state s = record s { console = record s.console { state = state } }

-- The parts of the page that a save draws anew.
pub data Render : Type 0 where
  all tables notifications settings nothing : Render

abbrev pub shows_stats : Render → Bool
shows_stats all = true
shows_stats tables = true
shows_stats _ = false

-- A failed refresh is passed over.
unfoldable pub refresh_stats_for_render : Reply (List Stat) → Render → App → App
unfolding read_json
refresh_stats_for_render reply render s =
    if not (shows_stats render)
    then s
    else let (r, s') = read_json reply s in
      elim r [ err e ↦ s' | ok stats ↦ record s' { console = record s'.console { stats = stats } } ]

-- The options of `saveSettingsPayload`: the message goes to a local save button, or to `#save-message`;
-- `merge_saved_state` is used where the state is preserved.
pub record Options : Type 0 where
  pub success_message : String
  pub message_target : Option Scope
  pub render : Render
  pub mark_clean : Bool
  pub preserve_state : Bool
  pub merge_saved_state : Settings → App → App
  pub complete_transaction : Settings → Exec (Unit {0})
  pub failure_message : Failure → Bool → String

abbrev pub save_failed : Failure → Bool → String
save_failed e saved = concat ("保存失败: " ∷ e.message ∷ [])

abbrev pub show_message : Option Scope → String → App → App
show_message none message s = record s { message = message }
show_message (some scope) message s = record s {
  page = set_local scope (λ l. record l { message = message }) s.page;
}

-- `text(messageTarget, message)` and `showToast(message)`
unfoldable pub announce : Option Scope → String → App → App
announce target message s = show_message target message (record s { toast = message })

-- The `catch` of a handler that shows an expired session.
unfoldable pub expire_session : Failure → App → App
expire_session e s =
    if e.auth_expired then record s { view = login; login_message = "登录已过期，请重新登录" } else s

module _ (backend : Backend) where
  unfoldable pub post_settings : Payload → Exec Settings
  unfolding read_json
  post_settings payload = read_json (backend.post_settings payload)

  -- What follows the reply to the request.
  after_post : Options → Settings → Exec (Unit {0})
  unfolding announce mark_pristine set_settings refresh_stats_for_render
  after_post options saved = do
    modify (
        if options.preserve_state
        then options.merge_saved_state saved
        else set_settings (hydrate_settings saved))
    options.complete_transaction saved
    modify (
        if options.preserve_state
        then (λ s. s)
        else refresh_stats_for_render backend.get_stats options.render)
    modify (if options.mark_clean then mark_pristine "" else (λ s. s))
    modify (announce options.message_target options.success_message)

  failed : Options → Failure → Bool → App → App
  unfolding announce expire_session
  failed options e saved s =
      announce options.message_target (options.failure_message e saved) (expire_session e s)

  finish : Options → Settings → Result (Unit {0}) × App → Option Settings × App
  unfolding failed
  finish options saved (ok _, s) = (some saved, s)
  finish options saved (err e, s) = (none, failed options e true s)

  posted : Options → Result Settings × App → Option Settings × App
  unfolding failed finish after_post
  posted options (err e, s) = (none, failed options e false s)
  posted options (ok saved, s) = finish options saved (after_post options saved s)

  -- The result is what was saved, or `none` for `false`.
  unfoldable pub save_settings_payload : Exec Payload → Options → App → Option Settings × App
  unfolding posted post_settings
  save_settings_payload build options s = posted options ((build >>= post_settings) s)

-- `() => settingsPayloadFromState()`: it completes the settings of the state first.
unfoldable pub payload_from_state : Exec Payload
unfolding set_settings
payload_from_state s =
    (ok (settings_payload_from_state s.state []), set_settings (ensure_settings s.state) s)

-- The options of the handlers that save the whole state and draw the tables.
abbrev pub table_options : String → Options
table_options success_message = record {
  success_message = success_message;
  message_target = none;
  render = tables;
  mark_clean = true;
  preserve_state = false;
  merge_saved_state = λ saved s. s;
  complete_transaction = λ saved. pure tt;
  failure_message = save_failed;
}

unfoldable pub merge_saved : List String → Settings → App → App
unfolding set_settings
merge_saved keys saved s =
    set_settings (record s.state { settings = merge_scoped_settings keys saved s.settings }) s

module _ (backend : Backend) where
  -- The builder of `saveScopedSettings`: what the back end has, with the overrides.
  scoped_payload : Dict Json → Exec Payload
  unfolding read_json
  scoped_payload overrides = read_json backend.get_settings >>= λ settings.
      pure (settings_payload_from_settings settings overrides)

  -- `options` gives the texts and `completeTransaction`.
  unfoldable pub save_scoped_settings : Dict Json → Options → App → Option Settings × App
  unfolding scoped_payload merge_saved
  save_scoped_settings overrides options s =
      save_settings_payload backend (scoped_payload overrides)
        (record options {
          preserve_state = true;
          mark_clean = false;
          merge_saved_state = merge_saved (keys overrides);
        })
        s
