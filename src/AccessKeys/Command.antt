-- ===== src/AccessKeys/Command.antt =====
-- web/static/js/admin.js: the dialog that copies the command for a new agent (`applyAccessCommandEditor`),
-- and the button that shows the password of an access key (`toggleAccessSecret`). The replies and
-- what the browser does for `copyText` are parameters.
pub mod Kept
use server_status_rust_l.Prelude.{
  String, ℕ, zero, suc, ◌+◌, ◌/◌, Bool, true, false, not, ◌&&◌, ◌||◌, ◌==◌, Option, none, some,
  List, [], ◌∷◌, ◌or_else◌, ◌or_text◌, is_empty, trim, concat, to_string, ltb, if◌then◌else◌, ◌≡◌,
  ◌⊎◌, inl, inr, refl, Bool-cases, arith,
}
use server_status_rust_l.Prelude.Dict.{Dict, lookup, insert, has}
use server_status_rust_l.Settings.{Settings, AccessKey}
use server_status_rust_l.Servers.{Console}
use server_status_rust_l.Notifications.{words}
use server_status_rust_l.Notifications.Page.{normalize_base_url}
use server_status_rust_l.Saving.{App, Reply, Result, ok, err, Failure, read_json, set_settings}

pub record CommandForm : Type 0 where
  pub uid : String
  pub alias : String
  pub interval : String
  pub location : String
  pub kind : String
  pub weight : String
  pub disable_ping : Bool
  pub disable_tupd : Bool
  pub disable_extra : Bool
  pub notify : Bool

unfoldable pub append_command_param : String → String → Dict String → Dict String
unfolding trim insert
append_command_param key value params =
    let next_value = trim value in
    if is_empty next_value then params else insert key next_value params

abbrev set_if : Bool → String → String → Dict String → Dict String
set_if test key value params = if test then insert key value params else params

-- The `URLSearchParams`.
unfoldable pub command_params : CommandForm → Dict String
unfolding append_command_param
command_params form = set_if (not form.notify) "notify" "0" (
    set_if form.disable_extra "extra" "0" (
      set_if form.disable_tupd "tupd" "0" (
        set_if form.disable_ping "ping" "0" (
          append_command_param "weight" form.weight (
            append_command_param "type" form.kind (
              append_command_param "loc" form.location (
                append_command_param "interval" (form.interval or_text "1") (
                  append_command_param "alias" form.alias
                    (append_command_param "uid" form.uid [])))))))))

-- For a number of seconds; the reply has a natural number, or none.
unfoldable pub format_short_duration : ℕ → String
unfolding to_string concat
format_short_duration zero = "短时间"
format_short_duration (suc n) =
    let seconds = suc n in
    let minutes = (seconds + 30) / 60 in
    let hours = (minutes + 30) / 60 in
    if ltb seconds 60
    then concat (to_string seconds ∷ " 秒" ∷ [])
    else if ltb minutes 60
    then concat (to_string minutes ∷ " 分钟" ∷ [])
    else concat (to_string hours ∷ " 小时" ∷ [])

unfoldable pub access_address_changed : App → Bool
unfolding words normalize_base_url
access_address_changed s =
    let saved_agent_url = normalize_base_url (words s.settings.fields "agent_base_url" "") in
    let current_agent_url = normalize_base_url s.page.forms.access.agent_base_url in
    let saved_access_url = normalize_base_url (words s.settings.fields "access_base_url" "") in
    let current_access_url = normalize_base_url s.page.forms.access.access_base_url in
    not (saved_agent_url == current_agent_url) || not (saved_access_url == current_access_url)

-- The `data` of the reply; texts that are absent are empty.
pub record Command : Type 0 where
  pub script : String
  pub gid : String
  pub token_expires_in : ℕ

-- Whether the dialog was opened from a row, and whether that row is still in the table.
pub data Target : Type 0 where
  no_row shown_row removed_row : Target

pub record Copied : Type 0 where
  pub app : App
  pub subtitle : Option String
  pub row_message : Option String
  pub clipboard : Option String
  pub dialog_open : Bool

-- `rowMessage`, where there is a row, and otherwise `#save-message`.
notify_row : Target → String → String → Copied → Copied
notify_row shown_row message general c = record c { row_message = some message }
notify_row _ message general c = record c { app = record c.app { message = general } }

unfoldable pub copy_failed : Target → String → Copied → Copied
unfolding notify_row concat
copy_failed target message c =
    let text = concat ("复制失败: " ∷ message ∷ []) in
    let c' = notify_row target text text (record c { subtitle = some text }) in
    record c' { app = record c'.app { toast = text } }

-- `state.settings.access_keys[gid] ||= { ... }`
unfoldable pub add_command_key : String → App → App
unfolding set_settings has insert
add_command_key gid s =
    let keys = s.settings.access_keys or_else [] in
    let key : AccessKey = record {
      source_gid = gid;
      password = "";
      location = "";
      kind = "";
      notify = some true;
      labels = "";
      expire = none;
      billing = none;
      expire_notify = none;
      weight = none;
    } in
    set_settings
      (record s.state {
        settings = record s.settings {
          access_keys = some (if has gid keys then keys else insert gid key keys);
        };
      })
      s

-- What `copyText` finds: `navigator.clipboard` in a secure context or not, the message with which its
-- `writeText` rejects a text, and whether `execCommand` copies, which it tells by its result.
pub record Clipboard : Type 0 where
  pub has_clipboard : Bool
  pub is_secure_context : Bool
  pub write_text : String → Option String
  pub exec_command : Bool

-- The message of the exception, if there is one, and the text that is on the clipboard afterwards, if it
-- was put there. The result of `execCommand` is not looked at.
unfoldable pub copy_text : Clipboard → String → Option String × Option String
copy_text browser value =
    if browser.has_clipboard && browser.is_secure_context
    then elim (browser.write_text value) as (λ _. Option String × Option String) [
      | none ↦ (none, some value)
      | some failure ↦ (some failure, none)
    ]
    else (none, if browser.exec_command then some value else none)

module _ (reply : Dict String → Reply Command) (browser : Clipboard) where
  command_received : Target → Result Command × App → Copied → Copied
  unfolding copy_failed notify_row add_command_key format_short_duration concat copy_text
  command_received target (err e, s) c = copy_failed target e.message (record c { app = s })
  command_received target (ok command, s) c =
      let c' = record c { app = add_command_key (command.gid or_text "default") s } in
      let expires_in = format_short_duration command.token_expires_in in
      let message = concat ("接入指令已复制，一次性令牌 " ∷ expires_in ∷ " 内有效" ∷ []) in
      let row_text = concat ("已复制，令牌 " ∷ expires_in ∷ " 内有效" ∷ []) in
      let done =
        notify_row target row_text message
          (record c' { clipboard = (copy_text browser command.script).1 }) in
      let result : Copied = elim (copy_text browser command.script).0 [
        | some failure ↦ copy_failed target failure c'
        | none ↦ record done { app = record done.app { toast = message }; dialog_open = false }
      ] in
      if is_empty command.script then copy_failed target "接入脚本为空" (record c { app = s }) else result

  unfoldable pub apply_access_command_editor : Target → CommandForm → App → Copied
  unfolding command_received access_address_changed command_params read_json
  apply_access_command_editor target form s =
      let c : Copied = record {
        app = s;
        subtitle = none;
        row_message = none;
        clipboard = none;
        dialog_open = true;
      } in
      let sent = command_received target (read_json (reply (command_params form)) s) c in
      let changed = record c {
        subtitle = some "接入地址已改，请先保存";
        row_message = elim target [
          | no_row ↦ none
          | shown_row ↦ some "接入地址已改，请先保存"
          | removed_row ↦ some "接入地址已改，请先保存"
        ];
      } in
      elim target [
        | removed_row ↦ record c { subtitle = some "服务器行已不存在" }
        | no_row ↦ if access_address_changed s then changed else sent
        | shown_row ↦ if access_address_changed s then changed else sent
      ]

-- The field of a password and its button.
pub record SecretField : Type 0 where
  pub value : String
  pub is_text : Bool
  pub row_message : Option String

-- `reply` is that of the request for the row's password.
unfoldable pub toggle_access_secret : Reply String → Bool → SecretField × App → SecretField × App
unfolding read_json concat
toggle_access_secret reply unsaved (field, s) =
    let (result, s') = read_json reply s in
    let asked : SecretField = elim result [
      | ok password ↦ record field { value = password; is_text = true }
      | err e ↦ record field { row_message = some (concat ("读取失败: " ∷ e.message ∷ [])) }
    ] in
    if field.is_text
    then (record field { is_text = false }, s)
    else if unsaved || not (is_empty field.value)
    then (record field { is_text = true }, s)
    else (asked, s')
