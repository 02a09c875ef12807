-- ===== src/Account.antt =====
-- web/static/js/admin.js: the path of the console and the form that changes the account. What the
-- form reads and the page holds stands in `Form` and `Page`; the reply to the request, the
-- answer to the question about unsaved changes and whether there are any are arguments.
pub mod Checks
use Prim.Native.Char.{Char, code}
use Prim.Native.String
use server_status_rust_l.Prelude.{
  String, ℕ, Bool, true, false, not, ◌&&◌, ◌||◌, Option, none, some, List, [], ◌∷◌, ◌==◌, is_empty,
  truthy, trim, drop_end, starts_with, concat, is_digit, is_alpha, includes, utf16_length, ltb, leb,
  eqb, if◌then◌else◌,
}
use server_status_rust_l.Saving.{
  App, Reply, Result, ok, err, Failure, View, login, read_json, clear_session, mark_pristine,
  expire_session,
}

-- `.replace(/\/+$/, "")`
abbrev drop_slashes : String → String
drop_slashes s = drop_end (λ c. eqb c 47) s

unfoldable pub normalize_admin_path : String → String
normalize_admin_path value =
    let trimmed = trim (drop_slashes (trim value)) in
    if is_empty trimmed
    then "/admin"
    else if starts_with trimmed "/"
    then trimmed
    else concat ("/" ∷ trimmed ∷ [])

-- `/^[...]+$/`
unfoldable pub all_chars : (Char → Bool) → String → Bool
all_chars p String.[] = true
all_chars p (String.◌∷◌ c s) = p c && all_chars p s

abbrev is_segment_char : Char → Bool
is_segment_char c = is_alpha c || is_digit c || eqb (code c) 95 || eqb (code c) 45

-- What follows the one slash that the path starts with.
unfoldable pub segment_of : String → Option String
segment_of String.[] = none
segment_of (String.◌∷◌ c s) = if eqb (code c) 47 then some s else none

abbrev pub system_segments : List String
system_segments = "api" ∷ "static" ∷ "report" ∷ "json" ∷ "detail" ∷ "map" ∷ "i" ∷ []

-- The message of the field, which is empty where the path is valid.
unfoldable pub admin_path_error : String → String
unfolding all_chars segment_of
admin_path_error path = elim (segment_of path) [
  | none ↦ "后台入口只能是一段路径，可包含字母、数字、横线和下划线，例如 /panel_2026"
  | some segment ↦
      if is_empty segment || not (all_chars is_segment_char segment)
      then "后台入口只能是一段路径，可包含字母、数字、横线和下划线，例如 /panel_2026"
      else if ltb 64 (utf16_length path)
      then "后台入口路径不能超过 64 个字符"
      else if includes system_segments segment
      then "后台入口路径与系统路径冲突，请换一个名称"
      else ""
]

unfoldable pub validate_admin_path : String → Bool
unfolding admin_path_error
validate_admin_path path = is_empty (admin_path_error path)

-- `err` is what `collectAdminPathSettings` throws.
unfoldable pub collect_admin_path_settings : String → Result String
unfolding normalize_admin_path validate_admin_path admin_path_error
collect_admin_path_settings value =
    let path = normalize_admin_path value in
    if validate_admin_path path
    then ok path
    else err (record { message = admin_path_error path; auth_expired = false })

abbrev is_username_char : Char → Bool
is_username_char c =
    is_alpha c
    || is_digit c
    || eqb (code c) 95
    || eqb (code c) 46
    || eqb (code c) 64
    || eqb (code c) 45

unfoldable pub valid_admin_username : String → Bool
unfolding all_chars
valid_admin_username username =
    truthy username && leb (utf16_length username) 64 && all_chars is_username_char username

pub record Form : Type 0 where
  pub admin_path : String
  pub username : String
  pub current_password : String
  pub new_password : String
  pub confirm_password : String

-- What is saved, as the script knows it, and the path that the browser shows.
pub record Saved : Type 0 where
  pub username : String
  pub admin_path : String

unfoldable pub account_settings_changed : Saved → Form → Bool
unfolding collect_admin_path_settings
account_settings_changed saved form =
    not (trim form.username == saved.username)
    || (truthy form.new_password || truthy form.confirm_password)
    || elim (collect_admin_path_settings form.admin_path) [
      | err e ↦ true
      | ok path ↦ not (path == saved.admin_path)
    ]

-- The body of the request.
pub record Request : Type 0 where
  pub username : String
  pub current_password : String
  pub new_password : String
  pub admin_path : String

unfoldable pub password_error : String → String → String
password_error new confirm =
    if is_empty new || is_empty confirm
    then "请完整填写新密码和确认密码"
    else if ltb (utf16_length new) 12
    then "新密码至少需要 12 个字符"
    else if ltb 256 (utf16_length new)
    then "新密码不能超过 256 个字符"
    else if not (new == confirm)
    then "两次输入的新密码不一致"
    else ""

-- The tests of `changeAdminPassword` after that of the path, with the first that fails.
unfoldable pub account_error : Saved → Form → String → String
unfolding valid_admin_username password_error
account_error saved form path =
    let wants_password_change = truthy form.new_password || truthy form.confirm_password in
    let username = trim form.username in
    if is_empty username || is_empty form.current_password
    then "请填写用户名和当前密码"
    else if not (valid_admin_username username)
    then "用户名只能包含字母、数字、_、-、.、@，最长 64 字节"
    else if not wants_password_change && username == saved.username && path == saved.admin_path
    then "没有需要保存的账号更改"
    else if wants_password_change
    then password_error form.new_password form.confirm_password
    else ""

-- The request that is sent, or the message that is shown instead.
unfoldable pub request_for : Saved → Form → Result String → Result Request
unfolding account_error
request_for saved form (err e) = err e
request_for saved form (ok path) =
    let error = account_error saved form path in
    if truthy error
    then err (record { message = error; auth_expired = false })
    else ok (record {
      username = trim form.username;
      current_password = form.current_password;
      new_password =
          if truthy form.new_password || truthy form.confirm_password
          then form.new_password
          else "";
      admin_path = path;
    })

unfoldable pub account_request : Saved → Form → Result Request
unfolding collect_admin_path_settings request_for
account_request saved form = request_for saved form (collect_admin_path_settings form.admin_path)

-- What the handler leaves: the request that it has sent, the text of the form, where it writes one,
-- and the rest of the page.
pub record Outcome : Type 0 where
  pub sent : Option Request
  pub password_message : Option String
  pub app : App

after_request : Request → Result (Unit {0}) × App → Outcome
unfolding clear_session mark_pristine expire_session
after_request request (ok _, s) = record {
  sent = some request;
  password_message = some "保存中...";
  app = record (mark_pristine "" (clear_session s)) {
    view = login;
    login_message = "账号设置已修改，请重新登录";
  };
}
after_request request (err e, s) = record {
  sent = some request;
  password_message = some (concat ("修改失败: " ∷ e.message ∷ []));
  app = expire_session e s;
}

-- `has_unsaved_changes` and `confirmed` are what `hasUnsavedChanges` and the question give.
send_account : (Request → Reply (Unit {0})) → Bool → Bool → Result Request → App → Outcome
unfolding after_request read_json
send_account post has_unsaved_changes confirmed (err e) s = record {
  sent = none;
  password_message = some e.message;
  app = s;
}
send_account post has_unsaved_changes confirmed (ok request) s =
    if has_unsaved_changes && not confirmed
    then record { sent = none; password_message = none; app = s }
    else after_request request (read_json (post request) s)

unfoldable pub change_admin_password :
    (Request → Reply (Unit {0})) → Bool → Bool → Saved → Form → App → Outcome
unfolding account_request send_account
change_admin_password post has_unsaved_changes confirmed saved form s =
    send_account post has_unsaved_changes confirmed (account_request saved form) s
