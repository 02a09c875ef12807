-- ===== src/Account/Checks.antt =====
-- What web/static/js/admin.js lets pass when the account is changed, and what that changes here.
use server_status_rust_l.Prelude.{
  String, ◌≤◌, Bool, true, false, not, ◌&&◌, ◌||◌, none, some, ◌==◌, ◌≡◌, ◌⊎◌, inl, inr, refl,
  subst, arith, is_empty, truthy, trim, utf16_length, ltb, if◌then◌else◌,
}
use server_status_rust_l.Saving.{
  App, Reply, Result, ok, err, body, refused, rejected, Failure, login,
}
use server_status_rust_l.Saving.Outcomes.{is_expired}
use server_status_rust_l.Account.{
  Form, Saved, Request, Outcome, validate_admin_path, collect_admin_path_settings,
  normalize_admin_path, valid_admin_username, account_error, password_error, request_for,
  account_request,
}

-- A request that the form lets pass.
abbrev pub IsAcceptable : Saved → Form → Request → Type 0
IsAcceptable saved form request =
    (validate_admin_path request.admin_path ≡ true)
    × (valid_admin_username request.username ≡ true)
    × (is_empty request.current_password ≡ false)
    × ((request.new_password ≡ "")
        ⊎ ((12 ≤ utf16_length request.new_password)
            × (utf16_length request.new_password ≤ 256)
            × ((request.new_password == form.confirm_password) ≡ true)))

-- A chain of tests that gives no message has passed its first test.
passed :
    (b : Bool) (message rest : String)
    → truthy message ≡ true
    → truthy (if b then message else rest) ≡ false
    → (b ≡ false) × (truthy rest ≡ false)
passed true message rest t h = absurd (cc)
passed false message rest t h = (refl, h)

-- A new password that is wanted.
abbrev IsNewPassword : String → String → Type 0
IsNewPassword new confirm =
    (12 ≤ utf16_length new) × (utf16_length new ≤ 256) × ((new == confirm) ≡ true)

password_passes :
    (new confirm : String) → truthy (password_error new confirm) ≡ false → IsNewPassword new confirm
unfolding password_error
password_passes new confirm h =
    let (a, h₁) = passed (is_empty new || is_empty confirm) _ _ refl h in
    let (b, h₂) = passed (ltb (utf16_length new) 12) _ _ refl h₁ in
    let (c, h₃) = passed (ltb 256 (utf16_length new)) _ _ refl h₂ in
    let (d, h₄) = passed (not (new == confirm)) _ _ refl h₃ in
    (ground (arith, b), ground (arith, c), ground (arith, d))

wanted :
    (wants : Bool) (new confirm : String)
    → truthy (if wants then password_error new confirm else "") ≡ false
    → ((if wants then new else "") ≡ "") ⊎ IsNewPassword (if wants then new else "") confirm
wanted true new confirm h = inr (password_passes new confirm h)
wanted false new confirm h = inl refl

passes :
    (saved : Saved) (form : Form) (path : String)
    → truthy (account_error saved form path) ≡ false
    → let wants = truthy form.new_password || truthy form.confirm_password in
      (valid_admin_username (trim form.username) ≡ true)
      × (is_empty form.current_password ≡ false)
      × (((if wants then form.new_password else "") ≡ "")
          ⊎ IsNewPassword (if wants then form.new_password else "") form.confirm_password)
unfolding account_error
passes saved form path h =
    let wants = truthy form.new_password || truthy form.confirm_password in
    let username = trim form.username in
    let (a, h₁) = passed (is_empty username || is_empty form.current_password) _ _ refl h in
    let (b, h₂) = passed (not (valid_admin_username username)) _ _ refl h₁ in
    let (c, h₃) =
      passed (not wants && username == saved.username && path == saved.admin_path) _ _ refl h₂ in
    (ground (arith, b), ground (arith, a), wanted wants form.new_password form.confirm_password h₃)

ok_inj : {A : Type 0} (a b : A) → Result.ok a ≡ ok b → a ≡ b
ok_inj a b h = cc

accepted :
    {A : Type 0} (test : Bool) (e : Failure) (a b : A)
    → (if test then err e else ok a) ≡ ok b
    → (test ≡ false) × (a ≡ b)
accepted true e a b h = absurd (cc)
accepted false e a b h = (refl, ok_inj a b h)

accepted_path :
    (test : Bool) (e : Failure) (a b : String)
    → (if test then ok a else err e) ≡ ok b
    → (test ≡ true) × (a ≡ b)
accepted_path true e a b h = (refl, ok_inj a b h)
accepted_path false e a b h = absurd (cc)

path_passes :
    (value path : String)
    → collect_admin_path_settings value ≡ ok path
    → validate_admin_path path ≡ true
unfolding collect_admin_path_settings
path_passes value path h =
    let (t, same) =
      accepted_path (validate_admin_path (normalize_admin_path value)) _
        (normalize_admin_path value) path h in
    subst (λ p. validate_admin_path p ≡ true) same t

request_passes :
    (saved : Saved) (form : Form) (request : Request) (r : Result String)
    → ((path : String) → r ≡ ok path → validate_admin_path path ≡ true)
    → request_for saved form r ≡ ok request
    → IsAcceptable saved form request
unfolding request_for
request_passes saved form request (err e) v h = absurd (cc)
request_passes saved form request (ok path) v h =
    let (t, same) = accepted (truthy (account_error saved form path)) _ _ request h in
    let (user, current, new) = passes saved form path t in
    subst (IsAcceptable saved form) same (v path refl, user, current, new)

-- A request that is sent names a valid path and a valid user, gives the current password,
-- and either no new one or one of 12 to 256 UTF-16 units that was typed twice.
pub account_request_lem :
    (saved : Saved) (form : Form) (request : Request)
    → account_request saved form ≡ ok request
    → IsAcceptable saved form request
unfolding account_request
account_request_lem saved form request h =
    request_passes saved form request (collect_admin_path_settings form.admin_path)
      (path_passes form.admin_path) h

-- What the page is after a request: logged out where it was accepted, and otherwise as it was, but for
-- a session that the status has ended.
abbrev pub after_reply : Reply (Unit {0}) → App → App
after_reply (body _) s = record s {
  token = "";
  dirty = false;
  saving = false;
  message = "";
  view = login;
  login_message = "账号设置已修改，请重新登录";
}
after_reply (refused status error status_text) s =
    if is_expired status
    then record s { token = ""; view = login; login_message = "登录已过期，请重新登录" }
    else s
after_reply (rejected message) s = s

-- What the handler comes to, by the request that the form gives.
abbrev pub IsOutcome :
    (Request → Reply (Unit {0})) → Bool → Bool → Result Request → App → Outcome → Type 0
IsOutcome post unsaved confirmed r s outcome =
    ((outcome.sent ≡ none)
      × (outcome.app ≡ s)
      × (((e : Failure) × (r ≡ err e)) ⊎ ((unsaved ≡ true) × (confirmed ≡ false))))
    ⊎ ((request : Request) × (outcome.sent ≡ some request)
        × (r ≡ ok request)
        × ((unsaved && not confirmed) ≡ false)
        × (outcome.app ≡ after_reply (post request) s))
