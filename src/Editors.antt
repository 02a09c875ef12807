-- ===== src/Editors.antt =====
-- web/static/js/admin.js: the dialogs that edit a server, a group and an alert rule, as functions of
-- the values in their fields. Where the browser judges a number field, its verdict is part of the
-- form.
pub mod Server
pub mod Group
pub mod Rule
pub mod Submit
use Prim.Native.Char.{Char}
use Prim.Native.String
use server_status_rust_l.Prelude.{
  String, ℕ, zero, suc, ◌+◌, ◌*◌, Bool, true, false, not, ◌&&◌, some, List, [], ◌∷◌, is_digit,
  digit_value, is_empty, trim, if◌then◌else◌,
}
use server_status_rust_l.Prelude.Json.{Number, nat, other}
use server_status_rust_l.Settings.{Settings, SettingsState, ServerGroup}
use server_status_rust_l.Servers.{Console}

all_digits : String → Bool
all_digits String.[] = true
all_digits (String.◌∷◌ c s) = is_digit c && all_digits s

digits_value : ℕ → String → ℕ
digits_value acc String.[] = acc
digits_value acc (String.◌∷◌ c s) = digits_value (acc * 10 + digit_value c) s

-- `Number` of a text: 0 for a blank one, and its value for a row of digits.
unfoldable pub to_number : String → Number
unfolding all_digits digits_value
to_number text = let t = trim text in if all_digits t then nat (digits_value 0 t) else other t

-- `Number(value || default)`
unfoldable pub number_or : ℕ → String → Number
unfolding to_number
number_or default text = if is_empty text then nat default else to_number text

unfoldable pub set_server_groups : List ServerGroup → Console → Console
set_server_groups groups c = record c {
  state = record c.state { settings = record c.settings { server_groups = some groups } };
}
