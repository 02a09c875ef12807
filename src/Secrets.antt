-- ===== src/Secrets.antt =====
-- web/static/js/admin.js: the input fields of secrets, which show a mask in place of a secret that the
-- back end has, and send a new value, a wish to clear, or neither. A field's `data-secret-` attributes
-- are Booleans, and the two marks of its clearing button stand beside them.
pub mod Fields
use server_status_rust_l.Prelude.{
  String, Bool, true, false, not, ◌&&◌, ◌||◌, List, [], ◌∷◌, ◌==◌, is_empty, if◌then◌else◌,
}

abbrev pub secret_mask : String
secret_mask = "••••••••••••"

pub record SecretInput : Type 0 where
  pub value : String
  pub placeholder : String
  pub configured : Bool
  pub original_configured : Bool
  pub masked : Bool
  pub clear : Bool
  pub button_is_active : Bool
  pub button_disabled : Bool

unfoldable pub read_secret_input : SecretInput → String
read_secret_input input = if input.masked || input.value == secret_mask then "" else input.value

-- The test of `updateSecretInputChangeState`, and what it writes.
unfoldable pub is_changed : SecretInput → Bool
is_changed input = not (is_empty input.value || input.value == secret_mask)

unfoldable pub update_secret_input_change_state : SecretInput → SecretInput
unfolding is_changed
update_secret_input_change_state input =
    if is_changed input
    then record input { clear = false; masked = false; configured = false }
    else input

unfoldable pub update_secret_clear_button : SecretInput → SecretInput
update_secret_clear_button input = record input {
  button_is_active = input.clear;
  button_disabled = not input.original_configured && not input.configured;
}

unfoldable pub set_secret_input_state : Bool → Bool → SecretInput → SecretInput
unfolding update_secret_clear_button
set_secret_input_state configured clear_flag input =
    let is_configured = configured && not clear_flag in
    update_secret_clear_button record input {
      configured = is_configured;
      original_configured = is_configured;
      masked = is_configured;
      clear = clear_flag;
      value = if is_configured then secret_mask else "";
      placeholder =
          if clear_flag
          then "已标记清空，保存后生效"
          else if is_configured
          then "已配置，输入新值后保存"
          else "未配置，输入后保存";
    }

unfoldable pub secret_configured : SecretInput → Bool
secret_configured input = not input.clear && input.configured

unfoldable pub restore_secret_input : SecretInput → SecretInput
unfolding update_secret_clear_button
restore_secret_input input = update_secret_clear_button (
    if input.clear
    then input
    else if input.configured && is_empty input.value
    then record input { value = secret_mask; masked = true }
    else input)

unfoldable pub toggle_secret_clear : SecretInput → SecretInput
unfolding update_secret_clear_button
toggle_secret_clear input =
    let next_clear = not input.clear in
    update_secret_clear_button (
      if not next_clear && input.original_configured
      then record input {
        configured = true;
        masked = true;
        value = secret_mask;
        placeholder = "已配置，输入新值后保存";
        clear = next_clear;
      }
      else record input {
        configured = false;
        masked = false;
        value = "";
        placeholder = "已标记清空，保存后生效";
        clear = next_clear;
      })

unfoldable pub handle_secret_focus : SecretInput → SecretInput
handle_secret_focus input =
    if input.masked then record input { value = ""; masked = false } else input

-- What a person does to a field: `typed v` leaves `v` in it.
pub data Event : Type 0 where
  focus blur toggle : Event
  typed : String → Event

-- `handleDashboardFieldChange` of a field of a secret
unfoldable pub handle_field_change : SecretInput → SecretInput
unfolding is_changed update_secret_input_change_state update_secret_clear_button
handle_field_change input =
    if is_changed input
    then update_secret_clear_button (update_secret_input_change_state input)
    else input

unfoldable pub step : Event → SecretInput → SecretInput
unfolding handle_field_change handle_secret_focus restore_secret_input toggle_secret_clear
step focus input = handle_secret_focus input
step blur input = restore_secret_input input
step toggle input = toggle_secret_clear input
step (typed v) input = handle_field_change (record input { value = v })

unfoldable pub steps : List Event → SecretInput → SecretInput
unfolding step
steps [] input = input
steps (event ∷ events) input = steps events (step event input)
