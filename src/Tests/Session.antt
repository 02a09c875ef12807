-- ===== src/Tests/Session.antt =====
-- Runs of the session and of the access keys of web/static/js/admin.js.
use server_status_rust_l.Prelude.{
  none, ℕ, String, true, false, some, List, [], ◌∷◌, ◌≡◌, ◌⊎◌, refl, to_string, trim, includes,
}
use server_status_rust_l.Saving.{App, Backend, body, login}
use server_status_rust_l.Session.{login_handler}
use server_status_rust_l.Session.Entry.{is_answered, IsEntered, login_handler_lem}
use server_status_rust_l.AccessKeys.{Row}
use server_status_rust_l.AccessKeys.Next.{
  access_id, next_access_key_id, used_ids, IsFirstFree, next_access_key_id_lem,
}
use server_status_rust_l.AccessKeys.Command.{
  Clipboard, copy_text, CommandForm, Command, no_row, command_params, apply_access_command_editor,
}
use server_status_rust_l.AccessKeys.Command.Kept.{IsKept, IsCopied, apply_access_command_editor_lem}
use server_status_rust_l.Prelude.Dict.{lookup}
use server_status_rust_l.Tests.Sample.{browser}
use server_status_rust_l.Tests.Console.{app}
use server_status_rust_l.Tests.Channels.{answering}

abbrev complete : Backend
complete = record answering { get_stats = body [] }

login_handler_lem_example :
    let s' = login_handler browser complete (body "token") app in
    ((is_answered complete (body "token") ≡ true) × IsEntered browser complete (body "token") s')
    ⊎ ((is_answered complete (body "token") ≡ false) × (s'.view ≡ login) × (s'.token ≡ ""))
login_handler_lem_example = login_handler_lem browser complete (body "token") app

-- A login whose first load fails is no login.
half_answered : (login_handler browser answering (body "token") app).login_message ≡ "offline"
unfolding login_handler
half_answered = refl

abbrev form : CommandForm
form = record {
  uid = " u1 ";
  alias = "";
  interval = "";
  location = "";
  kind = "";
  weight = "";
  disable_ping = true;
  disable_tupd = false;
  disable_extra = false;
  notify = true;
}

-- The page with the addresses that are saved.
abbrev saved_app : App
saved_app = record app {
  page = record app.page {
    forms = record app.page.forms {
      access = record { access_base_url = "https://a/"; agent_base_url = "" };
    };
  };
}

abbrev script : Command
script = record { script = "curl"; gid = "g"; token_expires_in = 90 }

params : command_params form ≡ ("uid", "u1") ∷ ("interval", "1") ∷ ("ping", "0") ∷ []
unfolding command_params
params = refl

-- A browser without a clipboard of its own, and that does not copy either.
abbrev plain_browser : Clipboard
plain_browser = record {
  has_clipboard = false;
  is_secure_context = false;
  write_text = λ text. none;
  exec_command = false;
}

-- The dialog says that it has copied where nothing was copied.
nothing_copied :
    (apply_access_command_editor
      (λ params. body script)
      plain_browser
      no_row
      form
      saved_app).clipboard
    ≡ none
unfolding apply_access_command_editor lookup copy_text
nothing_copied = refl

command_copied :
    (apply_access_command_editor
      (λ params. body script)
      plain_browser
      no_row
      form
      saved_app).app.toast
    ≡ "接入指令已复制，一次性令牌 2 分钟 内有效"
unfolding apply_access_command_editor lookup copy_text
command_copied = refl

apply_access_command_editor_lem_example :
    let r =
      apply_access_command_editor (λ params. body script) plain_browser no_row form saved_app in
    IsKept saved_app r.app × IsCopied (λ params. body script) plain_browser form saved_app r
apply_access_command_editor_lem_example =
    apply_access_command_editor_lem (λ params. body script) plain_browser no_row form saved_app

abbrev named : String → Row
named id = record {
  old_id = id;
  source_id = id;
  unsaved = false;
  id = id;
  password = "";
  location = "";
  kind = "";
  labels = "";
}

abbrev rows : List Row
rows = named "access-2" ∷ named " access-1 " ∷ named "b" ∷ []

third : next_access_key_id rows ≡ some "access-3"
unfolding next_access_key_id trim to_string includes
third = refl

next_access_key_id_lem_example :
    (k : ℕ) × (next_access_key_id rows ≡ some (access_id k)) × IsFirstFree (used_ids rows) 1 k
next_access_key_id_lem_example = next_access_key_id_lem rows
