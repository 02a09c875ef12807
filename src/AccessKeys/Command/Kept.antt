-- ===== src/AccessKeys/Command/Kept.antt =====
-- What the dialog of the command of web/static/js/admin.js does to the access keys, and when it copies.
use server_status_rust_l.Prelude.{
  String, true, false, ◌&&◌, ◌||◌, ◌==◌, Option, none, some, [], ◌∷◌, ◌or_else◌, ◌or_text◌,
  is_empty, ◌≡◌, ◌⊎◌, inl, inr, refl, sym, ap, subst, ◌∙◌, Bool-cases, Option-cases, eqb,
  if◌then◌else◌, arith, eq_iff, includes,
}
use server_status_rust_l.Prelude.Dict.{Dict, keys, lookup, insert, has, lookup-insert}
use server_status_rust_l.Settings.{AccessKey}
use server_status_rust_l.Saving.{
  App, Reply, body, refused, rejected, read_json, clear_session, set_settings,
}
use server_status_rust_l.AccessKeys.Command.{
  Clipboard, copy_text, CommandForm, Command, Target, no_row, shown_row, removed_row, Copied,
  command_params, access_address_changed, add_command_key, notify_row, copy_failed,
  command_received, apply_access_command_editor,
}

lookup-unused :
    {V : Type 0} (k : String) (d : Dict V) → includes (keys d) k ≡ false → lookup k d ≡ none
unfolding lookup includes
lookup-unused k [] h = refl
lookup-unused k ((j, v) ∷ d) h = ground (arith, h, lookup-unused k d)

insert_unused :
    {V : Type 0} (k id : String) (v : V) (d : Dict V)
    → (lookup id d ≡ none) ⊎ (lookup id (if has k d then d else insert k v d) ≡ lookup id d)
unfolding has
insert_unused k id v d = elim (Bool-cases (includes (keys d) k)) [
  | inl e ↦ rw e (inr refl)
  | inr e ↦ elim (Bool-cases (k == id)) [
    | inl same ↦ inl (ap (λ i. lookup i d) (sym ((eq_iff k id).0 same)) ∙ lookup-unused k d e)
    | inr other ↦ inr (rw e (lookup-insert k id v d ∙ rw other refl))
  ]
]

abbrev pub key_of : String → App → Option AccessKey
key_of id s = lookup id (s.settings.access_keys or_else [])

-- No key is changed or lost.
abbrev pub IsKept : App → App → Type 0
IsKept s s' = (id : String) → (key_of id s ≡ none) ⊎ (key_of id s' ≡ key_of id s)

added-IsKept : (gid : String) (s : App) → IsKept s (add_command_key gid s)
unfolding add_command_key set_settings
added-IsKept gid s id = insert_unused gid id _ (s.settings.access_keys or_else [])

-- What a copy that has thrown no exception leaves on the clipboard: the text, or, where the page has no
-- clipboard of its own, the text or nothing.
abbrev pub IsPut : Clipboard → String → Option String → Type 0
IsPut browser value put =
    (((browser.has_clipboard && browser.is_secure_context) ≡ true)
      × (browser.write_text value ≡ none)
      × (put ≡ some value))
    ⊎ (((browser.has_clipboard && browser.is_secure_context) ≡ false)
        × (put ≡ (if browser.exec_command then some value else none)))

copy_text_cases :
    (browser : Clipboard) (value : String)
    → ((failure : String) × ((copy_text browser value).0 ≡ some failure))
      ⊎ (((copy_text browser value).0 ≡ none) × IsPut browser value (copy_text browser value).1)
unfolding copy_text
copy_text_cases browser value =
    elim (Bool-cases (browser.has_clipboard && browser.is_secure_context)) [
      | inr e ↦ inr (rw e refl, inr (e, rw e refl))
      | inl e ↦ elim (Option-cases (browser.write_text value)) [
        | inl f ↦ inr (rw (e, f) refl, inl (e, f, rw (e, f) refl))
        | inr (failure, f) ↦ inl (failure, rw (e, f) refl)
      ]
    ]

module _ (reply : Dict String → Reply Command) (browser : Clipboard) where
  -- The dialog stays and nothing is copied, or it is closed and the script was to be copied.
  abbrev pub IsCopied : CommandForm → App → Copied → Type 0
  IsCopied form s r =
      ((r.dialog_open ≡ true) × (r.clipboard ≡ none))
      ⊎ ((r.dialog_open ≡ false)
          × (access_address_changed s ≡ false)
          × ((command : Command) × (reply (command_params form) ≡ body command)
              × (is_empty command.script ≡ false)
              × IsPut browser command.script r.clipboard))

  failed-IsKept :
      (target : Target) (message : String) (s : App) (c : Copied)
      → IsKept s c.app
      → let r = copy_failed target message c in
        IsKept s r.app × (r.dialog_open ≡ c.dialog_open) × (r.clipboard ≡ c.clipboard)
  unfolding copy_failed notify_row
  failed-IsKept no_row message s c k = (k, refl, refl)
  failed-IsKept shown_row message s c k = (k, refl, refl)
  failed-IsKept removed_row message s c k = (k, refl, refl)

  abbrev opened : App → Copied
  opened s = record {
    app = s;
    subtitle = none;
    row_message = none;
    clipboard = none;
    dialog_open = true;
  }

  abbrev IsReceived : Reply Command → App → Copied → Type 0
  IsReceived answer s r =
      IsKept s r.app
      × (((r.dialog_open ≡ true) × (r.clipboard ≡ none))
          ⊎ ((r.dialog_open ≡ false)
              × ((command : Command) × (answer ≡ body command)
                  × (is_empty command.script ≡ false)
                  × IsPut browser command.script r.clipboard)))

  failed-IsReceived :
      (answer : Reply Command) (target : Target) (message : String) (s t : App)
      → IsKept s t
      → IsReceived answer s (copy_failed target message (record (opened s) { app = t }))
  failed-IsReceived answer target message s t k =
      let (kept, open_still, nothing) =
        failed-IsKept target message s (record (opened s) { app = t }) k in
      (kept, inl (open_still, nothing))

  finished-IsReceived :
      (target : Target) (command : Command) (row_text message : String) (put : Option String)
      (s t : App)
      → is_empty command.script ≡ false
      → IsPut browser command.script put
      → IsKept s t
      → let done =
          notify_row target row_text message (record (opened s) { app = t; clipboard = put }) in
        IsReceived
          (body command)
          s
          (record done { app = record done.app { toast = message }; dialog_open = false })
  unfolding notify_row
  finished-IsReceived no_row command row_text message put s t e p k =
      (k, inr (refl, (command, refl, e, p)))
  finished-IsReceived shown_row command row_text message put s t e p k =
      (k, inr (refl, (command, refl, e, p)))
  finished-IsReceived removed_row command row_text message put s t e p k =
      (k, inr (refl, (command, refl, e, p)))

  received :
      (target : Target) (answer : Reply Command) (s : App)
      → IsReceived answer s (command_received reply browser target (read_json answer s) (opened s))
  unfolding command_received read_json clear_session
  received target (body command) s = elim (Bool-cases (is_empty command.script)) [
    | inl e ↦ rw e (failed-IsReceived (body command) target "接入脚本为空" s s (λ id. inr refl))
    | inr e ↦ rw e (elim (copy_text_cases browser command.script) [
      | inr (h, put) ↦ rw h (
          finished-IsReceived target command _ _ (copy_text browser command.script).1 s
            (add_command_key (command.gid or_text "default") s) e put
            (added-IsKept (command.gid or_text "default") s))
      | inl (failure, h) ↦ rw h (
          failed-IsReceived (body command) target failure s
            (add_command_key (command.gid or_text "default") s)
            (added-IsKept (command.gid or_text "default") s))
    ])
  ]
  received target (refused status error status_text) s =
      elim (Bool-cases (eqb status 401 || eqb status 403)) [
        | inl e ↦ rw e (
            failed-IsReceived (refused status error status_text) target _ s (clear_session s)
              (λ id. inr refl))
        | inr e ↦
            rw e
              (failed-IsReceived (refused status error status_text) target _ s s (λ id. inr refl))
      ]
  received target (rejected message) s =
      failed-IsReceived (rejected message) target message s s (λ id. inr refl)

  copied_if :
      (form : CommandForm) (s : App) (r : Copied)
      → access_address_changed s ≡ false
      → IsReceived (reply (command_params form)) s r
      → IsKept s r.app × IsCopied form s r
  copied_if form s r e (k, inl stays) = (k, inl stays)
  copied_if form s r e (k, inr (closed, done)) = (k, inr (closed, e, done))

  -- Whatever the replies, the dialog changes and loses no access key of the settings. It is closed only
  -- if the addresses are saved, the back end has given a script, and copying it has thrown no
  -- exception, and otherwise it stays and nothing is copied. If it is closed, a page with a secure
  -- clipboard has the script on it; on any other page the script is there only if `execCommand` has
  -- put it there, and the dialog is closed either way.
  pub apply_access_command_editor_lem :
      (target : Target) (form : CommandForm) (s : App)
      → let r = apply_access_command_editor reply browser target form s in
        IsKept s r.app × IsCopied form s r
  unfolding apply_access_command_editor
  apply_access_command_editor_lem removed_row form s = (λ id. inr refl, inl (refl, refl))
  apply_access_command_editor_lem no_row form s = elim (Bool-cases (access_address_changed s)) [
    | inl e ↦ rw e (λ id. inr refl, inl (refl, refl))
    | inr e ↦
        let answer = reply (command_params form) in
        let r = command_received reply browser no_row (read_json answer s) (opened s) in
        let same : apply_access_command_editor reply browser no_row form s ≡ r = rw e refl in
        subst (λ r. IsKept s r.app × IsCopied form s r) (sym same)
          (copied_if form s r e (received no_row answer s))
  ]
  apply_access_command_editor_lem shown_row form s = elim (Bool-cases (access_address_changed s)) [
    | inl e ↦ rw e (λ id. inr refl, inl (refl, refl))
    | inr e ↦
        let answer = reply (command_params form) in
        let r = command_received reply browser shown_row (read_json answer s) (opened s) in
        let same : apply_access_command_editor reply browser shown_row form s ≡ r = rw e refl in
        subst (λ r. IsKept s r.app × IsCopied form s r) (sym same)
          (copied_if form s r e (received shown_row answer s))
  ]
