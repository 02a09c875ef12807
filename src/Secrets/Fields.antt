-- ===== src/Secrets/Fields.antt =====
-- What a field of a secret in web/static/js/admin.js sends after any sequence of events.
use server_status_rust_l.Prelude.{
  String, Bool, true, false, not, ◌&&◌, ◌||◌, List, [], ◌∷◌, ◌==◌, ◌≡◌, refl, is_empty, arith,
  if◌then◌else◌, Bool-cases, ◌⊎◌, inl, inr, ap, ◌∙◌,
}
use server_status_rust_l.Secrets.{
  SecretInput, secret_mask, read_secret_input, is_changed, update_secret_input_change_state,
  update_secret_clear_button, set_secret_input_state, restore_secret_input, toggle_secret_clear,
  handle_secret_focus, handle_field_change, Event, focus, blur, toggle, typed, step, steps,
}

-- A field that is to be cleared sends no value, what the marks of its button are those
-- of what it holds.
abbrev pub IsConsistent : SecretInput → Type 0
IsConsistent input =
    (input.clear ≡ true → (input.value == secret_mask || is_empty input.value) ≡ true)
    × (input.button_is_active ≡ input.clear)
    × (input.button_disabled ≡ (not input.original_configured && not input.configured))

step-IsConsistent :
    (event : Event) (input : SecretInput) → IsConsistent input → IsConsistent (step event input)
unfolding step handle_field_change handle_secret_focus restore_secret_input toggle_secret_clear
    is_changed update_secret_input_change_state update_secret_clear_button
step-IsConsistent focus input c = elim (Bool-cases input.masked) [
  | inl e ↦ rw e (λ h. refl, c.1, c.2)
  | inr e ↦ rw e c
]
step-IsConsistent blur input c = elim (Bool-cases input.clear) [
  | inl e ↦ rw e (ground arith)
  | inr e ↦ elim (Bool-cases (input.configured && is_empty input.value)) [
    | inl f ↦ rw (e, f) (ground arith)
    | inr f ↦ rw (e, f) (ground arith)
  ]
]
step-IsConsistent toggle input c = elim (Bool-cases input.clear) [
  | inl e ↦ elim (Bool-cases input.original_configured) [
    | inl f ↦ rw (e, f) (ground arith)
    | inr f ↦ rw (e, f) (ground arith)
  ]
  | inr e ↦ rw e (λ h. refl, refl, refl)
]
step-IsConsistent (typed v) input c = elim (Bool-cases (is_empty v || v == secret_mask)) [
  | inl e ↦ rw e (ground arith)
  | inr e ↦ rw e (ground arith)
]

steps-IsConsistent :
    (events : List Event) (input : SecretInput)
    → IsConsistent input
    → IsConsistent (steps events input)
unfolding steps
steps-IsConsistent [] input c = c
steps-IsConsistent (event ∷ events) input c =
    steps-IsConsistent events (step event input) (step-IsConsistent event input c)

set-IsConsistent :
    (configured clear_flag : Bool) (input : SecretInput)
    → IsConsistent (set_secret_input_state configured clear_flag input)
unfolding set_secret_input_state update_secret_clear_button
set-IsConsistent true true input = (λ h. refl, refl, refl)
set-IsConsistent false true input = (λ h. refl, refl, refl)
set-IsConsistent true false input = (λ h. refl, refl, refl)
set-IsConsistent false false input = (λ h. refl, refl, refl)

sends_nothing :
    (masked : Bool) (value : String)
    → (value == secret_mask || is_empty value) ≡ true
    → (if masked || value == secret_mask then "" else value) ≡ ""
sends_nothing true value h = refl
sends_nothing false String.[] h = refl
sends_nothing false (String.◌∷◌ c s) h = ground arith

-- Whatever is done to a field once it has been set up, it never asks to clear the secret and sends a
-- new one at once, and its clearing button is marked exactly while the field asks to clear.
pub clear_or_value :
    (configured clear_flag : Bool) (input : SecretInput) (events : List Event)
    → let input' = steps events (set_secret_input_state configured clear_flag input) in
      (input'.clear ≡ true → read_secret_input input' ≡ "")
      × (input'.button_is_active ≡ input'.clear)
unfolding read_secret_input
clear_or_value configured clear_flag input events =
    let input' = steps events (set_secret_input_state configured clear_flag input) in
    let c =
      steps-IsConsistent events (set_secret_input_state configured clear_flag input)
        (set-IsConsistent configured clear_flag input) in
    (λ h. sends_nothing input'.masked input'.value (c.0 h), c.1)

-- An event that only moves the focus.
abbrev pub IsLooking : Event → Type 0
IsLooking focus = Unit
IsLooking blur = Unit
IsLooking toggle = ⊥
IsLooking (typed v) = ⊥

abbrev pub AllLooking : List Event → Type 0
AllLooking [] = Unit
AllLooking (event ∷ events) = IsLooking event × AllLooking events

set_and_looked :
    (configured clear_flag : Bool) (input : SecretInput)
    → let s = set_secret_input_state configured clear_flag input in
      (step blur s ≡ s)
      × (step blur (step focus s) ≡ s)
      × (step focus (step focus s) ≡ step focus s)
unfolding set_secret_input_state update_secret_clear_button step handle_secret_focus
    restore_secret_input
set_and_looked true true input = (refl, refl, refl)
set_and_looked true false input = (refl, refl, refl)
set_and_looked false true input = (refl, refl, refl)
set_and_looked false false input = (refl, refl, refl)

looked :
    (s : SecretInput)
    → step blur s ≡ s
    → step blur (step focus s) ≡ s
    → step focus (step focus s) ≡ step focus s
    → (events : List Event) → AllLooking events
    → ((s' : SecretInput) → (s' ≡ s) ⊎ (s' ≡ step focus s) → step blur (steps events s') ≡ s)
unfolding steps
looked s b f g [] l s' (inl e) = rw e b
looked s b f g [] l s' (inr e) = rw e f
looked s b f g (focus ∷ events) (k, l) s' (inl e) =
    looked s b f g events l (step focus s') (inr (ap (step focus) e))
looked s b f g (focus ∷ events) (k, l) s' (inr e) =
    looked s b f g events l (step focus s') (inr (ap (step focus) e ∙ g))
looked s b f g (blur ∷ events) (k, l) s' (inl e) =
    looked s b f g events l (step blur s') (inl (ap (step blur) e ∙ b))
looked s b f g (blur ∷ events) (k, l) s' (inr e) =
    looked s b f g events l (step blur s') (inl (ap (step blur) e ∙ f))
looked s b f g (toggle ∷ events) (k, l) s' e = elim k [ ]
looked s b f g (typed v ∷ events) (k, l) s' e = elim k [ ]

-- A field that a person only moves into and out of, and leaves in the end, is as it was set up.
pub looking_changes_nothing :
    (configured clear_flag : Bool) (input : SecretInput) (events : List Event)
    → AllLooking events
    → step blur (steps events (set_secret_input_state configured clear_flag input))
      ≡ set_secret_input_state configured clear_flag input
looking_changes_nothing configured clear_flag input events l =
    let s = set_secret_input_state configured clear_flag input in
    let (b, f, g) = set_and_looked configured clear_flag input in
    looked s b f g events l s (inl refl)

typed_stays :
    (events : List Event) (input : SecretInput)
    → AllLooking events
    → input.masked ≡ false
    → input.configured ≡ false
    → input.clear ≡ false
    → ((steps events input).value ≡ input.value)
      × ((steps events input).masked ≡ false)
      × ((steps events input).clear ≡ false)
unfolding steps step handle_secret_focus restore_secret_input update_secret_clear_button
typed_stays [] input l m c k = (refl, m, k)
typed_stays (focus ∷ events) input (i, l) m c k =
    rw m (typed_stays events (record input { masked = false }) l refl c k)
typed_stays (blur ∷ events) input (i, l) m c k =
    rw (k, c)
      (typed_stays events
        (record input {
          configured = false;
          clear = false;
          button_is_active = false;
          button_disabled = not input.original_configured && not false;
        })
        l m refl refl)
typed_stays (toggle ∷ events) input (i, l) m c k = elim i [ ]
typed_stays (typed v ∷ events) input (i, l) m c k = elim i [ ]

typed_lem :
    (input : SecretInput) (v : String)
    → is_empty v ≡ false
    → (v == secret_mask) ≡ false
    → let input' = step (typed v) input in
      (input'.value ≡ v)
      × (input'.masked ≡ false)
      × (input'.configured ≡ false)
      × (input'.clear ≡ false)
unfolding step handle_field_change is_changed update_secret_input_change_state
    update_secret_clear_button
typed_lem input v e m = rw (e, m) (refl, refl, refl, refl)

sends :
    (masked : Bool) (value v : String)
    → masked ≡ false
    → value ≡ v
    → (v == secret_mask) ≡ false
    → (if masked || value == secret_mask then "" else value) ≡ v
sends masked value v m e h = rw (m, e, h) refl

-- A new value that is typed into a field is sent, and the secret not cleared, whatever the field
-- held before and wherever the focus goes afterwards; the value is not empty and not the mask.
pub typed_is_sent :
    (input : SecretInput) (v : String) (events : List Event)
    → is_empty v ≡ false
    → (v == secret_mask) ≡ false
    → AllLooking events
    → let input' = steps events (step (typed v) input) in
      (read_secret_input input' ≡ v) × (input'.clear ≡ false)
unfolding read_secret_input
typed_is_sent input v events e m l =
    let input₁ = step (typed v) input in
    let (value₁, masked₁, configured₁, clear₁) = typed_lem input v e m in
    let (value, masked, clear) = typed_stays events input₁ l masked₁ configured₁ clear₁ in
    let input₂ = steps events input₁ in
    (sends input₂.masked input₂.value v masked (value ∙ value₁) m, clear)
