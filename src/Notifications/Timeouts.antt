-- ===== src/Notifications/Timeouts.antt =====
-- web/static/js/admin.js: when the form of the webhook receivers passes the test before a test message.
use server_status_rust_l.Prelude.{
  String, ℕ, ◌≤◌, Bool, true, false, not, ◌&&◌, ◌||◌, Option, none, some, List, [], ◌∷◌, ◌==◌, ◌≡◌,
  ◌⊎◌, ◌↔◌, ◌≢◌, refl, sym, subst, ap, ◌∙◌, inl, inr, arith, Bool-cases, Option-cases,
  if◌then◌else◌, is_empty, find, filter, map, trim, eq_refl, eq_iff, Member-find, Member-filter,
  Member,
}
use mathlib.Core.Option
use server_status_rust_l.Secrets.{read_secret_input, secret_configured}
use server_status_rust_l.Editors.{number_or}
use server_status_rust_l.Notifications.{ReceiverRow, WebhookForm}
use server_status_rust_l.Notifications.Receivers.{
  Receiver, row_of, collect_receiver, collect_webhook_settings,
}
use server_status_rust_l.Notifications.Checks.{
  natural, is_bad_timeout, receiver_message, first_message, validate_webhook_settings_for_test,
}

-- The rows with an id.
with_id : String → List ReceiverRow → Option ReceiverRow
with_id id rows = find (λ (r : ReceiverRow). r.id == id) rows

find-Member :
    (row : ReceiverRow) (rows : List ReceiverRow)
    → Member row rows
    → (first : ReceiverRow) × (with_id row.id rows ≡ some first)
unfolding with_id
find-Member row [] m = elim m [ ]
find-Member row (x ∷ rows) m = elim (Bool-cases (x.id == row.id)) [
  | inl e ↦ (x, rw e refl)
  | inr e ↦ elim m [
    | inl same ↦ absurd (cc (eq_refl row.id, ap (λ (r : ReceiverRow). r.id == row.id) same, e))
    | inr later ↦ let (first, f) = find-Member row rows later in (first, rw e f)
  ]
]

row_of-with_id :
    (rows : List ReceiverRow) (row first : ReceiverRow)
    → with_id row.id rows ≡ some first
    → (row_of rows row ≡ first) × (row_of rows first ≡ first)
unfolding with_id row_of
row_of-with_id rows row first f =
    let same =
      (eq_iff first.id row.id).0
        (Member-find (λ (r : ReceiverRow). r.id == row.id) first rows f).1 in
    (first_of row f, first_of first (ap (λ id. with_id id rows) same ∙ f))
  where
    first_of : (r : ReceiverRow) → with_id r.id rows ≡ some first → row_of rows r ≡ first
    first_of r h = ap (λ (o : Option ReceiverRow). elim o [ none ↦ r | some x ↦ x ]) h

-- The three tests on a row.
passes :
    (no_name no_body no_url configured bad : Bool)
    (name_message url_message timeout_message : String)
    → is_empty name_message ≡ false
    → is_empty url_message ≡ false
    → is_empty timeout_message ≡ false
    → (is_empty (
          if no_name || no_body
          then name_message
          else if no_url && not configured
          then url_message
          else if bad
          then timeout_message
          else "")
        ≡ true)
      ↔ ((no_name ≡ false)
          × (no_body ≡ false)
          × ((no_url ≡ false) ⊎ (configured ≡ true))
          × (bad ≡ false))
passes true no_body no_url configured bad a b c n u t = ground arith
passes false true no_url configured bad a b c n u t = ground arith
passes false false true false bad a b c n u t = ground arith
passes false false true true true a b c n u t = ground arith
passes false false true true false a b c n u t = (λ h. (refl, refl, inr refl, refl), λ h. refl)
passes false false false configured true a b c n u t = ground arith
passes false false false configured false a b c n u t =
    (λ h. (refl, refl, inl refl, refl), λ h. refl)

-- A message of one row, or of the later rows.
both :
    {P Q : Type 0} (message later : String)
    → (is_empty message ≡ true) ↔ P
    → (is_empty later ≡ true) ↔ Q
    → (is_empty (if is_empty message then later else message) ≡ true) ↔ (P × Q)
both message later (p, p') (q, q') = elim (Bool-cases (is_empty message)) [
  | inl e ↦ rw e (λ h. (p e, q h), λ (_, k). q' k)
  | inr e ↦ rw e (λ h. absurd (cc (h, e)), λ (k, _). absurd (cc (p' k, e)))
]

abbrev pub enabled_rows : WebhookForm → List ReceiverRow
enabled_rows form = filter (λ (row : ReceiverRow). row.enabled) form.receivers

module _ (other_value : String → Option ℕ) where
  -- A timeout of 1 to 60 seconds.
  abbrev pub IsTimeout : String → Type 0
  IsTimeout text = (n : ℕ) × (natural other_value (number_or 5 text) ≡ some n) × (1 ≤ n) × (n ≤ 60)

  -- What a test message needs of a row.
  abbrev pub IsReady : ReceiverRow → Type 0
  IsReady row =
      (is_empty (trim row.name) ≡ false)
      × (is_empty (trim row.body) ≡ false)
      × ((is_empty (read_secret_input row.url) ≡ false) ⊎ (secret_configured row.url ≡ true))
      × IsTimeout row.timeout

  -- The rows whose box is checked, each by the first row with its id.
  abbrev pub AllReady : List ReceiverRow → List ReceiverRow → Type 0
  AllReady rows [] = Unit
  AllReady rows (row ∷ rest) = IsReady (row_of rows row) × AllReady rows rest

  good-IsTimeout :
      (text : String) → (is_bad_timeout other_value (number_or 5 text) ≡ false) ↔ IsTimeout text
  unfolding is_bad_timeout
  good-IsTimeout text = elim (Option-cases (natural other_value (number_or 5 text))) [
    | inl e ↦ rw e (ground arith)
    | inr (n, e) ↦ rw e (ground arith)
  ]

  found :
      (all rows : List ReceiverRow) (id : String)
      → find (λ (item : Receiver). item.id == id) (map (collect_receiver all) rows)
        ≡ Option.map (collect_receiver all) (find (λ (r : ReceiverRow). r.id == id) rows)
  unfolding collect_receiver
  found all [] id = refl
  found all (row ∷ rows) id = elim (Bool-cases (row.id == id)) [
    | inl e ↦ rw e refl
    | inr e ↦ rw e (found all rows id)
  ]

  IsReady-message :
      (all : List ReceiverRow) (row first : ReceiverRow)
      → row_of all row ≡ first
      → row_of all first ≡ first
      → (is_empty (receiver_message other_value all row (some (collect_receiver all first))) ≡ true)
        ↔ IsReady first
  unfolding receiver_message collect_receiver
  IsReady-message all row first f e =
      let (good, good') = good-IsTimeout first.timeout in
      let (accepted, accepted') =
        passes (is_empty (trim first.name)) (is_empty (trim first.body))
          (is_empty (read_secret_input first.url)) (secret_configured first.url)
          (is_bad_timeout other_value (number_or 5 first.timeout)) "启用的 Webhook 接收器需要名称和请求体模板"
          "启用的 Webhook 接收器需要 URL" "Webhook 超时必须在 1 到 60 秒之间" refl refl refl in
      simp (f, e)
        (
          λ h. let (n, b, u, t) = accepted h in (n, b, u, good t),
          λ (n, b, u, t). accepted' (n, b, u, good' t),
        )

  messages :
      (all rows : List ReceiverRow)
      → ((row : ReceiverRow) → Member row rows → Member row all)
      → (is_empty (first_message other_value all (map (collect_receiver all) all) rows) ≡ true)
        ↔ AllReady all rows
  unfolding first_message with_id
  messages all [] m = (λ h. tt, λ h. refl)
  messages all (row ∷ rest) m =
      let (first, f) = find-Member row all (m row (inl refl)) in
      let (e, e') = row_of-with_id all row first f in
      let receiver = found all all row.id ∙ ap (Option.map (collect_receiver all)) f in
      let row_item =
        find (λ (item : Receiver). item.id == row.id) (map (collect_receiver all) all) in
      both (receiver_message other_value all row row_item)
        (first_message other_value all (map (collect_receiver all) all) rest)
        (subst
          (λ (o : Option Receiver).
            (is_empty (receiver_message other_value all row o) ≡ true) ↔ IsReady (row_of all row))
          (sym receiver)
          (subst
            (λ r.
              (is_empty (receiver_message other_value all row (some (collect_receiver all first)))
                ≡ true)
              ↔ IsReady r)
            (sym e) (IsReady-message all row first e e')))
        (messages all rest (λ r k. m r (inr k)))

  disabled :
      (form : WebhookForm)
      → form.enabled ≡ false
      → validate_webhook_settings_for_test other_value form (collect_webhook_settings form)
        ≡ "请先勾选启用结构化 Webhook"
  unfolding validate_webhook_settings_for_test collect_webhook_settings
  disabled form off = rw off refl

  accepted_rows :
      (form : WebhookForm) (rows : List ReceiverRow)
      → form.enabled ≡ true
      → enabled_rows form ≡ rows
      → (is_empty
            (validate_webhook_settings_for_test other_value form (collect_webhook_settings form))
          ≡ true)
        ↔ ((rows ≢ []) × AllReady form.receivers rows)
  unfolding validate_webhook_settings_for_test collect_webhook_settings
  accepted_rows form [] on e = rw (on, e) (λ h. absurd (cc), λ (h, _). absurd (h refl))
  accepted_rows form (row ∷ rows) on e =
      let member : (r : ReceiverRow) → Member r (row ∷ rows) → Member r form.receivers = λ r m.
        ((Member-filter (λ (x : ReceiverRow). x.enabled) r form.receivers).0
          (subst (Member r) (sym e) m)).0 in
      let (accepted, accepted') = messages form.receivers (row ∷ rows) member in
      rw (on, e) (λ h. (λ k. absurd (cc), accepted h), λ (_, h). accepted' h)

  -- The form of the webhook receivers passes the test before a test message, as it is collected,
  -- exactly if its box is checked, some receiver's box is checked, and for every receiver whose box is
  -- checked, the first receiver with its id has a name, a body, an address, typed or configured and
  -- not to be cleared, and a timeout that is a natural number from 1 to 60 (5 if the field is empty).
  pub webhook_accepted :
      (form : WebhookForm)
      → (is_empty
            (validate_webhook_settings_for_test other_value form (collect_webhook_settings form))
          ≡ true)
        ↔ ((form.enabled ≡ true)
            × (enabled_rows form ≢ [])
            × AllReady form.receivers (enabled_rows form))
  unfolding validate_webhook_settings_for_test
  webhook_accepted form = elim (Bool-cases form.enabled) [
    | inl on ↦
        let (accepted, accepted') = accepted_rows form (enabled_rows form) on refl in
        (λ h. (on, (accepted h).0, (accepted h).1), λ (_, h, k). accepted' (h, k))
    | inr off ↦
        (λ h. absurd (cc (ap is_empty (disabled form off), h)), λ (on, _, _). absurd (cc (on, off)))
  ]
