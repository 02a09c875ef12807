-- ===== src/Editors/Rule/Edited.antt =====
-- What the dialog of an alert rule in web/static/js/admin.js makes of the rules.
use server_status_rust_l.Prelude.{
  String, Bool, true, false, not, ◌&&◌, none, some, List, [], ◌∷◌, ◌++◌, ◌==◌, ◌≡◌, inl, inr,
  ◌or_text◌, is_empty, trim, ◌↔◌, ◌≢◌, if◌then◌else◌, refl, arith, filter, Bool-cases, ◌⊎◌, eq_refl,
  ◌or_else◌,
}
use server_status_rust_l.Settings.{AlertRule}
use server_status_rust_l.Editors.{number_or}
use server_status_rust_l.Servers.{Console}
use server_status_rust_l.Editors.Group.{set_alert_rules}
use server_status_rust_l.Editors.Rule.{
  Mode, every, explicit, Selection, RuleForm, alert_rule_notifications_for_apply, rule_of_form,
  is_accepted, apply_alert_rule_editor,
}

-- The rules of the console.
abbrev pub alert_rules : Console → List AlertRule
alert_rules c = c.settings.alert_rules or_else []

abbrev pub rules_named : String → List AlertRule → List AlertRule
rules_named id rules = filter (λ (rule : AlertRule). rule.id == id) rules

abbrev pub rules_not_named : String → List AlertRule → List AlertRule
rules_not_named id rules = filter (λ (rule : AlertRule). not (rule.id == id)) rules

replaced :
    (id : String) (rule : AlertRule) (rules : List AlertRule)
    → (rule.id == id) ≡ true
    → (rules_named id (rules_not_named id rules ++ rule ∷ []) ≡ rule ∷ [])
      × (rules_not_named id (rules_not_named id rules ++ rule ∷ []) ≡ rules_not_named id rules)
replaced id rule [] h = ground (arith)
replaced id rule (r ∷ rules) h = ground (arith, replaced id rule rules)

-- Every field of the form is usable: the threshold where the metric has one, the duration, and the
-- repetition where it is not switched off.
abbrev pub IsUsable : RuleForm → Type 0
IsUsable form =
    (((form.metric == "offline") ≡ true)
      ⊎ ((is_empty (trim form.threshold) ≡ false) × (form.threshold_is_valid ≡ true)))
    × (form.duration_is_valid ≡ true)
    × ((form.repeat_is_disabled ≡ true) ⊎ (form.repeat_is_valid ≡ true))

usable :
    (offline blank valid duration off repeat : Bool)
    → ((if not offline && blank
          then false
          else if not offline && not valid
          then false
          else if not duration
          then false
          else if not off && not repeat
          then false
          else true)
        ≡ true)
      ↔ (((offline ≡ true) ⊎ ((blank ≡ false) × (valid ≡ true)))
          × (duration ≡ true)
          × ((off ≡ true) ⊎ (repeat ≡ true)))
usable offline blank valid duration off repeat = ground arith

is_accepted_lem : (form : RuleForm) → (is_accepted form ≡ true) ↔ IsUsable form
unfolding is_accepted
is_accepted_lem form =
    usable (form.metric == "offline") (is_empty (trim form.threshold)) form.threshold_is_valid
      form.duration_is_valid form.repeat_is_disabled form.repeat_is_valid

-- The choice names a channel, or stands for all.
abbrev pub IsChosen : Selection → List String → Type 0
IsChosen selection notifications =
    ((selection.mode ≡ every) × (notifications ≡ []))
    ⊎ ((selection.mode ≡ explicit) × (selection.values ≢ []) × (notifications ≡ selection.values))

abbrev pub IsUnchosen : Selection → Type 0
IsUnchosen selection = (selection.mode ≡ explicit) × (selection.values ≡ [])

choice :
    (mode : Mode) (values : List String)
    → let selection : Selection = record { mode = mode; values = values } in
      ((alert_rule_notifications_for_apply selection ≡ none) × IsUnchosen selection)
      ⊎ ((notifications : List String) × (alert_rule_notifications_for_apply selection
            ≡ some notifications)
          × IsChosen selection notifications)
unfolding alert_rule_notifications_for_apply
choice every values = inr ([], refl, inl (refl, refl))
choice explicit [] = inl (refl, (refl, refl))
choice explicit (id ∷ ids) = inr (id ∷ ids, refl, inr (refl, (λ h. cc), refl))

-- The dialog's own fields in a rule that it writes.
abbrev pub IsRead : String → RuleForm → AlertRule → Type 0
IsRead id form rule =
    (rule.id ≡ id)
    × (rule.name ≡ (if is_empty (trim form.name) then id else trim form.name))
    × (rule.enabled ≡ form.enabled)
    × (rule.metric ≡ form.metric)
    × (rule.threshold
        ≡ (if form.metric == "offline" then none else some (number_or 0 form.threshold)))
    × (rule.duration ≡ number_or 120 form.duration)
    × (rule.repeat_interval ≡ number_or 3600 form.repeat)
    × (rule.notification_group ≡ "")
    × (rule.server_groups ≡ form.server_groups)
    × (rule.servers ≡ form.servers)

or_text_lem : (s t : String) → (s or_text t) ≡ (if is_empty s then t else s)
or_text_lem String.[] t = refl
or_text_lem (String.◌∷◌ c s) t = refl

rule_of_form-IsRead :
    (id : String) (form : RuleForm) (notifications : List String)
    → IsRead id form (rule_of_form id form notifications)
unfolding rule_of_form
rule_of_form-IsRead id form notifications =
    (refl, or_text_lem (trim form.name) id, refl, refl, refl, refl, refl, refl, refl, refl)

-- A dialog on an alert rule is refused exactly if a field is not usable or an explicit choice of
-- channels is empty. Otherwise it leaves just one rule of its id, which has the form's fields and the
-- channels chosen, none standing for all, and keeps every other rule as it was, and in its order.
pub apply_alert_rule_editor_lem :
    (id : String) (form : RuleForm) (c : Console)
    → ((apply_alert_rule_editor id form c ≡ none) × (¬ IsUsable form ⊎ IsUnchosen form.selection))
      ⊎ ((c' : Console) × (apply_alert_rule_editor id form c ≡ some c')
          × IsUsable form
          × ((rule : AlertRule) × (rules_named id (alert_rules c') ≡ rule ∷ [])
              × IsRead id form rule
              × IsChosen form.selection rule.notifications)
          × (rules_not_named id (alert_rules c') ≡ rules_not_named id (alert_rules c)))
unfolding apply_alert_rule_editor set_alert_rules
apply_alert_rule_editor_lem id form c = elim (Bool-cases (is_accepted form)) [
  | inr e ↦ inl (rw e refl, inl (λ u. let h = (is_accepted_lem form).1 u in cc))
  | inl e ↦ elim (choice form.selection.mode form.selection.values) [
    | inl (f, u) ↦ inl (rw (e, f) refl, inr u)
    | inr (ns, f, is_chosen) ↦
        let rule = rule_of_form id form ns in
        let (named, others) =
          replaced id rule (alert_rules c) (unfold rule_of_form in eq_refl id) in
        inr (
          set_alert_rules (rules_not_named id (alert_rules c) ++ rule ∷ []) c,
          rw (e, f) refl,
          (is_accepted_lem form).0 e,
          (rule, named, rule_of_form-IsRead id form ns, unfold rule_of_form in is_chosen),
          others,
        )
  ]
]
