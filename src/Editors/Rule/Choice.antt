-- ===== src/Editors/Rule/Choice.antt =====
-- The channels of a rule in web/static/js/admin.js: which are told, and what the dialog's boxes and
-- its confirmation make of the rule's own choice.
use server_status_rust_l.Prelude.{
  String, Bool, true, false, not, ◌&&◌, ◌||◌, none, some, List, [], ◌∷◌, ◌++◌, ◌≡◌, inl, inr,
  Option, ◌∙◌, refl, ap, arith, includes, filter, Bool-cases, eq_iff,
}
use server_status_rust_l.Prelude.Dict.{includes-append, includes-set_of, set_of, add, add_all}
use server_status_rust_l.Settings.{AlertRule}
use server_status_rust_l.Editors.Rule.{
  Mode, every, explicit, Selection, notification_methods, active_alert_rule_notifications,
  selected_notifications, notification_selection_for_rule, update_alert_rule_notification_selection,
  alert_rule_notifications_for_apply,
}

includes-filter :
    (p : String → Bool) (ss : List String) (t : String)
    → includes (filter p ss) t ≡ (p t && includes ss t)
unfolding includes
includes-filter p [] t = ground arith
includes-filter p (s ∷ ss) t = grind (arith, includes-filter p ss t, eq_iff s t, ap p)

told :
    (enabled names : List String) (id : String)
    → includes
        (elim enabled as (λ _. List String) [
          | [] ↦ []
          | method ∷ methods ↦
              filter (λ id. includes (set_of enabled) id) (selected_notifications enabled names)
        ])
        id
      ≡ (includes enabled id && includes (selected_notifications enabled names) id)
unfolding includes
told [] names id = refl
told (m ∷ ms) names id = ground (
  arith,
  includes-filter (includes (set_of (m ∷ ms))) (selected_notifications (m ∷ ms) names) id,
  includes-set_of (m ∷ ms) id,
)

-- The ids of the six channels.
abbrev pub method_ids : List String
method_ids = "tg" ∷ "bark" ∷ "wechat" ∷ "email" ∷ "webhook" ∷ "log" ∷ []

-- Whether a rule names no channel.
abbrev pub names_none : AlertRule → Bool
names_none rule = elim rule.notifications [ [] ↦ true | id ∷ ids ↦ false ]

chosen :
    (enabled names : List String) (id : String)
    → (includes enabled id && includes (selected_notifications enabled names) id) ≡ (
        includes enabled id
        && ((elim names as (λ _. Bool) [ [] ↦ true | id ∷ ids ↦ false ]) || includes names id))
unfolding includes
chosen enabled [] id = ground arith
chosen enabled (name ∷ names) id = refl

-- A rule is told on a channel exactly if it is one of the six, the configuration has set it up, and the
-- rule names it or names none at all.
pub active_alert_rule_notifications_lem :
    (configured : List String) (rule : AlertRule) (id : String)
    → includes (active_alert_rule_notifications configured rule) id ≡ (
        (includes configured id && includes method_ids id)
        && (names_none rule || includes rule.notifications id))
unfolding active_alert_rule_notifications notification_methods
active_alert_rule_notifications_lem configured rule id =
    told (notification_methods configured) rule.notifications id
    ∙ chosen (notification_methods configured) rule.notifications id
    ∙ ap (λ b. b && (names_none rule || includes rule.notifications id))
        (includes-filter (includes configured) method_ids id)

-- What a selection holds that the boxes do not show: nothing where it stands for all channels.
abbrev pub hidden : List String → Mode → List String → List String
hidden configured every values = []
hidden configured explicit values =
    filter (λ id. not (includes (notification_methods configured) id)) values

update_mode :
    (configured checked : List String) (mode : Mode) (values : List String) (id : String)
    → includes
        (update_alert_rule_notification_selection configured checked
          (record { mode = mode; values = values })).values
        id
      ≡ (includes checked id || includes (hidden configured mode values) id)
unfolding update_alert_rule_notification_selection includes
update_mode configured checked every values id = ground (arith, includes-set_of checked id)
update_mode configured checked explicit values id =
    let enabled = notification_methods configured in
    let p : String → Bool = λ id. not (includes (set_of enabled) id) in
    let q : String → Bool = λ id. not (includes enabled id) in
    ground (
      arith,
      includes-set_of (filter p values ++ checked) id,
      includes-append (filter p values) checked id,
      includes-filter p values id,
      includes-filter q values id,
      includes-set_of enabled id,
    )

abbrev pub is_explicit : Mode → Bool
is_explicit every = false
is_explicit explicit = true

hidden_lem :
    (configured : List String) (mode : Mode) (values : List String) (id : String)
    → includes (hidden configured mode values) id ≡ (
        is_explicit mode
        && (includes values id && not (includes configured id && includes method_ids id)))
unfolding includes notification_methods
hidden_lem configured every values id = refl
hidden_lem configured explicit values id =
    let shown : String → Bool = λ id. not (includes (notification_methods configured) id) in
    ground
      (arith, includes-filter shown values id, includes-filter (includes configured) method_ids id)

-- Once a box of the picker has changed, the choice is an explicit one, and exactly these channels are
-- chosen: those whose boxes are checked, and, if the choice was explicit before, those of it that the
-- picker does not show, since they are not set up or not one of the six. Confirming it gives the rule
-- these channels, and is refused if there are none.
pub update_selection_lem :
    (configured checked : List String) (selection : Selection)
    → let updated = update_alert_rule_notification_selection configured checked selection in
      (updated.mode ≡ explicit)
      × ((id : String)
          → includes updated.values id ≡ (
              includes checked id
              || (is_explicit selection.mode
                  && (includes selection.values id
                      && not (includes configured id && includes method_ids id)))))
      × (alert_rule_notifications_for_apply updated
          ≡ (elim updated.values as (λ _. Option (List String)) [
            | [] ↦ none
            | id ∷ ids ↦ some updated.values
          ]))
unfolding alert_rule_notifications_for_apply
update_selection_lem configured checked selection = (
  unfold update_alert_rule_notification_selection in refl,
  λ id.
      update_mode configured checked selection.mode selection.values id
      ∙ ap (λ b. includes checked id || b)
          (hidden_lem configured selection.mode selection.values id),
  unfold update_alert_rule_notification_selection in refl,
)

add_all-cons :
    (ts : List String) (s : String) (set : List String)
    → (us : List String) × (add_all ts (s ∷ set) ≡ s ∷ us)
unfolding add_all add includes
add_all-cons [] s set = (set, refl)
add_all-cons (t ∷ ts) s set = elim (Bool-cases (includes (s ∷ set) t)) [
  | inl e ↦ rw e (add_all-cons ts s set)
  | inr e ↦ rw e (add_all-cons ts s (set ++ t ∷ []))
]

explicit_choice :
    (values : List String) (u : String) (us : List String)
    → values ≡ u ∷ us
    → alert_rule_notifications_for_apply (record { mode = explicit; values = values }) ≡ some values
unfolding alert_rule_notifications_for_apply
explicit_choice values u us e = rw e (ap some e)

-- Confirming the dialog with the selection that it was opened with is accepted, and gives the rule
-- the channels that it had, each once.
pub selection_round_trip :
    (rule : AlertRule)
    → alert_rule_notifications_for_apply (notification_selection_for_rule rule)
      ≡ some (set_of rule.notifications)
unfolding alert_rule_notifications_for_apply notification_selection_for_rule add_all add includes
selection_round_trip rule = unchanged rule.notifications
  where
    unchanged :
        (names : List String)
        → alert_rule_notifications_for_apply (record {
          mode = elim names as (λ _. Mode) [ [] ↦ every | id ∷ ids ↦ explicit ];
          values = set_of names;
        })
          ≡ some (set_of names)
    unchanged [] = refl
    unchanged (id ∷ ids) =
        let (us, e) = add_all-cons ids id [] in explicit_choice (set_of (id ∷ ids)) id us e
