-- ===== src/Editors/Rule.antt =====
-- web/static/js/admin.js: which channels a rule notifies, and `applyAlertRuleEditor`.
pub mod Choice
pub mod Edited
use server_status_rust_l.Prelude.{
  String, ℕ, Bool, true, false, not, ◌&&◌, ◌||◌, Option, none, some, List, [], ◌∷◌, ◌++◌, map, ◌==◌,
  ◌or_else◌, ◌or_text◌, is_empty, trim, includes, filter, if◌then◌else◌,
}
use server_status_rust_l.Prelude.Dict.{set_of, Dict, lookup}
use server_status_rust_l.Prelude.Json.{Number}
use server_status_rust_l.Settings.{AlertRule}
use server_status_rust_l.Servers.{Console}
use server_status_rust_l.Editors.{number_or}
use server_status_rust_l.Editors.Group.{set_alert_rules}

-- `allNotificationMethods`, each with its name.
abbrev pub all_notification_methods : Dict String
all_notification_methods =
    ("tg", "Telegram")
    ∷ ("bark", "Bark")
    ∷ ("wechat", "企业微信")
    ∷ ("email", "Email")
    ∷ ("webhook", "Webhook")
    ∷ ("log", "本地日志")
    ∷ []

unfoldable pub notification_name : String → String
notification_name id = lookup id all_notification_methods or_else id

-- The ids of `notificationMethods`: the methods that the configuration has set up.
unfoldable pub notification_methods : List String → List String
notification_methods configured =
    filter (λ id. includes configured id)
      (map (λ (method : String × String). method.0) all_notification_methods)

-- `selected` of `activeAlertRuleNotifications`
abbrev pub selected_notifications : List String → List String → List String
selected_notifications enabled [] = enabled
selected_notifications enabled (id ∷ ids) = id ∷ ids

-- The methods that are told of a rule: all of those that are set up, or those of its own that are.
unfoldable pub active_alert_rule_notifications : List String → AlertRule → List String
active_alert_rule_notifications configured rule =
    let enabled = notification_methods configured in
    elim enabled as (λ _. List String) [
      | [] ↦ []
      | method ∷ methods ↦
          filter (λ id. includes (set_of enabled) id)
            (selected_notifications enabled rule.notifications)
    ]

pub data Mode : Type 0 where
  every explicit : Mode

-- `state.editor.notificationSelection`
pub record Selection : Type 0 where
  pub mode : Mode
  pub values : List String

unfoldable pub notification_selection_for_rule : AlertRule → Selection
notification_selection_for_rule rule = record {
  mode = elim rule.notifications [ [] ↦ every | id ∷ ids ↦ explicit ];
  values = set_of rule.notifications;
}

-- A change of the boxes, `checked` being those that are checked now. What the rule names and the
-- boxes do not show is kept, unless the selection stood for all.
unfoldable pub update_alert_rule_notification_selection :
    List String → List String → Selection → Selection
update_alert_rule_notification_selection configured checked selection =
    let enabled = set_of (notification_methods configured) in
    record {
      mode = explicit;
      values = elim selection.mode [
        | every ↦ set_of checked
        | explicit ↦ set_of (filter (λ id. not (includes enabled id)) selection.values ++ checked)
      ];
    }

-- `none` is the refusal of an empty choice, and the empty list stands for all.
unfoldable pub alert_rule_notifications_for_apply : Selection → Option (List String)
alert_rule_notifications_for_apply selection = elim selection.mode [
  | every ↦ some []
  | explicit ↦ elim selection.values [ [] ↦ none | id ∷ ids ↦ some selection.values ]
]

-- The boxes that the picker checks.
unfoldable pub picked : List String → Selection → List String
picked configured selection = elim selection.mode [
  | every ↦ notification_methods configured
  | explicit ↦ filter (λ id. includes selection.values id) (notification_methods configured)
]

pub record RuleForm : Type 0 where
  pub name : String
  pub enabled : Bool
  pub metric : String
  pub threshold : String
  pub threshold_is_valid : Bool
  pub duration : String
  pub duration_is_valid : Bool
  pub repeat : String
  pub repeat_is_valid : Bool
  pub repeat_is_disabled : Bool
  pub selection : Selection
  pub server_groups : List String
  pub servers : List String

unfoldable pub rule_of_form : String → RuleForm → List String → AlertRule
rule_of_form id form notifications = record {
  id = id;
  name = trim form.name or_text id;
  enabled = form.enabled;
  metric = form.metric;
  threshold = if form.metric == "offline" then none else some (number_or 0 form.threshold);
  duration = number_or 120 form.duration;
  repeat_interval = number_or 3600 form.repeat;
  notification_group = "";
  notifications = notifications;
  server_groups = form.server_groups;
  servers = form.servers;
}

-- The tests on the fields, in their order.
unfoldable pub is_accepted : RuleForm → Bool
is_accepted form =
    if not (form.metric == "offline") && is_empty (trim form.threshold)
    then false
    else if not (form.metric == "offline") && not form.threshold_is_valid
    then false
    else if not form.duration_is_valid
    then false
    else if not form.repeat_is_disabled && not form.repeat_is_valid
    then false
    else true

-- `none` is `false`: nothing is written.
unfoldable pub apply_alert_rule_editor : String → RuleForm → Console → Option Console
unfolding rule_of_form set_alert_rules
apply_alert_rule_editor id form c =
    if not (is_accepted form)
    then none
    else elim (alert_rule_notifications_for_apply form.selection) [
      | none ↦ none
      | some notifications ↦ some (
          set_alert_rules
            (filter (λ (rule : AlertRule). not (rule.id == id)) (c.settings.alert_rules or_else [])
              ++ rule_of_form id form notifications ∷ [])
            c)
    ]
