-- ===== src/Notifications.antt =====
-- web/static/js/admin.js: the forms of the notification channels, one record for each with the values
-- of its inputs, and the objects that are collected from them. What the back end has of a channel is a
-- JSON object; the settings that are shown as texts are texts there, or absent.
pub mod Shown
pub mod Collected
pub mod Receivers
pub mod Checks
pub mod RoundTrip
pub mod Timeouts
pub mod Page
use server_status_rust_l.Prelude.{
  String, ℕ, zero, Bool, true, false, Option, none, some, List, [], ◌∷◌, is_empty, not, ◌or_text◌,
}
use server_status_rust_l.Prelude.Dict.{Dict, lookup, insert}
use server_status_rust_l.Prelude.Json.{
  Json, null, bool, num, str, arr, obj, nat, other, Fields, end, field, Items, nil, cons,
}
use server_status_rust_l.Secrets.{SecretInput}

-- The scopes of the local save buttons.
pub data Scope : Type 0 where
  tg bark wechat email webhook log access expire : Scope

pub record TgForm : Type 0 where
  pub enabled : Bool
  pub token : SecretInput
  pub chat : SecretInput
  pub title : String
  pub expire : String
  pub health : String

pub record BarkForm : Type 0 where
  pub enabled : Bool
  pub server : String
  pub key : SecretInput
  pub title : String
  pub group : String
  pub expire : String
  pub health : String

pub record WechatForm : Type 0 where
  pub enabled : Bool
  pub corp_id : String
  pub corp_secret : SecretInput
  pub agent_id : String
  pub title : String
  pub online : String
  pub offline : String
  pub expire : String
  pub health : String

pub record EmailForm : Type 0 where
  pub enabled : Bool
  pub server : String
  pub username : String
  pub password : SecretInput
  pub to : String
  pub subject : String
  pub title : String
  pub online : String
  pub offline : String
  pub expire : String
  pub health : String

pub record HeaderRow : Type 0 where
  pub name : String
  pub value : SecretInput

pub record ReceiverRow : Type 0 where
  pub id : String
  pub enabled : Bool
  pub name : String
  pub url : SecretInput
  pub username : String
  pub password : SecretInput
  pub timeout : String
  pub body : String
  pub headers : List HeaderRow

pub record WebhookForm : Type 0 where
  pub enabled : Bool
  pub source : String
  pub receivers : List ReceiverRow

pub record LogForm : Type 0 where
  pub enabled : Bool
  pub template : String

pub record AccessForm : Type 0 where
  pub access_base_url : String
  pub agent_base_url : String

pub record ExpireForm : Type 0 where
  pub enabled : Bool
  pub days : String
  pub interval : String

-- The forms of the page.
pub record Forms : Type 0 where
  pub tg : TgForm
  pub bark : BarkForm
  pub wechat : WechatForm
  pub email : EmailForm
  pub webhook : WebhookForm
  pub log : LogForm
  pub access : AccessForm
  pub expire : ExpireForm

-- What the page takes of the browser: the results of `stableId` by the positions of the receivers,
-- the natural number, if it is one, that `Number` reads from a text that is not a row of digits, the
-- number or `null` that `JSON.stringify` writes for what `Number` reads from it,
-- `checkValidity` of the field of the interval, the parts of the path of an address, and `confirm`.
pub record Browser : Type 0 where
  pub stable_id : ℕ → String
  pub other_value : String → Option ℕ
  pub stable_number : String → Json
  pub interval_is_valid : String → Bool
  pub path_parts : String → Option (List String)
  pub confirms : Bool

abbrev entries : Fields → Dict Json
entries end = []
entries (field key value rest) = (key, value) ∷ entries rest

-- `value || {}`
abbrev pub object : Option Json → Dict Json
object (some (obj fields)) = entries fields
object _ = []

abbrev pub fields_of : Dict Json → Fields
fields_of [] = end
fields_of ((key, value) ∷ rest) = field key value (fields_of rest)

-- `{ ...base, ...saved }`
unfoldable pub spread : Dict Json → Dict Json → Dict Json
spread base [] = base
spread base ((key, value) ∷ saved) = spread (insert key value base) saved

abbrev is_true : Json → Bool
is_true null = false
is_true (bool b) = b
is_true (num (nat zero)) = false
is_true (num _) = true
is_true (str s) = not (is_empty s)
is_true _ = true

abbrev pub is_set : Option Json → Bool
is_set none = false
is_set (some value) = is_true value

-- `Boolean(object.key)`
unfoldable pub flag : Dict Json → String → Bool
flag fields key = is_set (lookup key fields)

abbrev text_of : Option Json → String
text_of (some (str s)) = s
text_of _ = ""

-- `object.key || default`
unfoldable pub words : Dict Json → String → String → String
words fields key default = text_of (lookup key fields) or_text default

abbrev items : Items → List Json
items nil = []
items (cons value rest) = value ∷ items rest

-- `object.key || []`
abbrev list_of : Option Json → List Json
list_of (some (arr values)) = items values
list_of _ = []

unfoldable pub elements : Dict Json → String → List Json
elements fields key = list_of (lookup key fields)

abbrev pub items_of : List Json → Items
items_of [] = nil
items_of (value ∷ rest) = cons value (items_of rest)
