-- ===== src/Settings/Sending.antt =====
-- What web/static/js/admin.js sends of its settings, and what a reply that saves some keys changes.
use server_status_rust_l.Prelude.{
  String, false, Option, none, some, List, [], ◌∷◌, ◌≡◌, refl, arith, ◌==◌, eq_iff, includes,
  if◌then◌else◌, ◌or_else◌, ◌∙◌, ap, Option-cases, inl, inr,
}
use server_status_rust_l.Prelude.Dict.{
  Dict, lookup, insert, keys, IsDistinct, lookup-insert, lookup-remove,
}
use server_status_rust_l.Prelude.Json.{Json, str}
use server_status_rust_l.Settings.{
  Settings, text_or, copy_key, copy_keys, insert_all, merge_key, merge_keys, merge_scoped_settings,
  settings_payload_from_settings,
}

-- The value of the first, or else of the second.
abbrev pub first_value : Option Json → Option Json → Option Json
first_value none b = b
first_value (some a) b = some a

lookup_of_absent : (d : Dict Json) (k : String) → includes (keys d) k ≡ false → lookup k d ≡ none
unfolding lookup includes
lookup_of_absent [] k h = refl
lookup_of_absent ((i, v) ∷ d) k h = ground (arith, lookup_of_absent d k)

lookup-insert_all :
    (overrides out : Dict Json) (k : String)
    → IsDistinct (keys overrides)
    → lookup k (insert_all overrides out) ≡ first_value (lookup k overrides) (lookup k out)
unfolding insert_all lookup
lookup-insert_all [] out k d = refl
lookup-insert_all ((i, v) ∷ rest) out k d = ground (
  arith,
  lookup-insert_all rest (insert i v out) k,
  lookup-insert i k v out,
  eq_iff i k,
  lookup_of_absent rest k,
  eq_iff k i,
)

-- A text that is sent even if it is absent or empty, as its default.
abbrev pub sent_text : String → Option Json → Json
sent_text default none = str default
sent_text default (some (str String.[])) = str default
sent_text default (some value) = value

-- What is always sent, and the keys that are sent if the settings have them.
abbrev pub always_sent : Dict Json → Dict Json
always_sent fields =
    ("admin_path", sent_text "/admin" (lookup "admin_path" fields))
    ∷ ("access_base_url", sent_text "" (lookup "access_base_url" fields))
    ∷ ("agent_base_url", sent_text "" (lookup "agent_base_url" fields))
    ∷ []

abbrev pub passed_on : List String
passed_on = "expire_notify" ∷ "tgbot" ∷ "bark" ∷ "wechat" ∷ "email" ∷ "webhook" ∷ "log" ∷ []

sent_text_lem : (default : String) (o : Option Json) → text_or default o ≡ sent_text default o
sent_text_lem default none = refl
sent_text_lem default (some (str String.[])) = refl
sent_text_lem default (some (str (String.◌∷◌ c s))) = refl
sent_text_lem default (some _) = refl

lookup-copy_key :
    (fields out : Dict Json) (key k : String)
    → lookup k (copy_key fields key out)
      ≡ (if key == k then first_value (lookup k fields) (lookup k out) else lookup k out)
unfolding copy_key
lookup-copy_key fields out key k = elim (Option-cases (lookup key fields)) [
  | inl e ↦ rw (e, copy_key) (ground (arith, eq_iff key k))
  | inr (value, e) ↦ rw (e, copy_key) (ground (arith, lookup-insert key k value out, eq_iff key k))
]

lookup-copy_keys :
    (fields : Dict Json) (ks : List String) (out : Dict Json) (k : String)
    → lookup k (copy_keys fields ks out)
      ≡ first_value (if includes ks k then lookup k fields else none) (lookup k out)
unfolding copy_keys includes
lookup-copy_keys fields [] out k = refl
lookup-copy_keys fields (key ∷ ks) out k = elim (Option-cases (lookup k fields)) [
  | inl e ↦ ground (
    arith,
    lookup-copy_keys fields ks (copy_key fields key out) k,
    lookup-copy_key fields out key k,
    e,
  )
  | inr (value, e) ↦ ground (
    arith,
    lookup-copy_keys fields ks (copy_key fields key out) k,
    lookup-copy_key fields out key k,
    e,
  )
]

-- Every part of the settings is sent, an absent one as an empty one. Of the other keys, an override is
-- what is sent for its key; else the settings of the reminders and of the six channels are sent if the
-- settings have them, and the path and the two addresses always, with `/admin` or an empty text for
-- one that is absent or empty; and no other key is sent. The overrides name each key once, as the keys
-- of an object do.
pub payload_overrides :
    (settings : Settings) (overrides : Dict Json)
    → IsDistinct (keys overrides)
    → let payload = settings_payload_from_settings settings overrides in
      ((k : String)
        → lookup k payload.fields
          ≡ first_value (lookup k overrides) (
              first_value
                (if includes passed_on k then lookup k settings.fields else none)
                (lookup k (always_sent settings.fields))))
      × (payload.hosts ≡ settings.hosts or_else [])
      × (payload.groups ≡ settings.groups or_else [])
      × (payload.deleted_hosts ≡ settings.deleted_hosts or_else [])
      × (payload.server_groups ≡ settings.server_groups or_else [])
      × (payload.access_keys ≡ settings.access_keys or_else [])
      × (payload.deleted_access_keys ≡ settings.deleted_access_keys or_else [])
      × (payload.notification_groups ≡ settings.notification_groups or_else [])
      × (payload.alert_rules ≡ settings.alert_rules or_else [])
unfolding settings_payload_from_settings
payload_overrides settings overrides d = (
  λ k.
      let fields = settings.fields in
      lookup-insert_all overrides _ k d
      ∙ ap (first_value (lookup k overrides)) (
          lookup-copy_keys fields passed_on _ k
          ∙ ap
              (λ (out : Dict Json).
                first_value (if includes passed_on k then lookup k fields else none) (lookup k out))
              (same_defaults fields)),
  refl,
  refl,
  refl,
  refl,
  refl,
  refl,
  refl,
  refl,
)
  where
    same_defaults :
        (fields : Dict Json)
        → ◌≡◌ {A = Dict Json}
            (("admin_path", text_or "/admin" (lookup "admin_path" fields))
              ∷ ("access_base_url", text_or "" (lookup "access_base_url" fields))
              ∷ ("agent_base_url", text_or "" (lookup "agent_base_url" fields))
              ∷ [])
            (always_sent fields)
    same_defaults fields =
        rw
          (
            sent_text_lem "/admin" (lookup "admin_path" fields),
            sent_text_lem "" (lookup "access_base_url" fields),
            sent_text_lem "" (lookup "agent_base_url" fields),
          )
          refl

lookup-merge_key :
    (saved : Dict Json) (key : String) (fields : Dict Json) (k : String)
    → lookup k (merge_key saved key fields) ≡ (if key == k then lookup k saved else lookup k fields)
unfolding merge_key
lookup-merge_key saved key fields k = elim (Option-cases (lookup key saved)) [
  | inl e ↦ rw (e, merge_key) (ground (arith, lookup-remove key k fields, eq_iff key k))
  | inr (value, e) ↦
      rw (e, merge_key) (ground (arith, lookup-insert key k value fields, eq_iff key k))
]

lookup-merge_keys :
    (saved : Dict Json) (ks : List String) (fields : Dict Json) (k : String)
    → lookup k (merge_keys saved ks fields)
      ≡ (if includes ks k then lookup k saved else lookup k fields)
unfolding merge_keys includes
lookup-merge_keys saved [] fields k = refl
lookup-merge_keys saved (key ∷ ks) fields k = ground (
  arith,
  lookup-merge_keys saved ks (merge_key saved key fields) k,
  lookup-merge_key saved key fields k,
)

-- After a merge the keys that were saved have the saved values, every other key has its own, and
-- nothing else of the settings has changed.
pub merge_scoped_settings_lem :
    (ks : List String) (saved settings : Settings)
    → ((k : String)
        → lookup k (merge_scoped_settings ks saved settings).fields
          ≡ (if includes ks k then lookup k saved.fields else lookup k settings.fields))
      × (record (merge_scoped_settings ks saved settings) { fields = settings.fields } ≡ settings)
unfolding merge_scoped_settings
merge_scoped_settings_lem ks saved settings =
    (λ k. lookup-merge_keys saved.fields ks settings.fields k, refl)
