-- ===== src/Expiry.antt =====
-- web/static/js/expiry.js: the panel of due dates above the status table. This file has the data of
-- `/json/stats.json` that the panel reads and the tests on one server; a field that is absent there
-- is the empty text, and an absent `expire` is `none`.
pub mod Bridge
pub mod Element
pub mod Texts
pub mod Risk
pub mod Panel
pub mod Rows
pub mod Schedule
use server_status_rust_l.Prelude.{
  String, Bool, true, false, not, ◌&&◌, ◌||◌, Option, none, some, List, [], ◌∷◌, ℕ, ◌==◌, ◌or_text◌,
  includes, concat, if◌then◌else◌,
}
use server_status_rust_l.Prelude.Int.{ℤ, pos, leb_ℤ}

pub record Expire : Type 0 where
  pub configured : Bool
  pub raw : String
  pub date : String
  pub days_left : ℤ
  pub status : String
  pub label : String
  pub auto_renewal : Bool
  pub auto_renewed : Bool
  pub renewal_count : ℕ
  pub renewal_status : String
  pub cycle : String
  pub amount : String

pub record Server : Type 0 where
  pub name : String
  pub alias : String
  pub expire : Option Expire

abbrev pub attention_days : ℤ
attention_days = pos 30

unfoldable pub has_expiry : Server → Bool
has_expiry server = elim server.expire [ none ↦ false | some expire ↦ expire.configured ]

unfoldable pub is_permanent : Expire → Bool
is_permanent expire = expire.status == "permanent"

unfoldable pub display_name : Server → String
display_name server = server.alias or_text (server.name or_text "-")

unfoldable pub status_class : String → String
status_class status = concat ("ssr-expiry-" ∷ (status or_text "unknown") ∷ [])

-- The renewal states in which an automatic renewal cannot be relied on.
abbrev pub renewal_failures : List String
renewal_failures = "missing_cycle" ∷ "invalid_cycle" ∷ "invalid_date" ∷ "too_many_cycles" ∷ []

unfoldable pub auto_renewal_healthy : Expire → Bool
auto_renewal_healthy expire =
    expire.auto_renewal && not (includes renewal_failures expire.renewal_status)

unfoldable pub treat_as_missing : Server → Bool
unfolding has_expiry
treat_as_missing server = not (has_expiry server)

-- The tests of `needsAttention` below its first, on the due date of a server that has one.
unfoldable pub expire_needs_attention : Expire → Bool
unfolding is_permanent auto_renewal_healthy
expire_needs_attention expire =
    if is_permanent expire
    then false
    else if expire.status == "expired" || expire.status == "unknown"
    then true
    else if auto_renewal_healthy expire
    then false
    else leb_ℤ expire.days_left attention_days
      || expire.renewal_status == "missing_cycle"
      || expire.renewal_status == "invalid_cycle"

unfoldable pub needs_attention : Server → Bool
unfolding treat_as_missing
needs_attention server =
    if treat_as_missing server
    then true
    else elim server.expire [ none ↦ true | some expire ↦ expire_needs_attention expire ]
