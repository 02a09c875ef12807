-- ===== src/AccessKeys.antt =====
-- web/static/js/admin.js: `collectAccessKeys`, which reads the rows of the table of access keys. Its
-- exceptions are `none`; a row's `id` is what its field holds. The keys that it collects are an object:
-- its `Dict` has them in the order of the rows, where JavaScript puts those that are numbers first.
pub mod Names
pub mod Next
pub mod Items
pub mod Command
use server_status_rust_l.Prelude.{
  String, Bool, true, false, not, ◌&&◌, Option, none, some, List, [], ◌∷◌, ◌==◌, ◌or_text◌,
  is_empty, truthy, trim, concat, includes, if◌then◌else◌,
}
use server_status_rust_l.Prelude.Dict.{Dict, insert, add, delete, set_of}
use server_status_rust_l.Settings.{AccessKey}

pub record Row : Type 0 where
  pub old_id : String
  pub source_id : String
  pub unsaved : Bool
  pub id : String
  pub password : String
  pub location : String
  pub kind : String
  pub labels : String

-- The three variables of the loop.
pub record Collected : Type 0 where
  pub access_keys : Dict AccessKey
  pub deleted : List String
  pub seen : List String

unfoldable pub key_of_row : Row → AccessKey
key_of_row row = record {
  source_gid = row.source_id or_text (row.old_id or_text trim row.id);
  password = row.password;
  location = trim row.location;
  kind = trim row.kind;
  notify = some true;
  labels = trim row.labels;
  expire = none;
  billing = none;
  expire_notify = none;
  weight = none;
}

-- The name that a saved row had and has no more.
unfoldable pub is_renamed : Row → Bool
is_renamed row = truthy row.old_id && not (row.old_id == trim row.id) && not row.unsaved

-- `none` is the exception: no key is collected.
unfoldable pub collect_row : Row → Collected → Option Collected
unfolding key_of_row is_renamed
collect_row row c =
    let id = trim row.id in
    let deleted = delete id c.deleted in
    if is_empty id
    then none
    else if includes c.seen id
    then none
    else if row.unsaved && is_empty (trim row.password)
    then none
    else some (record {
      access_keys = insert id (key_of_row row) c.access_keys;
      deleted = if is_renamed row then add row.old_id deleted else deleted;
      seen = add id c.seen;
    })

unfoldable pub collect_rows : List Row → Collected → Option Collected
unfolding collect_row
collect_rows [] c = some c
collect_rows (row ∷ rows) c = elim (collect_row row c) [
  | none ↦ none
  | some c' ↦ collect_rows rows c'
]

unfoldable pub collect_access_keys : List Row → List String → Option Collected
unfolding collect_rows
collect_access_keys rows deleted_access_keys =
    collect_rows rows (record { access_keys = []; deleted = set_of deleted_access_keys; seen = [] })
