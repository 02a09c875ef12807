-- ===== src/Billing/Labels.antt =====
-- web/static/js/admin.js: the labels of a server, `key=value` pairs joined by semicolons.
use server_status_rust_l.Prelude.{
  String, ◌||◌, none, some, List, [], ◌∷◌, map, ◌or_else◌, is_empty, truthy, concat, join, trim,
  split, cut, if◌then◌else◌,
}
use server_status_rust_l.Prelude.Dict.{Dict, lookup, insert, remove}

-- One part between semicolons: a part with no `=`, or with nothing before it, is passed over.
add_label : Dict String → String → Dict String
add_label map part = elim (cut b'=' part) [
  | none ↦ map
  | some (before, after) ↦
      if is_empty before || is_empty (trim before)
      then map
      else insert (trim before) (trim after) map
]

add_labels : Dict String → List String → Dict String
add_labels map [] = map
add_labels map (part ∷ parts) = add_labels (add_label map part) parts

unfoldable pub labels_to_map : String → Dict String
unfolding add_label add_labels
labels_to_map labels = add_labels [] (split b';' labels)

unfoldable pub label_value : String → String → String
label_value labels key = lookup key (labels_to_map labels) or_else ""

-- The text of a map of labels.
print_labels : Dict String → String
print_labels map_ =
    join ";" (map (λ (entry : String × String). concat (entry.0 ∷ "=" ∷ entry.1 ∷ [])) map_)

unfoldable pub set_label_value : String → String → String → String
unfolding print_labels
set_label_value labels key value =
    let next_value = trim value in
    let map_ = labels_to_map labels in
    print_labels (if truthy next_value then insert key next_value map_ else remove key map_)
