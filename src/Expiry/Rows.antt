-- ===== src/Expiry/Rows.antt =====
-- web/static/js/expiry.js: the due date in each row of the status table. A cell is the list of its
-- child nodes: those with the panel's class, which the file itself adds, and any others. The nodes
-- of row `r-i` are the `i`-th of the list; `none` stands for a node that is not in the document.
pub mod Replace
use server_status_rust_l.Prelude.{
  String, ℕ, ◌+◌, Bool, true, false, not, Option, none, some, List, [], ◌∷◌, ◌++◌, concat, truthy,
  filter, join, if◌then◌else◌,
}
use server_status_rust_l.Expiry.{Expire, Server, is_permanent, status_class, treat_as_missing}
use server_status_rust_l.Expiry.Element.{Element, span, same_html}
use server_status_rust_l.Expiry.Texts.{expiry_date_text, days_text, renewal_text}

missing_line : Element
missing_line = record {
  class_name = "ssr-row-expiry ssr-expiry-missing";
  title = "";
  text_content = "";
  spans = span "ssr-row-expiry-label" "未配置到期时间" ∷ [];
}

expire_line : Expire → Element
expire_line expire = record {
  class_name = concat ("ssr-row-expiry " ∷ status_class expire.status ∷ []);
  title = "";
  text_content = "";
  spans =
      if is_permanent expire
      then span "ssr-row-expiry-label" "永久" ∷ []
      else span "ssr-row-expiry-date" (expiry_date_text (some expire))
        ∷ span "ssr-row-expiry-label" (days_text (some expire))
        ∷ (if expire.auto_renewal then span "ssr-row-expiry-auto" "续期" ∷ [] else []);
}

unfoldable pub row_line : Server → Element
unfolding missing_line expire_line
row_line server =
    if treat_as_missing server
    then missing_line
    else elim server.expire [ none ↦ missing_line | some expire ↦ expire_line expire ]

missing_detail : Element
missing_detail = record {
  class_name = "ssr-expanded-expiry ssr-expiry-missing";
  title = "";
  text_content = "到期: 未配置到期时间 | 状态: 建议补充";
  spans = [];
}

expire_detail : Expire → Element
expire_detail expire = record {
  class_name = concat ("ssr-expanded-expiry " ∷ status_class expire.status ∷ []);
  title = "";
  text_content = join " | " (
      filter truthy (
        concat ("到期: " ∷ expiry_date_text (some expire) ∷ [])
        ∷ concat ("状态: " ∷ days_text (some expire) ∷ [])
        ∷ renewal_text (some expire)
        ∷ (if truthy expire.amount then concat ("金额: " ∷ expire.amount ∷ []) else "")
        ∷ []));
  spans = [];
}

unfoldable pub detail_line : Server → Element
unfolding missing_detail expire_detail
detail_line server =
    if treat_as_missing server
    then missing_detail
    else elim server.expire [ none ↦ missing_detail | some expire ↦ expire_detail expire ]

pub data Child : Type 0 where
  managed : Element → Child
  other : ℕ → Child

-- `existing.slice(1)` is removed: what follows the first managed node.
drop_managed : List Child → List Child
drop_managed [] = []
drop_managed (managed e ∷ cs) = drop_managed cs
drop_managed (other n ∷ cs) = other n ∷ drop_managed cs

-- `existing[0]`
first_managed : List Child → Option Element
first_managed [] = none
first_managed (managed e ∷ cs) = some e
first_managed (other n ∷ cs) = first_managed cs

keep_first : List Child → List Child
keep_first [] = []
keep_first (managed e ∷ cs) = managed e ∷ drop_managed cs
keep_first (other n ∷ cs) = other n ∷ keep_first cs

-- `current.replaceWith(nextNode)`, in the list that `keep_first` has left.
replace_first : Element → List Child → List Child
replace_first next [] = []
replace_first next (managed e ∷ cs) = managed next ∷ cs
replace_first next (other n ∷ cs) = other n ∷ replace_first next cs

unfoldable pub replace_managed_node : List Child → Element → List Child × Bool
unfolding drop_managed first_managed keep_first replace_first
replace_managed_node container next = elim (first_managed container) [
  | none ↦ (keep_first container ++ managed next ∷ [], true)
  | some current ↦
      if same_html current next
      then (keep_first container, false)
      else (replace_first next (keep_first container), true)
]

pub record Row : Type 0 where
  pub cell : Option (List Child)
  pub expanded_grid : Option (List Child)

pub record Decorated : Type 0 where
  pub rows : List Row
  pub matched_rows : ℕ
  pub changed_rows : ℕ

-- One container, if it is in the document; 1 where it changed.
replace_if_there : Option (List Child) → Element → Option (List Child) × ℕ
unfolding replace_managed_node
replace_if_there none next = (none, 0)
replace_if_there (some container) next =
    let (container', changed) = replace_managed_node container next in
    (some container', if changed then 1 else 0)

decorate_row : Server → Row → Row × ℕ
unfolding replace_if_there
decorate_row server row =
    let (cell, n) = replace_if_there row.cell (row_line server) in
    let (grid, m) = replace_if_there row.expanded_grid (detail_line server) in
    (record { cell = cell; expanded_grid = grid }, n + m)

abbrev is_there : Option (List Child) → ℕ
is_there none = 0
is_there (some container) = 1

unfoldable pub decorate_rows : List Server → List Row → Decorated
unfolding decorate_row
decorate_rows [] rows = record { rows = rows; matched_rows = 0; changed_rows = 0 }
decorate_rows (server ∷ servers) [] = record { rows = []; matched_rows = 0; changed_rows = 0 }
decorate_rows (server ∷ servers) (row ∷ rows) =
    let (row', changed) = decorate_row server row in
    let rest = decorate_rows servers rows in
    record {
      rows = row' ∷ rest.rows;
      matched_rows = is_there row.cell + rest.matched_rows;
      changed_rows = changed + rest.changed_rows;
    }
