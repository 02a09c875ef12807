-- ===== src/Tests/Due.antt =====
-- Four servers, a page with two rows, and what web/static/js/expiry.js makes of them.
use server_status_rust_l.Prelude.{
  String, ℕ, zero, suc, Bool, ◌≤◌, includes, true, false, Option, none, some, List, [], ◌∷◌, length,
  replicate, to_string, utf16_length, leb, if◌then◌else◌, Member, ◌⊎◌, ◌||◌, inl, inr, ◌≡◌, refl,
  arith,
}
use server_status_rust_l.Prelude.Int.{ℤ, pos, negsuc, ◌-ℤ◌}
use server_status_rust_l.Prelude.Sort.{sort_by}
use server_status_rust_l.Expiry.Risk.{risk_le, sort_by_risk, risk_rank, expire_risk_rank}
use server_status_rust_l.Expiry.{
  Expire, Server, needs_attention, expire_needs_attention, treat_as_missing,
}
use server_status_rust_l.Expiry.Element.{Element, same_html}
use server_status_rust_l.Expiry.Panel.{attention_servers, missing_servers}
use server_status_rust_l.Expiry.Panel.Attention.{
  IsCollation, IsAsUrgent, attention_servers_sound, attention_servers_complete,
}
use server_status_rust_l.Expiry.Panel.Buckets.{counted_needs_attention}
use server_status_rust_l.Expiry.Rows.{
  Child, managed, other, replace_managed_node, Row, decorate_rows,
}
use server_status_rust_l.Expiry.Rows.Replace.{
  managed_nodes, other_nodes, replace_managed_node_lem, decorate_rows_twice,
}
use server_status_rust_l.Expiry.Schedule.{
  Page, State, data_of, Event, refreshed, run_callback, render_callback, mutated, step, steps,
  initial_state,
}
use server_status_rust_l.Expiry.Schedule.Retries.{IsBounded, steps-IsBounded}
use server_status_rust_l.Expiry.Schedule.Rerender.{AllWaiting, render_callbacks_end}

-- An order of texts by their length.
abbrev by_length : String → String → ℤ
by_length a b = if leb (utf16_length a) (utf16_length b) then pos 0 else pos 1

by_length-IsCollation : IsCollation by_length
by_length-IsCollation = record {
  total = λ a b h. ground (arith, h);
  trans = λ a b c h k. ground (arith, h, k);
}

abbrev due_in : ℤ → String → Expire
due_in days status = record {
  configured = true;
  raw = "2026-03-01";
  date = "2026-03-01";
  days_left = days;
  status = status;
  label = "";
  auto_renewal = false;
  auto_renewed = false;
  renewal_count = 0;
  renewal_status = "";
  cycle = "month";
  amount = "$5";
}

abbrev server : String → Option Expire → Server
server name expire = record { name = name; alias = ""; expire = expire }

abbrev late : Server
late = server "late" (some (due_in (negsuc 2) "expired"))

abbrev near : Server
near = server "near" (some (due_in (pos 5) "warning"))

abbrev unset : Server
unset = server "unset" none

abbrev far : Server
far = server "far" (some (due_in (pos 200) "normal"))

abbrev servers : List Server
servers = far ∷ unset ∷ near ∷ late ∷ []

listed : attention_servers by_length servers ≡ unset ∷ late ∷ near ∷ []
unfolding attention_servers sort_by needs_attention expire_needs_attention risk_le sort_by_risk
    risk_rank expire_risk_rank includes ◌-ℤ◌
listed = refl

attention_servers_sound_example :
    Member late servers
    × (needs_attention late ≡ true)
    × (length (attention_servers by_length servers) ≤ 8)
unfolding attention_servers sort_by needs_attention expire_needs_attention risk_le sort_by_risk
    risk_rank expire_risk_rank includes ◌-ℤ◌
attention_servers_sound_example = attention_servers_sound by_length servers late (inr (inl refl))

attention_servers_complete_example :
    Member near (attention_servers by_length servers)
    ⊎ ((length (attention_servers by_length servers) ≡ 8)
        × ((b : Server) → Member b (attention_servers by_length servers) → IsAsUrgent b near))
unfolding needs_attention expire_needs_attention
attention_servers_complete_example =
    attention_servers_complete by_length by_length-IsCollation servers near (inr (inr (inl refl)))
      refl

counted_needs_attention_example : Member unset servers × (needs_attention unset ≡ true)
unfolding missing_servers treat_as_missing
counted_needs_attention_example = counted_needs_attention by_length servers unset (inl (inl refl))

abbrev line : String → Element
line text = record { class_name = ""; title = ""; text_content = text; spans = [] }

abbrev nodes : List Child
nodes = other 1 ∷ managed (line "a") ∷ managed (line "b") ∷ other 2 ∷ []

replaced :
    replace_managed_node nodes (line "c") ≡ (other 1 ∷ managed (line "c") ∷ other 2 ∷ [], true)
unfolding replace_managed_node same_html
replaced = refl

replace_managed_node_lem_example :
    (managed_nodes (replace_managed_node nodes (line "c")).0 ≡ line "c" ∷ [])
    × (other_nodes (replace_managed_node nodes (line "c")).0 ≡ other_nodes nodes)
replace_managed_node_lem_example = replace_managed_node_lem nodes (line "c")

abbrev rows : List Row
rows =
    record { cell = some nodes; expanded_grid = none }
    ∷ record { cell = none; expanded_grid = some [] }
    ∷ []

decorate_rows_twice_example :
    decorate_rows servers (decorate_rows servers rows).rows
    ≡ record (decorate_rows servers rows) { changed_rows = 0 }
decorate_rows_twice_example = decorate_rows_twice servers rows

abbrev page : Page
page = record {
  has_body = true;
  has_root = true;
  rows = rows;
  panel = none;
  main_content_hidden = false;
}

abbrev events : List Event
events =
    refreshed (data_of (record { servers = servers; updated = 1 }))
    ∷ run_callback
    ∷ mutated
    ∷ run_callback
    ∷ []

steps-IsBounded_example : IsBounded (steps by_length to_string events (initial_state page))
steps-IsBounded_example = steps-IsBounded by_length to_string page events

-- After the first data, with one callback outstanding.
abbrev waiting : State
waiting = record (initial_state page) {
  latest_servers = servers;
  decorate_pending = true;
  row_observer = true;
  runs = 1;
}

-- Whether a row has an empty grid.
abbrev is_empty_grid : Option (List Child) → Bool
is_empty_grid (some []) = true
is_empty_grid (some (child ∷ children)) = false
is_empty_grid none = false

abbrev has_empty_grid : List Row → Bool
has_empty_grid [] = false
has_empty_grid (row ∷ rows) = is_empty_grid row.expanded_grid || has_empty_grid rows

-- Twenty-two passes, the first of which has changed the rows.
abbrev decorated : State
decorated =
    steps by_length to_string (replicate 21 run_callback)
      (step by_length to_string mutated (step by_length to_string run_callback waiting))

-- Before the document has a body.
abbrev early : State
early = record (initial_state (record page { has_body = false })) {
  render_retry_attempts = 1;
  renders = record { servers = servers; updated = 1 } ∷ [];
}

-- A decoration of the rows and a mutation of the table come in between.
abbrev early_events : List Event
early_events = render_callback ∷ run_callback ∷ mutated ∷ replicate 39 render_callback

only_renders : (n : ℕ) → AllWaiting (replicate n render_callback)
only_renders zero = tt
only_renders (suc n) = (tt, only_renders n)

render_callbacks_end_example : (steps by_length to_string early_events early).renders ≡ []
render_callbacks_end_example =
    render_callbacks_end by_length to_string early_events early (tt, (tt, (tt, only_renders 39)))
      refl (omega arith) (omega arith)
