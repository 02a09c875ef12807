-- ===== src/Expiry/Schedule.antt =====
-- web/static/js/expiry.js: `render`, the decoration of rows and their retries, as an event loop. The
-- browser chooses the events: a reply to `refresh`, data that another script has fetched, a callback of
-- `requestAnimationFrame` or `setTimeout` that was asked for, a mutation of the table, and a change
-- of the page by the table's own script. The observer's callback runs after the script that changed
-- the table, so `isDecorating` is false in it.
pub mod Retries
pub mod Rerender
use server_status_rust_l.Prelude.{
  String, ℕ, suc, zero, ◌+◌, ◌-◌, ◌*◌, Bool, true, false, not, ◌||◌, ◌&&◌, Option, none, some, List,
  [], ◌∷◌, ◌++◌, length, concat, to_string, ◌or_text◌, ltb, if◌then◌else◌, eqb,
}
use server_status_rust_l.Prelude.Int.{ℤ}
use server_status_rust_l.Expiry.{Server}
use server_status_rust_l.Expiry.Panel.{Panel, render_panel, render_error_panel}
use server_status_rust_l.Expiry.Rows.{Row, decorate_rows}

-- The data of `/json/stats.json`; `updated` is 0 where it is absent.
pub record Stats : Type 0 where
  pub servers : List Server
  pub updated : ℕ

pub record Page : Type 0 where
  pub has_body : Bool
  pub has_root : Bool
  pub rows : List Row
  pub panel : Option Panel
  pub main_content_hidden : Bool

-- What becomes of the request of `refresh`: a reply that is not `ok`, the data, or an exception.
pub data Reply : Type 0 where
  not_ok : ℕ → String → Reply
  data_of : Stats → Reply
  thrown : String → Reply

-- The script's variables, and the callbacks that it has asked for: `runs` counts those that decorate
-- the rows, `renders` lists the data of those that render again.
pub record State : Type 0 where
  pub page : Page
  pub latest_servers : List Server
  pub decorate_pending : Bool
  pub decorate_retries : ℕ
  pub render_retry_attempts : ℕ
  pub row_observer : Bool
  pub runs : ℕ
  pub renders : List Stats

abbrev pub no_servers : List Server → Bool
no_servers [] = true
no_servers (server ∷ servers) = false

unfoldable pub schedule_row_decoration : State → State
schedule_row_decoration s =
    if no_servers s.latest_servers || s.decorate_pending
    then s
    else record s { decorate_pending = true; runs = s.runs + 1 }

unfoldable pub observe_table_updates : State → State
observe_table_updates s =
    if s.row_observer || not s.page.has_root then s else record s { row_observer = true }

-- The callback `run` of `scheduleRowDecoration`.
unfoldable pub run_decoration : State → State
unfolding schedule_row_decoration
run_decoration s =
    let result = decorate_rows s.latest_servers s.page.rows in
    let s' : State = record s {
      decorate_pending = false;
      page = record s.page { rows = result.rows };
    } in
    if ltb result.matched_rows (length s.latest_servers) && ltb s.decorate_retries 20
    then schedule_row_decoration (record s' { decorate_retries = s.decorate_retries + 1 })
    else s'

-- The observer's callback.
unfoldable pub table_mutated : State → State
unfolding schedule_row_decoration
table_mutated s =
    if not s.row_observer || no_servers s.latest_servers
    then s
    else schedule_row_decoration (record s { decorate_retries = 0 })

-- The panel's node is made in the body, and stays.
show_panel : Option Panel → Page → Page
show_panel none page = page
show_panel (some panel) page = record page { panel = some panel }

abbrev rendered : Option Panel → Bool
rendered none = false
rendered (some panel) = true

abbrev set_main_content_visible : Bool → Page → Page
set_main_content_visible visible page =
    if page.has_body then record page { main_content_hidden = not visible } else page

-- The end of `render`: the panel's own retries.
render_retry : Bool → Stats → State → State
render_retry true stats s = record s { render_retry_attempts = 0 }
render_retry false stats s =
    if ltb s.render_retry_attempts 40
    then record s {
      render_retry_attempts = s.render_retry_attempts + 1;
      renders = s.renders ++ stats ∷ [];
    }
    else s

-- `render` from where it has or has not made the panel.
render_with : Option Panel → Page → Stats → State → State
unfolding schedule_row_decoration observe_table_updates render_retry show_panel
render_with panel page stats s =
    let s' : State = record s {
      latest_servers = stats.servers;
      decorate_retries = 0;
      page = show_panel panel page;
    } in
    render_retry (rendered panel) stats (schedule_row_decoration (observe_table_updates s'))

-- The page can take the panel if it has it or has a body to put it in.
abbrev can_panel : Page → Bool
can_panel page = page.has_body || rendered page.panel

show_error : String → State → State
unfolding show_panel
show_error message s = record s {
  page = show_panel (render_error_panel (can_panel s.page) message) s.page;
}

pub data Event : Type 0 where
  refreshed : Reply → Event
  bridged : Stats → Event
  run_callback : Event
  render_callback : Event
  mutated : Event
  page_changed : (has_body has_root : Bool) → List Row → Event

module _ (locale_compare : String → String → ℤ) (to_locale_string : ℕ → String) where
  unfoldable pub render : Stats → State → State
  unfolding render_with
  render stats s =
      let page = set_main_content_visible (not (no_servers stats.servers)) s.page in
      render_with
        (render_panel locale_compare to_locale_string (can_panel page) stats.servers stats.updated)
        page stats s

  unfoldable pub refresh : Reply → State → State
  unfolding show_error
  refresh (not_ok status status_text) s =
      show_error (concat (to_string status ∷ " " ∷ (status_text or_text "读取失败") ∷ [])) s
  refresh (data_of stats) s = render stats s
  refresh (thrown message) s = show_error (message or_text "无法读取节点状态") s

  -- A callback is taken off before it runs; without one the event changes nothing.
  fire_run : ℕ → State → State
  fire_run zero s = s
  fire_run (suc n) s = run_decoration (record s { runs = n })

  fire_render : List Stats → State → State
  fire_render [] s = s
  fire_render (stats ∷ later) s = render stats (record s { renders = later })

  unfoldable pub step : Event → State → State
  unfolding fire_run fire_render
  step (refreshed reply) s = refresh reply s
  step (bridged stats) s = render stats s
  step run_callback s = fire_run s.runs s
  step render_callback s = fire_render s.renders s
  step mutated s = table_mutated s
  step (page_changed has_body has_root rows) s = record s {
    page = record s.page { has_body = has_body; has_root = has_root; rows = rows };
  }

  unfoldable pub steps : List Event → State → State
  steps [] s = s
  steps (e ∷ es) s = steps es (step e s)

-- The variables as the script declares them, before any event.
abbrev pub initial_state : Page → State
initial_state page = record {
  page = page;
  latest_servers = [];
  decorate_pending = false;
  decorate_retries = 0;
  render_retry_attempts = 0;
  row_observer = false;
  runs = 0;
  renders = [];
}
