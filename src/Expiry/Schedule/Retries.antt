-- ===== src/Expiry/Schedule/Retries.antt =====
-- The callbacks of web/static/js/expiry.js: how many are outstanding, and that retries end.
use server_status_rust_l.Prelude.{
  String, ◌⊎◌, ℕ, suc, zero, ◌≤◌, List, [], ◌∷◌, ◌≡◌, refl, arith, if◌then◌else◌, ◌≢◌,
}
use server_status_rust_l.Prelude.Int.{ℤ}
use server_status_rust_l.Expiry.Rows.{decorate_rows}
use server_status_rust_l.Expiry.Schedule.{
  State, Stats, Page, Event, refreshed, bridged, Reply, data_of, refresh, run_callback,
  render_callback, mutated, page_changed, schedule_row_decoration, run_decoration, table_mutated,
  render, step, steps, initial_state, fire_run, fire_render,
}

-- What holds of the variables between events.
pub record IsBounded (s : State) : Type 0 where
  pub one_run : s.runs ≡ (if s.decorate_pending then 1 else 0)
  pub retries : s.decorate_retries ≤ 20
  pub attempts : s.render_retry_attempts ≤ 40

schedule-IsBounded : (s : State) → IsBounded s → IsBounded (schedule_row_decoration s)
unfolding schedule_row_decoration
schedule-IsBounded s h = ground arith

run-IsBounded :
    (s : State) (n : ℕ)
    → IsBounded s
    → s.runs ≡ suc n
    → IsBounded (run_decoration (record s { runs = n }))
unfolding run_decoration
run-IsBounded s n h e = ground arith

mutated-IsBounded : (s : State) → IsBounded s → IsBounded (table_mutated s)
unfolding table_mutated
mutated-IsBounded s h = ground arith

module _ (locale_compare : String → String → ℤ) (to_locale_string : ℕ → String) where
  render-IsBounded :
      (stats : Stats) (s : State)
      → IsBounded s
      → IsBounded (render locale_compare to_locale_string stats s)
  unfolding render
  render-IsBounded stats s h = ground arith

  fire_run-IsBounded :
      (n : ℕ) (s : State)
      → s.runs ≡ n
      → IsBounded s
      → IsBounded (fire_run locale_compare to_locale_string n s)
  unfolding fire_run
  fire_run-IsBounded zero s e h = h
  fire_run-IsBounded (suc n) s e h = run-IsBounded s n h e

  fire_render-IsBounded :
      (l : List Stats) (s : State)
      → IsBounded s
      → IsBounded (fire_render locale_compare to_locale_string l s)
  unfolding fire_render
  fire_render-IsBounded [] s h = h
  fire_render-IsBounded (stats ∷ later) s h =
      render-IsBounded stats (record s { renders = later })
        (record { one_run = h.one_run; retries = h.retries; attempts = h.attempts })

  refresh-IsBounded :
      (r : Reply) (s : State)
      → IsBounded s
      → IsBounded (refresh locale_compare to_locale_string r s)
  unfolding refresh
  refresh-IsBounded (data_of stats) s h = render-IsBounded stats s h
  refresh-IsBounded _ s h = record {
    one_run = h.one_run;
    retries = h.retries;
    attempts = h.attempts;
  }

  step-IsBounded :
      (e : Event) (s : State) → IsBounded s → IsBounded (step locale_compare to_locale_string e s)
  unfolding step
  step-IsBounded (refreshed reply) s h = refresh-IsBounded reply s h
  step-IsBounded (bridged stats) s h = render-IsBounded stats s h
  step-IsBounded run_callback s h = fire_run-IsBounded s.runs s refl h
  step-IsBounded render_callback s h = fire_render-IsBounded s.renders s h
  step-IsBounded mutated s h = mutated-IsBounded s h
  step-IsBounded (page_changed has_body has_root rows) s h = record {
    one_run = h.one_run;
    retries = h.retries;
    attempts = h.attempts;
  }

  steps_lem :
      (es : List Event) (s : State)
      → IsBounded s
      → IsBounded (steps locale_compare to_locale_string es s)
  unfolding steps
  steps_lem [] s h = h
  steps_lem (e ∷ es) s h = steps_lem es _ (step-IsBounded e s h)

  -- From the start, whatever the events: one callback that decorates the rows is outstanding if
  -- `decorate_pending` is set and none otherwise, and the two counts of retries stay in bounds.
  pub steps-IsBounded :
      (page : Page) (es : List Event)
      → IsBounded (steps locale_compare to_locale_string es (initial_state page))
  steps-IsBounded page es = steps_lem es (initial_state page) (omega arith)

  -- Passes over the rows, one after the other: each is a callback and, only if it has changed the rows,
  -- the callback of the table's observer after it, which starts the count of retries anew.
  unfoldable pub Passes : ℕ → State → State → Type 0
  Passes zero s t = s ≡ t
  Passes (suc n) s t =
      let passed = step locale_compare to_locale_string run_callback s in
      Passes n passed t
      ⊎ ((passed.page.rows ≢ s.page.rows)
          × Passes n (step locale_compare to_locale_string mutated passed) t)

  -- The rows are as a pass leaves them.
  abbrev IsSettled : State → Type 0
  IsSettled s = (decorate_rows s.latest_servers s.page.rows).rows ≡ s.page.rows
