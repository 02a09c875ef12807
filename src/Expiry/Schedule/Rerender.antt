-- ===== src/Expiry/Schedule/Rerender.antt =====
-- The callbacks of web/static/js/expiry.js: the retries of the panel end, among all other callbacks.
use server_status_rust_l.Prelude.{
  String, ◌⊎◌, length-append, ℕ, suc, zero, ◌+◌, ◌-◌, ◌≤◌, ◌<◌, Bool, true, false, not, List, [],
  ◌∷◌, ◌≡◌, refl, ap, ◌∙◌, arith, none, length, inl, inr, if◌then◌else◌,
}
use server_status_rust_l.Prelude.Int.{ℤ}
use server_status_rust_l.Expiry.Rows.{Row}
use server_status_rust_l.Expiry.Panel.{render_panel}
use server_status_rust_l.Expiry.Schedule.{
  State, Stats, Page, Event, refreshed, bridged, run_callback, mutated, page_changed, table_mutated,
  run_decoration, fire_run, can_panel, render_callback, schedule_row_decoration, render, step,
  steps, fire_render, observe_table_updates, render_retry, render_with, no_servers,
  set_main_content_visible, show_panel,
}

-- No new data: only callbacks that were asked for, the observer's, and changes of the page that give
-- it no body.
abbrev pub IsWaiting : Event → Type 0
IsWaiting (refreshed reply) = ⊥
IsWaiting (bridged stats) = ⊥
IsWaiting run_callback = Unit
IsWaiting render_callback = Unit
IsWaiting mutated = Unit
IsWaiting (page_changed has_body has_root rows) = has_body ≡ false

abbrev pub AllWaiting : List Event → Type 0
AllWaiting [] = Unit
AllWaiting (e ∷ es) = IsWaiting e × AllWaiting es

abbrev pub is_render_callback : Event → Bool
is_render_callback render_callback = true
is_render_callback _ = false

-- How many of the events are callbacks that render again.
abbrev pub count_renders : List Event → ℕ
count_renders [] = 0
count_renders (e ∷ es) = (if is_render_callback e then 1 else 0) + count_renders es

module _ (locale_compare : String → String → ℤ) (to_locale_string : ℕ → String) where
  idle_fire :
      (l : List Stats) (s : State)
      → l ≡ []
      → s.renders ≡ []
      → (fire_render locale_compare to_locale_string l s).renders ≡ []
  unfolding fire_render
  idle_fire [] s e h = h
  idle_fire (stats ∷ later) s e h = absurd (cc)

  abbrev renders_left : State → ℕ
  renders_left s = length s.renders + (40 - s.render_retry_attempts)

  render_retry_left :
      (stats : Stats) (s : State)
      → s.render_retry_attempts ≤ 40
      → ((render_retry false stats s).page ≡ s.page)
        × ((render_retry false stats s).render_retry_attempts ≤ 40)
        × (renders_left (render_retry false stats s) ≤ renders_left s)
  unfolding render_retry
  render_retry_left stats s b = ground (arith, length-append s.renders (stats ∷ []))

  -- What `render` has done before its last step where the page takes no panel.
  abbrev unshown : Stats → State → State
  unshown stats s =
      schedule_row_decoration
        (observe_table_updates (record s { latest_servers = stats.servers; decorate_retries = 0 }))

  unshown_lem :
      (stats : Stats) (s : State)
      → ((unshown stats s).page ≡ s.page)
        × ((unshown stats s).renders ≡ s.renders)
        × ((unshown stats s).render_retry_attempts ≡ s.render_retry_attempts)
  unfolding schedule_row_decoration observe_table_updates
  unshown_lem stats s = ground arith

  page_of_no_body :
      (visible : Bool) (page : Page)
      → can_panel page ≡ false
      → set_main_content_visible visible page ≡ page
  page_of_no_body visible page stuck = ground arith

  render_panel_of_stuck :
      (stats : Stats) (page : Page)
      → can_panel page ≡ false
      → render_panel locale_compare to_locale_string (can_panel page) stats.servers stats.updated
        ≡ none
  unfolding render_panel
  render_panel_of_stuck stats page stuck = rw stuck

  render_stuck :
      (stats : Stats) (s : State)
      → can_panel s.page ≡ false
      → render locale_compare to_locale_string stats s ≡ render_retry false stats (unshown stats s)
  unfolding render show_panel
  render_stuck stats s stuck =
      let shown = λ (p : Page).
        render_panel locale_compare to_locale_string (can_panel p) stats.servers stats.updated in
      ap (λ p. render_with (shown p) p stats s)
        (page_of_no_body (not (no_servers stats.servers)) s.page stuck)
      ∙ ap (λ p. render_with p s.page stats s) (render_panel_of_stuck stats s.page stuck)

  -- A stuck render keeps the page stuck and puts off no more callbacks than attempts are left.
  render_left :
      (stats : Stats) (s : State)
      → can_panel s.page ≡ false
      → s.render_retry_attempts ≤ 40
      → (can_panel (render locale_compare to_locale_string stats s).page ≡ false)
        × ((render locale_compare to_locale_string stats s).render_retry_attempts ≤ 40)
        × (renders_left (render locale_compare to_locale_string stats s) ≤ renders_left s)
  render_left stats s stuck b =
      let (page, renders, attempts) = unshown_lem stats s in
      let (page', b', left) = render_retry_left stats (unshown stats s) (omega arith) in
      rw (render_stuck stats s stuck)
        (ap can_panel (page' ∙ page) ∙ stuck, b', omega (arith, ap length renders, left))

  -- One callback: none was outstanding, or fewer are left to come.
  fire_left :
      (l : List Stats) (s : State)
      → s.renders ≡ l
      → can_panel s.page ≡ false
      → s.render_retry_attempts ≤ 40
      → (s.renders ≡ [])
        ⊎ ((can_panel (fire_render locale_compare to_locale_string l s).page ≡ false)
            × ((fire_render locale_compare to_locale_string l s).render_retry_attempts ≤ 40)
            × (renders_left (fire_render locale_compare to_locale_string l s) < renders_left s))
  unfolding fire_render
  fire_left [] s e stuck b = inl e
  fire_left (stats ∷ later) s e stuck b =
      let (page, b', left) = render_left stats (record s { renders = later }) stuck b in
      inr (page, b', omega (arith, ap length e))

  fire_run_kept :
      (n : ℕ) (s : State)
      → let s' = fire_run locale_compare to_locale_string n s in
        (s'.page.has_body ≡ s.page.has_body)
        × (s'.page.panel ≡ s.page.panel)
        × (s'.renders ≡ s.renders)
        × (s'.render_retry_attempts ≡ s.render_retry_attempts)
  unfolding fire_run run_decoration schedule_row_decoration
  fire_run_kept zero s = (refl, refl, refl, refl)
  fire_run_kept (suc n) s = ground arith

  mutated_kept :
      (s : State)
      → ((table_mutated s).page ≡ s.page)
        × ((table_mutated s).renders ≡ s.renders)
        × ((table_mutated s).render_retry_attempts ≡ s.render_retry_attempts)
  unfolding table_mutated schedule_row_decoration
  mutated_kept s = ground arith

  -- What every other such event leaves as it was.
  abbrev IsSame : State → State → Type 0
  IsSame s s' =
      (can_panel s'.page ≡ false)
      × (s'.renders ≡ s.renders)
      × (s'.render_retry_attempts ≡ s.render_retry_attempts)

  stuck_panel :
      (page : Page)
      → can_panel page ≡ false
      → (has_body has_root : Bool) (rows : List Row) → has_body ≡ false
      → can_panel (record page { has_body = has_body; has_root = has_root; rows = rows }) ≡ false
  stuck_panel page h has_body has_root rows e = ground arith

  waiting_step :
      (e : Event) (s : State)
      → IsWaiting e
      → is_render_callback e ≡ false
      → can_panel s.page ≡ false
      → IsSame s (step locale_compare to_locale_string e s)
  unfolding step
  waiting_step (refreshed reply) s w r stuck = absurd w
  waiting_step (bridged stats) s w r stuck = absurd w
  waiting_step run_callback s w r stuck =
      let (body, panel, renders, attempts) = fire_run_kept s.runs s in
      (rw (body, panel) stuck, renders, attempts)
  waiting_step render_callback s w r stuck = absurd (cc r)
  waiting_step mutated s w r stuck =
      let (page, renders, attempts) = mutated_kept s in
      (ap can_panel page ∙ stuck, renders, attempts)
  waiting_step (page_changed has_body has_root rows) s w r stuck =
      (stuck_panel s.page stuck has_body has_root rows w, refl, refl)

  idle_stuck :
      (l : List Stats) (s : State)
      → l ≡ []
      → can_panel s.page ≡ false
      → can_panel (fire_render locale_compare to_locale_string l s).page ≡ false
  unfolding fire_render
  idle_stuck [] s e stuck = stuck
  idle_stuck (stats ∷ later) s e stuck = absurd (cc)

  idle_renders :
      (es : List Event) (s : State)
      → AllWaiting es
      → can_panel s.page ≡ false
      → s.renders ≡ []
      → (steps locale_compare to_locale_string es s).renders ≡ []
  unfolding steps step
  idle_renders [] s w stuck e = e
  idle_renders (render_callback ∷ es) s w stuck e =
      idle_renders es _ w.1 (idle_stuck s.renders s e stuck) (idle_fire s.renders s e e)
  idle_renders (run_callback ∷ es) s w stuck e =
      let (stuck', renders, attempts) = waiting_step run_callback s w.0 refl stuck in
      idle_renders es _ w.1 stuck' (renders ∙ e)
  idle_renders (mutated ∷ es) s w stuck e =
      let (stuck', renders, attempts) = waiting_step mutated s w.0 refl stuck in
      idle_renders es _ w.1 stuck' (renders ∙ e)
  idle_renders (page_changed b r rows ∷ es) s w stuck e =
      let (stuck', renders, attempts) = waiting_step (page_changed b r rows) s w.0 refl stuck in
      idle_renders es _ w.1 stuck' (renders ∙ e)
  idle_renders (refreshed reply ∷ es) s w stuck e = absurd w.0
  idle_renders (bridged stats ∷ es) s w stuck e = absurd w.0

  none_left : (l : List Stats) → length l ≤ 0 → l ≡ []
  none_left [] h = refl
  none_left (stats ∷ later) h = absurd (omega arith)

  -- While the page can take no panel and no new data come, the callbacks that render again come to an
  -- end too: once as many of them have run as were outstanding and as attempts were left, none is,
  -- whatever decorations of the rows, mutations of the table and changes of the page come in between.
  pub render_callbacks_end :
      (es : List Event) (s : State)
      → AllWaiting es
      → can_panel s.page ≡ false
      → s.render_retry_attempts ≤ 40
      → length s.renders + (40 - s.render_retry_attempts) ≤ count_renders es
      → (steps locale_compare to_locale_string es s).renders ≡ []
  unfolding steps step
  render_callbacks_end [] s w stuck b le = none_left s.renders (omega arith)
  render_callbacks_end (render_callback ∷ es) s w stuck b le =
      elim (fire_left s.renders s refl stuck b) [
        | inl none_now ↦
            idle_renders es (fire_render locale_compare to_locale_string s.renders s) w.1
              (idle_stuck s.renders s none_now stuck) (idle_fire s.renders s none_now none_now)
        | inr (page, b', left) ↦
            render_callbacks_end es (fire_render locale_compare to_locale_string s.renders s) w.1
              page b' (omega arith)
      ]
  render_callbacks_end (run_callback ∷ es) s w stuck b le =
      let (stuck', renders, attempts) = waiting_step run_callback s w.0 refl stuck in
      render_callbacks_end es (step locale_compare to_locale_string run_callback s) w.1 stuck'
        (omega arith) (omega (arith, ap length renders))
  render_callbacks_end (mutated ∷ es) s w stuck b le =
      let (stuck', renders, attempts) = waiting_step mutated s w.0 refl stuck in
      render_callbacks_end es (step locale_compare to_locale_string mutated s) w.1 stuck'
        (omega arith) (omega (arith, ap length renders))
  render_callbacks_end (page_changed has_body has_root rows ∷ es) s w stuck b le =
      let e = page_changed has_body has_root rows in
      let (stuck', renders, attempts) = waiting_step e s w.0 refl stuck in
      render_callbacks_end es (step locale_compare to_locale_string e s) w.1 stuck' (omega arith)
        (omega (arith, ap length renders))
  render_callbacks_end (refreshed reply ∷ es) s w stuck b le = absurd w.0
  render_callbacks_end (bridged stats ∷ es) s w stuck b le = absurd w.0
