-- ===== src/Queue/Progress.antt =====
-- The queue of web/static/js/admin.js comes to the end of every transaction.
use server_status_rust_l.Prelude.{
  ℕ, zero, suc, ◌+◌, Bool, true, false, not, ◌&&◌, List, [], ◌∷◌, length, ◌≡◌, ◌⊎◌, inl, inr, refl,
  ap, ◌∙◌, arith, if◌then◌else◌, Bool-cases,
}
use server_status_rust_l.Queue.{
  Status, is_settled, Call, Queue, Event, enqueue, react, act, settle, pass, first_tail, no_actions,
  react_call, settle_call, pass_call, act_call, update_at, act_at, step,
}
use server_status_rust_l.Queue.Chain.{IsOrdered, IsChain, no_actions_lem}

-- The kinds of the events of the event loop.
pub data Kind : Type 0 where
  reacts does settles passes : Kind

module _ {S : Type 0} where
  -- The events that are still to come of a call, and of all.
  abbrev pub left : Call S → ℕ
  left c =
      length c.actions
      + (if c.started then 0 else 1)
      + (if is_settled c.queued then 0 else 1)
      + (if is_settled c.tail then 0 else 1)

  abbrev pub all_left : List (Call S) → ℕ
  all_left [] = 0
  all_left (c ∷ cs) = left c + all_left cs

  abbrev IsOne : Call S → Call S → Type 0
  IsOne c c' = (c' ≡ c) ⊎ (left c' + 1 ≡ left c)

  react-IsOne : (before : Status) (c : Call S) → IsOne c (react_call before c)
  unfolding react_call
  react-IsOne before c = elim (Bool-cases (is_settled before && not c.started)) [
    | inl e ↦ rw (e, react_call) (inr (ground arith))
    | inr e ↦ rw (e, react_call) (inl refl)
  ]

  settle-IsOne : (before : Status) (c : Call S) → IsOne c (settle_call c)
  unfolding settle_call
  settle-IsOne before c =
      elim (Bool-cases (c.started && no_actions c.actions && not (is_settled c.queued))) [
        | inl e ↦ rw (e, settle_call) (inr (ground arith))
        | inr e ↦ rw (e, settle_call) (inl refl)
      ]

  pass-IsOne : (before : Status) (c : Call S) → IsOne c (pass_call c)
  unfolding pass_call
  pass-IsOne before c = elim (Bool-cases (is_settled c.queued && not (is_settled c.tail))) [
    | inl e ↦ rw (e, pass_call) (inr (ground arith))
    | inr e ↦ rw (e, pass_call) (inl refl)
  ]

  update_at-one :
      (f : Status → Call S → Call S)
      → ((before : Status) (c : Call S) → IsOne c (f before c))
      → (before : Status) (k : ℕ) (cs : List (Call S))
      → (update_at f before k cs ≡ cs) ⊎ (all_left (update_at f before k cs) + 1 ≡ all_left cs)
  unfolding update_at
  update_at-one f one before k [] = inl refl
  update_at-one f one before zero (c ∷ cs) = elim (one before c) [
    | inl e ↦ inl (ap (λ d. d ∷ cs) e)
    | inr e ↦ inr (omega (arith, e))
  ]
  update_at-one f one before (suc k) (c ∷ cs) = elim (update_at-one f one c.tail k cs) [
    | inl e ↦ inl (ap (λ ds. c ∷ ds) e)
    | inr e ↦ inr (omega (arith, e))
  ]

  acts :
      (s : S) (actions : List (S → S)) (rejects started : Bool) (queued tail : Status)
      → let c : Call S = record {
        actions = actions;
        rejects = rejects;
        started = started;
        queued = queued;
        tail = tail;
      } in
        (act_call s c ≡ (s, c)) ⊎ (left (act_call s c).1 + 1 ≡ left c)
  unfolding act_call
  acts s actions rejects false queued tail = inl refl
  acts s [] rejects true queued tail = inl refl
  acts s (a ∷ rest) rejects true queued tail = inr (omega arith)

  act_at-one :
      (s : S) (k : ℕ) (cs : List (Call S))
      → (act_at s k cs ≡ (s, cs)) ⊎ (all_left (act_at s k cs).1 + 1 ≡ all_left cs)
  unfolding act_at
  act_at-one s k [] = inl refl
  act_at-one s zero (c ∷ cs) = elim (acts s c.actions c.rejects c.started c.queued c.tail) [
    | inl e ↦ inl (ap (λ (p : S × Call S). (p.0, p.1 ∷ cs)) e)
    | inr e ↦ inr (omega (arith, e))
  ]
  act_at-one s (suc k) (c ∷ cs) = elim (act_at-one s k cs) [
    | inl e ↦ inl (ap (λ (p : S × List (Call S)). (p.0, c ∷ p.1)) e)
    | inr e ↦ inr (omega (arith, e))
  ]

  -- An event of the event loop, not of a handler that enqueues.
  abbrev pub IsInner : Event S → Type 0
  IsInner (enqueue t) = ⊥
  IsInner (react k) = Unit
  IsInner (act k) = Unit
  IsInner (settle k) = Unit
  IsInner (pass k) = Unit

  abbrev pub AllInner : List (Event S) → Type 0
  AllInner [] = Unit
  AllInner (e ∷ es) = IsInner e × AllInner es

  of_calls :
      (q : Queue S) (cs : List (Call S))
      → (cs ≡ q.calls) ⊎ (all_left cs + 1 ≡ all_left q.calls)
      → (record q { calls = cs } ≡ q) ⊎ (all_left cs + 1 ≡ all_left q.calls)
  of_calls q cs (inl e) = inl (ap (λ (ds : List (Call S)). record q { calls = ds }) e)
  of_calls q cs (inr e) = inr e

  pub step-one :
      (e : Event S) (q : Queue S)
      → IsInner e
      → (step e q ≡ q) ⊎ (all_left (step e q).calls + 1 ≡ all_left q.calls)
  unfolding step
  step-one (enqueue t) q i = elim i [ ]
  step-one (react k) q i =
      of_calls q (update_at react_call first_tail k q.calls)
        (update_at-one react_call react-IsOne first_tail k q.calls)
  step-one (settle k) q i =
      of_calls q (update_at (λ before. settle_call) first_tail k q.calls)
        (update_at-one (λ before. settle_call) settle-IsOne first_tail k q.calls)
  step-one (pass k) q i =
      of_calls q (update_at (λ before. pass_call) first_tail k q.calls)
        (update_at-one (λ before. pass_call) pass-IsOne first_tail k q.calls)
  step-one (act k) q i = elim (act_at-one q.shared k q.calls) [
    | inl e ↦ inl (ap (λ (p : S × List (Call S)). record { shared = p.0; calls = p.1 }) e)
    | inr e ↦ inr e
  ]

  -- The calls after an event of a kind, at the call of a number.
  unfoldable pub moved : Kind → S → Status → ℕ → List (Call S) → List (Call S)
  moved reacts s before k cs = update_at react_call before k cs
  moved does s before k cs = (act_at s k cs).1
  moved settles s before k cs = update_at (λ before. settle_call) before k cs
  moved passes s before k cs = update_at (λ before. pass_call) before k cs

  unfoldable pub event_of : Kind → ℕ → Event S
  event_of reacts k = react k
  event_of does k = act k
  event_of settles k = settle k
  event_of passes k = pass k

  pub moved-event_of :
      (kind : Kind) (k : ℕ) (q : Queue S)
      → IsInner (event_of kind k)
        × ((step (event_of kind k) q).calls ≡ moved kind q.shared first_tail k q.calls)
  unfolding step moved event_of
  moved-event_of reacts k q = (tt, refl)
  moved-event_of does k q = (tt, refl)
  moved-event_of settles k q = (tt, refl)
  moved-event_of passes k q = (tt, refl)

  moved-later :
      (kind : Kind) (s : S) (before : Status) (k : ℕ) (c : Call S) (cs : List (Call S))
      → moved kind s before (suc k) (c ∷ cs) ≡ c ∷ moved kind s c.tail k cs
  unfolding moved update_at act_at
  moved-later reacts s before k c cs = refl
  moved-later does s before k c cs = refl
  moved-later settles s before k c cs = refl
  moved-later passes s before k c cs = refl

  -- A call whose turn it is has an event, until its `tail` is settled.
  first_moves :
      (s : S) (before : Status) (actions : List (S → S)) (rejects started : Bool)
      (queued tail : Status) (cs : List (Call S))
      → let c : Call S = record {
        actions = actions;
        rejects = rejects;
        started = started;
        queued = queued;
        tail = tail;
      } in
        is_settled before ≡ true
        → IsOrdered before c
        → is_settled tail ≡ false
        → (kind : Kind) × (all_left (moved kind s before 0 (c ∷ cs)) + 1 ≡ all_left (c ∷ cs))
  unfolding moved update_at act_at act_call react_call settle_call pass_call
  first_moves s before actions rejects false queued tail cs b h t = (reacts, rw b (omega arith))
  first_moves s before (a ∷ rest) rejects true queued tail cs b h t = (does, omega arith)
  first_moves s before [] rejects true queued tail cs b h t =
      elim (Bool-cases (is_settled queued)) [
        | inl e ↦ (passes, rw (e, t) (ground (arith, e)))
        | inr e ↦ (settles, rw (e, t) (ground (arith, e)))
      ]

  pub some_moves :
      (s : S) (before : Status) (cs : List (Call S))
      → is_settled before ≡ true
      → IsChain before cs
      → (all_left cs ≡ 0)
        ⊎ ((kind : Kind) × (k : ℕ) × (all_left (moved kind s before k cs) + 1 ≡ all_left cs))
  some_moves s before [] b i = inl refl
  some_moves s before (c ∷ cs) b (h, i) = elim (Bool-cases (is_settled c.tail)) [
    | inr e ↦
        let (kind, one) =
          first_moves s before c.actions c.rejects c.started c.queued c.tail cs b h e in
        inr (kind, 0, one)
    | inl e ↦
        let queued = h.2 e in
        let (started, none_left) = h.1 queued in
        let nil = ap length (no_actions_lem c.actions none_left) in
        elim (some_moves s c.tail cs e i) [
          | inl z ↦ inl (ground (arith, z, nil))
          | inr (kind, k, one) ↦ inr (
            kind,
            suc k,
            ap (λ (l : List (Call S)). all_left l + 1) (moved-later kind s before k c cs)
                ∙ omega (arith, one),
          )
        ]
  ]
