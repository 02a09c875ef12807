-- ===== src/Queue/Serial.antt =====
-- The queue of web/static/js/admin.js runs its transactions one after the other.
use server_status_rust_l.Prelude.{
  ℕ, ◌+◌, ◌≤◌, false, not, ◌&&◌, List, [], ◌∷◌, ◌++◌, ◌≡◌, inl, inr, refl, sym, ap, ◌∙◌, arith,
  append_assoc, append-nil, if◌then◌else◌, Bool-cases,
}
use server_status_rust_l.Queue.{
  Status, is_settled, Call, Queue, Event, enqueue, react, act, settle, pass, first_tail, new_call,
  react_call, settle_call, pass_call, update_at, step, steps, new_queue,
}
use server_status_rust_l.Queue.Chain.{
  keeps, apply_all, remaining, IsChain, update_at-IsChain, react-IsOrdered, settle-IsOrdered,
  pass-IsOrdered, act_at_lem, apply_all-append, remaining-append, IsChain-append,
  update_at-remaining, react_call_lem, settle_call_lem, pass_call_lem,
}

module _ {S : Type 0} where
  -- The actions of all transactions that the events enqueue, in the order of the calls.
  abbrev pub enqueued : List (Event S) → List (S → S)
  enqueued [] = []
  enqueued (enqueue t ∷ es) = t.actions ++ enqueued es
  enqueued (react k ∷ es) = enqueued es
  enqueued (act k ∷ es) = enqueued es
  enqueued (settle k ∷ es) = enqueued es
  enqueued (pass k ∷ es) = enqueued es

  -- What an event does to the actions that are left and to the state.
  abbrev IsStep : Event S → Queue S → Queue S → Type 0
  IsStep e q r =
      IsChain first_tail r.calls
      × (apply_all (remaining r.calls) r.shared
          ≡ apply_all (remaining q.calls ++ enqueued (e ∷ [])) q.shared)

  unmoved :
      (f : Status → Call S → Call S)
      → ((before : Status) (c : Call S) → (f before c).actions ≡ c.actions)
      → (k : ℕ) (q : Queue S)
      → apply_all (remaining (update_at f first_tail k q.calls)) q.shared
        ≡ apply_all (remaining q.calls ++ []) q.shared
  unmoved f e k q =
      ap (λ l. apply_all l q.shared)
        (update_at-remaining f e first_tail k q.calls ∙ sym (append-nil (remaining q.calls)))

  step-IsStep : (e : Event S) (q : Queue S) → IsChain first_tail q.calls → IsStep e q (step e q)
  unfolding step
  step-IsStep (enqueue t) q i = (
    IsChain-append first_tail q.calls t i,
    ap (λ l. apply_all l q.shared) (remaining-append q.calls (new_call t ∷ [])),
  )
  step-IsStep (react k) q i = (
    update_at-IsChain react_call react-IsOrdered (λ before c. keeps (react_call_lem before c).1)
        first_tail k q.calls i,
    unmoved react_call (λ before c. (react_call_lem before c).0) k q,
  )
  step-IsStep (settle k) q i = (
    update_at-IsChain (λ before. settle_call) settle-IsOrdered
        (λ before c. keeps (settle_call_lem c).1) first_tail k q.calls i,
    unmoved (λ before. settle_call) (λ before c. (settle_call_lem c).0) k q,
  )
  step-IsStep (pass k) q i = (
    update_at-IsChain (λ before. pass_call) pass-IsOrdered (λ before c. (pass_call_lem c).1)
        first_tail k q.calls i,
    unmoved (λ before. pass_call) (λ before c. (pass_call_lem c).0) k q,
  )
  step-IsStep (act k) q i =
      let (j, e, w) = act_at_lem first_tail q.shared k q.calls i in
      (j, e ∙ ap (λ l. apply_all l q.shared) (sym (append-nil (remaining q.calls))))

  enqueued-cons :
      (e : Event S) (es : List (Event S)) → enqueued (e ∷ []) ++ enqueued es ≡ enqueued (e ∷ es)
  enqueued-cons (enqueue t) es = ap (λ l. l ++ enqueued es) (append-nil t.actions)
  enqueued-cons (react k) es = refl
  enqueued-cons (act k) es = refl
  enqueued-cons (settle k) es = refl
  enqueued-cons (pass k) es = refl

  pub steps_lem :
      (es : List (Event S)) (q : Queue S)
      → IsChain first_tail q.calls
      → IsChain first_tail (steps es q).calls
        × (apply_all (remaining (steps es q).calls) (steps es q).shared
            ≡ apply_all (remaining q.calls ++ enqueued es) q.shared)
  unfolding steps
  steps_lem [] q i = (i, ap (λ l. apply_all l q.shared) (sym (append-nil (remaining q.calls))))
  steps_lem (e ∷ es) q i =
      let (j, one) = step-IsStep e q i in
      let (k, all) = steps_lem es (step e q) j in
      (
        k,
        all
            ∙ apply_all-append (remaining (step e q).calls) (enqueued es) (step e q).shared
            ∙ ap (apply_all (enqueued es)) one
            ∙ sym (apply_all-append (remaining q.calls ++ enqueued (e ∷ [])) (enqueued es) q.shared)
            ∙ ap (λ l. apply_all l q.shared)
                (append_assoc (remaining q.calls) (enqueued (e ∷ [])) (enqueued es)
                  ∙ ap (λ l. remaining q.calls ++ l) (enqueued-cons e es)),
      )

  -- The transactions that have started and not ended.
  abbrev pub running : List (Call S) → ℕ
  running [] = 0
  running (c ∷ cs) = (if c.started && not (is_settled c.queued) then 1 else 0) + running cs

  none_running :
      (before : Status) (cs : List (Call S))
      → is_settled before ≡ false
      → IsChain before cs
      → running cs ≡ 0
  none_running before [] b i = refl
  none_running before (c ∷ cs) b (h, i) = ground (arith, none_running c.tail cs)

  one_running : (before : Status) (cs : List (Call S)) → IsChain before cs → running cs ≤ 1
  one_running before [] i = omega arith
  one_running before (c ∷ cs) (h, i) = elim (Bool-cases (is_settled c.tail)) [
    | inl e ↦ ground (arith, one_running c.tail cs i, h.2 e)
    | inr e ↦ ground (arith, none_running c.tail cs e i)
  ]

  -- Whatever the events and their order, no two transactions run at once, and the state together with
  -- the actions that are left is what the actions of all the transactions make of the first state,
  -- one transaction after the other in the order of the calls, whether or not some of them reject.
  pub queue_is_serial :
      (s : S) (es : List (Event S))
      → let q = steps es (new_queue s) in
        (running q.calls ≤ 1) × (apply_all (remaining q.calls) q.shared ≡ apply_all (enqueued es) s)
  queue_is_serial s es =
      let (i, e) = steps_lem es (new_queue s) tt in
      (one_running first_tail (steps es (new_queue s)).calls i, e)
