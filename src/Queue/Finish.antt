-- ===== src/Queue/Finish.antt =====
-- The queue of web/static/js/admin.js ends: what the events that are left come to.
use server_status_rust_l.Prelude.{
  ℕ, zero, suc, ◌+◌, List, [], ◌∷◌, ◌++◌, length, ◌≡◌, ◌⊎◌, inl, inr, refl, sym, ap, ◌∙◌, arith,
}
use server_status_rust_l.Queue.{
  Call, Queue, Event, enqueue, react, act, settle, pass, first_tail, step, steps, new_queue,
}
use server_status_rust_l.Queue.Chain.{apply_all, remaining, IsChain}
use server_status_rust_l.Queue.Serial.{enqueued, steps_lem}
use server_status_rust_l.Queue.Progress.{
  all_left, IsInner, AllInner, step-one, event_of, moved-event_of, some_moves,
}

module _ {S : Type 0} where
  append-empty : (l rest : List (S → S)) → length l ≡ 0 → rest ≡ [] → l ++ rest ≡ []
  append-empty [] rest z e = e
  append-empty (a ∷ l) rest z e = absurd (omega (arith, z))

  remaining-done : (cs : List (Call S)) → all_left cs ≡ 0 → remaining cs ≡ []
  remaining-done [] z = refl
  remaining-done (c ∷ cs) z =
      append-empty c.actions (remaining cs) (ground (arith, z))
        (remaining-done cs (ground (arith, z)))

  steps-append :
      (es more : List (Event S)) (q : Queue S) → steps (es ++ more) q ≡ steps more (steps es q)
  unfolding steps
  steps-append [] more q = refl
  steps-append (e ∷ es) more q = steps-append es more (step e q)

  enqueued-inner : (es more : List (Event S)) → AllInner more → enqueued (es ++ more) ≡ enqueued es
  enqueued-inner [] [] i = refl
  enqueued-inner [] (enqueue t ∷ more) i = elim i.0 [ ]
  enqueued-inner [] (react k ∷ more) i = enqueued-inner [] more i.1
  enqueued-inner [] (act k ∷ more) i = enqueued-inner [] more i.1
  enqueued-inner [] (settle k ∷ more) i = enqueued-inner [] more i.1
  enqueued-inner [] (pass k ∷ more) i = enqueued-inner [] more i.1
  enqueued-inner (enqueue t ∷ es) more i = ap (λ l. t.actions ++ l) (enqueued-inner es more i)
  enqueued-inner (react k ∷ es) more i = enqueued-inner es more i
  enqueued-inner (act k ∷ es) more i = enqueued-inner es more i
  enqueued-inner (settle k ∷ es) more i = enqueued-inner es more i
  enqueued-inner (pass k ∷ es) more i = enqueued-inner es more i

  -- One event for each part that is left.
  finish :
      (n : ℕ) (q : Queue S)
      → all_left q.calls ≡ n
      → IsChain first_tail q.calls
      → (more : List (Event S)) × AllInner more × (all_left (steps more q).calls ≡ 0)
  unfolding steps
  finish zero q e i = ([], tt, e)
  finish (suc n) q e i = elim (some_moves q.shared first_tail q.calls refl i) [
    | inl z ↦ absurd (omega (arith, z, e))
    | inr (kind, k, one) ↦
        let (inner, calls) = moved-event_of kind k q in
        let (more, all, z) =
          finish n (step (event_of kind k) q) (omega (arith, ap all_left calls, one, e))
            (steps_lem (event_of kind k ∷ []) q i).0 in
        (event_of kind k ∷ more, (inner, all), z)
  ]

  -- From every state of the queue that events lead to, further events of the event loop end every
  -- transaction and settle its promises, whether or not transactions reject. The state is then what
  -- the actions of all the transactions make of the first state, in the order of the calls. And no
  -- event of the event loop is to no purpose: one that changes the queue leaves one fewer to come,
  -- so that they end whatever their order.
  pub queue_finishes :
      (s : S) (es : List (Event S))
      → let q = steps es (new_queue s) in
        ((more : List (Event S)) × AllInner more
          × (all_left (steps (es ++ more) (new_queue s)).calls ≡ 0)
          × ((steps (es ++ more) (new_queue s)).shared ≡ apply_all (enqueued es) s))
        × ((e : Event S)
            → IsInner e
            → (step e q ≡ q) ⊎ (all_left (step e q).calls + 1 ≡ all_left q.calls))
  queue_finishes s es =
      let q = steps es (new_queue s) in
      let (i, e) = steps_lem es (new_queue s) tt in
      let (more, inner, z) = finish (all_left q.calls) q refl i in
      let end = steps-append es more (new_queue s) in
      let (_, all) = steps_lem (es ++ more) (new_queue s) tt in
      let z' = ap (λ (r : Queue S). all_left r.calls) end ∙ z in
      let none_left = remaining-done (steps (es ++ more) (new_queue s)).calls z' in
      (
        (
          more,
          inner,
          z',
          ap (λ l. apply_all l (steps (es ++ more) (new_queue s)).shared) (sym none_left)
              ∙ all
              ∙ ap (λ l. apply_all l s) (enqueued-inner es more inner),
        ),
        λ event h. step-one event q h,
      )
