-- ===== src/Tests/Queues.antt =====
-- Runs of the queue of web/static/js/admin.js.
use server_status_rust_l.Prelude.{
  ℕ, ◌+◌, ◌*◌, ◌≤◌, true, false, List, [], ◌∷◌, ◌++◌, ◌≡◌, ◌⊎◌, refl,
}
use server_status_rust_l.Queue.{
  Transaction, Event, enqueue, react, act, settle, pass, step, steps, new_queue,
}
use server_status_rust_l.Queue.Chain.{apply_all, remaining}
use server_status_rust_l.Queue.Serial.{running, queue_is_serial}
use server_status_rust_l.Queue.Progress.{all_left, IsInner, AllInner}
use server_status_rust_l.Queue.Finish.{queue_finishes}

abbrev rejecting : Transaction ℕ
rejecting = record { actions = (λ n. n + 1) ∷ (λ n. n * 2) ∷ []; rejects = true }

abbrev adding : Transaction ℕ
adding = record { actions = (λ n. n + 10) ∷ []; rejects = false }

-- The second call tries to start in the middle of the first.
abbrev events : List (Event ℕ)
events =
    enqueue rejecting
    ∷ react 0
    ∷ enqueue adding
    ∷ act 0
    ∷ react 1
    ∷ act 1
    ∷ act 0
    ∷ settle 0
    ∷ react 1
    ∷ pass 0
    ∷ react 1
    ∷ []

-- It is in its turn after the exception of the first.
runs : (steps (events ++ act 1 ∷ settle 1 ∷ pass 1 ∷ []) (new_queue 1)).shared ≡ 14
unfolding steps
runs = refl

queue_is_serial_example :
    let q = steps events (new_queue 1) in
    (running q.calls ≤ 1) × (apply_all (remaining q.calls) q.shared ≡ 14)
queue_is_serial_example = queue_is_serial 1 events

queue_finishes_example :
    let q = steps events (new_queue 1) in
    ((more : List (Event ℕ)) × AllInner more
      × (all_left (steps (events ++ more) (new_queue 1)).calls ≡ 0)
      × ((steps (events ++ more) (new_queue 1)).shared ≡ 14))
    × ((e : Event ℕ)
        → IsInner e
        → (step e q ≡ q) ⊎ (all_left (step e q).calls + 1 ≡ all_left q.calls))
queue_finishes_example = queue_finishes 1 events
