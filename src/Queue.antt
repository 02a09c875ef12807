-- ===== src/Queue.antt =====
-- web/static/js/admin.js: `createSettingsTransactionQueue`. A call of `enqueue` makes two promises,
-- `queued` and the next `tail`, and waits for the `tail` of the call before. The event loop chooses
-- which reaction or which part of a started transaction comes next; an event that cannot happen
-- changes nothing. A transaction is the list of what it does to the script's state between its waits,
-- and whether it ends by an exception. The state here is what only transactions change: what other
-- handlers do to it between two waits is left out.
pub mod Chain
pub mod Serial
pub mod Progress
pub mod Finish
use server_status_rust_l.Prelude.{
  ℕ, zero, suc, ◌+◌, Bool, true, false, not, ◌&&◌, List, [], ◌∷◌, ◌++◌, length, if◌then◌else◌,
}

pub data Status : Type 0 where
  pending fulfilled rejected : Status

abbrev pub is_settled : Status → Bool
is_settled pending = false
is_settled fulfilled = true
is_settled rejected = true

pub record Transaction (S : Type 0) : Type 0 where
  pub actions : List (S → S)
  pub rejects : Bool

-- One call of `enqueue`: the actions that are left, whether `tail.then` has called the transaction, and
-- the two promises.
pub record Call (S : Type 0) : Type 0 where
  pub actions : List (S → S)
  pub rejects : Bool
  pub started : Bool
  pub queued : Status
  pub tail : Status

pub record Queue (S : Type 0) : Type 0 where
  pub shared : S
  pub calls : List (Call S)

-- The events of the call of that number: the reaction to the `tail` before it, one action, the end of
-- the transaction, and the reaction that settles its own `tail`.
pub data Event (S : Type 0) : Type 0 where
  enqueue : Transaction S → Event S
  react act settle pass : ℕ → Event S

-- `Promise.resolve()`
abbrev pub first_tail : Status
first_tail = fulfilled

module _ {S : Type 0} where
  abbrev pub no_actions : List (S → S) → Bool
  no_actions [] = true
  no_actions (a ∷ rest) = false

  -- `tail.then(transaction, transaction)`, and `queued.then` of two functions that return.
  unfoldable pub new_call : Transaction S → Call S
  new_call t = record {
    actions = t.actions;
    rejects = t.rejects;
    started = false;
    queued = pending;
    tail = pending;
  }

  unfoldable pub react_call : Status → Call S → Call S
  react_call before c =
      if is_settled before && not c.started then record c { started = true } else c

  unfoldable pub settle_call : Call S → Call S
  settle_call c =
      if c.started && no_actions c.actions && not (is_settled c.queued)
      then record c { queued = if c.rejects then rejected else fulfilled }
      else c

  unfoldable pub pass_call : Call S → Call S
  pass_call c =
      if is_settled c.queued && not (is_settled c.tail) then record c { tail = fulfilled } else c

  perform : List (S → S) → S → Call S → S × Call S
  perform [] s c = (s, c)
  perform (a ∷ rest) s c = (a s, record c { actions = rest })

  unfoldable pub act_call : S → Call S → S × Call S
  unfolding perform
  act_call s c = if c.started then perform c.actions s c else (s, c)

  -- What happens at the call of a number; `before` is the `tail` that the first of them waits for.
  unfoldable pub update_at : (Status → Call S → Call S) → Status → ℕ → List (Call S) → List (Call S)
  update_at f before k [] = []
  update_at f before zero (c ∷ cs) = f before c ∷ cs
  update_at f before (suc k) (c ∷ cs) = c ∷ update_at f c.tail k cs

  unfoldable pub act_at : S → ℕ → List (Call S) → S × List (Call S)
  unfolding act_call
  act_at s k [] = (s, [])
  act_at s zero (c ∷ cs) = let (s', c') = act_call s c in (s', c' ∷ cs)
  act_at s (suc k) (c ∷ cs) = let (s', cs') = act_at s k cs in (s', c ∷ cs')

  unfoldable pub step : Event S → Queue S → Queue S
  unfolding new_call react_call settle_call pass_call update_at act_at
  step (enqueue t) q = record q { calls = q.calls ++ new_call t ∷ [] }
  step (react k) q = record q { calls = update_at react_call first_tail k q.calls }
  step (settle k) q = record q { calls = update_at (λ before. settle_call) first_tail k q.calls }
  step (pass k) q = record q { calls = update_at (λ before. pass_call) first_tail k q.calls }
  step (act k) q = let (s, cs) = act_at q.shared k q.calls in record { shared = s; calls = cs }

  unfoldable pub steps : List (Event S) → Queue S → Queue S
  unfolding step
  steps [] q = q
  steps (e ∷ es) q = steps es (step e q)

abbrev pub new_queue : {S : Type 0} → S → Queue S
new_queue s = record { shared = s; calls = [] }
