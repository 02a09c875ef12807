-- ===== src/Queue/Chain.antt =====
-- The order of the promises in the queue of web/static/js/admin.js, and that each event keeps it.
use server_status_rust_l.Prelude.{
  ℕ, zero, suc, Bool, true, false, not, ◌&&◌, List, [], ◌∷◌, ◌++◌, ◌≡◌, ◌⊎◌, inl, inr, refl, sym,
  ap, subst, ◌∙◌, arith, append_assoc, Bool-cases,
}
use server_status_rust_l.Queue.{
  Status, is_settled, Transaction, Call, no_actions, new_call, react_call, settle_call, pass_call,
  act_call, update_at, act_at,
}

pub keeps : {c d : Status} → d ≡ c → is_settled c ≡ true → is_settled d ≡ true
keeps e h = ap is_settled e ∙ h

module _ {S : Type 0} where
  -- The actions in their order.
  abbrev pub apply_all : List (S → S) → S → S
  apply_all [] s = s
  apply_all (a ∷ rest) s = apply_all rest (a s)

  -- What is left to do.
  abbrev pub remaining : List (Call S) → List (S → S)
  remaining [] = []
  remaining (c ∷ cs) = c.actions ++ remaining cs

  -- A call starts after the `tail` before it is settled, `queued` is settled at the end of its
  -- transaction, and `tail` after that.
  abbrev pub IsOrdered : Status → Call S → Type 0
  IsOrdered before c =
      (c.started ≡ true → is_settled before ≡ true)
      × (is_settled c.queued ≡ true → (c.started ≡ true) × (no_actions c.actions ≡ true))
      × (is_settled c.tail ≡ true → is_settled c.queued ≡ true)

  abbrev pub IsChain : Status → List (Call S) → Type 0
  IsChain before [] = Unit
  IsChain before (c ∷ cs) = IsOrdered before c × IsChain c.tail cs

  IsChain-later :
      (p q : Status) (cs : List (Call S))
      → (is_settled p ≡ true → is_settled q ≡ true)
      → IsChain p cs
      → IsChain q cs
  IsChain-later p q [] h i = tt
  IsChain-later p q (c ∷ cs) h (o, i) = ((λ e. h (o.0 e), o.1, o.2), i)

  -- A change of one call that keeps its order and does not take back its `tail` keeps the chain.
  pub update_at-IsChain :
      (f : Status → Call S → Call S)
      → ((before : Status) (c : Call S) → IsOrdered before c → IsOrdered before (f before c))
      → ((before : Status) (c : Call S)
          → is_settled c.tail ≡ true
          → is_settled (f before c).tail ≡ true)
      → (before : Status) (k : ℕ) (cs : List (Call S)) → IsChain before cs
      → IsChain before (update_at f before k cs)
  unfolding update_at
  update_at-IsChain f o t before k [] i = i
  update_at-IsChain f o t before zero (c ∷ cs) (h, i) =
      (o before c h, IsChain-later c.tail (f before c).tail cs (t before c) i)
  update_at-IsChain f o t before (suc k) (c ∷ cs) (h, i) =
      (h, update_at-IsChain f o t c.tail k cs i)

  pub react-IsOrdered :
      (before : Status) (c : Call S) → IsOrdered before c → IsOrdered before (react_call before c)
  unfolding react_call
  react-IsOrdered before c h = elim (Bool-cases (is_settled before && not c.started)) [
    | inl e ↦ rw e (ground arith)
    | inr e ↦ rw e h
  ]

  pub settle-IsOrdered :
      (before : Status) (c : Call S) → IsOrdered before c → IsOrdered before (settle_call c)
  unfolding settle_call
  settle-IsOrdered before c h =
      elim (Bool-cases (c.started && no_actions c.actions && not (is_settled c.queued))) [
        | inl e ↦ rw e (ground arith)
        | inr e ↦ rw e h
      ]

  pub pass-IsOrdered :
      (before : Status) (c : Call S) → IsOrdered before c → IsOrdered before (pass_call c)
  unfolding pass_call
  pass-IsOrdered before c h = elim (Bool-cases (is_settled c.queued && not (is_settled c.tail))) [
    | inl e ↦ rw e (ground arith)
    | inr e ↦ rw e h
  ]

  -- What an action of a call comes to.
  abbrev pub IsActed : Status → S → Call S → S × Call S → Type 0
  IsActed before s c r =
      IsOrdered before r.1
      × (r.1.tail ≡ c.tail)
      × (apply_all r.1.actions r.0 ≡ apply_all c.actions s)
      × ((r ≡ (s, c)) ⊎ (c.started ≡ true))

  acted :
      (before : Status) (s : S) (actions : List (S → S)) (rejects started : Bool)
      (queued tail : Status)
      → let c : Call S = record {
        actions = actions;
        rejects = rejects;
        started = started;
        queued = queued;
        tail = tail;
      } in
        IsOrdered before c → IsActed before s c (act_call s c)
  unfolding act_call
  acted before s actions rejects false queued tail h = (h, refl, refl, inl refl)
  acted before s [] rejects true queued tail h = (h, refl, refl, inl refl)
  acted before s (a ∷ rest) rejects true queued tail h =
      ((h.0, λ e. absurd (cc ((h.1 e).1)), h.2), refl, refl, inr refl)

  act_call-IsActed :
      (before : Status) (s : S) (c : Call S)
      → IsOrdered before c
      → IsActed before s c (act_call s c)
  act_call-IsActed before s c h = acted before s c.actions c.rejects c.started c.queued c.tail h

  pub apply_all-append :
      (xs ys : List (S → S)) (s : S) → apply_all (xs ++ ys) s ≡ apply_all ys (apply_all xs s)
  apply_all-append [] ys s = refl
  apply_all-append (x ∷ xs) ys s = apply_all-append xs ys (x s)

  pub remaining-append :
      (cs ds : List (Call S)) → remaining (cs ++ ds) ≡ remaining cs ++ remaining ds
  remaining-append [] ds = refl
  remaining-append (c ∷ cs) ds =
      ap (λ l. c.actions ++ l) (remaining-append cs ds)
      ∙ sym (append_assoc c.actions (remaining cs) (remaining ds))

  pub no_actions_lem : (l : List (S → S)) → no_actions l ≡ true → l ≡ []
  no_actions_lem [] h = refl
  no_actions_lem (a ∷ rest) h = absurd (cc)

  -- An action is the first of those that are left, whichever call it is of.
  pub act_at_lem :
      (before : Status) (s : S) (k : ℕ) (cs : List (Call S))
      → IsChain before cs
      → let r = act_at s k cs in
        IsChain before r.1
        × (apply_all (remaining r.1) r.0 ≡ apply_all (remaining cs) s)
        × ((r ≡ (s, cs)) ⊎ (is_settled before ≡ true))
  unfolding act_at
  act_at_lem before s k [] i = (tt, refl, inl refl)
  act_at_lem before s zero (c ∷ cs) (h, i) =
      let (o, t, e, w) = act_call-IsActed before s c h in
      (
        (o, subst (λ b. IsChain b cs) (sym t) i),
        apply_all-append (act_call s c).1.actions (remaining cs) (act_call s c).0
            ∙ ap (apply_all (remaining cs)) e
            ∙ sym (apply_all-append c.actions (remaining cs) s),
        elim w [
          | inl same ↦ inl (ap (λ (p : S × Call S). (p.0, p.1 ∷ cs)) same)
          | inr started ↦ inr (h.0 started)
        ],
      )
  act_at_lem before s (suc k) (c ∷ cs) (h, i) =
      let (j, e, w) = act_at_lem c.tail s k cs i in
      elim w [
        | inl same ↦ (
          (h, j),
          ap (λ (p : S × List (Call S)). apply_all (c.actions ++ remaining p.1) p.0) same,
          inl (ap (λ (p : S × List (Call S)). (p.0, c ∷ p.1)) same),
        )
        | inr settled ↦
            let (started, none_left) = h.1 (h.2 settled) in
            let nil = no_actions_lem c.actions none_left in
            (
              (h, j),
              ap (λ l. apply_all (l ++ remaining (act_at s k cs).1) (act_at s k cs).0) nil
                  ∙ e
                  ∙ ap (λ l. apply_all (l ++ remaining cs) s) (sym nil),
              inr (h.0 started),
            )
      ]

  pub IsChain-append :
      (before : Status) (cs : List (Call S)) (t : Transaction S)
      → IsChain before cs
      → IsChain before (cs ++ new_call t ∷ [])
  unfolding new_call
  IsChain-append before [] t i = ((λ e. absurd (cc), λ e. absurd (cc), λ e. absurd (cc)), tt)
  IsChain-append before (c ∷ cs) t (h, i) = (h, IsChain-append c.tail cs t i)

  pub update_at-remaining :
      (f : Status → Call S → Call S)
      → ((before : Status) (c : Call S) → (f before c).actions ≡ c.actions)
      → (before : Status) (k : ℕ) (cs : List (Call S))
      → remaining (update_at f before k cs) ≡ remaining cs
  unfolding update_at
  update_at-remaining f e before k [] = refl
  update_at-remaining f e before zero (c ∷ cs) = ap (λ l. l ++ remaining cs) (e before c)
  update_at-remaining f e before (suc k) (c ∷ cs) =
      ap (λ l. c.actions ++ l) (update_at-remaining f e c.tail k cs)

  -- A change by a function that an `if` guards is either none or the guarded one.
  pub react_call_lem :
      (before : Status) (c : Call S)
      → ((react_call before c).actions ≡ c.actions) × ((react_call before c).tail ≡ c.tail)
  unfolding react_call
  react_call_lem before c = elim (Bool-cases (is_settled before && not c.started)) [
    | inl e ↦ rw (e, react_call) (refl, refl)
    | inr e ↦ rw (e, react_call) (refl, refl)
  ]

  pub settle_call_lem :
      (c : Call S) → ((settle_call c).actions ≡ c.actions) × ((settle_call c).tail ≡ c.tail)
  unfolding settle_call
  settle_call_lem c =
      elim (Bool-cases (c.started && no_actions c.actions && not (is_settled c.queued))) [
        | inl e ↦ rw (e, settle_call) (refl, refl)
        | inr e ↦ rw (e, settle_call) (refl, refl)
      ]

  pub pass_call_lem :
      (c : Call S)
      → ((pass_call c).actions ≡ c.actions)
        × (is_settled c.tail ≡ true → is_settled (pass_call c).tail ≡ true)
  unfolding pass_call
  pass_call_lem c = elim (Bool-cases (is_settled c.queued && not (is_settled c.tail))) [
    | inl e ↦ rw (e, pass_call) (refl, λ h. refl)
    | inr e ↦ rw (e, pass_call) (refl, λ h. h)
  ]
