-- ===== src/Expiry/Panel/Buckets.antt =====
-- The counts at the top of the panel of web/static/js/expiry.js, against the list below them.
use server_status_rust_l.Prelude.{
  String, ◌+◌, Bool, true, false, not, ◌&&◌, List, [], ◌∷◌, ◌≡◌, refl, ◌⊎◌, inl, inr, ◌↔◌, arith,
  length, Member, Member-filter, filter, ◌==◌, eq-false_of_eq, length-filter-not, Option-cases,
}
use server_status_rust_l.Prelude.Int.{ℤ}
use server_status_rust_l.Prelude.Sort.{Member-sort_by, length-sort_by}
use server_status_rust_l.Expiry.{
  Expire, Server, needs_attention, expire_needs_attention, has_expiry, treat_as_missing,
  is_permanent,
}
use server_status_rust_l.Expiry.Risk.{due_le}
use server_status_rust_l.Expiry.Panel.{
  configured_servers, due_servers, missing_servers, expired_servers, warning_servers, soon_servers,
  on_expire, is_warning, is_soon,
}

-- The test of `configured` names the same condition twice.
length-filter_both :
    (servers : List Server)
    → length (filter (λ server. has_expiry server && not (treat_as_missing server)) servers)
      ≡ length (filter has_expiry servers)
unfolding treat_as_missing
length-filter_both [] = refl
length-filter_both (s ∷ ss) = ground (arith, length-filter_both ss)

expired_needs : (e : Expire) → (e.status == "expired") ≡ true → expire_needs_attention e ≡ true
unfolding expire_needs_attention
expired_needs e h = ground (arith, eq-false_of_eq e.status "expired" "permanent" h refl)

warning_needs :
    (e : Expire)
    → is_warning e ≡ true
    → not (is_permanent e) ≡ true
    → expire_needs_attention e ≡ true
unfolding expire_needs_attention is_warning
warning_needs e h k = ground arith

soon_needs :
    (e : Expire) → is_soon e ≡ true → not (is_permanent e) ≡ true → expire_needs_attention e ≡ true
unfolding expire_needs_attention is_soon
soon_needs e h k = ground arith

needs_attention_of_expire :
    (s : Server)
    → has_expiry s ≡ true
    → on_expire expire_needs_attention s ≡ true
    → needs_attention s ≡ true
unfolding needs_attention
needs_attention_of_expire s h k = ground arith

needs_attention_of_missing : (s : Server) → treat_as_missing s ≡ true → needs_attention s ≡ true
unfolding needs_attention
needs_attention_of_missing s h = ground arith

on_expire_map :
    (p q : Expire → Bool) (s : Server)
    → ((e : Expire) → p e ≡ true → q e ≡ true)
    → on_expire p s ≡ true
    → on_expire q s ≡ true
on_expire_map p q s f h = elim (Option-cases s.expire) [
  | inl e ↦ absurd (cc)
  | inr (x, e) ↦ rw e (f x (rw e at h))
]

on_expire_both :
    (p : Expire → Bool) (s : Server)
    → ((e : Expire) → p e ≡ true → not (is_permanent e) ≡ true → expire_needs_attention e ≡ true)
    → on_expire p s ≡ true
    → on_expire (λ e. not (is_permanent e)) s ≡ true
    → on_expire expire_needs_attention s ≡ true
on_expire_both p s f h k = elim (Option-cases s.expire) [
  | inl e ↦ absurd (cc)
  | inr (x, e) ↦ rw e (f x (rw e at h) (rw e at k))
]

disjoint_badges : (e : Expire) → is_warning e ≡ true → is_soon e ≡ false
unfolding is_warning is_soon
disjoint_badges e h = ground arith

module _ (locale_compare : String → String → ℤ) (servers : List Server) where
  Member-configured :
      (s : Server)
      → Member s (configured_servers locale_compare servers)
        ↔ (Member s servers × (has_expiry s ≡ true))
  unfolding configured_servers treat_as_missing
  Member-configured s =
      let test = λ (server : Server). has_expiry server && not (treat_as_missing server) in
      ground (
        arith,
        Member-sort_by (due_le locale_compare) s (filter test servers),
        Member-filter test s servers,
      )

  Member-due :
      (s : Server)
      → Member s (due_servers locale_compare servers) ↔ (
          Member s servers
          × (has_expiry s ≡ true)
          × (on_expire (λ e. not (is_permanent e)) s ≡ true))
  unfolding due_servers
  Member-due s = ground (
    arith,
    Member-configured s,
    Member-filter (on_expire (λ e. not (is_permanent e))) s
        (configured_servers locale_compare servers),
  )

  -- The servers with a due date and those without are all the servers, in number.
  configured_and_missing :
      length (configured_servers locale_compare servers) + length (missing_servers servers)
      ≡ length servers
  unfolding configured_servers missing_servers treat_as_missing
  configured_and_missing =
      let test = λ (server : Server). has_expiry server && not (treat_as_missing server) in
      omega (
        arith,
        length-sort_by (due_le locale_compare) (filter test servers),
        length-filter_both servers,
        length-filter-not has_expiry servers,
      )

  badge_needs_attention :
      (p : Expire → Bool) (s : Server)
      → ((e : Expire) → p e ≡ true → not (is_permanent e) ≡ true → expire_needs_attention e ≡ true)
      → Member s (filter (on_expire p) (due_servers locale_compare servers))
      → Member s servers × (needs_attention s ≡ true)
  badge_needs_attention p s f m =
      let (due, passes) =
        (Member-filter (on_expire p) s (due_servers locale_compare servers)).0 m in
      let (listed, has, timed) = (Member-due s).0 due in
      (listed, needs_attention_of_expire s has (on_expire_both p s f passes timed))

  expired_badge :
      (s : Server)
      → Member s (expired_servers locale_compare servers)
      → Member s servers × (needs_attention s ≡ true)
  unfolding expired_servers
  expired_badge s m =
      let p = λ (e : Expire). e.status == "expired" in
      let (conf, passes) =
        (Member-filter (on_expire p) s (configured_servers locale_compare servers)).0 m in
      let (listed, has) = (Member-configured s).0 conf in
      (
        listed,
        needs_attention_of_expire s has
            (on_expire_map p expire_needs_attention s expired_needs passes),
      )

-- Whichever server a badge counts as without a due date, expired, within 7 days or within 30 days
-- is one of the servers and needs attention.
pub counted_needs_attention :
    (locale_compare : String → String → ℤ) (servers : List Server) (s : Server)
    → (Member s (missing_servers servers)
        ⊎ (Member s (expired_servers locale_compare servers)
            ⊎ (Member s (warning_servers locale_compare servers)
                ⊎ Member s (soon_servers locale_compare servers))))
    → Member s servers × (needs_attention s ≡ true)
unfolding missing_servers warning_servers soon_servers
counted_needs_attention locale_compare servers s (inl m) =
    let (listed, missing) = (Member-filter treat_as_missing s servers).0 m in
    (listed, needs_attention_of_missing s missing)
counted_needs_attention locale_compare servers s (inr (inl m)) =
    expired_badge locale_compare servers s m
counted_needs_attention locale_compare servers s (inr (inr (inl m))) =
    badge_needs_attention locale_compare servers is_warning s warning_needs m
counted_needs_attention locale_compare servers s (inr (inr (inr m))) =
    badge_needs_attention locale_compare servers is_soon s soon_needs m

-- No server is counted both as due within 7 days and as due within 30 days.
warning_and_soon :
    (locale_compare : String → String → ℤ) (servers : List Server) (s : Server)
    → ¬ (
        Member s (warning_servers locale_compare servers)
        × Member s (soon_servers locale_compare servers))
unfolding warning_servers soon_servers
warning_and_soon locale_compare servers s (w, n) =
    let due = due_servers locale_compare servers in
    let warned = ((Member-filter (on_expire is_warning) s due).0 w).1 in
    let soon = ((Member-filter (on_expire is_soon) s due).0 n).1 in
    elim (Option-cases s.expire) [
      | inl e ↦ cc
      | inr (x, e) ↦ cc (disjoint_badges x (rw e at warned), rw e at soon)
    ]
