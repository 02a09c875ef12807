-- ===== src/Expiry/Panel/Attention.antt =====
-- Which servers the list of web/static/js/expiry.js shows, and in which order.
use server_status_rust_l.Prelude.{
  String, ◌≤◌, ◌<◌, true, false, List, ◌≡◌, ◌⊎◌, inl, inr, arith, length, Member, Member-take,
  Member-filter, length-take-le, filter,
}
use server_status_rust_l.Prelude.Int.{ℤ, pos, leb_ℤ, ◌≤ℤ◌, -ℤ_le_zero}
use server_status_rust_l.Prelude.Sort.{sort_by, Member-sort_by, sort_by-IsSorted, take_of_IsSorted}
use server_status_rust_l.Expiry.{Server, needs_attention, display_name}
use server_status_rust_l.Expiry.Risk.{risk_rank, due_key, sort_by_due, sort_by_risk, risk_le}
use server_status_rust_l.Expiry.Panel.{attention_servers}

-- What the sort relies on of `localeCompare`: its answers order any texts, whatever the locale.
pub record IsCollation (locale_compare : String → String → ℤ) : Type 0 where
  pub total :
      (a b : String)
      → leb_ℤ (locale_compare a b) (pos 0) ≡ false
      → leb_ℤ (locale_compare b a) (pos 0) ≡ true
  pub trans :
      (a b c : String)
      → leb_ℤ (locale_compare a b) (pos 0) ≡ true
      → leb_ℤ (locale_compare b c) (pos 0) ≡ true
      → leb_ℤ (locale_compare a c) (pos 0) ≡ true

-- `b` stands above `a` by rank, or has the same rank and is due no later.
abbrev pub IsAsUrgent : Server → Server → Type 0
IsAsUrgent b a =
    (risk_rank b < risk_rank a) ⊎ ((risk_rank b ≡ risk_rank a) × (due_key b ≤ℤ due_key a))

module _ (locale_compare : String → String → ℤ) where
  IsAsUrgent-of_risk_le : (b a : Server) → risk_le locale_compare b a ≡ true → IsAsUrgent b a
  unfolding risk_le sort_by_risk sort_by_due
  IsAsUrgent-of_risk_le b a h = ground (
    arith,
    -ℤ_le_zero (pos (risk_rank b)) (pos (risk_rank a)),
    -ℤ_le_zero (due_key b) (due_key a),
  )

  module _ (c : IsCollation locale_compare) where
    risk_le_total :
        (a b : Server) → risk_le locale_compare a b ≡ false → risk_le locale_compare b a ≡ true
    unfolding risk_le sort_by_risk sort_by_due
    risk_le_total a b h = ground (
      arith,
      -ℤ_le_zero (pos (risk_rank b)) (pos (risk_rank a)),
      -ℤ_le_zero (pos (risk_rank a)) (pos (risk_rank b)),
      -ℤ_le_zero (due_key b) (due_key a),
      -ℤ_le_zero (due_key a) (due_key b),
      c.total (display_name a) (display_name b),
    )

    risk_le_trans :
        (x y z : Server)
        → risk_le locale_compare x y ≡ true
        → risk_le locale_compare y z ≡ true
        → risk_le locale_compare x z ≡ true
    unfolding risk_le sort_by_risk sort_by_due
    risk_le_trans x y z h k = ground (
      arith,
      -ℤ_le_zero (pos (risk_rank x)) (pos (risk_rank y)),
      -ℤ_le_zero (pos (risk_rank y)) (pos (risk_rank z)),
      -ℤ_le_zero (pos (risk_rank x)) (pos (risk_rank z)),
      -ℤ_le_zero (due_key x) (due_key y),
      -ℤ_le_zero (due_key y) (due_key z),
      -ℤ_le_zero (due_key x) (due_key z),
      c.trans (display_name x) (display_name y) (display_name z),
    )

    -- A server that needs attention is listed, unless eight servers are listed that are all as
    -- urgent: of a lower rank, or of the same rank and due no later.
    pub attention_servers_complete :
        (servers : List Server) (s : Server)
        → Member s servers
        → needs_attention s ≡ true
        → Member s (attention_servers locale_compare servers)
          ⊎ ((length (attention_servers locale_compare servers) ≡ 8)
              × ((b : Server)
                  → Member b (attention_servers locale_compare servers)
                  → IsAsUrgent b s))
    unfolding attention_servers
    attention_servers_complete servers s m needs =
        let le = risk_le locale_compare in
        let kept = filter needs_attention servers in
        let sorted = sort_by-IsSorted le risk_le_total risk_le_trans kept in
        let found =
          (Member-sort_by le s kept).1 ((Member-filter needs_attention s servers).1 (m, needs)) in
        elim (take_of_IsSorted le 8 (sort_by le kept) s sorted found) [
          | inl near ↦ inl near
          | inr (full, below) ↦ inr (full, λ b mb. IsAsUrgent-of_risk_le b s (below b mb))
        ]

  -- A listed server is one of the servers and needs attention, and at most eight are listed.
  pub attention_servers_sound :
      (servers : List Server) (s : Server)
      → Member s (attention_servers locale_compare servers)
      → Member s servers
        × (needs_attention s ≡ true)
        × (length (attention_servers locale_compare servers) ≤ 8)
  unfolding attention_servers
  attention_servers_sound servers s m =
      let sorted = sort_by (risk_le locale_compare) (filter needs_attention servers) in
      let found = (Member-sort_by (risk_le locale_compare) s _).0 (Member-take s 8 sorted m) in
      let (listed, needs) = (Member-filter needs_attention s servers).0 found in
      (listed, needs, length-take-le 8 sorted)
