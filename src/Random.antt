-- ===== src/Random.antt =====
-- web/static/js/admin.js: the texts that are made of random bytes (`stableId`, `randomSecret`,
-- `randomServerIdCandidate`), and the choice of a name for a copied server. The bytes are arguments.
use server_status_rust_l.Prelude.{
  String, ℕ, zero, suc, ◌≤◌, ◌<◌, ◌/◌, ◌%◌, false, Option, none, some, List, [], ◌∷◌, ◌++◌, map,
  includes, concat, ◌or_else◌, if◌then◌else◌, ◌≡◌, refl, inl, inr, Bool-cases, arith,
}
use server_status_rust_l.Prelude.Dict.{keys}
use server_status_rust_l.Servers.{Console, ServerItem}
use server_status_rust_l.Servers.Merge.{plain_server_items}
use Prim.Native.String

-- `byte.toString(16).padStart(2, "0")`
unfoldable pub hex_byte : ℕ → String
hex_byte byte =
    String.◌∷◌ (String.char_at "0123456789abcdef" (byte / 16 % 16))
      (String.◌∷◌ (String.char_at "0123456789abcdef" (byte % 16)) "")

unfoldable pub stable_id : String → List ℕ → String
unfolding hex_byte concat
stable_id prefix bytes = concat (prefix ∷ "-" ∷ concat (map hex_byte bytes) ∷ [])

abbrev secret_chars : String
secret_chars = "ABCDEFGHJKLMNPQRSTUVWXYZabcdefghijkmnopqrstuvwxyz23456789_-"

unfoldable pub random_secret : List ℕ → String
random_secret [] = ""
random_secret (byte ∷ bytes) =
    String.◌∷◌ (String.char_at secret_chars (byte % String.count secret_chars))
      (random_secret bytes)

-- Of a window with `crypto`; without it the text has other random digits.
unfoldable pub random_server_id_candidate : List ℕ → String
unfolding hex_byte concat
random_server_id_candidate bytes = concat ("srv-" ∷ concat (map hex_byte bytes) ∷ [])

abbrev pub used_server_ids : Console → List String
used_server_ids c =
    map (λ (server : ServerItem). server.id) (plain_server_items c)
    ++ keys (c.settings.hosts or_else [])

-- The first of the candidates, by the order in which they are made, that is not used; `none` if the
-- fuel does not reach it.
first_unused : ℕ → (ℕ → String) → List String → Option String
first_unused zero candidate used = none
first_unused (suc fuel) candidate used =
    let later = first_unused fuel (λ n. candidate (suc n)) used in
    if includes used (candidate 0) then later else some (candidate 0)

unfoldable pub next_server_id : ℕ → (ℕ → String) → Console → Option String
unfolding first_unused
next_server_id fuel candidate c = first_unused fuel candidate (used_server_ids c)

unused_lem :
    (fuel k : ℕ) (candidate : ℕ → String) (used : List String)
    → k < fuel
    → includes used (candidate k) ≡ false
    → (j : ℕ) × (first_unused fuel candidate used ≡ some (candidate j))
      × (j ≤ k)
      × (includes used (candidate j) ≡ false)
unfolding first_unused
unused_lem zero k candidate used h free = absurd (omega (arith, h))
unused_lem (suc fuel) zero candidate used h free = (0, rw free refl, omega arith, free)
unused_lem (suc fuel) (suc k) candidate used h free =
    elim (Bool-cases (includes used (candidate 0))) [
      | inr e ↦ (0, rw e refl, omega arith, e)
      | inl e ↦
          let (j, found, least, unused) =
            unused_lem fuel k (λ n. candidate (suc n)) used (omega (arith, h)) free in
          (suc j, rw e found, omega (arith, least), unused)
    ]

-- If one of the candidates is no server's name, a name is found, which is no server's name, at that
-- candidate or before it, on any fuel beyond its number.
next_server_id_lem :
    (fuel k : ℕ) (candidate : ℕ → String) (c : Console)
    → k < fuel
    → includes (used_server_ids c) (candidate k) ≡ false
    → (j : ℕ) × (next_server_id fuel candidate c ≡ some (candidate j))
      × (j ≤ k)
      × (includes (used_server_ids c) (candidate j) ≡ false)
unfolding next_server_id
next_server_id_lem fuel k candidate c h free =
    unused_lem fuel k candidate (used_server_ids c) h free
