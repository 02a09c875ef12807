-- ===== src/Prelude/Dict.antt =====
-- JavaScript's `Map` and plain objects with text keys, and `Set`s of texts, in their order of
-- insertion: writing to a key that is there keeps its place.
use server_status_rust_l.Prelude.Tests.{if◌then◌else◌, Bool-cases}
use server_status_rust_l.Prelude.Text.{includes}
use Prim.Native.String.{String}
use mathlib.Core.Path.{◌≡◌, refl, sym, ◌∙◌, subst}
use mathlib.Core.Logic.{inl, inr}
use mathlib.Core.Bool.{Bool, false, not, ◌&&◌, ◌||◌}
use mathlib.Core.Option.{Option, none, some}
use mathlib.Core.List.{append-nil, append_assoc, List, [], ◌∷◌, ◌++◌}
use native.Mathlib.Omega.{arith}
use text.Mathlib.Text.{◌==◌}
use text.Mathlib.TextEquality.{eq_iff}

abbrev pub Dict {ℓ} : Type ℓ → Type ℓ
Dict V = List (String × V)

module _ {ℓ} {V : Type ℓ} where
  unfoldable pub lookup : String → Dict V → Option V
  lookup k [] = none
  lookup k ((j, v) ∷ d) = if j == k then some v else lookup k d

  unfoldable pub insert : String → V → Dict V → Dict V
  insert k v [] = (k, v) ∷ []
  insert k v ((j, w) ∷ d) = if j == k then (k, v) ∷ d else (j, w) ∷ insert k v d

  unfoldable pub remove : String → Dict V → Dict V
  remove k [] = []
  remove k ((j, v) ∷ d) = if j == k then remove k d else (j, v) ∷ remove k d

  abbrev pub keys : Dict V → List String
  keys [] = []
  keys ((k, v) ∷ d) = k ∷ keys d

  abbrev pub values : Dict V → List V
  values [] = []
  values ((k, v) ∷ d) = v ∷ values d

  -- `has`
  unfoldable pub has : String → Dict V → Bool
  unfolding includes
  has k d = includes (keys d) k

  pub lookup-insert :
      (k j : String) (v : V) (d : Dict V)
      → lookup j (insert k v d) ≡ (if k == j then some v else lookup j d)
  unfolding lookup insert
  lookup-insert k j v [] = refl
  lookup-insert k j v ((i, w) ∷ d) =
      ground (arith, eq_iff k j, eq_iff i k, eq_iff i j, lookup-insert k j v d)

  pub lookup-remove :
      (k j : String) (d : Dict V) → lookup j (remove k d) ≡ (if k == j then none else lookup j d)
  unfolding lookup remove
  lookup-remove k j [] = ground arith
  lookup-remove k j ((i, v) ∷ d) =
      ground (arith, lookup-remove k j d, eq_iff i k, eq_iff i j, eq_iff k j)

-- `Set.add`, and the `Set` of the members of a list.
unfoldable pub add : String → List String → List String
add t ss = if includes ss t then ss else ss ++ t ∷ []

unfoldable pub add_all : List String → List String → List String
add_all [] set = set
add_all (t ∷ ts) set = add_all ts (add t set)

abbrev pub set_of : List String → List String
set_of ts = add_all ts []

-- `Set.delete`
unfoldable pub delete : String → List String → List String
delete t [] = []
delete t (s ∷ ss) = if s == t then delete t ss else s ∷ delete t ss

pub includes-append :
    (ss ts : List String) (t : String) → includes (ss ++ ts) t ≡ (includes ss t || includes ts t)
unfolding includes
includes-append [] ts t = refl
includes-append (s ∷ ss) ts t = ground (arith, includes-append ss ts t)

pub includes-add :
    (t u : String) (ss : List String) → includes (add t ss) u ≡ (t == u || includes ss u)
unfolding add includes
includes-add t u ss = elim (Bool-cases (includes ss t)) [
  | inl e ↦ ground (arith, eq_iff t u)
  | inr e ↦ ground (arith, includes-append ss (t ∷ []) u)
]

pub includes-add_all :
    (ts set : List String) (u : String)
    → includes (add_all ts set) u ≡ (includes ts u || includes set u)
unfolding add_all includes
includes-add_all [] set u = refl
includes-add_all (t ∷ ts) set u =
    ground (arith, includes-add_all ts (add t set) u, includes-add t u set)

pub includes-set_of : (ss : List String) (t : String) → includes (set_of ss) t ≡ includes ss t
unfolding includes
includes-set_of ss t = ground (arith, includes-add_all ss [] t)

pub includes-delete :
    (t u : String) (ss : List String) → includes (delete t ss) u ≡ (not (t == u) && includes ss u)
unfolding delete includes
includes-delete t u [] = ground arith
includes-delete t u (s ∷ ss) =
    ground (arith, includes-delete t u ss, eq_iff s t, eq_iff s u, eq_iff t u)

-- A `Set` lists each of its members once.
abbrev pub IsDistinct : List String → Type 0
IsDistinct [] = Unit
IsDistinct (s ∷ ss) = (includes ss s ≡ false) × IsDistinct ss

IsDistinct-append :
    (t : String) (ss : List String)
    → includes ss t ≡ false
    → IsDistinct ss
    → IsDistinct (ss ++ t ∷ [])
unfolding includes
IsDistinct-append t [] h d = (refl, tt)
IsDistinct-append t (s ∷ ss) h d =
    ground (arith, includes-append ss (t ∷ []) s, eq_iff s t, eq_iff t s, IsDistinct-append t ss)

pub add-IsDistinct : (t : String) (ss : List String) → IsDistinct ss → IsDistinct (add t ss)
unfolding add
add-IsDistinct t ss d = ground (arith, IsDistinct-append t ss)

pub add_all-IsDistinct : (ts set : List String) → IsDistinct set → IsDistinct (add_all ts set)
unfolding add_all
add_all-IsDistinct [] set d = d
add_all-IsDistinct (t ∷ ts) set d = add_all-IsDistinct ts (add t set) (add-IsDistinct t set d)

pub delete-IsDistinct : (t : String) (ss : List String) → IsDistinct ss → IsDistinct (delete t ss)
unfolding delete
delete-IsDistinct t [] d = tt
delete-IsDistinct t (s ∷ ss) d = ground (arith, delete-IsDistinct t ss, includes-delete t s ss)

fresh :
    (set : List String) (t : String) (ts : List String)
    → IsDistinct (set ++ t ∷ ts)
    → includes set t ≡ false
unfolding includes
fresh [] t ts d = refl
fresh (s ∷ set) t ts d =
    ground (arith, fresh set t ts, includes-append set (t ∷ ts) s, eq_iff s t, eq_iff t s)

add_all-distinct : (ts set : List String) → IsDistinct (set ++ ts) → add_all ts set ≡ set ++ ts
unfolding add_all add
add_all-distinct [] set d = sym (append-nil set)
add_all-distinct (t ∷ ts) set d =
    let e = append_assoc set (t ∷ []) ts in
    rw (fresh set t ts d) (add_all-distinct ts (set ++ t ∷ []) (subst IsDistinct (sym e) d) ∙ e)

-- A set is unchanged when its members are put into a new one.
pub set_of-IsDistinct : (set : List String) → IsDistinct set → set_of set ≡ set
set_of-IsDistinct set d = add_all-distinct set [] d
