-- ===== src/Base/Map.antt =====
-- `std::unordered_map` as an association list: the program never relies on the order in which a
-- map is walked. Lookup, assignment `m[k] = v` and `erase`, and the law of each lookup after them.
use mathlib.Core.Path.{◌≡◌, refl}
use mathlib.Core.Option.{Option, none, some}
use mathlib.Core.List.{List, [], ◌∷◌}
use native.Mathlib.Omega.{arith}
use my_db.Base.Tests.{Eq, ◌==◌, if◌then◌else◌}

abbrev pub Map {ℓ κ} : Type ℓ → Type κ → Type (ℓ ⊔ κ)
Map K V = List (K × V)

module _ {ℓ κ} {K : Type ℓ} {V : Type κ} ⦃e : Eq K⦄ where
  unfoldable pub lookup : K → Map K V → Option V
  lookup k [] = none
  lookup k ((j, v) ∷ m) = if j == k then some v else lookup k m

  unfoldable pub insert : K → V → Map K V → Map K V
  insert k v [] = (k, v) ∷ []
  insert k v ((j, w) ∷ m) = if j == k then (k, v) ∷ m else (j, w) ∷ insert k v m

  unfoldable pub erase : K → Map K V → Map K V
  erase k [] = []
  erase k ((j, w) ∷ m) = let rest = erase k m in if j == k then rest else (j, w) ∷ rest

  pub lookup-insert :
      (put get : K) (val : V) (m : Map K V)
      → lookup get (insert put val m) ≡ (if put == get then some val else lookup get m)
  unfolding lookup insert
  lookup-insert put get val [] = refl
  lookup-insert put get val ((key, old) ∷ m) = ground (
    arith,
    e.equal_iff put get,
    e.equal_iff key put,
    e.equal_iff key get,
    lookup-insert put get val m,
  )

  pub lookup-erase :
      (gone get : K) (m : Map K V)
      → lookup get (erase gone m) ≡ (if gone == get then none else lookup get m)
  unfolding lookup erase
  lookup-erase gone get [] = ground arith
  lookup-erase gone get ((key, old) ∷ m) = ground (
    arith,
    e.equal_iff gone get,
    e.equal_iff key gone,
    e.equal_iff key get,
    lookup-erase gone get m,
  )

pub ruleset map_laws = (lookup-insert, lookup-erase)
