-- ===== src/Base/Maps.antt =====
-- A Go map as an association list. The laws have the form of a conditional and need no side
-- condition: an insertion replaces the first entry of its key, a deletion drops them all.
use mathlib.Core.Path.{◌≡◌, refl}
use mathlib.Core.List.{List, [], ◌∷◌}
use mathlib.Core.Option.{Option, none, some}
use native.Mathlib.Omega.{arith}
use dockerdless.Base.Tests.{if◌then◌else◌, Comparable, ◌==◌}

abbrev pub Dict {ℓ κ} : Type ℓ → Type κ → Type (ℓ ⊔ κ)
Dict K V = List (K × V)

module _ {ℓ κ} {K : Type ℓ} {V : Type κ} ⦃e : Comparable K⦄ where
  unfoldable pub lookup : K → Dict K V → Option V
  lookup k [] = none
  lookup k ((own, a) ∷ m) = if own == k then some a else lookup k m

  unfoldable pub insert : K → V → Dict K V → Dict K V
  insert k v [] = (k, v) ∷ []
  insert k v ((own, a) ∷ m) = if own == k then (k, v) ∷ m else (own, a) ∷ insert k v m

  unfoldable pub delete : K → Dict K V → Dict K V
  delete k [] = []
  delete k ((own, a) ∷ m) = if own == k then delete k m else (own, a) ∷ delete k m

  pub lookup-insert :
      (k j : K) (v : V) (m : Dict K V)
      → lookup j (insert k v m) ≡ (if k == j then some v else lookup j m)
  unfolding lookup insert
  lookup-insert k j v [] = refl
  lookup-insert k j v ((own, a) ∷ m) =
      ground (arith, e.equal_iff k j, e.equal_iff own k, e.equal_iff own j, lookup-insert k j v m)

  pub lookup-delete :
      (k j : K) (m : Dict K V) → lookup j (delete k m) ≡ (if k == j then none else lookup j m)
  unfolding lookup delete
  lookup-delete k j [] = ground arith
  lookup-delete k j ((own, a) ∷ m) =
      ground (arith, e.equal_iff k j, e.equal_iff own k, e.equal_iff own j, lookup-delete k j m)
