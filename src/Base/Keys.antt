-- ===== src/Base/Keys.antt =====
-- The keys of a map from text: each stands once.
use mathlib.Core.Path.{◌≡◌, refl}
use mathlib.Core.Logic.{inl, inr}
use mathlib.Core.List.{List, [], ◌∷◌, map}
use mathlib.Core.Option.{none, some}
use native.Mathlib.Omega.{arith}
use dockerdless.Base.Tests.{◌==◌, Bool-cases}
use dockerdless.Base.Lists.{Listed}
use dockerdless.Base.Strings.{Text, text_eq, text_beq_iff}
use dockerdless.Base.Maps.{Dict, lookup, insert, delete, lookup-delete, lookup-insert}
use dockerdless.Base.Sort.{Differ, Distinct}

module _ {V : Type 0} where
  abbrev pub keys : Dict Text V → List Text
  keys m = map (λ e. e.0) m

  pub lookup_none→Differ :
      (k : Text) (m : Dict Text V) → lookup k m ≡ none → Differ (λ x. x) k (keys m)
  unfolding lookup
  lookup_none→Differ k [] h = tt
  lookup_none→Differ k ((j, v) ∷ m) h = (ground arith, lookup_none→Differ k m (ground arith))

  pub Differ→lookup_none :
      (k : Text) (m : Dict Text V) → Differ (λ x. x) k (keys m) → lookup k m ≡ none
  unfolding lookup
  Differ→lookup_none k [] h = refl
  Differ→lookup_none k ((j, v) ∷ m) h = rw h.0 (Differ→lookup_none k m h.1)

  pub keys-insert-Distinct :
      (k : Text) (v : V) (m : Dict Text V)
      → Distinct (λ x. x) (keys m)
      → Distinct (λ x. x) (keys (insert k v m))
  unfolding insert
  keys-insert-Distinct k v [] d = (tt, tt)
  keys-insert-Distinct k v ((j, w) ∷ m) d = elim (Bool-cases (j == k)) [
    | inl e ↦ rw (e, ← (text_beq_iff j k).0 e) (d.0, d.1)
    | inr e ↦ rw e (
      lookup_none→Differ j (insert k v m) (
          ground (
            arith,
            lookup-insert k j v m,
            Differ→lookup_none j m d.0,
            text_beq_iff j k,
            text_beq_iff k j,
          )),
      keys-insert-Distinct k v m d.1,
    )
  ]

  pub keys-delete-Distinct :
      (k : Text) (m : Dict Text V)
      → Distinct (λ x. x) (keys m)
      → Distinct (λ x. x) (keys (delete k m))
  unfolding delete
  keys-delete-Distinct k [] d = tt
  keys-delete-Distinct k ((j, w) ∷ m) d = elim (Bool-cases (j == k)) [
    | inl e ↦ rw e (keys-delete-Distinct k m d.1)
    | inr e ↦ rw e (
      lookup_none→Differ j (delete k m)
          (ground (arith, lookup-delete k j m, Differ→lookup_none j m d.0)),
      keys-delete-Distinct k m d.1,
    )
  ]

  -- A key is listed exactly when the map has a value for it.
  pub Listed-keys→lookup :
      (k : Text) (m : Dict Text V) → Listed k (keys m) → (v : V) × (lookup k m ≡ some v)
  unfolding lookup
  Listed-keys→lookup k [] h = elim h [ ]
  Listed-keys→lookup k ((j, v) ∷ m) h = elim (Bool-cases (j == k)) [
    | inl e ↦ (v, rw e refl)
    | inr e ↦ elim h [
      | inl same ↦ absurd (ground (arith, text_beq_iff j k))
      | inr l ↦ let (w, found) = Listed-keys→lookup k m l in (w, rw e found)
    ]
  ]

  pub lookup→Listed-keys :
      (k : Text) (m : Dict Text V) (v : V) → lookup k m ≡ some v → Listed k (keys m)
  unfolding lookup
  lookup→Listed-keys k [] v h = ground arith
  lookup→Listed-keys k ((j, w) ∷ m) v h = elim (Bool-cases (j == k)) [
    | inl e ↦ inl ((text_beq_iff j k).0 e)
    | inr e ↦ inr (lookup→Listed-keys k m v (ground arith))
  ]
