-- ===== src/Base/Sort.antt =====
-- sort.Slice and slices.Sort at distinct keys, where every sorting gives one result: insertion in
-- byte order.
use mathlib.Core.Path.{◌≡◌}
use mathlib.Core.Logic.{◌↔◌, ◌⊎◌, inl, inr}
use mathlib.Core.Bool.{true, false}
use mathlib.Core.List.{List, [], ◌∷◌}
use native.Mathlib.Omega.{arith}
use dockerdless.Base.Tests.{if◌then◌else◌, ◌==◌, Bool-cases}
use dockerdless.Base.Lists.{All, Listed}
use dockerdless.Base.Strings.{Text, text_eq, text_ltb, text_ltb_trans, text_ltb_total}

module _ {A : Type 0} (key : A → Text) where
  unfoldable pub insert_by : A → List A → List A
  insert_by c [] = c ∷ []
  insert_by c (d ∷ ds) = if text_ltb (key d) (key c) then d ∷ insert_by c ds else c ∷ d ∷ ds

  unfoldable pub sort_by : List A → List A
  sort_by [] = []
  sort_by (c ∷ cs) = insert_by c (sort_by cs)

  -- Each key comes before all those behind it, so none stands twice.
  abbrev pub Ascending : List A → Type 0
  Ascending [] = Unit {0}
  Ascending (c ∷ cs) = All (λ d. text_ltb (key c) (key d) ≡ true) cs × Ascending cs

  -- No key of the list is this one.
  abbrev pub Differ : Text → List A → Type 0
  Differ k = All (λ d. (key d == k) ≡ false)

  abbrev pub Distinct : List A → Type 0
  Distinct [] = Unit {0}
  Distinct (c ∷ cs) = Differ (key c) cs × Distinct cs

  All-insert_by : (P : A → Type 0) (c : A) (ds : List A) → P c → All P ds → All P (insert_by c ds)
  unfolding insert_by
  All-insert_by P c [] p h = (p, tt)
  All-insert_by P c (d ∷ ds) p h = elim (Bool-cases (text_ltb (key d) (key c))) [
    | inl e ↦ rw e (h.0, All-insert_by P c ds p h.1)
    | inr e ↦ rw e (p, (h.0, h.1))
  ]

  All-sort_by : (P : A → Type 0) (cs : List A) → All P cs → All P (sort_by cs)
  unfolding sort_by
  All-sort_by P [] h = tt
  All-sort_by P (c ∷ cs) h = All-insert_by P c (sort_by cs) h.0 (All-sort_by P cs h.1)

  All-above :
      (s t : Text) (ds : List A)
      → text_ltb s t ≡ true
      → All (λ d. text_ltb t (key d) ≡ true) ds
      → All (λ d. text_ltb s (key d) ≡ true) ds
  All-above s t [] h a = tt
  All-above s t (d ∷ ds) h a = (text_ltb_trans s t (key d) h a.0, All-above s t ds h a.1)

  insert_by-Ascending :
      (c : A) (ds : List A) → Differ (key c) ds → Ascending ds → Ascending (insert_by c ds)
  unfolding insert_by
  insert_by-Ascending c [] n a = (tt, tt)
  insert_by-Ascending c (d ∷ ds) n a = elim (Bool-cases (text_ltb (key d) (key c))) [
    | inl e ↦ rw e (
      All-insert_by (λ x. text_ltb (key d) (key x) ≡ true) c ds e a.0,
      insert_by-Ascending c ds n.1 a.1,
    )
    | inr e ↦
        let first = text_ltb_total (key d) (key c) e n.0 in
        rw e ((first, All-above (key c) (key d) ds first a.0), (a.0, a.1))
  ]

  pub sort_by-Ascending : (cs : List A) → Distinct cs → Ascending (sort_by cs)
  unfolding sort_by
  sort_by-Ascending [] n = tt
  sort_by-Ascending (c ∷ cs) n =
      insert_by-Ascending c (sort_by cs) (All-sort_by (λ d. (key d == key c) ≡ false) cs n.0)
        (sort_by-Ascending cs n.1)

  Listed-insert_by : (c d : A) (ds : List A) → Listed c (insert_by d ds) ↔ ((d ≡ c) ⊎ Listed c ds)
  unfolding insert_by
  Listed-insert_by c d [] = (λ h. h, λ h. h)
  Listed-insert_by c d (x ∷ ds) = (
    λ h. ground (arith, (Listed-insert_by c d ds).0),
    λ h. ground (arith, (Listed-insert_by c d ds).1),
  )

  -- Sorting keeps the elements.
  pub Listed-sort_by : (c : A) (cs : List A) → Listed c (sort_by cs) ↔ Listed c cs
  unfolding sort_by
  Listed-sort_by c [] = (λ h. h, λ h. h)
  Listed-sort_by c (d ∷ cs) =
      let (into, out) = Listed-insert_by c d (sort_by cs) in
      let (into', out') = Listed-sort_by c cs in
      (
        λ h. elim (into h) [ inl e ↦ inl e | inr l ↦ inr (into' l) ],
        elim [ inl e ↦ out (inl e) | inr l ↦ out (inr (out' l)) ],
      )
