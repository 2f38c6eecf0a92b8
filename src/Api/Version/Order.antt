-- ===== src/Api/Version/Order.antt =====
-- The order of versions of internal/api/version.go against its description: the first part that
-- differs decides, and a missing part is 0.
use dockerdless.Base.{
  ℕ, zero, suc, ◌+◌, ◌≤◌, ◌<◌, ◌≡◌, refl, List, [], ◌∷◌, length, get_or, ltb, leb, arith,
  if◌then◌else◌, ◌↔◌, subst, sym, inl, inr, Bool-cases,
}
use dockerdless.Api.Version.{Comparison, less, same, more, compare_from, compare_parts}

-- The part at an index.
abbrev pub part : List ℕ → ℕ → ℕ
part version i = get_or version i 0

-- The version on the left is the older one.
abbrev pub Before : List ℕ → List ℕ → Type 0
Before v w = (i : ℕ) × ((j : ℕ) → j < i → part v j ≡ part w j) × (part v i < part w i)

part_past : (v : List ℕ) (i : ℕ) → length v ≤ i → part v i ≡ 0
part_past [] i h = refl
part_past (x ∷ v) zero h = absurd (omega arith)
part_past (x ∷ v) (suc i) h = part_past v i (omega arith)

-- What the loop finds out over n indexes from i on.
abbrev Decides : Comparison → ℕ → ℕ → List ℕ → List ℕ → Type 0
Decides less n i v w =
    (k : ℕ) × (i ≤ k) × ((j : ℕ) → i ≤ j → j < k → part v j ≡ part w j) × (part v k < part w k)
Decides same n i v w = (j : ℕ) → i ≤ j → j < i + n → part v j ≡ part w j
Decides more n i v w =
    (k : ℕ) × (i ≤ k) × ((j : ℕ) → i ≤ j → j < k → part v j ≡ part w j) × (part w k < part v k)

Decides-step :
    (r : Comparison) (n i : ℕ) (v w : List ℕ)
    → part v i ≡ part w i
    → Decides r n (suc i) v w
    → Decides r (suc n) i v w
Decides-step less n i v w e (k, low, equal, at) = (
  k,
  omega (arith, low),
  λ j h l. elim (Bool-cases (leb j i)) [
    | inl b ↦ let j_is : j ≡ i = ground arith in ground (arith, e, j_is)
    | inr b ↦ equal j (ground arith) l
  ],
  at,
)
Decides-step same n i v w e equal = λ j h l. elim (Bool-cases (leb j i)) [
  | inl b ↦ let j_is : j ≡ i = ground arith in ground (arith, e, j_is)
  | inr b ↦ equal j (ground arith) (omega arith)
]
Decides-step more n i v w e (k, low, equal, at) = (
  k,
  omega (arith, low),
  λ j h l. elim (Bool-cases (leb j i)) [
    | inl b ↦ let j_is : j ≡ i = ground arith in ground (arith, e, j_is)
    | inr b ↦ equal j (ground arith) l
  ],
  at,
)

compare_from_less :
    (n i : ℕ) (v w : List ℕ) → part v i < part w i → compare_from (suc n) i v w ≡ less
unfolding compare_from
compare_from_less n i v w h = ground arith

compare_from_more :
    (n i : ℕ) (v w : List ℕ) → part w i < part v i → compare_from (suc n) i v w ≡ more
unfolding compare_from
compare_from_more n i v w h = ground arith

compare_from_same :
    (n i : ℕ) (v w : List ℕ)
    → part v i ≡ part w i
    → compare_from (suc n) i v w ≡ compare_from n (suc i) v w
unfolding compare_from
compare_from_same n i v w h = ground arith

compare_from-Decides : (n i : ℕ) (v w : List ℕ) → Decides (compare_from n i v w) n i v w
compare_from-Decides zero i v w = unfold compare_from in λ j h l. absurd (omega arith)
compare_from-Decides (suc n) i v w = elim (Bool-cases (ltb (part v i) (part w i))) [
  | inl e ↦
      let below : part v i < part w i = ground arith in
      subst (λ r. Decides r (suc n) i v w) (sym (compare_from_less n i v w below))
        (i, omega arith, λ j h l. absurd (omega arith), below)
  | inr e ↦ elim (Bool-cases (ltb (part w i) (part v i))) [
    | inl f ↦
        let below : part w i < part v i = ground arith in
        subst (λ r. Decides r (suc n) i v w) (sym (compare_from_more n i v w below))
          (i, omega arith, λ j h l. absurd (omega arith), below)
    | inr f ↦
        let level : part v i ≡ part w i = ground arith in
        subst (λ r. Decides r (suc n) i v w) (sym (compare_from_same n i v w level))
          (Decides-step (compare_from n (suc i) v w) n i v w level
            (compare_from-Decides n (suc i) v w))
  ]
]

-- The three answers exclude one another.
abbrev Answers : Comparison → List ℕ → List ℕ → Type 0
Answers less v w = Before v w
Answers same v w = (i : ℕ) → part v i ≡ part w i
Answers more v w = Before w v

Before-asym : (v w : List ℕ) → Before v w → Before w v → ⊥
Before-asym v w (i, same_v, low_v) (k, same_w, low_w) = elim (Bool-cases (ltb i k)) [
  | inl e ↦ let there = same_w i (ground arith) in omega (arith, low_v, there)
  | inr e ↦ elim (Bool-cases (ltb k i)) [
    | inl f ↦ let there = same_v k (ground arith) in omega (arith, low_w, there)
    | inr f ↦ let here : i ≡ k = ground arith in ground (arith, low_v, low_w, here)
  ]
]

Decides-Answers :
    (r : Comparison) (n : ℕ) (v w : List ℕ)
    → length v ≤ n
    → length w ≤ n
    → Decides r n 0 v w
    → Answers r v w
Decides-Answers less n v w hv hw (k, low, equal, at) = (k, λ j l. equal j (omega arith) l, at)
Decides-Answers same n v w hv hw equal = λ j. elim (Bool-cases (ltb j n)) [
  | inl e ↦ equal j (omega arith) (ground arith)
  | inr e ↦
      let past : n ≤ j = ground arith in
      omega
        (arith, part_past v j (omega (arith, hv, past)), part_past w j (omega (arith, hw, past)))
]
Decides-Answers more n v w hv hw (k, low, equal, at) = (k, λ j l. sym (equal j (omega arith) l), at)

compare_parts-Answers : (v w : List ℕ) → Answers (compare_parts v w) v w
unfolding compare_parts
compare_parts-Answers v w =
    let n = if ltb (length v) (length w) then length w else length v in
    Decides-Answers (compare_from n 0 v w) n v w (ground arith) (ground arith)
      (compare_from-Decides n 0 v w)

Answers-exclude :
    (r : Comparison) (v w : List ℕ)
    → Answers r v w
    → ((r ≡ less) ↔ Before v w)
      × ((r ≡ same) ↔ ((i : ℕ) → part v i ≡ part w i))
      × ((r ≡ more) ↔ Before w v)
Answers-exclude less v w a = (
  (λ _. a, λ _. refl),
  (λ h. absurd cc, λ h. absurd (omega (arith, a.2, h a.0))),
  (λ h. absurd cc, λ b. absurd (Before-asym v w a b)),
)
Answers-exclude same v w a = (
  (λ h. absurd cc, λ b. absurd (omega (arith, b.2, a b.0))),
  (λ _. a, λ _. refl),
  (λ h. absurd cc, λ b. absurd (omega (arith, b.2, a b.0))),
)
Answers-exclude more v w a = (
  (λ h. absurd cc, λ b. absurd (Before-asym v w b a)),
  (λ h. absurd cc, λ h. absurd (omega (arith, a.2, h a.0))),
  (λ _. a, λ _. refl),
)

-- Comparing two versions answers -1 exactly if at the first index where their parts differ the
-- left part is less, 1 exactly if the right one is, and 0 exactly if all parts agree; a missing
-- part counts as 0.
pub compare_parts_lem :
    (v w : List ℕ)
    → ((compare_parts v w ≡ less) ↔ Before v w)
      × ((compare_parts v w ≡ same) ↔ ((i : ℕ) → part v i ≡ part w i))
      × ((compare_parts v w ≡ more) ↔ Before w v)
compare_parts_lem v w = Answers-exclude (compare_parts v w) v w (compare_parts-Answers v w)
