-- ===== src/Domain/Reconcile/Merge.antt =====
-- The third loop of Reconcile (internal/domain/reconcile.go): each container takes its task.
use dockerdless.Base.{
  ◌≡◌, refl, sym, Bool, true, false, Option, none, some, List, [], ◌∷◌, map, Text, Dict, lookup,
  delete, lookup-delete, ok, if◌then◌else◌, ◌==◌, ◌↔◌, text_eq, text_beq_iff, arith, Option-cases,
  inl, inr, ◌∙◌, Result-cases, All, Distinct, Differ, Listed, keys, keys-delete-Distinct, subst,
  All-mono,
}
use dockerdless.Domain.Model.{Container, ContainerId}
use dockerdless.Domain.Registry.{default_image}
use dockerdless.Domain.Reconcile.{TaskSnapshot, Merged, apply_task, lost, merge_one, merge_all}

abbrev pub ids : List Container → List Text
ids cs = map (λ c. c.id) cs

-- The container that comes of `c` and of its task in the index, if there is one.
abbrev pub MergesTo : Option TaskSnapshot → Container → Container → Type 0
MergesTo none c d = d ≡ default_image (lost c)
MergesTo (some t) c d = (x : Container) × (apply_task c t ≡ ok x) × (d ≡ default_image x)

abbrev pub Merges : (ContainerId → Option TaskSnapshot) → List Container → List Container → Type 0
Merges find [] [] = Unit {0}
Merges find [] (d ∷ ds) = ⊥
Merges find (c ∷ cs) [] = ⊥
Merges find (c ∷ cs) (d ∷ ds) = MergesTo (find c.id) c d × Merges find cs ds

-- The two outcomes of the loop's body.
merge_one_cases :
    (tasks : Dict ContainerId TaskSnapshot) (c d : Container) (is_stale : Bool)
    (left : Dict ContainerId TaskSnapshot)
    → merge_one tasks c ≡ ok (d, is_stale, left)
    → MergesTo (lookup c.id tasks) c d
      × ((j : Text) → lookup j left ≡ (if c.id == j then none else lookup j tasks))
      × ((is_stale ≡ true) ↔ (lookup c.id tasks ≡ none))
      × (Distinct (λ x. x) (keys tasks) → Distinct (λ x. x) (keys left))
unfolding merge_one
merge_one_cases tasks c d is_stale left h = elim (Option-cases (lookup c.id tasks)) [
  | inl e ↦ (
    rw e (ground (arith, e)),
    λ j. ground (arith, e, text_beq_iff c.id j),
    (λ _. e, λ _. ground (arith, e)),
    λ k.
        let same : tasks ≡ left = ground (arith, e) in
        subst (λ m. Distinct (λ x. x) (keys m)) same k,
  )
  | inr (t, e) ↦ elim (Result-cases (apply_task c t)) [
    | inl (x, a) ↦
        let same : delete c.id tasks ≡ left = ground (arith, e, a) in
        (
          rw e (x, a, ground (arith, e, a)),
          λ j. rw (← same) (lookup-delete c.id j tasks),
          (λ s. absurd (ground (arith, e, a)), λ n. absurd (ground (arith, e))),
          λ k. subst (λ m. Distinct (λ x. x) (keys m)) same (keys-delete-Distinct c.id tasks k),
        )
    | inr (x, a) ↦ absurd (ground (arith, e, a))
  ]
]

-- What the loop does with an index of tasks and a list of containers of distinct identities.
pub record Merging (tasks : Dict ContainerId TaskSnapshot) (cs : List Container) (m : Merged)
    : Type 0 where
  pub merges : Merges (λ j. lookup j tasks) cs m.containers
  pub kept : (j : Text) → Differ (λ c. c.id) j cs → lookup j m.left ≡ lookup j tasks
  pub taken : (j : Text) → Listed j (ids cs) → lookup j m.left ≡ none
  pub stale : (j : Text) → Listed j m.stale ↔ (Listed j (ids cs) × (lookup j tasks ≡ none))
  pub distinct : Distinct (λ x. x) (keys tasks) → Distinct (λ x. x) (keys m.left)

-- Tasks of identities that no container of the list has may be left out of the index.
Merges-cong :
    (find find' : ContainerId → Option TaskSnapshot) (cs ds : List Container)
    → All (λ c. find c.id ≡ find' c.id) cs
    → Merges find cs ds
    → Merges find' cs ds
Merges-cong find find' [] [] h m = tt
Merges-cong find find' [] (d ∷ ds) h m = m
Merges-cong find find' (c ∷ cs) [] h m = m
Merges-cong find find' (c ∷ cs) (d ∷ ds) h m =
    (subst (λ o. MergesTo o c d) h.0 m.0, Merges-cong find find' cs ds h.1 m.1)

Differ-Listed :
    (k j : Text) (cs : List Container)
    → Differ (λ c. c.id) k cs
    → Listed j (ids cs)
    → (k == j) ≡ false
Differ-Listed k j [] n l = elim l [ ]
Differ-Listed k j (c ∷ cs) n (inl e) = ground (arith, text_beq_iff k j, text_beq_iff c.id k)
Differ-Listed k j (c ∷ cs) n (inr l) = Differ-Listed k j cs n.1 l

merge_all_nil :
    (tasks : Dict ContainerId TaskSnapshot)
    → Merging tasks [] (record { containers = []; stale = []; left = tasks })
merge_all_nil tasks = record {
  merges = tt;
  kept = λ j n. refl;
  taken = λ j l. elim l [ ];
  stale = λ j. (λ l. elim l [ ], λ l. elim l.0 [ ]);
  distinct = λ k. k;
}

module _ (tasks left : Dict ContainerId TaskSnapshot) (c d : Container) (cs : List Container)
    (is_stale : Bool) (rest : Merged) (one : merge_one tasks c ≡ ok (d, is_stale, left))
    (fresh : Differ (λ x. x.id) c.id cs) (tail : Merging left cs rest) where
  lookup_left : (j : Text) → lookup j left ≡ (if c.id == j then none else lookup j tasks)
  lookup_left = (merge_one_cases tasks c d is_stale left one).1

  same_below : (j : Text) → Listed j (ids cs) → lookup j left ≡ lookup j tasks
  same_below j l = ground (arith, lookup_left j, Differ-Listed c.id j cs fresh l)

  stale_head : (is_stale ≡ true) ↔ (lookup c.id tasks ≡ none)
  stale_head = (merge_one_cases tasks c d is_stale left one).2

  abbrev stales : List ContainerId
  stales = if is_stale then c.id ∷ rest.stale else rest.stale

  stale_cons : (j : Text) → Listed j stales ↔ (Listed j (ids (c ∷ cs)) × (lookup j tasks ≡ none))
  stale_cons j = (to is_stale stale_head, from is_stale stale_head)
    where
      to :
          (s : Bool)
          → ((s ≡ true) ↔ (lookup c.id tasks ≡ none))
          → Listed j (if s then c.id ∷ rest.stale else rest.stale)
          → Listed j (ids (c ∷ cs)) × (lookup j tasks ≡ none)
      to true h (inl e) = (inl e, subst (λ k. lookup k tasks ≡ none) e (h.0 refl))
      to true h (inr l) =
          let (below, missing) = (tail.stale j).0 l in
          (inr below, sym (same_below j below) ∙ missing)
      to false h l =
          let (below, missing) = (tail.stale j).0 l in
          (inr below, sym (same_below j below) ∙ missing)

      below_stale : Listed j (ids cs) → lookup j tasks ≡ none → Listed j rest.stale
      below_stale l missing = (tail.stale j).1 (l, same_below j l ∙ missing)

      from :
          (s : Bool)
          → ((s ≡ true) ↔ (lookup c.id tasks ≡ none))
          → Listed j (ids (c ∷ cs)) × (lookup j tasks ≡ none)
          → Listed j (if s then c.id ∷ rest.stale else rest.stale)
      from true h (inl e, missing) = inl e
      from true h (inr l, missing) = inr (below_stale l missing)
      from false h (inl e, missing) =
          let out : false ≡ true = h.1 (subst (λ k. lookup k tasks ≡ none) (sym e) missing) in
          absurd (cc out)
      from false h (inr l, missing) = below_stale l missing

  kept_cons : (j : Text) → Differ (λ x. x.id) j (c ∷ cs) → lookup j rest.left ≡ lookup j tasks
  kept_cons j n = tail.kept j n.1 ∙ ground (arith, lookup_left j)

  taken_cons : (j : Text) → Listed j (ids (c ∷ cs)) → lookup j rest.left ≡ none
  taken_cons j (inl e) =
      subst (λ k. lookup k rest.left ≡ none) e
        (tail.kept c.id fresh ∙ ground (arith, lookup_left c.id, text_beq_iff c.id c.id))
  taken_cons j (inr l) = tail.taken j l

  merge_all_cons :
      Merging tasks (c ∷ cs) (record rest { containers = d ∷ rest.containers; stale = stales })
  merge_all_cons = record {
    merges = (
      (merge_one_cases tasks c d is_stale left one).0,
      Merges-cong (λ j. lookup j left) (λ j. lookup j tasks) cs rest.containers
          (All-mono
            (λ x n.
              ground (arith, lookup_left x.id, text_beq_iff x.id c.id, text_beq_iff c.id x.id))
            cs fresh)
          tail.merges,
    );
    kept = kept_cons;
    taken = taken_cons;
    stale = stale_cons;
    distinct = λ k. tail.distinct ((merge_one_cases tasks c d is_stale left one).3 k);
  }

pub merge_all-Merging :
    (tasks : Dict ContainerId TaskSnapshot) (cs : List Container) (m : Merged)
    → Distinct (λ c. c.id) cs
    → merge_all tasks cs ≡ ok m
    → Merging tasks cs m
unfolding merge_all
merge_all-Merging tasks [] m n h = subst (Merging tasks []) (ground arith) (merge_all_nil tasks)
merge_all-Merging tasks (c ∷ cs) m n h = elim (Result-cases (merge_one tasks c)) [
  | inr (x, e) ↦ absurd (ground (arith, e))
  | inl ((d, is_stale, left), e) ↦ elim (Result-cases (merge_all left cs)) [
    | inr (x, f) ↦ absurd (ground (arith, e, f))
    | inl (rest, f) ↦ subst (Merging tasks (c ∷ cs)) (ground (arith, e, f)) (
        merge_all_cons tasks left c d cs is_stale rest e n.0 (merge_all-Merging left cs rest n.1 f))
  ]
]
