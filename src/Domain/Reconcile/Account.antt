-- ===== src/Domain/Reconcile/Account.antt =====
-- What Reconcile answers (internal/domain/reconcile.go).
use dockerdless.Base.{
  ◌≡◌, sym, none, some, List, [], ◌∷◌, map, Text, Dict, lookup, ok, ◌==◌, ◌↔◌, ◌⊎◌, text_eq,
  text_beq_iff, arith, Bool-cases, inl, inr, ◌∙◌, Result-cases, All, Distinct, Differ, Listed, keys,
  subst, Ascending, sort_by, sort_by-Ascending, fun_ext, Listed-sort_by, Listed-keys→lookup,
  lookup→Listed-keys,
}
use dockerdless.Domain.Model.{Container, ContainerId}
use dockerdless.Domain.Reconcile.{
  TaskSnapshot, ReconcileResult, Merged, index_metadata, index_tasks, merge_all, reconcile,
}
use dockerdless.Domain.Reconcile.Index.{
  HasIdentity, index_metadata_sound, find_task, index_tasks-lookup, index_tasks-Distinct,
}
use dockerdless.Domain.Reconcile.Merge.{ids, Merges, Merging, merge_all-Merging}

-- The identities of the metadata are distinct and not empty; each container is answered in its
-- place, updated from its task; the stale containers are those without a task; the tasks to clean up
-- are those without a container, each once and in order.
pub record Accounts (metadata : List Container) (tasks : List TaskSnapshot) (r : ReconcileResult)
    : Type 0 where
  pub identified : Distinct (λ c. c.id) metadata × All HasIdentity metadata
  pub merged : Merges (λ j. find_task j tasks) metadata r.containers
  pub stale : (j : Text) → Listed j r.stale ↔ (Listed j (ids metadata) × (find_task j tasks ≡ none))
  pub cleanup :
      (j : Text)
      → Listed j r.cleanup
        ↔ (((t : TaskSnapshot) × (find_task j tasks ≡ some t)) × Differ (λ c. c.id) j metadata)
  pub ordered : Ascending (λ j. j) r.cleanup

Listed-or-Differ : (j : Text) (cs : List Container) → Listed j (ids cs) ⊎ Differ (λ c. c.id) j cs
Listed-or-Differ j [] = inr tt
Listed-or-Differ j (c ∷ cs) = elim (Bool-cases (c.id == j)) [
  | inl e ↦ inl (inl ((text_beq_iff c.id j).0 e))
  | inr e ↦ elim (Listed-or-Differ j cs) [ inl l ↦ inl (inr l) | inr n ↦ inr (e, n) ]
]

-- The three loops of a successful run.
reconcile_runs :
    (metadata : List Container) (tasks : List TaskSnapshot) (r : ReconcileResult)
    → reconcile metadata tasks ≡ ok r
    → (n : Dict ContainerId Container) × (index_metadata [] metadata ≡ ok n)
      × (by_id : Dict ContainerId TaskSnapshot) × (index_tasks [] tasks ≡ ok by_id)
      × (m : Merged) × (merge_all by_id metadata ≡ ok m)
      × (r ≡ record {
        containers = m.containers;
        stale = m.stale;
        cleanup = sort_by (λ id. id) (map (λ e. e.0) m.left);
      })
reconcile_runs metadata tasks r h = elim (Result-cases (index_metadata [] metadata)) [
  | inr (x, e) ↦ absurd (unfold reconcile in ground (arith, e))
  | inl (n, e) ↦ elim (Result-cases (index_tasks [] tasks)) [
    | inr (x, f) ↦ absurd (unfold reconcile in ground (arith, e, f))
    | inl (by_id, f) ↦ elim (Result-cases (merge_all by_id metadata)) [
      | inr (x, g) ↦ absurd (unfold reconcile in ground (arith, e, f, g))
      | inl (m, g) ↦ (n, e, by_id, f, m, g, unfold reconcile in ground (arith, e, f, g))
    ]
  ]
]

module _ (metadata : List Container) (tasks : List TaskSnapshot)
    (by_id : Dict ContainerId TaskSnapshot) (m : Merged) (indexed : index_tasks [] tasks ≡ ok by_id)
    (merging : Merging by_id metadata m) where
  index_finds : (j : Text) → lookup j by_id ≡ find_task j tasks
  unfolding lookup
  index_finds j = index_tasks-lookup [] by_id tasks j indexed

  left-Distinct : Distinct (λ j. j) (keys m.left)
  left-Distinct = merging.distinct (index_tasks-Distinct [] by_id tasks tt indexed)

  cleanup_iff :
      (j : Text)
      → Listed j (sort_by (λ id. id) (keys m.left))
        ↔ (((t : TaskSnapshot) × (find_task j tasks ≡ some t)) × Differ (λ c. c.id) j metadata)
  cleanup_iff j = (to, from)
    where
      unclaimed :
          (t : TaskSnapshot)
          → lookup j m.left ≡ some t
          → ((t : TaskSnapshot) × (find_task j tasks ≡ some t)) × Differ (λ c. c.id) j metadata
      unclaimed t found = elim (Listed-or-Differ j metadata) [
        | inl l ↦ absurd (cc (merging.taken j l, found))
        | inr n ↦ ((t, sym (index_finds j) ∙ sym (merging.kept j n) ∙ found), n)
      ]

      to :
          Listed j (sort_by (λ id. id) (keys m.left))
          → ((t : TaskSnapshot) × (find_task j tasks ≡ some t)) × Differ (λ c. c.id) j metadata
      to l =
          let (t, found) =
            Listed-keys→lookup j m.left ((Listed-sort_by (λ id. id) j (keys m.left)).0 l) in
          unclaimed t found

      from :
          ((t : TaskSnapshot) × (find_task j tasks ≡ some t)) × Differ (λ c. c.id) j metadata
          → Listed j (sort_by (λ id. id) (keys m.left))
      from ((t, found), n) =
          (Listed-sort_by (λ id. id) j (keys m.left)).1
            (lookup→Listed-keys j m.left t (merging.kept j n ∙ index_finds j ∙ found))

  stale_iff : (j : Text) → Listed j m.stale ↔ (Listed j (ids metadata) × (find_task j tasks ≡ none))
  stale_iff j = (
    λ l. let (own, missing) = (merging.stale j).0 l in (own, sym (index_finds j) ∙ missing),
    λ l. (merging.stale j).1 (l.0, index_finds j ∙ l.1),
  )

-- When Reconcile succeeds, the identities of the metadata are distinct and not empty; the answer has
-- one container for each record, in its place, updated from its task or, without one, marked as
-- exited; the stale identities are those of the records without a task; the identities to clean up
-- are those of the tasks without a record, in strictly ascending order.
pub reconcile-Accounts :
    (metadata : List Container) (tasks : List TaskSnapshot) (r : ReconcileResult)
    → reconcile metadata tasks ≡ ok r
    → Accounts metadata tasks r
reconcile-Accounts metadata tasks r h =
    let (n, e, by_id, f, m, g, answer) = reconcile_runs metadata tasks r h in
    let (distinct, identified, _) = index_metadata_sound [] n metadata e in
    let merging = merge_all-Merging by_id metadata m distinct g in
    subst (Accounts metadata tasks) (sym answer) (record {
      identified = (distinct, identified);
      merged =
          subst (λ find. Merges find metadata m.containers)
            (fun_ext (index_finds metadata tasks by_id m f merging)) merging.merges;
      stale = stale_iff metadata tasks by_id m f merging;
      cleanup = cleanup_iff metadata tasks by_id m f merging;
      ordered =
          sort_by-Ascending (λ j. j) (keys m.left) (left-Distinct metadata tasks by_id m f merging);
    })
