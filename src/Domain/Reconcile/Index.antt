-- ===== src/Domain/Reconcile/Index.antt =====
-- The first two loops of Reconcile (internal/domain/reconcile.go): what a successful run of them
-- says of the identities.
use dockerdless.Base.{
  ◌≡◌, refl, false, Option, none, some, List, [], ◌∷◌, Text, is_empty, Dict, lookup, insert,
  lookup-insert, ok, err, if◌then◌else◌, ◌==◌, text_eq, text_beq_iff, arith, inl, inr, Result-cases,
  All, Distinct, All-mono, All-both, keys, keys-insert-Distinct,
}
use dockerdless.Domain.Model.{Container, ContainerId}
use dockerdless.Domain.Reconcile.{TaskSnapshot, index_metadata, task_identity, index_tasks}

abbrev pub HasIdentity : Container → Type 0
HasIdentity c = is_empty c.id ≡ false

-- The records that index_metadata accepts behind those of `m`.
abbrev pub Indexed : Dict ContainerId Container → List Container → Type 0
Indexed m cs = Distinct (λ c. c.id) cs × All HasIdentity cs × All (λ c. lookup c.id m ≡ none) cs

pub index_metadata_sound :
    (m n : Dict ContainerId Container) (cs : List Container)
    → index_metadata m cs ≡ ok n
    → Indexed m cs
unfolding index_metadata
index_metadata_sound m n [] h = (tt, tt, tt)
index_metadata_sound m n (c ∷ cs) h =
    let rest = index_metadata_sound (insert c.id c m) n cs (ground arith) in
    (
      (
        All-mono
            (λ d e.
              ground (
                arith,
                lookup-insert c.id d.id c m,
                text_beq_iff c.id d.id,
                text_beq_iff d.id c.id,
              ))
            cs rest.2,
        rest.0,
      ),
      (ground arith, rest.1),
      (ground arith, All-mono (λ d e. ground (arith, lookup-insert c.id d.id c m)) cs rest.2),
    )

pub index_metadata_complete :
    (m : Dict ContainerId Container) (cs : List Container)
    → Indexed m cs
    → (n : Dict ContainerId Container) × (index_metadata m cs ≡ ok n)
unfolding index_metadata
index_metadata_complete m [] h = (m, refl)
index_metadata_complete m (c ∷ cs) h =
    let (n, e) = index_metadata_complete (insert c.id c m) cs (
      h.0.1,
      h.1.1,
      All-mono
          (λ d (p : ((d.id == c.id) ≡ false) × (lookup d.id m ≡ none)).
            ground
              (arith, lookup-insert c.id d.id c m, text_beq_iff c.id d.id, text_beq_iff d.id c.id))
          cs (All-both _ _ cs h.0.0 h.2.1),
    ) in
    (n, ground (arith, e))

-- The first task with the identity, as the index stores it.
pub find_task : ContainerId → List TaskSnapshot → Option TaskSnapshot
find_task id [] = none
find_task id (t ∷ ts) = elim (task_identity t) [
  | ok j ↦ if j == id then some (record t { container_id = j }) else find_task id ts
  | err e ↦ find_task id ts
]

pub index_tasks-lookup :
    (m n : Dict ContainerId TaskSnapshot) (ts : List TaskSnapshot) (id : Text)
    → index_tasks m ts ≡ ok n
    → lookup id n ≡ elim (lookup id m) [ none ↦ find_task id ts | some t ↦ some t ]
unfolding index_tasks find_task
index_tasks-lookup m n [] id h = ground arith
index_tasks-lookup m n (t ∷ ts) id h = elim (Result-cases (task_identity t)) [
  | inl (j, e) ↦ ground (
    arith,
    e,
    index_tasks-lookup (insert j (record t { container_id = j }) m) n ts id,
    lookup-insert j id (record t { container_id = j }) m,
    text_beq_iff j id,
  )
  | inr (x, e) ↦ absurd (ground (arith, e))
]

pub index_tasks-Distinct :
    (m n : Dict ContainerId TaskSnapshot) (ts : List TaskSnapshot)
    → Distinct (λ x. x) (keys m)
    → index_tasks m ts ≡ ok n
    → Distinct (λ x. x) (keys n)
unfolding index_tasks
index_tasks-Distinct m n [] d h = ground arith
index_tasks-Distinct m n (t ∷ ts) d h = elim (Result-cases (task_identity t)) [
  | inl (j, e) ↦
      index_tasks-Distinct (insert j (record t { container_id = j }) m) n ts
        (keys-insert-Distinct j (record t { container_id = j }) m d) (ground (arith, e))
  | inr (x, e) ↦ absurd (ground (arith, e))
]
