-- ===== src/Daemon/Startup/Recovered.antt =====
-- The registry after a successful start (cmd/dockerdless/reconciliation.go).
use dockerdless.Base.{
  ◌≡◌, refl, Option, none, some, List, [], ◌∷◌, ◌++◌, Text, lookup, ok, Result-cases, arith, ◌==◌,
  text_eq, text_beq_iff, ◌↔◌, ◌⊎◌, inl, inr, Bool-cases, All, Distinct, Differ, Listed, sym, ap,
  ◌∙◌, subst,
}
use dockerdless.Domain.Model.{Container, ContainerId}
use dockerdless.Domain.Registry.{Registry, Context, live, save, get, new_registry, default_image}
use dockerdless.Domain.Registry.Consistency.{IsConsistent, Places-IsConsistent}
use dockerdless.Domain.Registry.Methods.{save-Places, new_registry-IsConsistent}
use dockerdless.Domain.Reconcile.{TaskSnapshot, ReconcileResult, reconcile, apply_task, lost}
use dockerdless.Domain.Reconcile.Index.{find_task}
use dockerdless.Domain.Reconcile.Merge.{Merges, MergesTo}
use dockerdless.Domain.Reconcile.Account.{reconcile-Accounts}
use dockerdless.Daemon.Startup.{save_all, recovery, reconcile_at_startup}

-- The image defaults are filled in.
abbrev HasImages : Container → Type 0
HasImages c = default_image c ≡ c

default_image_idem : (c : Container) → HasImages (default_image c)
unfolding default_image
default_image_idem c = ground arith

default_image_id : (c : Container) → (default_image c).id ≡ c.id
unfolding default_image
default_image_id c = refl

apply_task_id : (c x : Container) (t : TaskSnapshot) → apply_task c t ≡ ok x → x.id ≡ c.id
unfolding apply_task
apply_task_id c x t h = ground arith

lost_id : (c : Container) → (lost c).id ≡ c.id
unfolding lost
lost_id c = refl

-- A merged container keeps its identity and has its images.
MergesTo-kept :
    (o : Option TaskSnapshot) (c d : Container) → MergesTo o c d → (d.id ≡ c.id) × HasImages d
MergesTo-kept none c d h = (
  ap (λ x. x.id) h ∙ default_image_id (lost c) ∙ lost_id c,
  subst HasImages (sym h) (default_image_idem (lost c)),
)
MergesTo-kept (some t) c d (x, e, h) = (
  ap (λ y. y.id) h ∙ default_image_id x ∙ apply_task_id c x t e,
  subst HasImages (sym h) (default_image_idem x),
)

module _ (find : ContainerId → Option TaskSnapshot) where
  Merges-Differ :
      (j : Text) (cs ds : List Container)
      → Merges find cs ds
      → Differ (λ (c : Container). c.id) j cs
      → Differ (λ (c : Container). c.id) j ds
  Merges-Differ j [] [] m h = tt
  Merges-Differ j [] (d ∷ ds) m h = absurd m
  Merges-Differ j (c ∷ cs) [] m h = absurd m
  Merges-Differ j (c ∷ cs) (d ∷ ds) m h =
      let (same, _) = MergesTo-kept (find c.id) c d m.0 in
      (ap (λ i. i == j) same ∙ h.0, Merges-Differ j cs ds m.1 h.1)

  Merges-Distinct :
      (cs ds : List Container)
      → Merges find cs ds
      → Distinct (λ (c : Container). c.id) cs
      → Distinct (λ (c : Container). c.id) ds × All HasImages ds
  Merges-Distinct [] [] m h = (tt, tt)
  Merges-Distinct [] (d ∷ ds) m h = absurd m
  Merges-Distinct (c ∷ cs) [] m h = absurd m
  Merges-Distinct (c ∷ cs) (d ∷ ds) m h =
      let (same, images) = MergesTo-kept (find c.id) c d m.0 in
      let (distinct, all) = Merges-Distinct cs ds m.1 h.1 in
      (
        (
          subst (λ i. Differ (λ (c : Container). c.id) i ds) (sym same)
              (Merges-Differ c.id cs ds m.1 h.0),
          distinct,
        ),
        (images, all),
      )

save_all_step :
    (r t : Registry) (ctx : Context) (c : Container) (cs : List Container)
    → save r ctx c ≡ ok t
    → save_all r ctx (c ∷ cs)
      ≡ ((save_all t ctx cs).0, recovery c ++ (save_all t ctx cs).1, (save_all t ctx cs).2)
unfolding save_all
save_all_step r t ctx c cs h = ground (arith, h)

save_all_stop :
    (r : Registry) (ctx : Context) (c : Container) (cs : List Container)
    → (save_all r ctx (c ∷ cs)).2 ≡ ok tt
    → (t : Registry) × (save r ctx c ≡ ok t)
unfolding save_all
save_all_stop r ctx c cs h = elim (Result-cases (save r ctx c)) [
  | inl (t, e) ↦ (t, e)
  | inr (x, e) ↦ absurd (ground (arith, e))
]

-- What the loop leaves in the registry.
record Saved (r u : Registry) (cs : List Container) : Type 0 where
  others : (j : Text) → Differ (λ (c : Container). c.id) j cs → lookup j u.by_id ≡ lookup j r.by_id
  mine : (c : Container) → Listed c cs → lookup c.id u.by_id ≡ some (default_image c)
  consistent : IsConsistent u

Saved-step :
    (r t u : Registry) (ctx : Context) (c : Container) (cs : List Container)
    → save r ctx c ≡ ok t
    → Differ (λ (c : Container). c.id) c.id cs
    → Saved t u cs
    → Saved r u (c ∷ cs)
unfolding default_image
Saved-step r t u ctx c cs e apart s =
    let p = save-Places r t ctx c e in
    record {
      others = λ j d. ground (arith, s.others j d.1, p.ids j, d.0);
      mine = λ d l. elim l [
        | inl same ↦
            subst (λ x. lookup x.id u.by_id ≡ some (default_image x)) same
              (ground (arith, s.others c.id apart, p.ids c.id, text_beq_iff c.id c.id))
        | inr later ↦ s.mine d later
      ];
      consistent = s.consistent;
    }

save_all-Saved :
    (r : Registry) (ctx : Context) (cs : List Container)
    → IsConsistent r
    → Distinct (λ (c : Container). c.id) cs
    → (save_all r ctx cs).2 ≡ ok tt
    → Saved r (save_all r ctx cs).0 cs
save_all-Saved r ctx [] v d h =
    unfold save_all in record { others = λ j _. refl; mine = λ c l. absurd l; consistent = v }
save_all-Saved r ctx (c ∷ cs) v d h =
    let (t, e) = save_all_stop r ctx c cs h in
    let step = save_all_step r t ctx c cs e in
    subst (λ x. Saved r x.0 (c ∷ cs)) (sym step)
      (Saved-step r t (save_all t ctx cs).0 ctx c cs e d.0 (
        save_all-Saved t ctx cs
          (Places-IsConsistent r t (default_image c) (save-Places r t ctx c e) v) d.1
          (ap (λ x. x.2) (sym step) ∙ h)))

Listed-id :
    (j : Text) (cs : List Container)
    → ((c : Container) × Listed c cs × (c.id ≡ j)) ⊎ Differ (λ (c : Container). c.id) j cs
Listed-id j [] = inr tt
Listed-id j (c ∷ cs) = elim (Bool-cases (c.id == j)) [
  | inl e ↦ inl (c, inl refl, (text_beq_iff c.id j).0 e)
  | inr e ↦ elim (Listed-id j cs) [ inl (d, l, k) ↦ inl (d, inr l, k) | inr apart ↦ inr (e, apart) ]
]

Listed-HasImages :
    (c : Container) (cs : List Container) → All HasImages cs → Listed c cs → HasImages c
Listed-HasImages c [] h l = absurd l
Listed-HasImages c (d ∷ cs) h (inl e) = subst HasImages e h.0
Listed-HasImages c (d ∷ cs) h (inr l) = Listed-HasImages c cs h.1 l

get-looked_up :
    (u : Registry) (j : Text) (c : Container) → (get u live j ≡ ok c) ↔ (lookup j u.by_id ≡ some c)
unfolding get
get-looked_up u j c = (λ h. ground arith, λ h. ground (arith, h))

new_registry-empty : (j : Text) → lookup j new_registry.by_id ≡ none
unfolding new_registry lookup
new_registry-empty j = refl

startup_runs :
    (metadata : List Container) (tasks : List TaskSnapshot)
    → (reconcile_at_startup new_registry live (ok (metadata, tasks))).2 ≡ ok tt
    → (result : ReconcileResult) × (reconcile metadata tasks ≡ ok result)
      × (reconcile_at_startup new_registry live (ok (metadata, tasks))
          ≡ save_all new_registry live result.containers)
unfolding reconcile_at_startup
startup_runs metadata tasks h = elim (Result-cases (reconcile metadata tasks)) [
  | inl (result, e) ↦ (result, e, ground (arith, e))
  | inr (x, e) ↦ absurd (ground (arith, e))
]

Saved-answers :
    (u : Registry) (cs : List Container)
    → All HasImages cs
    → Saved new_registry u cs
    → (j : Text) (c : Container) → (get u live j ≡ ok c) ↔ (Listed c cs × (c.id ≡ j))
Saved-answers u cs images s j c = (to, from)
  where
    answer : (d : Container) → Listed d cs → lookup d.id u.by_id ≡ some d
    answer d l = s.mine d l ∙ ap some (Listed-HasImages d cs images l)

    to : get u live j ≡ ok c → Listed c cs × (c.id ≡ j)
    to h = elim (Listed-id j cs) [
      | inl (d, l, same) ↦
          let found : some d ≡ some c =
            sym (answer d l) ∙ ap (λ i. lookup i u.by_id) same ∙ (get-looked_up u j c).0 h in
          let is_c : d ≡ c = ground arith in
          (subst (λ x. Listed x cs) is_c l, ap (λ x. x.id) (sym is_c) ∙ same)
      | inr apart ↦
          let gone : some c ≡ none =
            sym ((get-looked_up u j c).0 h) ∙ s.others j apart ∙ new_registry-empty j in
          absurd cc
    ]

    from : Listed c cs × (c.id ≡ j) → get u live j ≡ ok c
    from (l, same) = (get-looked_up u j c).1 (ap (λ i. lookup i u.by_id) (sym same) ∙ answer c l)

-- A start that succeeds on an empty registry leaves in it exactly the containers of the
-- reconciliation: an identity answers with a container exactly if the reconciliation has that
-- container under this identity. The two indexes of the registry agree.
pub startup_recovers :
    (metadata : List Container) (tasks : List TaskSnapshot)
    → (reconcile_at_startup new_registry live (ok (metadata, tasks))).2 ≡ ok tt
    → (result : ReconcileResult) × (reconcile metadata tasks ≡ ok result)
      × ((j : Text) (c : Container)
          → (get (reconcile_at_startup new_registry live (ok (metadata, tasks))).0 live j ≡ ok c)
            ↔ (Listed c result.containers × (c.id ≡ j)))
      × IsConsistent (reconcile_at_startup new_registry live (ok (metadata, tasks))).0
startup_recovers metadata tasks h =
    let (result, e, run) = startup_runs metadata tasks h in
    let account = reconcile-Accounts metadata tasks result e in
    let (distinct, images) =
      Merges-Distinct (λ j. find_task j tasks) metadata result.containers account.merged
        account.identified.0 in
    let saved =
      subst (λ x. Saved new_registry x.0 result.containers) (sym run)
        (save_all-Saved new_registry live result.containers new_registry-IsConsistent distinct
          (ap (λ x. x.2) (sym run) ∙ h)) in
    let u = (reconcile_at_startup new_registry live (ok (metadata, tasks))).0 in
    (result, e, Saved-answers u result.containers images saved, saved.consistent)
