-- ===== src/Domain/Registry/Methods.antt =====
-- Every method of the registry keeps its two indexes in agreement (internal/domain/registry.go).
use dockerdless.Base.{
  ◌≡◌, refl, sym, false, not, ◌&&◌, none, some, List, [], ◌∷◌, Text, is_empty, lookup,
  lookup-insert, lookup-delete, ok, if◌then◌else◌, ◌==◌, text_eq, text_beq_iff, arith, Option-cases,
  inl, inr, Result-cases, subst,
}
use dockerdless.Domain.Model.{Container}
use dockerdless.Domain.Registry.{
  Registry, Context, context_error, name_taken, delete_name, rename, default_image, store, save,
  remove, new_registry, Call, saves, renames, removes, step, run,
}
use dockerdless.Domain.Registry.Consistency.{
  IsConsistent, is_named, Places, store-Places, Places-IsConsistent,
}

pub new_registry-IsConsistent : IsConsistent new_registry
unfolding new_registry lookup
new_registry-IsConsistent = record {
  keyed = λ id c h. ground arith;
  named = λ n id h. ground arith;
  indexed = λ id c h n. ground arith;
  unnamed = refl;
}

-- What the guards of Save let through.
save_ok :
    (r t : Registry) (ctx : Context) (c : Container)
    → save r ctx c ≡ ok t
    → (t ≡ store r (default_image c))
      × ((not (is_empty c.name) && name_taken r c.name c.id) ≡ false)
      × (is_empty c.id ≡ false)
      × (context_error ctx ≡ ok tt)
unfolding save
save_ok r t ctx c h = ground arith

-- A successful Save stores the container with its image defaults.
pub save-Places :
    (r t : Registry) (ctx : Context) (c : Container)
    → save r ctx c ≡ ok t
    → Places r t (default_image c)
unfolding default_image
save-Places r t ctx c h =
    let (e, free, _, _) = save_ok r t ctx c h in
    subst (λ u. Places r u (default_image c)) (sym e) (store-Places r (default_image c) free)

-- A successful Rename stores the same container under the new name.
pub rename-Places :
    (r t : Registry) (id name : Text)
    → IsConsistent r
    → rename r id name ≡ ok t
    → (c : Container) × (lookup id r.by_id ≡ some c) × Places r t (record c { name = name })
unfolding rename
rename-Places r t id name v h = elim (Option-cases (lookup id r.by_id)) [
  | inl e ↦ absurd (ground arith)
  | inr (c, e) ↦ (
    c,
    e,
    record {
      ids = λ j.
          ground (arith, v.keyed id c e, lookup-insert id j (record c { name = name }) r.by_id);
      names = λ n. ground (
        arith,
        e,
        v.keyed id c e,
        text_beq_iff name n,
        lookup-insert name n id (delete_name c.name r.by_name),
        lookup-delete c.name n r.by_name,
      );
      free = ground (arith, v.keyed id c e);
    },
  )
]

-- A successful Remove drops the container and its name, and nothing else.
pub remove_lookups :
    (r t : Registry) (ctx : Context) (id : Text)
    → remove r ctx id ≡ ok t
    → (c : Container) × (lookup id r.by_id ≡ some c)
      × ((j : Text) → lookup j t.by_id ≡ (if id == j then none else lookup j r.by_id))
      × ((n : Text) → lookup n t.by_name ≡ (if is_named c n then none else lookup n r.by_name))
unfolding remove
remove_lookups r t ctx id h = elim (Option-cases (lookup id r.by_id)) [
  | inl e ↦ absurd (ground arith)
  | inr (c, e) ↦ (
    c,
    e,
    λ j. ground (arith, lookup-delete id j r.by_id),
    λ n. ground (arith, lookup-delete c.name n r.by_name),
  )
]

pub remove-IsConsistent :
    (r t : Registry) (ctx : Context) (id : Text)
    → IsConsistent r
    → remove r ctx id ≡ ok t
    → IsConsistent t
remove-IsConsistent r t ctx id v h =
    let (c, at_id, ids, names) = remove_lookups r t ctx id h in
    record {
      keyed = λ j d e. ground (arith, ids j, v.keyed j d);
      named = λ n j e.
          let (d, at_j, called) = v.named n j (ground (arith, names n)) in
          (
            d,
            ground (arith, ids j, names n, text_beq_iff id j, text_beq_iff c.name n, v.unnamed),
            called,
          );
      indexed = λ j d e n. ground (
        arith,
        ids j,
        names d.name,
        v.indexed j d,
        v.indexed id c at_id,
        text_beq_iff id j,
        text_beq_iff c.name d.name,
      );
      unnamed = ground (arith, names [], v.unnamed);
    }

-- Each call keeps the agreement of the indexes, whether it succeeds or fails.
pub step-IsConsistent : (r : Registry) (c : Call) → IsConsistent r → IsConsistent (step r c)
unfolding step
step-IsConsistent r (saves ctx c) v = elim (Result-cases (save r ctx c)) [
  | inl (t, e) ↦ rw e (Places-IsConsistent r t (default_image c) (save-Places r t ctx c e) v)
  | inr (x, e) ↦ rw e v
]
step-IsConsistent r (renames id name) v = elim (Result-cases (rename r id name)) [
  | inl (t, e) ↦
      let (c, _, p) = rename-Places r t id name v e in
      rw e (Places-IsConsistent r t (record c { name = name }) p v)
  | inr (x, e) ↦ rw e v
]
step-IsConsistent r (removes ctx id) v = elim (Result-cases (remove r ctx id)) [
  | inl (t, e) ↦ rw e (remove-IsConsistent r t ctx id v e)
  | inr (x, e) ↦ rw e v
]

pub run-IsConsistent : (r : Registry) (cs : List Call) → IsConsistent r → IsConsistent (run r cs)
unfolding run
run-IsConsistent r [] v = v
run-IsConsistent r (c ∷ cs) v = run-IsConsistent (step r c) cs (step-IsConsistent r c v)

-- After any calls on a new registry the two indexes agree: a stored record carries the identity it
-- is stored under, a non-empty name leads to the record that has it, each name in the index is the
-- name of the record it leads to, and the empty name is not indexed.
pub run-new_registry-IsConsistent : (cs : List Call) → IsConsistent (run new_registry cs)
run-new_registry-IsConsistent cs = run-IsConsistent new_registry cs new_registry-IsConsistent
