-- ===== src/App/Lifecycle/Gone.antt =====
-- How ContainerRemove of internal/app/containers.go ends once it may remove the container.
use dockerdless.Base.{
  ◌≡◌, refl, sym, ap, ◌∙◌, subst, Bool, true, false, none, List, [], ◌∷◌, text_eq, arith, lookup,
  lookup-delete, delete, text_beq_iff, Result, ok, err, Result-cases, inl, inr, if◌then◌else◌,
  if_both, Bool-cases, Option-cases,
}
use dockerdless.Domain.Model.{ContainerId, Container, PortBinding, created}
use dockerdless.Domain.Registry.{
  Registry, RegistryError, Context, context_error, remove as registry_remove,
}
use dockerdless.App.Ports.{Ports}
use dockerdless.App.Service.{
  State, Action, pure, call, modify, ◌>>◌, on_error, translated, release_bindings, release_given,
  close_log_sink, discard_logs, is_open, without,
}
use dockerdless.App.Service.Frames.{
  Keeps, Ends, >>=-Ends, Keeps-Ends, Ends-map, >>-Keeps, on_error-Keeps,
}
use dockerdless.App.Lifecycle.{is_state, detach_all, unregistered, unregister, remove_stopped}

is_open-without : (id : ContainerId) (xs : List ContainerId) → is_open id (without id xs) ≡ false
unfolding is_open without
is_open-without id [] = refl
is_open-without id (x ∷ xs) = ground (arith, is_open-without id xs)

remove_unregisters :
    (r t : Registry) (ctx : Context) (id : ContainerId)
    → registry_remove r ctx id ≡ ok t
    → lookup id t.by_id ≡ none
unfolding registry_remove
remove_unregisters r t ctx id h = elim (Result-cases (context_error ctx)) [
  | inr (e, f) ↦ absurd (ground (arith, f, h))
  | inl (u, f) ↦ elim (Option-cases (lookup id r.by_id)) [
    | inl g ↦ absurd (ground (arith, f, g, h))
    | inr (c, g) ↦
        let same : delete id r.by_id ≡ t.by_id = ground (arith, f, g, h) in
        ap (lookup id) (sym same) ∙ lookup-delete id id r.by_id ∙ ground (arith, text_beq_iff id id)
  ]
]

remove_absent :
    (r : Registry) (ctx : Context) (id : ContainerId)
    → registry_remove r ctx id ≡ err RegistryError.container_not_found
    → lookup id r.by_id ≡ none
unfolding registry_remove context_error
remove_absent r ctx id h = elim (Option-cases (lookup id r.by_id)) [
  | inl g ↦ g
  | inr (c, g) ↦ absurd (ground (arith, g, h))
]

-- The container is gone.
pub record Gone {W : Type 0} (id : ContainerId) (t : State W) : Type 0 where
  pub unlisted : lookup id t.registry.by_id ≡ none
  pub closed : is_open id t.logs ≡ false

module _ {W : Type 0} (p : Ports W) where
  -- The registry is still that of an earlier state.
  abbrev Same : Registry → Registry → Type 0
  Same r t = t ≡ r

  close_log_sink-Ends :
      (id : ContainerId) (s : State W)
      → Ends
          (λ t. ⊥)
          (λ u t. (t.registry ≡ s.registry) × (is_open id t.logs ≡ false))
          (close_log_sink p id s)
  unfolding close_log_sink
  close_log_sink-Ends id s = elim (Bool-cases (is_open id s.logs)) [
    | inl h ↦ rw h (refl, is_open-without id s.logs)
    | inr h ↦ rw h (refl, h)
  ]

  discard_logs-Gone :
      (P : State W → Type 0) (id : ContainerId) (s : State W)
      → lookup id s.registry.by_id ≡ none
      → Ends P (λ u. Gone id) (discard_logs p id s)
  unfolding discard_logs ◌>>◌
  discard_logs-Gone P id s h =
      >>=-Ends (λ u. modify (λ t. record t { world = p.remove_log id t.world })) P
        (λ u t. (t.registry ≡ s.registry) × (is_open id t.logs ≡ false)) (λ u. Gone id)
        (close_log_sink p id) s
        (Ends-map (λ t. ⊥) P _ _ (close_log_sink p id s) (λ t e. absurd e) (λ u t e. e)
          (close_log_sink-Ends id s))
        (λ u t (same, shut). record {
          unlisted = ap (λ r. lookup id r.by_id) same ∙ h;
          closed = shut;
        })

  unregistered-Ends :
      (id : ContainerId) (s : State W) (r : Result RegistryError Registry)
      → registry_remove s.registry (p.context s.world) id ≡ r
      → Ends (λ t. t.registry ≡ s.registry) (λ u. Gone id) (unregistered p id r s)
  unregistered-Ends id s (ok t) h =
      discard_logs-Gone _ id (record s { registry = t })
        (remove_unregisters s.registry t (p.context s.world) id h)
  unregistered-Ends id s (err RegistryError.container_not_found) h =
      discard_logs-Gone _ id s (remove_absent s.registry (p.context s.world) id h)
  unregistered-Ends id s (err e) h = refl

  unregister-Ends :
      (r : Registry) (id : ContainerId) (t : State W)
      → t.registry ≡ r
      → Ends (λ u. u.registry ≡ r) (λ u. Gone id) (unregister p id t)
  unfolding unregister
  unregister-Ends r id t same =
      subst (λ k. Ends (λ u. u.registry ≡ k) (λ u. Gone id) (unregister p id t)) same
        (unregistered-Ends id t (registry_remove t.registry (p.context t.world) id) refl)

  release_given-Keeps :
      (r : Registry) (given : Bool) (bs : List PortBinding)
      → Keeps (Same r) (release_given {W = W} given bs)
  release_given-Keeps r given [] s same = same
  release_given-Keeps r false (b ∷ bs) s same = same
  release_given-Keeps r true (b ∷ bs) s same = same

  detach_all-Keeps : (r : Registry) (id : ContainerId) → Keeps (Same r) (detach_all p id)
  unfolding detach_all
  detach_all-Keeps r id s same = same

  give_back-Keeps :
      (r : Registry) (c : Container)
      → Keeps
          (Same r)
          (if is_state c.state created then release_bindings p c.port_bindings else pure tt)
  unfolding release_bindings
  give_back-Keeps r c =
      if_both (λ (m : Action W (Unit {0})). Keeps (Same r) m) (is_state c.state created)
        (release_given-Keeps r p.has_alloc c.port_bindings) (λ s same. same)

  pub remove_stopped-Ends :
      (r : Registry) (c : Container) (t : State W)
      → t.registry ≡ r
      → Ends (λ u. u.registry ≡ r) (λ u. Gone c.id) (remove_stopped p c t)
  unfolding remove_stopped ◌>>◌
  remove_stopped-Ends r c t same =
      let give_back =
        if is_state c.state created then release_bindings p c.port_bindings else pure tt in
      let delete_task = on_error translated (call (p.remove c.id)) in
      let chain = detach_all p c.id >> give_back >> delete_task in
      >>=-Ends (λ u. unregister p c.id) (λ u. u.registry ≡ r) (λ a u. u.registry ≡ r)
        (λ u. Gone c.id) chain t
        (Keeps-Ends (Same r) (chain t) (
          >>-Keeps (Same r) (detach_all p c.id >> give_back) delete_task
            (>>-Keeps (Same r) (detach_all p c.id) give_back (detach_all-Keeps r c.id)
              (give_back-Keeps r c))
            (on_error-Keeps (Same r) translated (call (p.remove c.id)) (λ s kept. kept)) t same))
        (λ a u kept. unregister-Ends r c.id u kept)
