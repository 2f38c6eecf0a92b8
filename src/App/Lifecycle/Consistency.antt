-- ===== src/App/Lifecycle/Consistency.antt =====
-- The container requests of internal/app/containers.go keep the two indexes of the registry consistent.
use dockerdless.Base.{
  ◌≡◌, refl, Bool, true, false, not, ◌&&◌, Option, List, [], ◌∷◌, Text, bytes, text_eq, trim_prefix,
  trim_space, is_empty, Result, ok, err, Result-cases, inl, inr, if◌then◌else◌, if_both, pos, ℤ,
  int_eq,
}
use dockerdless.Failures.{GoError}
use dockerdless.Domain.Model.{
  ContainerId, ContainerState, Container, PortBinding, created, running, exited,
}
use dockerdless.Domain.Registry.{Registry, RegistryError, saves, step, remove as registry_remove}
use dockerdless.Domain.Registry.Consistency.{IsConsistent}
use dockerdless.Domain.Registry.Methods.{step-IsConsistent, remove-IsConsistent}
use dockerdless.App.Ports.{Ports}
use dockerdless.App.Service.{
  State, Action, pure, attempt, call, ◌>>=◌, ◌>>◌, on_error, translated, resolve_container,
  save_container, release_bindings, release_given, close_log_sink, open_log_sink, discard_logs,
  is_open,
}
use dockerdless.App.Service.Frames.{Keeps, >>=-Keeps, >>-Keeps, on_error-Keeps}
use dockerdless.App.Lifecycle.{
  is_state, is_over, is_active, await_exit, refreshed, refresh, save_changed, settle, observe,
  list_each, container_inspect, stop_task, container_stop, state_to_remove, detach_all,
  unregistered, unregister, remove_stopped, remove_resolved, container_remove, effective_timeout,
}

module _ {W : Type 0} (p : Ports W) where
  abbrev pub Kept : {A : Type 0} → Action W A → Type 0
  Kept m = Keeps IsConsistent m

  abbrev pub Fine : {A : Type 0} → Result GoError A × State W → Type 0
  Fine r = IsConsistent r.1.registry

  resolve_container-Kept : (ref : Text) → Kept (resolve_container p ref)
  unfolding resolve_container
  resolve_container-Kept ref s v =
      if_both (Fine {A = Container}) (is_empty (trim_prefix (bytes "/") (trim_space ref))) v v

  pub save_container-Kept : (c : Container) → Kept (save_container p c)
  unfolding save_container step
  save_container-Kept c s v =
      step-IsConsistent s.registry
        (saves (p.context s.world) (record c { updated_at = p.now s.world })) v

  release_given-Kept :
      (given : Bool) (bs : List PortBinding) → Kept (release_given {W = W} given bs)
  release_given-Kept given [] s v = v
  release_given-Kept false (b ∷ bs) s v = v
  release_given-Kept true (b ∷ bs) s v = v

  pub release_bindings-Kept : (bs : List PortBinding) → Kept (release_bindings p bs)
  unfolding release_bindings
  release_bindings-Kept bs = release_given-Kept p.has_alloc bs

  pub close_log_sink-Kept : (id : ContainerId) → Kept (close_log_sink p id)
  unfolding close_log_sink
  close_log_sink-Kept id s v = if_both (Fine {A = Unit {0}}) (is_open id s.logs) v v

  pub open_log_sink-Kept :
      (id : ContainerId) (s : State W)
      → IsConsistent s.registry
      → IsConsistent (open_log_sink p id s).1.registry
  unfolding open_log_sink
  open_log_sink-Kept id s v = elim (Result-cases (p.open_log id s.world).0) [
    | inl (u, e) ↦
        if_both (λ (r : Result Text (Unit {0}) × State W). IsConsistent r.1.registry)
          (is_open id s.logs) v (rw e v)
    | inr (u, e) ↦
        if_both (λ (r : Result Text (Unit {0}) × State W). IsConsistent r.1.registry)
          (is_open id s.logs) v (rw e v)
  ]

  discard_logs-Kept : (id : ContainerId) → Kept (discard_logs p id)
  unfolding discard_logs ◌>>◌
  discard_logs-Kept id =
      >>=-Keeps IsConsistent (close_log_sink p id) _ (close_log_sink-Kept id) (λ u s v. v)

  -- A port's answer, whether its error is looked at or replaced, leaves the registry.
  pub asked :
      {A B : Type 0} (f : W → Result GoError A × W) (k : Result GoError A → Action W B)
      → ((r : Result GoError A) → Kept (k r))
      → Kept (attempt (call f) >>= k)
  asked f k next = >>=-Keeps IsConsistent (attempt (call f)) k (λ s v. v) next

  await_exit-Kept : (c : Container) (state : ContainerState) → Kept (await_exit p c state)
  unfolding await_exit ◌>>◌
  await_exit-Kept c state =
      >>=-Keeps IsConsistent (close_log_sink p c.id >> attempt (call (p.wait c.id))) _
        (>>=-Keeps IsConsistent (close_log_sink p c.id) _ (close_log_sink-Kept c.id) (λ u s v. v))
        (λ r s v. v)

  refreshed-Kept : (c : Container) (r : Result GoError ContainerState) → Kept (refreshed p c r)
  refreshed-Kept c (err e) = λ s v. v
  refreshed-Kept c (ok state) =
      if_both Kept (is_state c.state created && not (is_state state running)) (λ s v. v)
        (if_both Kept (is_state c.state state && is_state state running) (λ s v. v)
          (if_both Kept (is_over state) (await_exit-Kept c state) (λ s v. v)))

  refresh-Kept : (c : Container) → Kept (refresh p c)
  unfolding refresh
  refresh-Kept c = asked (p.status c.id) (refreshed p c) (refreshed-Kept c)

  save_changed-Kept : (changed : Bool) (c : Container) → Kept (save_changed p changed c)
  save_changed-Kept false c s v = v
  save_changed-Kept true c s v = save_container-Kept c s v

  settle-Kept : (u : Container × Bool) → Kept (settle p u)
  unfolding settle
  settle-Kept u s v = save_changed-Kept _ _ s v

  observe-Kept : (c : Container) → Kept (observe p c)
  unfolding observe
  observe-Kept c = >>=-Keeps IsConsistent (refresh p c) (settle p) (refresh-Kept c) settle-Kept

  pub list_each-Kept : (all : Bool) (cs : List Container) → Kept (list_each p all cs)
  unfolding list_each
  list_each-Kept all [] = λ s v. v
  list_each-Kept all (c ∷ cs) =
      >>=-Keeps IsConsistent (observe p c) _ (observe-Kept c)
        (λ u. >>=-Keeps IsConsistent (list_each p all cs) _ (list_each-Kept all cs) (λ us s v. v))

  -- A chain that begins with the look-up of the container.
  pub resolved :
      {B : Type 0} (ref : Text) (f : Container → Action W B)
      → ((c : Container) → Kept (f c))
      → Kept (resolve_container p ref >>= f)
  resolved ref f next =
      >>=-Keeps IsConsistent (resolve_container p ref) f (resolve_container-Kept ref) next

  pub container_inspect-Kept : (ref : Text) → Kept (container_inspect p ref)
  unfolding container_inspect
  container_inspect-Kept ref = resolved ref (observe p) observe-Kept

  stop_task-Kept : (timeout : Option ℤ) (c : Container) → Kept (stop_task p timeout c)
  unfolding stop_task ◌>>◌
  stop_task-Kept timeout c =
      let halt = call (p.stop c.id (effective_timeout p timeout)) in
      >>=-Keeps IsConsistent (on_error translated halt >> refresh p c) _
        (>>=-Keeps IsConsistent (on_error translated halt) _
          (on_error-Keeps IsConsistent translated halt (λ s v. v)) (λ u. refresh-Kept c))
        (λ u.
          >>=-Keeps IsConsistent (close_log_sink p c.id) _ (close_log_sink-Kept c.id)
            (λ w. save_container-Kept (record (if u.1 then u.0 else c) { state = exited })))

  pub container_stop-Kept : (ref : Text) (timeout : Option ℤ) → Kept (container_stop p ref timeout)
  unfolding container_stop
  container_stop-Kept ref timeout =
      resolved ref _
        (λ c. if_both Kept (is_state c.state created) (λ s v. v) (stop_task-Kept timeout c))

  unregistered-Kept :
      (id : ContainerId) (s : State W) (r : Result RegistryError Registry)
      → registry_remove s.registry (p.context s.world) id ≡ r
      → IsConsistent s.registry
      → IsConsistent (unregistered p id r s).1.registry
  unregistered-Kept id s (ok t) h v =
      discard_logs-Kept id (record s { registry = t })
        (remove-IsConsistent s.registry t (p.context s.world) id v h)
  unregistered-Kept id s (err RegistryError.container_not_found) h v = discard_logs-Kept id s v
  unregistered-Kept id s (err e) h v = v

  unregister-Kept : (id : ContainerId) → Kept (unregister p id)
  unfolding unregister
  unregister-Kept id s v =
      unregistered-Kept id s (registry_remove s.registry (p.context s.world) id) refl v

  detach_all-Kept : (id : ContainerId) → Kept (detach_all p id)
  unfolding detach_all
  detach_all-Kept id s v = v

  remove_stopped-Kept : (c : Container) → Kept (remove_stopped p c)
  unfolding remove_stopped
  remove_stopped-Kept c =
      let give_back =
        if is_state c.state created then release_bindings p c.port_bindings else pure tt in
      let delete = on_error translated (call (p.remove c.id)) in
      >>-Keeps IsConsistent (detach_all p c.id >> give_back >> delete) (unregister p c.id)
        (>>-Keeps IsConsistent (detach_all p c.id >> give_back) delete
          (>>-Keeps IsConsistent (detach_all p c.id) give_back (detach_all-Kept c.id) (
            if_both Kept (is_state c.state created) (release_bindings-Kept c.port_bindings)
              (λ s v. v)))
          (on_error-Keeps IsConsistent translated (call (p.remove c.id)) (λ s v. v)))
        (unregister-Kept c.id)

  state_to_remove-Kept :
      (force : Bool) (c : Container) (state : ContainerState)
      → Kept (state_to_remove p force c state)
  unfolding state_to_remove
  state_to_remove-Kept force c state =
      if_both Kept (force && not (is_state state exited))
        (asked (p.stop c.id (pos 0)) (λ r. pure exited) (λ r s v. v)) (λ s v. v)

  remove_resolved-Kept : (force : Bool) (c : Container) → Kept (remove_resolved p force c)
  unfolding remove_resolved
  remove_resolved-Kept force c =
      let find = on_error translated (call (p.status c.id)) in
      >>=-Keeps IsConsistent (find >>= state_to_remove p force c) _
        (>>=-Keeps IsConsistent find (state_to_remove p force c)
          (on_error-Keeps IsConsistent translated (call (p.status c.id)) (λ s v. v))
          (state_to_remove-Kept force c))
        (λ state. if_both Kept (is_active state) (λ s v. v) (remove_stopped-Kept c))

  pub container_remove-Kept : (ref : Text) (force : Bool) → Kept (container_remove p ref force)
  unfolding container_remove
  container_remove-Kept ref force =
      resolved ref (remove_resolved p force) (remove_resolved-Kept force)
