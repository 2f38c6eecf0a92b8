-- ===== src/App/Lifecycle/Removed.antt =====
-- ContainerRemove of internal/app/containers.go, by how it ends.
use dockerdless.Base.{
  ◌≡◌, refl, sym, ap, subst, Bool, true, false, not, ◌&&◌, Text, text_eq, arith, Result, ok, err,
  inl, inr, ◌⊎◌, if_both, is_empty, trim_space, trim_prefix, bytes, Bool-cases,
}
use dockerdless.Failures.{GoError}
use dockerdless.Domain.Model.{ContainerState, Container, running, paused, restarting, exited}
use dockerdless.App.Ports.{Ports}
use dockerdless.App.Service.{
  State, Action, call, ◌>>=◌, on_error, replace_error, bind_result, translated, resolve_container,
}
use dockerdless.App.Service.Frames.{Ends, >>=-Ends, Ends-map}
use dockerdless.App.Lifecycle.{
  is_state, is_active, state_to_remove, remove_stopped, remove_resolved, container_remove,
}
use dockerdless.App.Lifecycle.Gone.{Gone, remove_stopped-Ends}

not_active :
    (state : ContainerState)
    → is_active state ≡ false
    → (is_state state running ≡ false)
      × (is_state state paused ≡ false)
      × (is_state state restarting ≡ false)
unfolding is_active
not_active state h = ground (arith, h)

module _ {W : Type 0} (p : Ports W) where
  -- The state that a removal goes by: the runtime's answer, or, when it is forced, any.
  GoesBy : Bool → State W → Container → ContainerState → State W → Type 0
  GoesBy force s c state t =
      (t.registry ≡ s.registry) × ((force ≡ true) ⊎ ((p.status c.id s.world).0 ≡ ok state))

  -- How a removal that has succeeded left the state.
  pub record Removes (force : Bool) (s : State W) (c : Container) (t : State W) : Type 0 where
    pub state : ContainerState
    pub idle :
        (is_state state running ≡ false)
        × (is_state state paused ≡ false)
        × (is_state state restarting ≡ false)
    pub answered : (force ≡ true) ⊎ ((p.status c.id s.world).0 ≡ ok state)
    pub gone : Gone c.id t

  module _ (force : Bool) (c : Container) (s : State W) where
    asked-Ends :
        (r : Result GoError ContainerState) (t : State W)
        → (p.status c.id s.world).0 ≡ r
        → t.registry ≡ s.registry
        → Ends
            (λ u. u.registry ≡ s.registry)
            (λ state u. (u.registry ≡ s.registry) × ((p.status c.id s.world).0 ≡ ok state))
            (replace_error translated (r, t))
    asked-Ends (ok state) t answer same = (same, answer)
    asked-Ends (err e) t answer same = same

    state_to_remove-Ends :
        (state : ContainerState) (t : State W)
        → (t.registry ≡ s.registry) × ((p.status c.id s.world).0 ≡ ok state)
        → Ends (λ u. u.registry ≡ s.registry) (GoesBy force s c) (state_to_remove p force c state t)
    unfolding state_to_remove ◌>>=◌ GoesBy
    state_to_remove-Ends state t (same, answer) = elim (Bool-cases force) [
      | inl h ↦
          if_both
            (λ (m : Action W ContainerState).
              Ends (λ u. u.registry ≡ s.registry) (GoesBy force s c) (m t))
            (force && not (is_state state exited)) (same, inl h) (same, inl h)
      | inr h ↦ rw h (same, inr answer)
    ]

    allowed-Ends :
        (state : ContainerState) (t : State W)
        → GoesBy force s c state t
        → is_active state ≡ false
        → Ends (λ u. u.registry ≡ s.registry) (λ u. Removes force s c) (remove_stopped p c t)
    unfolding GoesBy
    allowed-Ends state t by allowed =
        Ends-map (λ u. u.registry ≡ s.registry) (λ u. u.registry ≡ s.registry) (λ u. Gone c.id)
          (λ u. Removes force s c) (remove_stopped p c t) (λ u e. e)
          (λ u v gone. record {
            state = state;
            idle = not_active state allowed;
            answered = by.1;
            gone = gone;
          })
          (remove_stopped-Ends p s.registry c t by.0)

    remove_resolved-Ends :
        Ends (λ t. t.registry ≡ s.registry) (λ u. Removes force s c) (remove_resolved p force c s)
    unfolding remove_resolved on_error GoesBy
    remove_resolved-Ends =
        let ask = on_error translated (call (p.status c.id)) in
        >>=-Ends _ (λ t. t.registry ≡ s.registry) (GoesBy force s c) (λ u. Removes force s c)
          (ask >>= state_to_remove p force c) s
          (>>=-Ends (state_to_remove p force c) (λ t. t.registry ≡ s.registry) _ (GoesBy force s c)
            ask s (asked-Ends (p.status c.id s.world).0 _ refl refl) state_to_remove-Ends)
          (λ state t by. elim (Bool-cases (is_active state)) [
            | inl h ↦ rw h (by.0)
            | inr h ↦ rw h (allowed-Ends state t by h)
          ])

  -- How a removal by a reference ends.
  abbrev pub RemoveEnds : Text → Bool → State W → Result GoError (Unit {0}) × State W → Type 0
  RemoveEnds ref force s (err e, t) = t.registry ≡ s.registry
  RemoveEnds ref force s (ok u, t) =
      (c : Container) × ((resolve_container p ref s).0 ≡ ok c) × Removes force s c t

  Ends-RemoveEnds :
      (ref : Text) (force : Bool) (c : Container) (s : State W)
      (r : Result GoError (Unit {0}) × State W)
      → (resolve_container p ref s).0 ≡ ok c
      → Ends (λ t. t.registry ≡ s.registry) (λ u. Removes force s c) r
      → RemoveEnds ref force s r
  Ends-RemoveEnds ref force c s (ok u, t) found ends = (c, found, ends)
  Ends-RemoveEnds ref force c s (err e, t) found ends = ends

  resolved-RemoveEnds :
      (ref : Text) (force : Bool) (s : State W) (r : Result GoError Container × State W)
      → resolve_container p ref s ≡ r
      → r.1 ≡ s
      → RemoveEnds ref force s (bind_result (remove_resolved p force) r)
  resolved-RemoveEnds ref force s (err e, t) h same = ap (λ u. u.registry) same
  resolved-RemoveEnds ref force s (ok c, t) h same =
      subst (λ u. RemoveEnds ref force s (remove_resolved p force c u)) (sym same)
        (Ends-RemoveEnds ref force c s (remove_resolved p force c s) (ap (λ r. r.0) h)
          (remove_resolved-Ends force c s))

  -- A removal that fails leaves the registry as it was. One that succeeds has found a container, which
  -- the runtime did not report as running, paused or restarting unless the removal was forced, and
  -- afterwards neither the registry nor the open logs have it.
  pub container_remove-RemoveEnds :
      (ref : Text) (force : Bool) (s : State W)
      → RemoveEnds ref force s (container_remove p ref force s)
  unfolding container_remove ◌>>=◌ resolve_container
  container_remove-RemoveEnds ref force s =
      resolved-RemoveEnds ref force s (resolve_container p ref s) refl (
        if_both (λ (r : Result GoError Container × State W). r.1 ≡ s)
          (is_empty (trim_prefix (bytes "/") (trim_space ref))) refl refl)
