-- ===== src/App/Lifecycle.antt =====
-- ContainerList, ContainerInspect, ContainerStop and ContainerRemove of internal/app/containers.go, and
-- how they bring a container up to date with the runtime.
pub mod Start
pub mod Requests
pub mod Consistency
pub mod Served
pub mod Gone
pub mod Removed
mod Tests
use dockerdless.Base.{
  ℕ, Bool, true, false, not, ◌&&◌, ◌||◌, Option, none, some, List, [], ◌∷◌, ◌++◌, Text, bytes,
  text_eq, Result, ok, err, if◌then◌else◌, ◌==◌, ℤ, pos, negsuc, int_eq,
}
use dockerdless.Failures.{GoError, conflict, container_not_found, is_error}
use dockerdless.Domain.Model.{
  ContainerId, ContainerState, unknown, created, running, paused, restarting, removing, exited,
  dead, other, Container, Time, is_zero,
}
use dockerdless.Domain.Registry.{Registry, RegistryError, remove as registry_remove, list}
use dockerdless.App.Errors.{new_docker_error}
use dockerdless.App.Ports.{Ports, ProcessExit}
use dockerdless.App.Service.{
  State, Action, pure, fail, attempt, call, gets, ◌>>=◌, ◌>>◌, on_error, translated, registry_error,
  conflict_error, resolve_container, save_container, release_bindings, close_log_sink, discard_logs,
}

abbrev pub state_text : ContainerState → Text
state_text unknown = bytes "unknown"
state_text created = bytes "created"
state_text running = bytes "running"
state_text paused = bytes "paused"
state_text restarting = bytes "restarting"
state_text removing = bytes "removing"
state_text exited = bytes "exited"
state_text dead = bytes "dead"
state_text (other s) = s

abbrev pub is_state : ContainerState → ContainerState → Bool
is_state a b = state_text a == state_text b

-- The task runs no more, or never will.
abbrev pub is_over : ContainerState → Bool
is_over state = not (is_state state running) && not (is_state state created)

-- The states that a removal refuses.
unfoldable pub is_active : ContainerState → Bool
is_active state = is_state state running || (is_state state paused || is_state state restarting)

-- A time that is not known is the creation's, or else the present.
unfoldable pub or_created : Time → Time → Time → Time
or_created t born now = if is_zero t then (if is_zero born then now else born) else t

unfoldable pub normalize_container_timestamps : Container → Time → Container
unfolding or_created
normalize_container_timestamps c now = record c {
  started_at =
      if is_state c.state running || is_state c.state paused
      then or_created c.started_at c.created_at now
      else c.started_at;
  finished_at =
      if is_state c.state exited then or_created c.finished_at c.created_at now else c.finished_at;
}

-- What the runtime's Wait adds; the second part of `refreshed` also moves the update's time.
abbrev pub with_exit : Result GoError ProcessExit → Container → Container
with_exit (err e) c = c
with_exit (ok exit) c = record c {
  exit_code = pos exit.exit_code;
  finished_at = if is_zero exit.exited_at then c.finished_at else exit.exited_at;
}

abbrev pub with_update : Result GoError ProcessExit → Container → Container
with_update (err e) c = c
with_update (ok exit) c = record c {
  updated_at = if is_zero exit.exited_at then c.updated_at else exit.exited_at;
}

-- The container brought up to date, and whether that is a change.
unfoldable pub compared : Container → Container → Container × Bool
compared c u = (
  u,
  not (is_state u.state c.state)
      || (not (u.exit_code == c.exit_code) || not (u.finished_at == c.finished_at)),
)

module _ {W : Type 0} (p : Ports W) where
  unfoldable pub await_exit : Container → ContainerState → Action W (Container × Bool)
  unfolding ◌>>◌ ◌>>=◌ compared close_log_sink
  await_exit c state = close_log_sink p c.id >> attempt (call (p.wait c.id)) >>= λ exit.
      pure (compared c (with_update exit (with_exit exit (record c { state = state }))))

  -- What follows the runtime's Status.
  abbrev pub refreshed : Container → Result GoError ContainerState → Action W (Container × Bool)
  refreshed c (err e) = pure (c, false)
  refreshed c (ok state) =
      if is_state c.state created && not (is_state state running)
      then pure (c, false)
      else if is_state c.state state && is_state state running
      then pure (c, false)
      else if is_over state
      then await_exit c state
      else pure (compared c (record c { state = state }))

  unfoldable pub refresh : Container → Action W (Container × Bool)
  unfolding ◌>>=◌ await_exit compared
  refresh c = attempt (call (p.status c.id)) >>= refreshed c

  -- The record is saved if it is a change.
  abbrev pub save_changed : Bool → Container → Action W Container
  save_changed false c s = (ok c, s)
  save_changed true c s = (ok c, (save_container p c s).1)

  unfoldable pub settle : Container × Bool → Action W Container
  unfolding normalize_container_timestamps
  settle u s =
      let n = normalize_container_timestamps u.0 (p.now s.world) in
      save_changed
        (u.1 || (not (n.started_at == u.0.started_at) || not (n.finished_at == u.0.finished_at))) n
        s

  -- The common part of the list and of the inspection.
  unfoldable pub observe : Container → Action W Container
  unfolding ◌>>=◌ refresh settle
  observe c = refresh c >>= settle

  unfoldable pub list_each : Bool → List Container → Action W (List Container)
  unfolding ◌>>=◌ observe
  list_each all [] = pure []
  list_each all (c ∷ cs) = observe c >>= λ u. list_each all cs >>= λ us.
      pure (if not all && not (is_state u.state running) then us else u ∷ us)

  unfoldable pub container_list : Bool → Action W (List Container)
  unfolding list_each
  container_list all s = list_each all (list s.registry) s

  unfoldable pub container_inspect : Text → Action W Container
  unfolding ◌>>=◌ resolve_container observe
  container_inspect ref = resolve_container p ref >>= observe

  -- The request's time-out, unless there is none or it is negative.
  abbrev pub effective_timeout : Option ℤ → ℤ
  effective_timeout none = p.stop_timeout
  effective_timeout (some (pos n)) = pos n
  effective_timeout (some (negsuc n)) = p.stop_timeout

  unfoldable pub stop_task : Option ℤ → Container → Action W (Unit {0})
  unfolding ◌>>◌ ◌>>=◌ on_error translated refresh save_container close_log_sink
  stop_task timeout c =
      on_error translated (call (p.stop c.id (effective_timeout timeout))) >> refresh c >>= λ u.
      close_log_sink p c.id >> save_container p (record (if u.1 then u.0 else c) { state = exited })

  unfoldable pub container_stop : Text → Option ℤ → Action W (Unit {0})
  unfolding ◌>>=◌ resolve_container stop_task
  container_stop ref timeout = resolve_container p ref >>= λ c.
      if is_state c.state created then pure tt else stop_task timeout c

  -- A forced removal stops the task first, and its state then counts as exited.
  unfoldable pub state_to_remove : Bool → Container → ContainerState → Action W ContainerState
  unfolding ◌>>=◌
  state_to_remove force c state =
      if force && not (is_state state exited)
      then attempt (call (p.stop c.id (pos 0))) >>= (λ r. pure exited)
      else pure state

  unfoldable pub detach_all : ContainerId → Action W (Unit {0})
  detach_all id s =
      let answer = p.disconnect_all id s.alloc s.world in
      (ok tt, record s { alloc = answer.1; world = answer.2 })

  -- What follows the registry's Remove.
  abbrev pub unregistered : ContainerId → Result RegistryError Registry → Action W (Unit {0})
  unregistered id (ok r) s = discard_logs p id (record s { registry = r })
  unregistered id (err RegistryError.container_not_found) s = discard_logs p id s
  unregistered id (err e) s = (err (translated (registry_error e)), s)

  unfoldable pub unregister : ContainerId → Action W (Unit {0})
  unfolding discard_logs registry_error translated
  unregister id s = unregistered id (registry_remove s.registry (p.context s.world) id) s

  unfoldable pub remove_stopped : Container → Action W (Unit {0})
  unfolding ◌>>◌ ◌>>=◌ detach_all release_bindings on_error translated unregister
  remove_stopped c =
      detach_all c.id
      >> (if is_state c.state created then release_bindings p c.port_bindings else pure tt)
      >> on_error translated (call (p.remove c.id))
      >> unregister c.id

  unfoldable pub remove_resolved : Bool → Container → Action W (Unit {0})
  unfolding ◌>>=◌ on_error translated state_to_remove remove_stopped conflict_error is_active
  remove_resolved force c =
      on_error translated (call (p.status c.id)) >>= state_to_remove force c >>= λ state.
      if is_active state
      then fail (
          conflict_error (
            bytes "You cannot remove a running container "
            ++ c.id
            ++ bytes ". Stop the container before attempting removal or force remove"))
      else remove_stopped c

  unfoldable pub container_remove : Text → Bool → Action W (Unit {0})
  unfolding ◌>>=◌ resolve_container remove_resolved
  container_remove ref force = resolve_container p ref >>= remove_resolved force
