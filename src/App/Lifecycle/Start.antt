-- ===== src/App/Lifecycle/Start.antt =====
-- ContainerStart of internal/app/containers.go: the log sink, the task, the network, and the record.
use dockerdless.Base.{
  ℕ, Bool, true, false, ◌||◌, Option, none, some, List, [], ◌∷◌, ◌++◌, Text, bytes, is_empty,
  text_eq, Result, ok, err, if◌then◌else◌, ◌==◌, pos,
}
use dockerdless.Failures.{GoError}
use dockerdless.Domain.Model.{
  ContainerId, ContainerState, running, exited, dead, Container, PortBinding, NetworkAttachment,
}
use dockerdless.Cni.Ports.{Allocator}
use dockerdless.Cni.Ports.Allocate.{allocate_bindings}
use dockerdless.Cni.Modes.{host_network_name, none_network_name}
use dockerdless.App.Ports.{Ports, NetworkConnectRequest, NetworkAttachmentResult}
use dockerdless.App.Service.{
  State, Action, pure, fail, attempt, call, ◌>>=◌, ◌>>◌, on_error, translated, server_error,
  resolve_container, save_container, release_bindings, open_log_sink, close_log_sink,
}
use dockerdless.App.Lifecycle.{is_state, is_over, with_exit}

unfoldable pub container_has_exited : ContainerState → Bool
container_has_exited state = is_state state exited || is_state state dead

unfoldable pub is_host_or_none_network : Text → Bool
is_host_or_none_network name =
    is_empty name || (name == host_network_name || name == none_network_name)

abbrev pub first_attachable : List NetworkAttachment → Option NetworkAttachment
first_attachable [] = none
first_attachable (n ∷ ns) = if is_host_or_none_network n.name then none else some n

unfoldable pub attachable_network : Container → Option NetworkAttachment
unfolding is_host_or_none_network
attachable_network c = first_attachable c.networks

abbrev pub with_attachment : Option NetworkAttachmentResult → Container → Container
with_attachment none c = c
with_attachment (some a) c = record c {
  networks = a.attachment ∷ [];
  port_bindings = elim a.ports [ [] ↦ c.port_bindings | b ∷ bs ↦ b ∷ bs ];
}

-- The container ended before its network could be joined.
abbrev pub exited_early : Result GoError ContainerState → Bool
exited_early (err e) = false
exited_early (ok state) = container_has_exited state

abbrev pub Connector : Type 0 → Type 0
Connector W =
    NetworkConnectRequest → Allocator → W → Result GoError NetworkAttachmentResult × Allocator × W

module _ {W : Type 0} (p : Ports W) where
  -- A call of the network adapter, which may change the host ports.
  unfoldable pub connect_with :
      Connector W → NetworkConnectRequest → Action W NetworkAttachmentResult
  connect_with f request s =
      let answer = f request s.alloc s.world in
      (answer.0, record s { alloc = answer.1; world = answer.2 })

  -- Whatever AllocateBindings answers is only logged.
  abbrev pub reserve_again : Bool → List PortBinding → Action W (Unit {0})
  reserve_again given [] s = (ok tt, s)
  reserve_again false (b ∷ bs) s = (ok tt, s)
  reserve_again true (b ∷ bs) s =
      (ok tt, record s { alloc = (allocate_bindings p.parse_ip p.probe s.alloc (b ∷ bs)).1 })

  unfoldable pub restore_port_reservations : Container → Action W (Unit {0})
  unfolding allocate_bindings
  restore_port_reservations c = reserve_again p.has_alloc c.port_bindings

  -- What follows ConnectReserved.
  abbrev pub restore_on_failure :
      Container → Result GoError NetworkAttachmentResult → Action W NetworkAttachmentResult
  restore_on_failure c (ok r) = pure r
  restore_on_failure c (err e) = restore_port_reservations c >> fail e

  abbrev pub connect_network :
      Option (Connector W) → Container → NetworkConnectRequest → Action W NetworkAttachmentResult
  connect_network none c request =
      release_bindings p c.port_bindings >> connect_with p.connect request
  connect_network (some f) c request = attempt (connect_with f request) >>= restore_on_failure c

  unfoldable pub attach_named :
      Container → NetworkAttachment → ℕ → Action W (Option NetworkAttachmentResult)
  unfolding ◌>>◌ ◌>>=◌ release_bindings connect_with restore_port_reservations
  attach_named c n pid =
      connect_network p.connect_reserved c (record {
        network = n.name;
        container = c.id;
        netns = bytes "/proc/" ++ p.decimal pid ++ bytes "/ns/net";
        ports = c.port_bindings;
        aliases = [];
      })
      >>= λ r. pure (some r)

  abbrev pub attach_located :
      Option (ContainerId → W → Result GoError ℕ × W)
      → Container
      → Option NetworkAttachment
      → Action W (Option NetworkAttachmentResult)
  attach_located tasks c none = pure none
  attach_located none c (some n) =
      fail (server_error (bytes "runtime task lookup is not configured"))
  attach_located (some task_pid) c (some n) =
      on_error translated (call (task_pid c.id)) >>= attach_named c n

  unfoldable pub attach_network : Container → Action W (Option NetworkAttachmentResult)
  unfolding ◌>>=◌ on_error translated server_error attach_named attachable_network
  attach_network c = attach_located p.task_pid c (attachable_network c)

  unfoldable pub abandon_start : Container → GoError → Action W (Option NetworkAttachmentResult)
  unfolding ◌>>◌ ◌>>=◌ close_log_sink translated
  abandon_start c e = close_log_sink p c.id >> attempt (call (p.stop c.id p.stop_timeout)) >>= λ r.
      fail (translated e)

  abbrev pub joined :
      Container
      → Result GoError (Option NetworkAttachmentResult)
      → Action W (Option NetworkAttachmentResult)
  joined c (ok a) = pure a
  joined c (err e) = attempt (call (p.status c.id)) >>= λ state.
      if exited_early state
      then release_bindings p c.port_bindings >> pure none
      else abandon_start c e

  unfoldable pub join_container_network : Container → Action W (Option NetworkAttachmentResult)
  unfolding ◌>>◌ ◌>>=◌ attach_network release_bindings abandon_start container_has_exited
  join_container_network c = attempt (attach_network c) >>= joined c

  unfoldable pub container_is_running : Container → Action W Bool
  container_is_running c s = (
    ok (elim (p.status c.id s.world).0 [ err e ↦ false | ok state ↦ is_state state running ]),
    record s { world = (p.status c.id s.world).1 },
  )

  -- What follows openLogSink, and what follows the runtime's StartWithIO.
  abbrev pub task_started : Container → Result GoError (Unit {0}) → Action W (Unit {0})
  task_started c (ok u) = pure tt
  task_started c (err e) = close_log_sink p c.id >> fail (translated e)

  abbrev pub sink_opened :
      Container → Result Text (Unit {0}) × State W → Result GoError (Unit {0}) × State W
  sink_opened c (err e, s) = (err (server_error (bytes "failed to open container logs: " ++ e)), s)
  sink_opened c (ok u, s) = (attempt (call (p.start_with_io c.id)) >>= task_started c) s

  unfoldable pub start_container_task : Container → Action W (Unit {0})
  unfolding ◌>>◌ ◌>>=◌ open_log_sink close_log_sink translated server_error
  start_container_task c s = sink_opened c (open_log_sink p c.id s)

  unfoldable pub save_finished : Container → ContainerState → Action W Bool
  unfolding ◌>>◌ ◌>>=◌ close_log_sink save_container
  save_finished c state = attempt (call (p.wait c.id)) >>= λ exit.
      close_log_sink p c.id
      >> save_container p (with_exit exit (record c { state = state }))
      >> pure true

  -- What follows the runtime's Status.
  abbrev pub finalized : Container → Result GoError ContainerState → Action W Bool
  finalized c (err e) = pure false
  finalized c (ok state) = if is_over state then save_finished c state else pure false

  unfoldable pub finalize_already_exited_start : Container → Action W Bool
  unfolding ◌>>=◌ save_finished
  finalize_already_exited_start c = attempt (call (p.status c.id)) >>= finalized c

  unfoldable pub mark_container_running :
      Container → Option NetworkAttachmentResult → Action W (Unit {0})
  unfolding save_container
  mark_container_running c a s =
      save_container p
        (record (with_attachment a c) {
          state = running;
          started_at = p.now s.world;
          finished_at = pos 0;
          exit_code = pos 0;
        })
        s

  unfoldable pub start_stopped : Container → Action W (Unit {0})
  unfolding ◌>>◌ ◌>>=◌ start_container_task join_container_network finalize_already_exited_start
      mark_container_running
  start_stopped c = start_container_task c >> join_container_network c >>= λ a.
      finalize_already_exited_start c >>= λ finished.
      if finished then pure tt else mark_container_running c a

  unfoldable pub container_start : Text → Action W (Unit {0})
  unfolding ◌>>=◌ resolve_container container_is_running start_stopped
  container_start ref = resolve_container p ref >>= λ c.
      container_is_running c >>= λ active. if active then pure tt else start_stopped c
