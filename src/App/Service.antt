-- ===== src/App/Service.antt =====
-- The state of internal/app/service.go and what its methods are made of. An Action takes the state and
-- gives a result and the next state, which stays written when the result is an error. The runtime,
-- the images, the networks and the clock are ports over a world of any type.
pub mod Frames
use dockerdless.Base.{
  ℕ, ◌-◌, Bool, true, false, not, ◌||◌, Option, none, some, List, [], ◌∷◌, ◌++◌, Text, bytes,
  text_eq, is_empty, trim_space, trim_prefix, strip_prefix, is_some, leb, length, ℤ, Dict, Result,
  ok, err, if◌then◌else◌, ◌==◌, map,
}
use dockerdless.Failures.{
  GoError, Sentinel, sentinel, plain, is_error, not_found, conflict, invalid_argument,
  server_failure, container_not_found, container_name_conflict, empty_container_name,
  empty_identity, context_canceled, context_deadline_exceeded,
}
use dockerdless.Domain.Model.{
  ContainerId, ImageId, NetworkId, ContainerState, Container, PortBinding, NetworkAttachment, Time,
}
use dockerdless.Domain.Registry.{
  Registry, RegistryError, Context, canceled, deadline_exceeded, get, get_by_name, list, after,
  save as registry_save,
}
use dockerdless.Cni.Ports.{Allocator, PortAllocation, PortError, release}
use dockerdless.Cni.Ports.Allocate.{Probe}
use dockerdless.App.Errors.{new_docker_error, translate_error}
use dockerdless.App.Ports.{Ports}

-- The mutable fields of Service: the registry, the host ports, and the containers with an open log.
pub record State (W : Type 0) : Type 0 where
  pub registry : Registry
  pub alloc : Allocator
  pub logs : List ContainerId
  pub world : W

abbrev pub Action : Type 0 → Type 0 → Type 0
Action W A = State W → Result GoError A × State W

module _ {W A : Type 0} where
  abbrev pub pure : A → Action W A
  pure a s = (ok a, s)

  abbrev pub fail : GoError → Action W A
  fail e s = (err e, s)

  -- A call whose error the caller looks at.
  abbrev pub attempt : Action W A → Action W (Result GoError A)
  attempt m s = (ok (m s).0, (m s).1)

  -- A call of a port.
  abbrev pub call : (W → Result GoError A × W) → Action W A
  call f s = ((f s.world).0, record s { world = (f s.world).1 })

  abbrev pub gets : (State W → A) → Action W A
  gets f s = (ok (f s), s)

infixl 5 ◌>>=◌ ◌>>◌
abbrev pub bind_result :
    {W A B : Type 0} → (A → Action W B) → Result GoError A × State W → Result GoError B × State W
bind_result f (ok a, s) = f a s
bind_result f (err e, s) = (err e, s)

unfoldable pub ◌>>=◌ : {W A B : Type 0} → Action W A → (A → Action W B) → Action W B
◌>>=◌ m f s = bind_result f (m s)

unfoldable pub ◌>>◌ : {W B : Type 0} → Action W (Unit {0}) → Action W B → Action W B
unfolding ◌>>=◌
m >> k = m >>= λ _. k

abbrev pub modify : {W : Type 0} → (State W → State W) → Action W (Unit {0})
modify f s = (ok tt, f s)

module _ {W : Type 0} where
  abbrev pub replace_error :
      {A : Type 0} → (GoError → GoError) → Result GoError A × State W → Result GoError A × State W
  replace_error f (ok a, s) = (ok a, s)
  replace_error f (err e, s) = (err (f e), s)

  -- The caller puts another error in the place of a call's.
  unfoldable pub on_error : {A : Type 0} → (GoError → GoError) → Action W A → Action W A
  on_error f m s = replace_error f (m s)

unfoldable pub not_found_error : Text → GoError
not_found_error message = new_docker_error not_found message none

unfoldable pub conflict_error : Text → GoError
conflict_error message = new_docker_error conflict message none

unfoldable pub invalid_error : Text → GoError
invalid_error message = new_docker_error invalid_argument message none

unfoldable pub server_error : Text → GoError
server_error message = new_docker_error server_failure message none

-- The errors of internal/domain/registry.go and of package context as error values.
unfoldable pub registry_error : RegistryError → GoError
registry_error RegistryError.container_not_found = sentinel container_not_found
registry_error RegistryError.name_conflict = sentinel container_name_conflict
registry_error RegistryError.empty_name = sentinel empty_container_name
registry_error RegistryError.empty_identity = sentinel empty_identity
registry_error RegistryError.nil_context = plain (bytes "context must not be nil")
registry_error (RegistryError.context_done canceled) = sentinel context_canceled
registry_error (RegistryError.context_done deadline_exceeded) = sentinel context_deadline_exceeded

-- translateError of an error that is there.
unfoldable pub translated : GoError → GoError
translated e = elim (translate_error (some e)) [ none ↦ e | some f ↦ f ]

abbrev pub reservations_for : List PortBinding → List PortAllocation
reservations_for =
    map (λ b. record { protocol = b.protocol; host_ip = b.host_ip; host_port = b.host_port })

-- The containers whose identity begins with the reference.
unfoldable pub prefix_matches : Text → List Container → List Container
prefix_matches ref [] = []
prefix_matches ref (c ∷ cs) =
    let rest = prefix_matches ref cs in if is_some (strip_prefix ref c.id) then c ∷ rest else rest

-- The search by a prefix that is long enough.
unfoldable pub choose_match : Text → List Container → Result GoError Container
unfolding not_found_error invalid_error
choose_match ref [] = err (not_found_error (bytes "No such container: " ++ ref))
choose_match ref (c ∷ []) = ok c
choose_match ref (c ∷ d ∷ cs) =
    err (invalid_error (bytes "multiple containers match prefix " ++ ref))

unfoldable pub find_container : Registry → Context → Text → Result GoError Container
unfolding prefix_matches choose_match registry_error translated
find_container r ctx ref = elim (get r ctx ref) [
  | ok c ↦ ok c
  | err RegistryError.container_not_found ↦ elim (get_by_name r ref) [
    | ok c ↦ ok c
    | err e ↦ choose_match ref (if leb 3 (length ref) then prefix_matches ref (list r) else [])
  ]
  | err e ↦ err (translated (registry_error e))
]

unfoldable pub is_open : ContainerId → List ContainerId → Bool
is_open id [] = false
is_open id (x ∷ xs) = x == id || is_open id xs

unfoldable pub without : ContainerId → List ContainerId → List ContainerId
without id [] = []
without id (x ∷ xs) = if x == id then without id xs else x ∷ without id xs

-- Nothing is done without an allocator or without bindings.
abbrev pub release_given : {W : Type 0} → Bool → List PortBinding → Action W (Unit {0})
release_given given [] s = (ok tt, s)
release_given false (b ∷ bs) s = (ok tt, s)
release_given true (b ∷ bs) s =
    (ok tt, record s { alloc = release (reservations_for (b ∷ bs)) s.alloc })

module _ {W : Type 0} (p : Ports W) where
  unfoldable pub resolve_container : Text → Action W Container
  unfolding find_container invalid_error
  resolve_container requested s =
      let ref = trim_prefix (bytes "/") (trim_space requested) in
      if is_empty ref
      then (err (invalid_error (bytes "container id or name must not be empty")), s)
      else (find_container s.registry (p.context s.world) ref, s)

  -- Save, whose error is logged.
  unfoldable pub save_container : Container → Action W (Unit {0})
  save_container c s = (
    ok tt,
    record s {
      registry =
          after s.registry (
            registry_save s.registry (p.context s.world) (record c { updated_at = p.now s.world }));
    },
  )

  unfoldable pub release_bindings : List PortBinding → Action W (Unit {0})
  release_bindings bs = release_given p.has_alloc bs

  unfoldable pub open_log_sink : ContainerId → State W → Result Text (Unit {0}) × State W
  open_log_sink id s = if is_open id s.logs then (ok tt, s) else elim (p.open_log id s.world).0 [
    | err e ↦ (err e, record s { world = (p.open_log id s.world).1 })
    | ok u ↦ (ok tt, record s { logs = id ∷ s.logs; world = (p.open_log id s.world).1 })
  ]

  unfoldable pub close_log_sink : ContainerId → Action W (Unit {0})
  close_log_sink id s =
      if is_open id s.logs
      then (ok tt, record s { logs = without id s.logs; world = p.close_log id s.world })
      else (ok tt, s)

  unfoldable pub discard_logs : ContainerId → Action W (Unit {0})
  unfolding close_log_sink ◌>>◌
  discard_logs id = close_log_sink id >> modify (λ s. record s { world = p.remove_log id s.world })
