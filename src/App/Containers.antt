-- ===== src/App/Containers.antt =====
-- ContainerCreate of internal/app/containers.go.
pub mod Request
pub mod Quiet
pub mod Undone
use dockerdless.Base.{
  Bool, true, false, not, ◌&&◌, ◌++◌, Option, none, some, List, [], ◌∷◌, Text, bytes, is_empty,
  trim_space, trim_prefix, text_eq, Result, ok, err, if◌then◌else◌, ◌==◌, pos,
}
use dockerdless.Failures.{
  GoError, not_found, conflict, invalid_argument, server_failure, unknown_network_mode,
  sentinel_text, is_error, wrap, sentinel,
}
use dockerdless.Domain.Model.{ContainerId, Container, PortBinding, created, zero_container}
use dockerdless.Domain.Registry.{Registry, RegistryError, save as registry_save}
use dockerdless.Cni.Ports.{PortAllocation, PortError, Allocator}
use dockerdless.Cni.Ports.Allocate.{allocate_bindings}
use dockerdless.Cni.Modes.{
  NetworkError, Mode, host, isolated, network, parse_network_mode, default_network_name,
}
use dockerdless.App.Errors.{new_docker_error}
use dockerdless.App.Ports.{
  Ports, ContainerCreateRequest, ContainerCreateSpec, ImageDetail, NetworkDetail,
}
use dockerdless.App.Service.{
  State, Action, on_error, pure, fail, call, ◌>>=◌, ◌>>◌, translated, registry_error,
  conflict_error, release_bindings,
}
use dockerdless.App.Containers.Request.{
  validate_container_create, rename_advice, network_name_for, network_attachment,
  build_create_labels, runtime_image_reference,
}

-- The error of a look-up: an absent thing has a message of its own.
unfoldable pub lookup_error : Text → GoError → GoError
unfolding translated
lookup_error message e =
    if is_error (translated e) not_found
    then new_docker_error not_found message (some e)
    else translated e

unfoldable pub create_error : Text → GoError → GoError
unfolding translated conflict_error
create_error name e =
    if is_error (translated e) conflict && not (is_empty name)
    then conflict_error (
        bytes "Conflict. The container name \"/"
        ++ name
        ++ bytes "\" is already in use"
        ++ rename_advice)
    else translated e

abbrev pub publishing_refused : GoError
publishing_refused =
    new_docker_error invalid_argument
      (bytes "conflicting options: port publishing and the container type network mode") none

abbrev pub alloc_missing : GoError
alloc_missing =
    new_docker_error server_failure (bytes "host port allocation is not configured") none

abbrev pub no_network : NetworkDetail
no_network = record { id = []; name = [] }

-- The name that a request asks for, without its slash.
abbrev pub requested_name : ContainerCreateRequest → Text
requested_name request = trim_prefix (bytes "/") (trim_space request.name)

module _ {W : Type 0} where
  -- What follows AllocateBindings.
  abbrev pub allocated :
      (PortError → GoError)
      → Result PortError (List PortBinding × List PortAllocation) × Allocator
      → Action W (List PortBinding)
  allocated f (ok (filled, xs), a) s = (ok filled, record s { alloc = a })
  allocated f (err e, a) s = (err (translated (f e)), record s { alloc = a })

module _ {W : Type 0} (p : Ports W) where
  unfoldable pub inspect_create_image : Text → Action W ImageDetail
  unfolding on_error lookup_error
  inspect_create_image ref =
      on_error (lookup_error (bytes "No such image: " ++ ref)) (call (p.inspect_image ref))

  unfoldable pub ensure_network : Text → Action W (Unit {0})
  unfolding ◌>>=◌ on_error translated
  ensure_network name =
      if name == default_network_name
      then on_error translated (call p.ensure_default_network) >>= (λ id. pure tt)
      else pure tt

  unfoldable pub resolve_named_network : Text → Action W (Mode × NetworkDetail)
  unfolding ◌>>◌ ◌>>=◌ ensure_network on_error lookup_error
  resolve_named_network name =
      ensure_network name
      >> on_error (lookup_error (bytes "network " ++ name ++ bytes " not found"))
          (call (p.resolve_network name))
      >>= (λ n. pure (network, n))

  -- What follows ParseNetworkMode.
  abbrev pub resolve_parsed : Text → Result NetworkError Mode → Action W (Mode × NetworkDetail)
  resolve_parsed mode (err e) = fail (
      translated (
        wrap (sentinel_text unknown_network_mode ++ bytes ": " ++ p.quote mode)
          (sentinel unknown_network_mode)))
  resolve_parsed mode (ok host) = pure (host, no_network)
  resolve_parsed mode (ok isolated) = pure (isolated, no_network)
  resolve_parsed mode (ok network) = resolve_named_network (network_name_for mode)

  unfoldable pub resolve_create_network : Text → Action W (Mode × NetworkDetail)
  unfolding parse_network_mode
  resolve_create_network mode = resolve_parsed mode (parse_network_mode mode)

  -- The bindings are published with the allocator, if one is given.
  abbrev pub publish_given : Bool → List PortBinding → Action W (List PortBinding)
  publish_given false bs s = (err alloc_missing, s)
  publish_given true bs s =
      allocated p.port_error (allocate_bindings p.parse_ip p.probe s.alloc bs) s

  unfoldable pub prepare_create_bindings : List PortBinding → Mode → Action W (List PortBinding)
  unfolding allocate_bindings
  prepare_create_bindings [] mode = pure []
  prepare_create_bindings (b ∷ bs) network = publish_given p.has_alloc (b ∷ bs)
  prepare_create_bindings (b ∷ bs) host = fail publishing_refused
  prepare_create_bindings (b ∷ bs) isolated = fail publishing_refused

  unfoldable pub create_spec : ContainerCreateRequest → Text → ImageDetail → ContainerCreateSpec
  unfolding build_create_labels runtime_image_reference
  create_spec request name detail = record {
    name = name;
    image = runtime_image_reference p request.image detail;
    command = request.command;
    entrypoint = request.entrypoint;
    env = request.env;
    working_dir = request.working_dir;
    user = request.user;
    hostname = request.hostname;
    labels = build_create_labels p request detail;
    mounts = request.mounts;
    tty = request.tty;
    open_stdin = request.open_stdin;
  }

  unfoldable pub new_container :
      ContainerCreateRequest
      → Text
      → ImageDetail
      → Mode × NetworkDetail
      → List PortBinding
      → State W
      → ContainerId
      → Container
  unfolding build_create_labels network_attachment
  new_container request name detail joined bindings s id = record zero_container {
    id = id;
    name = name;
    spec = record { image = request.image; command = request.command; env = request.env };
    image_reference = request.image;
    image_digest = detail.id;
    labels = build_create_labels p request detail;
    state = created;
    created_at = p.now s.world;
    updated_at = p.now s.world;
    port_bindings = bindings;
    networks = network_attachment joined.0 joined.1 ∷ [];
  }

  -- What follows the registry's Save.
  abbrev pub recorded :
      ContainerId → List PortBinding → Result RegistryError Registry → Action W ContainerId
  recorded id bindings (ok r) s = (ok id, record s { registry = r })
  recorded id bindings (err e) s =
      let s' = (release_bindings p bindings s).1 in
      (err (translated (registry_error e)), record s' { world = (p.remove id s'.world).1 })

  -- What follows the runtime's CreateContainer.
  abbrev pub after_create :
      Text
      → List PortBinding
      → (State W → ContainerId → Container)
      → Result GoError ContainerId
      → Action W ContainerId
  after_create name bindings container (err e) s =
      (err (create_error name e), (release_bindings p bindings s).1)
  after_create name bindings container (ok id) s =
      recorded id bindings (registry_save s.registry (p.context s.world) (container s id)) s

  unfoldable pub create_bound :
      ContainerCreateRequest
      → Text
      → ImageDetail
      → Mode × NetworkDetail
      → List PortBinding
      → Action W ContainerId
  unfolding create_spec new_container
  create_bound request name detail joined bindings s =
      let answer = p.create_container (create_spec request name detail) s.world in
      after_create name bindings (new_container request name detail joined bindings) answer.0
        (record s { world = answer.1 })

  unfoldable pub container_create : ContainerCreateRequest → Action W ContainerId
  unfolding ◌>>=◌ ◌>>◌ validate_container_create inspect_create_image resolve_create_network
      prepare_create_bindings create_bound
  container_create request =
      let name = requested_name request in
      (λ s. (validate_container_create p s.registry name request.image, s))
      >> inspect_create_image request.image
      >>= λ detail. resolve_create_network request.network_mode >>= λ joined.
          prepare_create_bindings request.port_bindings joined.0 >>= λ bindings.
          create_bound request name detail joined bindings
