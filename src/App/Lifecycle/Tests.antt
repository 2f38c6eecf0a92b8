-- ===== src/App/Lifecycle/Tests.antt =====
-- Runs and witnesses for the container requests of internal/app/containers.go.
use dockerdless.Base.{◌≡◌, refl, true, false, none, some, List, [], ◌∷◌, bytes, ok, err, pos}
use dockerdless.Failures.{plain, docker, server_failure}
use dockerdless.Domain.Model.{ContainerState, created, running, exited, unknown}
use dockerdless.Domain.Registry.{live, new_registry}
use dockerdless.Cni.Ports.{new_port_allocator}
use dockerdless.Cni.Attach.Tests.{any_ip, echo_probe}
use dockerdless.App.Ports.{Ports, ContainerCreateRequest}
use dockerdless.App.Service.{State}
use dockerdless.App.Service.Frames.{Undone}
use dockerdless.App.Containers.Request.{unjoined}
use dockerdless.App.Lifecycle.Removed.{RemoveEnds, container_remove-RemoveEnds}
use dockerdless.App.Lifecycle.Requests.{Request, creates, lists, inspects, starts, stops, removes}
use dockerdless.App.Service.{
  ◌>>=◌, ◌>>◌, on_error, not_found_error, conflict_error, invalid_error, server_error,
  registry_error, translated, prefix_matches, choose_match, find_container, is_open, without,
  resolve_container, release_bindings, open_log_sink, close_log_sink, discard_logs,
}
use dockerdless.App.Errors.{
  new_docker_error, is_canonical_error, trim_prefixes, clean_adapter_message, translation,
  translate_error,
}
use dockerdless.App.Containers.{
  lookup_error, create_error, inspect_create_image, ensure_network, resolve_named_network,
  resolve_create_network, prepare_create_bindings, create_spec, new_container, create_bound,
  container_create,
}
use dockerdless.App.Containers.Request.{
  are_name_bytes, matches_container_name, network_name_for, network_attachment, refuse_taken,
  validate_container_create, first_normalized, runtime_image_reference, mount_labels,
  build_create_labels,
}
use dockerdless.App.Lifecycle.{
  is_active, or_created, normalize_container_timestamps, compared, await_exit, refresh, settle,
  observe, list_each, container_list, container_inspect, stop_task, container_stop, state_to_remove,
  detach_all, unregister, remove_stopped, remove_resolved, container_remove,
}
use dockerdless.App.Lifecycle.Start.{
  container_has_exited, is_host_or_none_network, attachable_network, connect_with,
  restore_port_reservations, attach_named, attach_network, abandon_start, join_container_network,
  container_is_running, start_container_task, save_finished, finalize_already_exited_start,
  mark_container_running, start_stopped, container_start,
}
use dockerdless.App.Lifecycle.Requests.{serve, serve_all}
use dockerdless.Domain.Registry.{
  context_error, get, get_by_name, list, name_taken, delete_name, default_image, drop_previous_name,
  store,
}
use dockerdless.Cni.Ports.{
  normalize_protocol, normalize_host_ip, release_one, release, adopt_one, adopt_bindings,
  build_port_mapping, build_port_mappings, is_wildcard_host, clashes, conflicts_locked, is_used,
}
use dockerdless.Cni.Ports.Allocate.{
  fill, reserve, counted, allocate_fixed, allocate_any, allocate, allocate_all, allocate_bindings,
}
use dockerdless.Cni.Modes.{
  contains_byte, parse_network_mode, all_bytes, matches_name_pattern, validate_network_name,
  is_reserved_network_name,
}
use dockerdless.Failures.{sentinel_text, error_text, is_error, docker_message}
use dockerdless.Base.{text_beq, text_ltb, strip_prefix, trim_prefix, to_lower}
use dockerdless.Base.{lookup, insert, delete}
use dockerdless.Base.{trim_space}
use dockerdless.Base.{int_beq, int_ltb}
use dockerdless.Base.{insert_by, sort_by}
use dockerdless.Domain.Registry.{save as registry_save, remove as registry_remove}
use dockerdless.App.Service.{save_container}

-- A runtime of one container, whose state is the world.
abbrev daemon : Ports ContainerState
daemon = record {
  context = λ w. live;
  status = λ id w. (ok w, w);
  create_container = λ spec w. (ok (bytes "c0ffee"), created);
  start_with_io = λ id w. (ok tt, running);
  stop = λ id timeout w. (ok tt, exited);
  remove = λ id w. (ok tt, unknown);
  wait = λ id w. (ok (record { exit_code = 0; exited_at = pos 9 }), w);
  inspect_image =
      λ ref w. (ok (record { id = bytes "sha256:1"; repo_tags = []; repo_digests = [] }), w);
  ensure_default_network = λ w. (ok (bytes "n1"), w);
  resolve_network = λ ref w. (ok (record { id = bytes "n1"; name = ref }), w);
  connect_reserved = none;
  connect = λ r a w. (ok (record { attachment = unjoined; ports = r.ports }), a, w);
  disconnect_all = λ id a w. ([], a, w);
  task_pid = some (λ id w. (ok 7, w));
  has_alloc = true;
  open_log = λ id w. (ok tt, w);
  close_log = λ id w. w;
  remove_log = λ id w. w;
  now = λ w. pos 5;
  normalize_reference = some;
  encode_command = λ c. bytes "[]";
  encode_mounts = λ ms. bytes "[]";
  decimal = λ n. bytes "7";
  quote = λ t. t;
  port_error = λ e. plain (bytes "host port");
  parse_ip = any_ip;
  probe = echo_probe;
  stop_timeout = pos 10;
}

-- The same runtime, which refuses to create a container.
abbrev refusing : Ports ContainerState
refusing = record daemon { create_container = λ spec w. (err (plain (bytes "no space")), w) }

abbrev start : State ContainerState
start = record { registry = new_registry; alloc = new_port_allocator; logs = []; world = unknown }

abbrev web : ContainerCreateRequest
web = record {
  name = bytes "/web";
  image = bytes "nginx";
  command = [];
  entrypoint = [];
  env = [];
  working_dir = [];
  user = [];
  hostname = [];
  labels = [];
  tty = false;
  open_stdin = false;
  network_mode = bytes "bridge";
  port_bindings =
      record { container_port = 80; protocol = bytes "tcp"; host_ip = []; host_port = 8080 } ∷ [];
  mounts = [];
}

abbrev session : List Request
session =
    creates web
    ∷ starts (bytes "web")
    ∷ lists true
    ∷ inspects (bytes "c0f")
    ∷ stops (bytes "web") none
    ∷ removes (bytes "/web") false
    ∷ []

container_remove-RemoveEnds_example :
    let s = serve_all daemon (creates web ∷ []) start in
    RemoveEnds daemon (bytes "web") false s (container_remove daemon (bytes "web") false s)
container_remove-RemoveEnds_example =
    container_remove-RemoveEnds daemon (bytes "web") false
      (serve_all daemon (creates web ∷ []) start)

refused_run :
    (container_create refusing web start).0
    ≡ err (docker server_failure (bytes "no space") (plain (bytes "no space")))
unfolding ◌>>=◌ ◌>>◌ on_error not_found_error conflict_error invalid_error server_error
    registry_error translated prefix_matches choose_match find_container is_open without
    resolve_container release_bindings open_log_sink close_log_sink discard_logs new_docker_error
    is_canonical_error trim_prefixes clean_adapter_message translation translate_error lookup_error
    create_error inspect_create_image ensure_network resolve_named_network resolve_create_network
    prepare_create_bindings create_spec new_container create_bound container_create are_name_bytes
    matches_container_name network_name_for network_attachment refuse_taken
    validate_container_create first_normalized runtime_image_reference mount_labels
    build_create_labels is_active or_created normalize_container_timestamps compared await_exit
    refresh settle observe list_each container_list container_inspect stop_task container_stop
    state_to_remove detach_all unregister remove_stopped remove_resolved container_remove
    container_has_exited is_host_or_none_network attachable_network connect_with
    restore_port_reservations attach_named attach_network abandon_start join_container_network
    container_is_running start_container_task save_finished finalize_already_exited_start
    mark_container_running start_stopped container_start serve serve_all context_error get
    get_by_name list name_taken delete_name default_image drop_previous_name store
    normalize_protocol normalize_host_ip release_one release adopt_one adopt_bindings
    build_port_mapping build_port_mappings is_wildcard_host clashes conflicts_locked is_used fill
    reserve counted allocate_fixed allocate_any allocate allocate_all allocate_bindings
    contains_byte parse_network_mode all_bytes matches_name_pattern validate_network_name
    is_reserved_network_name sentinel_text error_text is_error docker_message text_beq text_ltb
    strip_prefix trim_prefix to_lower lookup insert delete trim_space int_beq int_ltb insert_by
    sort_by new_registry new_port_allocator
refused_run = refl

session_run : (serve_all daemon session start).registry ≡ new_registry
unfolding ◌>>=◌ ◌>>◌ on_error not_found_error conflict_error invalid_error server_error
    registry_error translated prefix_matches choose_match find_container is_open without
    resolve_container release_bindings open_log_sink close_log_sink discard_logs new_docker_error
    is_canonical_error trim_prefixes clean_adapter_message translation translate_error lookup_error
    create_error inspect_create_image ensure_network resolve_named_network resolve_create_network
    prepare_create_bindings create_spec new_container create_bound container_create are_name_bytes
    matches_container_name network_name_for network_attachment refuse_taken
    validate_container_create first_normalized runtime_image_reference mount_labels
    build_create_labels is_active or_created normalize_container_timestamps compared await_exit
    refresh settle observe list_each container_list container_inspect stop_task container_stop
    state_to_remove detach_all unregister remove_stopped remove_resolved container_remove
    container_has_exited is_host_or_none_network attachable_network connect_with
    restore_port_reservations attach_named attach_network abandon_start join_container_network
    container_is_running start_container_task save_finished finalize_already_exited_start
    mark_container_running start_stopped container_start serve serve_all context_error get
    get_by_name list name_taken delete_name default_image drop_previous_name store
    normalize_protocol normalize_host_ip release_one release adopt_one adopt_bindings
    build_port_mapping build_port_mappings is_wildcard_host clashes conflicts_locked is_used fill
    reserve counted allocate_fixed allocate_any allocate allocate_all allocate_bindings
    contains_byte parse_network_mode all_bytes matches_name_pattern validate_network_name
    is_reserved_network_name sentinel_text error_text is_error docker_message text_beq text_ltb
    strip_prefix trim_prefix to_lower lookup insert delete trim_space int_beq int_ltb insert_by
    sort_by registry_save registry_remove save_container new_registry new_port_allocator
session_run = refl
