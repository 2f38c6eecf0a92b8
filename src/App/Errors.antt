-- ===== src/App/Errors.antt =====
-- internal/app/errors.go: the errors of the adapters in the canonical vocabulary of the ports.
pub mod Canonical
mod Tests
use dockerdless.Base.{
  ℕ, ◌≡◌, refl, Bool, true, false, ◌||◌, ◌&&◌, Option, none, some, List, [], ◌∷◌, Text, bytes,
  nat_beq, is_empty, trim_space, trim_prefix, if◌then◌else◌,
}
use dockerdless.Failures.{
  Sentinel, GoError, identity, sentinel_text, error_text, is_error, is_any, docker_message,
  sentinel, plain, wrap, wrap_two, docker, docker_root, not_found, conflict, invalid_argument,
  not_implemented, server_failure, runtime_not_found, runtime_conflict, runtime_invalid_argument,
  runtime_server_error, image_not_found, invalid_reference, invalid_context, no_solver,
  invalid_auth, network_not_found, network_exists, network_in_use, invalid_network_name,
  reserved_network_name, unsupported_network_driver, unknown_network_mode, port_publish_with_mode,
  missing_netns, missing_container, ipv6_unsupported, port_in_use, no_free_host_port,
  unallocated_port, unsupported_protocol, nil_result, container_not_found, container_name_conflict,
  empty_identity, empty_container_name, context_canceled, context_deadline_exceeded,
}

unfoldable pub new_docker_error : Sentinel → Text → Option GoError → GoError
unfolding sentinel_text
new_docker_error kind message cause =
    let text = if is_empty (trim_space message) then sentinel_text kind else message in
    elim cause [ none ↦ docker_root kind text | some e ↦ docker kind text e ]

abbrev pub canonical : List Sentinel
canonical = not_found ∷ conflict ∷ invalid_argument ∷ not_implemented ∷ server_failure ∷ []

unfoldable pub is_canonical_error : GoError → Bool
is_canonical_error e = is_any e canonical

-- The loop over the prefixes of cleanAdapterMessage.
unfoldable pub trim_prefixes : List Text → Text → Text
trim_prefixes [] message = message
trim_prefixes (prefix ∷ prefixes) message = trim_prefixes prefixes (trim_prefix prefix message)

abbrev pub adapter_prefixes : List Text
adapter_prefixes =
    bytes "container runtime: not found: "
    ∷ bytes "container runtime: conflict: "
    ∷ bytes "container runtime: invalid argument: "
    ∷ bytes "container runtime: server error: "
    ∷ bytes "image not found: "
    ∷ bytes "invalid image reference: "
    ∷ bytes "invalid build context: "
    ∷ []

unfoldable pub clean_adapter_message : GoError → Text
unfolding trim_prefixes
clean_adapter_message e = trim_prefixes adapter_prefixes (error_text e)

-- The sentinels of the cases of translateError, in their order.
abbrev pub absent_sentinels : List Sentinel
absent_sentinels =
    runtime_not_found ∷ image_not_found ∷ network_not_found ∷ container_not_found ∷ []

abbrev pub conflict_sentinels : List Sentinel
conflict_sentinels =
    runtime_conflict ∷ container_name_conflict ∷ network_exists ∷ network_in_use
    ∷ reserved_network_name ∷ port_in_use ∷ []

abbrev pub invalid_sentinels : List Sentinel
invalid_sentinels =
    runtime_invalid_argument ∷ empty_identity ∷ empty_container_name ∷ invalid_reference
    ∷ invalid_context ∷ invalid_auth ∷ invalid_network_name ∷ unsupported_network_driver
    ∷ unknown_network_mode ∷ port_publish_with_mode ∷ missing_netns ∷ missing_container
    ∷ ipv6_unsupported ∷ unallocated_port ∷ unsupported_protocol ∷ []

abbrev pub server_sentinels : List Sentinel
server_sentinels = runtime_server_error ∷ no_free_host_port ∷ nil_result ∷ []

-- The kind and the message that the switch of translateError chooses.
unfoldable pub translation : GoError → Sentinel × Text
unfolding clean_adapter_message
translation e =
    if is_any e absent_sentinels
    then (not_found, clean_adapter_message e)
    else if is_any e conflict_sentinels
    then (conflict, clean_adapter_message e)
    else if is_any e invalid_sentinels
    then (invalid_argument, clean_adapter_message e)
    else if is_error e no_solver
    then (not_implemented, error_text e)
    else if is_any e server_sentinels
    then (server_failure, clean_adapter_message e)
    else if is_error e context_canceled
    then (server_failure, bytes "request canceled")
    else if is_error e context_deadline_exceeded
    then (server_failure, bytes "request timed out")
    else (server_failure, error_text e)

unfoldable pub translate_error : Option GoError → Option GoError
unfolding translation new_docker_error is_canonical_error
translate_error none = none
translate_error (some e) =
    if is_canonical_error e
    then some e
    else some (new_docker_error (translation e).0 (translation e).1 (some e))

unfoldable pub kind_for_status : ℕ → Sentinel
kind_for_status status =
    if nat_beq status 400
    then invalid_argument
    else if nat_beq status 404
    then not_found
    else if nat_beq status 409
    then conflict
    else if nat_beq status 501
    then not_implemented
    else server_failure
