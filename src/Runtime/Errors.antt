-- ===== src/Runtime/Errors.antt =====
-- internal/adapters/containerd/errors.go: the error classes of containerd as sentinels of the adapter.
-- The predicates of the errdefs package are a parameter.
pub mod Mapped
use dockerdless.Base.{
  ℕ, ◌≡◌, refl, Bool, true, false, ◌||◌, ◌&&◌, Option, none, some, List, [], ◌∷◌, ◌++◌, Text, bytes,
  nat_beq, if◌then◌else◌,
}
use dockerdless.Failures.{
  Sentinel, GoError, identity, sentinel_text, error_text, is_error, is_any, docker_message,
  sentinel, plain, wrap, wrap_two, docker, docker_root, not_found, conflict, invalid_argument,
  not_implemented, server_failure, runtime_not_found, runtime_conflict, runtime_invalid_argument,
  runtime_server_error, image_not_found, invalid_reference, invalid_context, no_solver,
  invalid_auth, network_not_found, network_exists, network_in_use, invalid_network_name,
  reserved_network_name, unsupported_network_driver, unknown_network_mode, port_publish_with_mode,
  missing_netns, missing_container, ipv6_unsupported, port_in_use, no_free_host_port,
  unallocated_port, unsupported_protocol, nil_result, container_not_found, container_name_conflict,
  empty_identity, empty_container_name, context_canceled, context_deadline_exceeded,
}

-- IsNotFound, IsAlreadyExists and so on.
pub data ErrdefsClass : Type 0 where
  absent already_exists conflicting failed_precondition invalid out_of_range : ErrdefsClass
  unavailable internal unknown aborted data_loss : ErrdefsClass

abbrev pub Errdefs : Type 0
Errdefs = ErrdefsClass → GoError → Bool

abbrev pub runtime_sentinels : List Sentinel
runtime_sentinels =
    runtime_not_found ∷ runtime_conflict ∷ runtime_invalid_argument ∷ runtime_server_error ∷ []

-- fmt.Errorf("%w: %w", s, e)
unfoldable pub under : Sentinel → GoError → GoError
under s e = wrap_two (sentinel_text s ++ bytes ": " ++ error_text e) (sentinel s) e

unfoldable pub map_error : Errdefs → Option GoError → Option GoError
unfolding under
map_error errdefs none = none
map_error errdefs (some e) =
    if is_any e runtime_sentinels
    then some e
    else if errdefs absent e
    then some (under runtime_not_found e)
    else if errdefs already_exists e || (errdefs conflicting e || errdefs failed_precondition e)
    then some (under runtime_conflict e)
    else if errdefs invalid e || errdefs out_of_range e
    then some (under runtime_invalid_argument e)
    else if errdefs unavailable e
        || (errdefs internal e || (errdefs unknown e || (errdefs aborted e || errdefs data_loss e)))
    then some (under runtime_server_error e)
    else some e

unfoldable pub status_code : Option GoError → ℕ
status_code none = 200
status_code (some e) =
    if is_error e runtime_not_found
    then 404
    else if is_error e runtime_conflict
    then 409
    else if is_error e runtime_invalid_argument
    then 400
    else if is_error e runtime_server_error
    then 500
    else 500
