-- ===== src/Api/Errors.antt =====
-- internal/api/errors.go: the Docker error envelope and its status for an error of the service.
pub mod Envelope
pub mod Answers
mod Tests
use dockerdless.Base.{
  ℕ, ◌≡◌, refl, Bool, true, false, ◌||◌, ◌&&◌, Option, none, some, List, [], ◌∷◌, ◌++◌, Text, bytes,
  nat_beq, if◌then◌else◌, ltb, is_empty,
}
use dockerdless.App.Errors.{trim_prefixes}
use dockerdless.Failures.{
  Sentinel, GoError, identity, sentinel_text, error_text, is_error, is_any, docker_message,
  sentinel, plain, wrap, wrap_two, docker, docker_root, not_found, conflict, invalid_argument,
  not_implemented, server_failure, runtime_not_found, runtime_conflict, runtime_invalid_argument,
  runtime_server_error, image_not_found, invalid_reference, invalid_context, no_solver,
  invalid_auth, network_not_found, network_exists, network_in_use, invalid_network_name,
  reserved_network_name, unsupported_network_driver, unknown_network_mode, port_publish_with_mode,
  missing_netns, missing_container, ipv6_unsupported, port_in_use, no_free_host_port,
  unallocated_port, unsupported_protocol, nil_result, container_not_found, container_name_conflict,
  empty_identity, empty_container_name, context_canceled, context_deadline_exceeded,
}

pub data ErrorKind : Type 0 where
  kind_not_found kind_conflict kind_invalid_parameter kind_not_implemented kind_server : ErrorKind

pub record DockerError : Type 0 where
  pub status : ℕ
  pub kind : ErrorKind
  pub message : Text

-- StatusCode; `none` is a nil pointer.
unfoldable pub error_status : Option DockerError → ℕ
error_status none = 500
error_status (some e) = if ltb e.status 400 then 500 else e.status

unfoldable pub envelope : ℕ → ErrorKind → Text → Text → DockerError
envelope status kind message fallback = record {
  status = status;
  kind = kind;
  message = if is_empty message then fallback else message;
}

unfoldable pub new_not_found : Text → DockerError
unfolding envelope
new_not_found message = envelope 404 kind_not_found message (bytes "page not found")

unfoldable pub new_conflict : Text → DockerError
unfolding envelope
new_conflict message =
    envelope 409 kind_conflict message (bytes "request conflicts with current state")

unfoldable pub new_invalid_parameter : Text → DockerError
unfolding envelope
new_invalid_parameter message =
    envelope 400 kind_invalid_parameter message (bytes "invalid parameter")

unfoldable pub new_not_implemented : Text → DockerError
unfolding envelope
new_not_implemented message =
    envelope 501 kind_not_implemented message (bytes "operation not implemented")

unfoldable pub new_server_error : Text → DockerError
unfolding envelope
new_server_error message = envelope 500 kind_server message (bytes "internal server error")

-- NewDockerError of this package.
unfoldable pub error_for_status : ℕ → Text → DockerError
unfolding new_not_found new_conflict new_invalid_parameter new_not_implemented new_server_error
error_for_status status message =
    if nat_beq status 404
    then new_not_found message
    else if nat_beq status 409
    then new_conflict message
    else if nat_beq status 400
    then new_invalid_parameter message
    else if nat_beq status 501
    then new_not_implemented message
    else new_server_error message

abbrev pub service_prefixes : List Text
service_prefixes =
    bytes "dockerdless: not found: "
    ∷ bytes "dockerdless: conflict: "
    ∷ bytes "dockerdless: invalid argument: "
    ∷ bytes "dockerdless: not implemented: "
    ∷ bytes "dockerdless: server failure: "
    ∷ []

unfoldable pub clean_service_message : Text → Text
clean_service_message message = trim_prefixes service_prefixes message

-- The message of an error, or the one it carries for Docker.
unfoldable pub service_message : GoError → Text
unfolding clean_service_message
service_message e = elim (docker_message e) [
  | none ↦ clean_service_message (error_text e)
  | some message ↦ clean_service_message message
]

-- A nil error is answered as an error without a text.
unfoldable pub map_service_error : Option GoError → DockerError
unfolding service_message new_not_found new_conflict new_invalid_parameter new_not_implemented
    new_server_error
map_service_error none = new_server_error (clean_service_message [])
map_service_error (some e) =
    if is_error e not_found
    then new_not_found (service_message e)
    else if is_error e conflict
    then new_conflict (service_message e)
    else if is_error e invalid_argument
    then new_invalid_parameter (service_message e)
    else if is_error e not_implemented
    then new_not_implemented (service_message e)
    else if is_error e context_deadline_exceeded
    then new_server_error (bytes "request timed out")
    else if is_error e context_canceled
    then new_server_error (bytes "request canceled")
    else new_server_error (service_message e)
