-- ===== src/Failures.antt =====
-- Go's error values as the daemon uses them: the sentinels of internal/ports/ports.go, of the adapters,
-- of internal/domain and of package context, and the chains that wrap them.
use dockerdless.Base.{ℕ, Bool, false, ◌||◌, Option, none, some, List, [], ◌∷◌, Text, bytes, nat_beq}

-- A sentinel is a value of its own: only its identity is compared.
pub data Sentinel : Type 0 where
  not_found conflict invalid_argument not_implemented server_failure : Sentinel
  runtime_not_found runtime_conflict runtime_invalid_argument runtime_server_error : Sentinel
  image_not_found invalid_reference invalid_context no_solver invalid_auth : Sentinel
  network_not_found network_exists network_in_use invalid_network_name reserved_network_name :
      Sentinel
  unsupported_network_driver unknown_network_mode port_publish_with_mode missing_netns : Sentinel
  missing_container ipv6_unsupported port_in_use no_free_host_port unallocated_port : Sentinel
  unsupported_protocol nil_result : Sentinel
  container_not_found container_name_conflict empty_identity empty_container_name : Sentinel
  context_canceled context_deadline_exceeded : Sentinel

abbrev pub identity : Sentinel → ℕ
identity not_found = 0
identity conflict = 1
identity invalid_argument = 2
identity not_implemented = 3
identity server_failure = 4
identity runtime_not_found = 5
identity runtime_conflict = 6
identity runtime_invalid_argument = 7
identity runtime_server_error = 8
identity image_not_found = 9
identity invalid_reference = 10
identity invalid_context = 11
identity no_solver = 12
identity invalid_auth = 13
identity network_not_found = 14
identity network_exists = 15
identity network_in_use = 16
identity invalid_network_name = 17
identity reserved_network_name = 18
identity unsupported_network_driver = 19
identity unknown_network_mode = 20
identity port_publish_with_mode = 21
identity missing_netns = 22
identity missing_container = 23
identity ipv6_unsupported = 24
identity port_in_use = 25
identity no_free_host_port = 26
identity unallocated_port = 27
identity unsupported_protocol = 28
identity nil_result = 29
identity container_not_found = 30
identity container_name_conflict = 31
identity empty_identity = 32
identity empty_container_name = 33
identity context_canceled = 34
identity context_deadline_exceeded = 35

unfoldable pub sentinel_text : Sentinel → Text
sentinel_text not_found = bytes "dockerdless: not found"
sentinel_text conflict = bytes "dockerdless: conflict"
sentinel_text invalid_argument = bytes "dockerdless: invalid argument"
sentinel_text not_implemented = bytes "dockerdless: not implemented"
sentinel_text server_failure = bytes "dockerdless: server failure"
sentinel_text runtime_not_found = bytes "container runtime: not found"
sentinel_text runtime_conflict = bytes "container runtime: conflict"
sentinel_text runtime_invalid_argument = bytes "container runtime: invalid argument"
sentinel_text runtime_server_error = bytes "container runtime: server error"
sentinel_text image_not_found = bytes "image not found"
sentinel_text invalid_reference = bytes "invalid image reference"
sentinel_text invalid_context = bytes "invalid build context"
sentinel_text no_solver = bytes "buildkit solver is not configured"
sentinel_text invalid_auth = bytes "invalid registry auth"
sentinel_text network_not_found = bytes "network not found"
sentinel_text network_exists = bytes "network already exists"
sentinel_text network_in_use = bytes "network has active endpoints"
sentinel_text invalid_network_name = bytes "invalid network name"
sentinel_text reserved_network_name = bytes "network name is reserved"
sentinel_text unsupported_network_driver = bytes "unsupported network driver"
sentinel_text unknown_network_mode = bytes "unknown network mode"
sentinel_text port_publish_with_mode =
    bytes "port publishing is not supported with this network mode"
sentinel_text missing_netns = bytes "container netns path is required"
sentinel_text missing_container = bytes "container id is required"
sentinel_text ipv6_unsupported = bytes "IPv6 networks are not supported yet"
sentinel_text port_in_use = bytes "host port is already allocated"
sentinel_text no_free_host_port = bytes "no free host port found"
sentinel_text unallocated_port = bytes "port binding has no allocated host port"
sentinel_text unsupported_protocol = bytes "unsupported port protocol"
sentinel_text nil_result = bytes "cni: plugin returned no result"
sentinel_text container_not_found = bytes "container not found"
sentinel_text container_name_conflict = bytes "container name already exists"
sentinel_text empty_identity = bytes "resource identity must not be empty"
sentinel_text empty_container_name = bytes "container name must not be empty"
sentinel_text context_canceled = bytes "context canceled"
sentinel_text context_deadline_exceeded = bytes "context deadline exceeded"

-- An error that is no sentinel has its text and the errors that Unwrap gives. `docker` and
-- `docker_root` are the dockerError of internal/app/errors.go: its kind, its message and its cause.
pub data GoError : Type 0 where
  sentinel : Sentinel → GoError
  plain : Text → GoError
  wrap : Text → GoError → GoError
  wrap_two : Text → GoError → GoError → GoError
  docker : Sentinel → Text → GoError → GoError
  docker_root : Sentinel → Text → GoError

unfoldable pub error_text : GoError → Text
unfolding sentinel_text
error_text (sentinel s) = sentinel_text s
error_text (plain text) = text
error_text (wrap text e) = text
error_text (wrap_two text e f) = text
error_text (docker kind message e) = message
error_text (docker_root kind message) = message

-- errors.Is, for a target that is a sentinel.
unfoldable pub is_error : GoError → Sentinel → Bool
is_error (sentinel s) t = nat_beq (identity s) (identity t)
is_error (plain text) t = false
is_error (wrap text e) t = is_error e t
is_error (wrap_two text e f) t = is_error e t || is_error f t
is_error (docker kind message e) t = nat_beq (identity kind) (identity t) || is_error e t
is_error (docker_root kind message) t = nat_beq (identity kind) (identity t)

abbrev pub is_any : GoError → List Sentinel → Bool
is_any e [] = false
is_any e (t ∷ ts) = is_error e t || is_any e ts

-- errors.AsType for the interface that has DockerMessage: the first one of the chain.
unfoldable pub docker_message : GoError → Option Text
docker_message (sentinel s) = none
docker_message (plain text) = none
docker_message (wrap text e) = docker_message e
docker_message (wrap_two text e f) = elim (docker_message e) [
  | none ↦ docker_message f
  | some m ↦ some m
]
docker_message (docker kind message e) = some message
docker_message (docker_root kind message) = some message
