-- ===== src/Domain/Model.antt =====
-- internal/domain/model.go: identities, states and the container aggregate. A Go string is its list
-- of bytes; a slice is a list; an instant is its distance from Go's zero time in nanoseconds.
use dockerdless.Base.{
  ℕ, Bool, true, false, Option, none, List, [], Text, is_empty, trim_space, Dict, ℤ, pos, Result,
  ok, err, if◌then◌else◌, int_beq,
}

abbrev pub ContainerId : Type 0
ContainerId = Text

abbrev pub ImageId : Type 0
ImageId = Text

abbrev pub NetworkId : Type 0
NetworkId = Text

abbrev pub Time : Type 0
Time = ℤ

-- time.Time.IsZero
abbrev pub is_zero : Time → Bool
is_zero t = int_beq t (pos 0)

-- `other` is a string that is none of the declared constants.
pub data ContainerState : Type 0 where
  unknown created running paused restarting removing exited dead : ContainerState
  other : Text → ContainerState

unfoldable pub is_docker_state : ContainerState → Bool
is_docker_state created = true
is_docker_state running = true
is_docker_state paused = true
is_docker_state restarting = true
is_docker_state removing = true
is_docker_state exited = true
is_docker_state dead = true
is_docker_state unknown = false
is_docker_state (other s) = false

pub record ContainerSpec : Type 0 where
  pub image : ImageId
  pub command : List Text
  pub env : Dict Text Text

pub record PortBinding : Type 0 where
  pub container_port : ℕ
  pub protocol : Text
  pub host_ip : Text
  pub host_port : ℕ

pub record NetworkAttachment : Type 0 where
  pub network_id : NetworkId
  pub name : Text
  pub endpoint_id : Text
  pub ip_address : Text
  pub ip_prefix_len : ℤ
  pub gateway : Text
  pub global_ipv6_address : Text
  pub global_ipv6_prefix_len : ℤ
  pub mac_address : Text
  pub aliases : List Text

pub record ExecRecord : Type 0 where
  pub id : Text
  pub container_id : ContainerId
  pub is_running : Bool
  pub exit_code : Option ℤ
  pub command : List Text
  pub tty : Bool
  pub started_at : Time
  pub finished_at : Time
  pub open_stdin : Bool
  pub open_stdout : Bool
  pub open_stderr : Bool
  pub can_remove : Bool
  pub process_id : ℤ

pub data HealthStatus : Type 0 where
  no_check starting healthy unhealthy : HealthStatus

pub record HealthCheckResult : Type 0 where
  pub start : Time
  pub finish : Time
  pub exit_code : ℤ
  pub output : Text

pub record Health : Type 0 where
  pub status : HealthStatus
  pub failing_streak : ℤ
  pub log : List HealthCheckResult

pub record Container : Type 0 where
  pub id : ContainerId
  pub name : Text
  pub spec : ContainerSpec
  pub image_reference : ImageId
  pub image_digest : ImageId
  pub labels : Dict Text Text
  pub state : ContainerState
  pub created_at : Time
  pub updated_at : Time
  pub exit_code : ℤ
  pub oom_killed : Bool
  pub is_dead : Bool
  pub error : Text
  pub started_at : Time
  pub finished_at : Time
  pub health : Option Health
  pub execs : List ExecRecord
  pub port_bindings : List PortBinding
  pub networks : List NetworkAttachment

-- Go's zero value, which a missing map entry reads as.
abbrev pub zero_container : Container
zero_container = record {
  id = [];
  name = [];
  spec = record { image = []; command = []; env = [] };
  image_reference = [];
  image_digest = [];
  labels = [];
  state = other [];
  created_at = pos 0;
  updated_at = pos 0;
  exit_code = pos 0;
  oom_killed = false;
  is_dead = false;
  error = [];
  started_at = pos 0;
  finished_at = pos 0;
  health = none;
  execs = [];
  port_bindings = [];
  networks = [];
}

pub data IdentityError : Type 0 where
  empty_identity : IdentityError

-- NewContainerID and NewImageID: an identity is refused only when it is blank.
unfoldable pub new_container_id : Text → Result IdentityError ContainerId
new_container_id value = if is_empty (trim_space value) then err empty_identity else ok value

unfoldable pub new_image_id : Text → Result IdentityError ImageId
new_image_id value = if is_empty (trim_space value) then err empty_identity else ok value
