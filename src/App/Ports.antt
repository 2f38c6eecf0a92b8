-- ===== src/App/Ports.antt =====
-- The data and the interfaces of internal/ports/ports.go that the container requests of internal/app use.
use dockerdless.Base.{ℕ, Bool, Option, List, Text, text_eq, ℤ, Dict, Result}
use dockerdless.Failures.{GoError}
use dockerdless.Domain.Model.{
  ContainerId, ImageId, NetworkId, ContainerState, PortBinding, NetworkAttachment, Time,
}
use dockerdless.Domain.Registry.{Context}
use dockerdless.Cni.Ports.{Allocator, PortError}
use dockerdless.Cni.Ports.Allocate.{Probe}

pub record Mount : Type 0 where
  pub kind : Text
  pub source : Text
  pub destination : Text
  pub read_only : Bool
  pub options : List Text

pub record ContainerCreateRequest : Type 0 where
  pub name : Text
  pub image : Text
  pub command : List Text
  pub entrypoint : List Text
  pub env : Dict Text Text
  pub working_dir : Text
  pub user : Text
  pub hostname : Text
  pub labels : Dict Text Text
  pub tty : Bool
  pub open_stdin : Bool
  pub network_mode : Text
  pub port_bindings : List PortBinding
  pub mounts : List Mount

pub record ContainerCreateSpec : Type 0 where
  pub name : Text
  pub image : ImageId
  pub command : List Text
  pub entrypoint : List Text
  pub env : Dict Text Text
  pub working_dir : Text
  pub user : Text
  pub hostname : Text
  pub labels : Dict Text Text
  pub mounts : List Mount
  pub tty : Bool
  pub open_stdin : Bool

pub record ImageDetail : Type 0 where
  pub id : ImageId
  pub repo_tags : List Text
  pub repo_digests : List Text

pub record NetworkDetail : Type 0 where
  pub id : NetworkId
  pub name : Text

pub record ProcessExit : Type 0 where
  pub exit_code : ℕ
  pub exited_at : Time

pub record NetworkConnectRequest : Type 0 where
  pub network : Text
  pub container : ContainerId
  pub netns : Text
  pub ports : List PortBinding
  pub aliases : List Text

pub record NetworkAttachmentResult : Type 0 where
  pub attachment : NetworkAttachment
  pub ports : List PortBinding

-- The ports of the service over a world W. The network adapter shares the allocator of host ports.
-- `context` is the state that the request's context has by now. `translated` is the error of an
-- allocator as the service's errors know it, `quote` is strconv.Quote, and `has_alloc` says whether the
-- service was given an allocator.
pub record Ports (W : Type 0) : Type 0 where
  pub context : W → Context
  pub status : ContainerId → W → Result GoError ContainerState × W
  pub create_container : ContainerCreateSpec → W → Result GoError ContainerId × W
  pub start_with_io : ContainerId → W → Result GoError (Unit {0}) × W
  pub stop : ContainerId → ℤ → W → Result GoError (Unit {0}) × W
  pub remove : ContainerId → W → Result GoError (Unit {0}) × W
  pub wait : ContainerId → W → Result GoError ProcessExit × W
  pub inspect_image : Text → W → Result GoError ImageDetail × W
  pub ensure_default_network : W → Result GoError NetworkId × W
  pub resolve_network : Text → W → Result GoError NetworkDetail × W
  pub connect_reserved : Option (
      NetworkConnectRequest
      → Allocator
      → W
      → Result GoError NetworkAttachmentResult × Allocator × W)
  pub connect :
      NetworkConnectRequest → Allocator → W → Result GoError NetworkAttachmentResult × Allocator × W
  pub disconnect_all : ContainerId → Allocator → W → List GoError × Allocator × W
  pub task_pid : Option (ContainerId → W → Result GoError ℕ × W)
  pub has_alloc : Bool
  pub open_log : ContainerId → W → Result Text (Unit {0}) × W
  pub close_log : ContainerId → W → W
  pub remove_log : ContainerId → W → W
  pub now : W → Time
  pub normalize_reference : Text → Option Text
  pub encode_command : List Text → Text
  pub encode_mounts : List Mount → Text
  pub decimal : ℕ → Text
  pub quote : Text → Text
  pub port_error : PortError → GoError
  pub parse_ip : Text → Option (List ℕ)
  pub probe : Probe
  pub stop_timeout : ℤ
