-- ===== src/Cni/Attach.antt =====
-- The attachments of internal/adapters/cni/adapter.go: Connect and ConnectReserved. The state has the configuration files, the host ports, the tracked attachments, and
-- the rest of the machine, which only the plugins and the kernel change. The plugins of libcni, the
-- kernel's links and its namespaces are parameters. A context keeps its state during a call.
pub mod Undone
pub mod Tests
use dockerdless.Base.{
  ℕ, Bool, true, false, ◌&&◌, ◌||◌, not, Option, none, some, List, [], ◌∷◌, ◌++◌, Text, bytes,
  is_empty, trim_space, text_eq, text_beq, text_beq_iff, Dict, lookup, insert, delete, Result, ok,
  err, if◌then◌else◌, ◌==◌, Comparable, ◌≡◌, ◌↔◌, arith, refl, is_some,
}
use dockerdless.Domain.Model.{ContainerId, NetworkId, NetworkAttachment, PortBinding}
use dockerdless.Domain.Registry.{ContextError}
use dockerdless.Cni.Ports.{
  PortAllocation, PortMapping, Allocator, new_port_allocator, release, adopt_bindings,
  build_port_mappings,
}
use dockerdless.Cni.Ports.Allocate.{Probe, allocate_bindings}
use dockerdless.Cni.Modes.{
  Mode, host, isolated, network, NetworkError, network_not_found, result_failed,
  reserved_network_name, port_publish_with_mode, missing_netns, missing_container, port_failed,
  external, context_ended, default_if_name,
}
use dockerdless.Cni.Config.{Files, Network}
use dockerdless.Cni.Networks.{Host, context_open, resolve}
use dockerdless.Cni.Inspect.{
  Ip, CniResult, InterfaceInfo, new_attachment, attachment_from_result, fill_from_netns,
}

pub record ConnectRequest : Type 0 where
  pub network : Text
  pub container : ContainerId
  pub netns : Text
  pub if_name : Text
  pub ports : List PortBinding
  pub aliases : List Text

pub record ConnectResult : Type 0 where
  pub attachment : NetworkAttachment
  pub ports : List PortBinding

pub record AttachmentKey : Type 0 where
  pub container : ContainerId
  pub network : Text

pub record AttachmentState : Type 0 where
  pub allocations : List PortAllocation
  pub ports : List PortBinding
  pub netns : Text
  pub if_name : Text

-- libcni.RuntimeConf; the capability arguments are the port mappings, and [] where there are none.
pub record RuntimeConf : Type 0 where
  pub container_id : Text
  pub netns : Text
  pub if_name : Text
  pub port_mappings : List PortMapping

unfoldable pub attachment_key_beq : AttachmentKey → AttachmentKey → Bool
attachment_key_beq a b = text_beq a.container b.container && text_beq a.network b.network

pub attachment_key_beq_iff : (a b : AttachmentKey) → (attachment_key_beq a b ≡ true) ↔ (a ≡ b)
unfolding attachment_key_beq
attachment_key_beq_iff a b = (
  λ h. ground (arith, text_beq_iff a.container b.container, text_beq_iff a.network b.network),
  λ h. ground (arith, text_beq_iff a.container b.container, text_beq_iff a.network b.network),
)

instance abbrev pub attachment_key_eq : Comparable AttachmentKey
attachment_key_eq = record { equal = attachment_key_beq; equal_iff = attachment_key_beq_iff }

pub record Adapter (W : Type 0) : Type 0 where
  pub files : Files
  pub alloc : Allocator
  pub attachments : Dict AttachmentKey AttachmentState
  pub world : W

-- New, on a machine with these files: an allocator may be given, and nothing is attached.
unfoldable pub new_adapter : {W : Type 0} → Files → Option Allocator → W → Adapter W
new_adapter files allocator world = record {
  files = files;
  alloc = elim allocator [ none ↦ new_port_allocator | some a ↦ a ];
  attachments = [];
  world = world;
}

pub data LinkAnswer : Type 0 where
  link_deleted link_not_found : LinkAnswer
  link_failed : Text → LinkAnswer

-- What libcni, its plugins, the kernel and the file system answer; C is a loaded configuration.
pub record Plugins (W : Type 0) (C : Type 0) : Type 0 where
  pub load_conf : Files → Text → Result Text C
  pub add_network : C → RuntimeConf → W → Result Text (Option (Result Text CniResult)) × W
  pub del_network : C → RuntimeConf → W → Option Text × W
  pub cached_config : C → RuntimeConf → W → Option RuntimeConf
  pub cached_attachments : W → Result Text (List (Option Text))
  pub interface_info : W → Text → Text → Result Text InterfaceInfo
  pub delete_link : Text → W → LinkAnswer × W
  pub remove_error : Text → Option Text
  pub ip_text : Ip → Text
  pub mask_size : List ℕ → ℕ

unfoldable pub normalize_if_name : Text → Text
normalize_if_name name =
    let trimmed = trim_space name in if is_empty trimmed then default_if_name else trimmed

unfoldable pub connect_direct : Network → List PortBinding → Result NetworkError ConnectResult
connect_direct n [] = ok (record { attachment = new_attachment n.id n.name []; ports = [] })
connect_direct n (b ∷ bs) = err (port_publish_with_mode n.mode)

module _ {W C : Type 0} (h : Host) (plugins : Plugins W C) (parse_ip : Text → Option (List ℕ))
    (probe : Probe) where
  unfoldable pub prepare_connect_ports :
      Adapter W
      → List PortBinding
      → List PortAllocation
      → Bool
      → Result NetworkError (List PortBinding × List PortAllocation) × Adapter W
  prepare_connect_ports a ports reserved true = (ok (ports, reserved), a)
  prepare_connect_ports a ports reserved false =
      let (r, alloc) = allocate_bindings parse_ip probe a.alloc ports in
      elim r [
        | err e ↦ (err (port_failed e), record a { alloc = alloc })
        | ok filled ↦ (ok filled, record a { alloc = alloc })
      ]

  unfoldable pub add_container_network :
      Adapter W
      → Network
      → ConnectRequest
      → C
      → Text
      → List PortBinding
      → Result NetworkError NetworkAttachment × Adapter W
  unfolding build_port_mappings attachment_from_result
  add_container_network a n req conf if_name filled = elim (build_port_mappings filled) [
    | err e ↦ (err (port_failed e), a)
    | ok mappings ↦
        let runtime_conf : RuntimeConf = record {
          container_id = req.container;
          netns = req.netns;
          if_name = if_name;
          port_mappings = mappings;
        } in
        let (r, w) = plugins.add_network conf runtime_conf a.world in
        elim r [
          | err e ↦ (err (external (bytes "cni: connecting container ") e), record a { world = w })
          | ok result ↦
              elim (attachment_from_result plugins.ip_text plugins.mask_size n.id n.name if_name
                req.aliases result) [
                  | err e ↦ (
                    err (result_failed e),
                    record a { world = (plugins.del_network conf runtime_conf w).1 },
                  )
                  | ok attachment ↦ (ok attachment, record a { world = w })
                ]
        ]
  ]

  unfoldable pub release_on_failure : Bool → List PortAllocation → Adapter W → Adapter W
  unfolding release
  release_on_failure true allocations a = a
  release_on_failure false allocations a = record a { alloc = release allocations a.alloc }

  unfoldable pub track_attachment : AttachmentKey → AttachmentState → Adapter W → Adapter W
  track_attachment key state a = record a { attachments = insert key state a.attachments }

  -- What connect does with the plugins' answer.
  unfoldable pub conclude_connect :
      Network
      → ConnectRequest
      → List PortBinding × List PortAllocation
      → Bool
      → Result NetworkError NetworkAttachment × Adapter W
      → Result NetworkError ConnectResult × Adapter W
  unfolding release_on_failure track_attachment normalize_if_name fill_from_netns
  conclude_connect n req ports preallocated (err e, a) =
      (err e, release_on_failure preallocated ports.1 a)
  conclude_connect n req ports preallocated (ok attachment, a) =
      let if_name = normalize_if_name req.if_name in
      (
        ok (record {
          attachment =
              fill_from_netns plugins.ip_text plugins.mask_size (plugins.interface_info a.world)
                req.netns if_name attachment;
          ports = ports.0;
        }),
        track_attachment (record { container = req.container; network = n.name })
            (record {
              allocations = ports.1;
              ports = ports.0;
              netns = req.netns;
              if_name = if_name;
            })
            a,
      )

  unfoldable pub finish_connect :
      Adapter W
      → Network
      → ConnectRequest
      → C
      → List PortBinding × List PortAllocation
      → Bool
      → Result NetworkError ConnectResult × Adapter W
  unfolding add_container_network conclude_connect normalize_if_name
  finish_connect a n req conf ports preallocated =
      conclude_connect n req ports preallocated
        (add_container_network a n req conf (normalize_if_name req.if_name) ports.0)

  -- What connect does with the ports prepared.
  unfoldable pub connect_prepared :
      Network
      → ConnectRequest
      → C
      → Bool
      → Result NetworkError (List PortBinding × List PortAllocation) × Adapter W
      → Result NetworkError ConnectResult × Adapter W
  unfolding finish_connect
  connect_prepared n req conf preallocated (err e, a) = (err e, a)
  connect_prepared n req conf preallocated (ok ports, a) =
      finish_connect a n req conf ports preallocated

  -- What connect does with the network's configuration.
  unfoldable pub connect_loaded :
      Adapter W
      → Network
      → ConnectRequest
      → List PortAllocation
      → Bool
      → Result Text C
      → Result NetworkError ConnectResult × Adapter W
  unfolding prepare_connect_ports connect_prepared
  connect_loaded a n req reserved preallocated (err e) =
      (err (external (bytes "cni: loading network ") e), a)
  connect_loaded a n req reserved preallocated (ok conf) =
      connect_prepared n req conf preallocated
        (prepare_connect_ports a req.ports reserved preallocated)

  unfoldable pub connect_named :
      Adapter W
      → Network
      → ConnectRequest
      → List PortAllocation
      → Bool
      → Result NetworkError ConnectResult × Adapter W
  unfolding connect_loaded
  connect_named a n req reserved preallocated =
      if is_empty n.file
      then (err (network_not_found n.name), a)
      else if is_empty (trim_space req.netns)
      then (err missing_netns, a)
      else connect_loaded a n req reserved preallocated (plugins.load_conf a.files n.file)

  abbrev pub connect_mode :
      Mode
      → Adapter W
      → Network
      → ConnectRequest
      → List PortAllocation
      → Bool
      → Result NetworkError ConnectResult × Adapter W
  connect_mode host a n req reserved preallocated = (connect_direct n req.ports, a)
  connect_mode isolated a n req reserved preallocated = (connect_direct n req.ports, a)
  connect_mode network a n req reserved preallocated = connect_named a n req reserved preallocated

  -- What connect does with the network that its request names.
  unfoldable pub connect_resolved :
      Adapter W
      → ConnectRequest
      → List PortAllocation
      → Bool
      → Result NetworkError Network
      → Result NetworkError ConnectResult × Adapter W
  unfolding connect_named connect_direct
  connect_resolved a req reserved preallocated (err e) = (err e, a)
  connect_resolved a req reserved preallocated (ok n) =
      connect_mode n.mode a n req reserved preallocated

  unfoldable pub connect :
      Option ContextError
      → Adapter W
      → ConnectRequest
      → List PortAllocation
      → Bool
      → Result NetworkError ConnectResult × Adapter W
  unfolding connect_resolved
  connect (some e) a req reserved preallocated = (err (context_ended e), a)
  connect none a req reserved preallocated =
      if is_empty (trim_space req.container)
      then (err missing_container, a)
      else connect_resolved a req reserved preallocated (resolve h none a.files req.network)

  -- Connect
  unfoldable pub connect_fresh :
      Option ContextError
      → Adapter W
      → ConnectRequest
      → Result NetworkError ConnectResult × Adapter W
  unfolding connect
  connect_fresh ctx a req = connect ctx a req [] false

  unfoldable pub connect_reserved :
      Option ContextError
      → Adapter W
      → ConnectRequest
      → Result NetworkError ConnectResult × Adapter W
  unfolding connect adopt_bindings
  connect_reserved ctx a req = elim (adopt_bindings a.alloc req.ports) [
    | err e ↦ (err (port_failed e), a)
    | ok allocations ↦ connect ctx a (record req { if_name = [] }) allocations true
  ]
