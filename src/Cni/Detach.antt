-- ===== src/Cni/Detach.antt =====
-- Disconnect, DisconnectAll and Remove of internal/adapters/cni/adapter.go, over the state of Cni/Attach. The
-- lock is held for each access to the tracked attachments only.
pub mod Released
pub mod Removed
mod Tests
use dockerdless.Base.{
  ℕ, Bool, true, false, ◌&&◌, ◌||◌, not, Option, none, some, List, [], ◌∷◌, ◌++◌, Text, bytes,
  is_empty, trim_space, text_eq, text_beq, text_beq_iff, Dict, lookup, insert, delete, Result, ok,
  err, if◌then◌else◌, ◌==◌, Comparable, ◌≡◌, ◌↔◌, arith, refl, is_some,
}
use dockerdless.Domain.Model.{ContainerId, NetworkId, NetworkAttachment, PortBinding}
use dockerdless.Domain.Registry.{ContextError}
use dockerdless.Cni.Ports.{
  PortAllocation, PortMapping, Allocator, release, adopt_bindings, build_port_mappings,
}
use dockerdless.Cni.Ports.Allocate.{Probe, allocate_bindings}
use dockerdless.Cni.Modes.{
  Mode, host, isolated, network, NetworkError, network_not_found, result_failed,
  reserved_network_name, port_publish_with_mode, missing_netns, missing_container, port_failed,
  external, context_ended, default_if_name,
}
use dockerdless.Cni.Config.{Files, Network}
use dockerdless.Cni.Networks.{Host, context_open, resolve}
use dockerdless.Cni.Inspect.{
  Ip, CniResult, InterfaceInfo, new_attachment, attachment_from_result, fill_from_netns,
}
use dockerdless.Cni.Attach.{
  AttachmentKey, AttachmentState, RuntimeConf, attachment_key_eq, Adapter, LinkAnswer, link_deleted,
  link_not_found, link_failed, Plugins, normalize_if_name,
}

pub record DisconnectRequest : Type 0 where
  pub network : Text
  pub container : ContainerId
  pub netns : Text
  pub if_name : Text

-- Any tracked attachment of the network.
unfoldable pub tracks_network : Text → Dict AttachmentKey AttachmentState → Bool
tracks_network name [] = false
tracks_network name ((key, state) ∷ m) = key.network == name || tracks_network name m

unfoldable pub caches_network : Text → List (Option Text) → Bool
caches_network name [] = false
caches_network name (none ∷ xs) = caches_network name xs
caches_network name (some n ∷ xs) = n == name || caches_network name xs

-- The tracked attachments of a container, in the order of the map.
unfoldable pub container_attachments :
    ContainerId → Dict AttachmentKey AttachmentState → Dict AttachmentKey AttachmentState
container_attachments container [] = []
container_attachments container ((key, state) ∷ m) =
    let rest = container_attachments container m in
    if key.container == container then (key, state) ∷ rest else rest

abbrev pub collect : Result NetworkError (Unit {0}) → List NetworkError → List NetworkError
collect (ok u) errs = errs
collect (err e) errs = e ∷ errs

abbrev pub is_network_mode : Mode → Bool
is_network_mode network = true
is_network_mode host = false
is_network_mode isolated = false

module _ {W C : Type 0} (h : Host) (plugins : Plugins W C) where
  unfoldable pub network_in_use : Adapter W → Text → Result NetworkError Bool
  unfolding tracks_network caches_network
  network_in_use a name =
      if tracks_network name a.attachments
      then ok true
      else elim (plugins.cached_attachments a.world) [
        | err e ↦ err (external (bytes "cni: reading cached attachments: ") e)
        | ok cached ↦ ok (caches_network name cached)
      ]

  -- Remove behind the tests: the bridge's link, then the file.
  unfoldable pub remove_found : Adapter W → Network → Result NetworkError (Unit {0}) × Adapter W
  remove_found a n =
      let (answer, w) =
        if is_empty n.bridge
        then (link_deleted, a.world)
        else plugins.delete_link n.bridge a.world in
      elim answer [
        | link_failed e ↦ (err (external (bytes "cni: removing bridge ") e), record a { world = w })
        | _ ↦ elim (lookup n.file a.files) [
          | none ↦ (err (network_not_found n.name), record a { world = w })
          | some c ↦ elim (plugins.remove_error n.file) [
            | some e ↦ (err (external (bytes "cni: removing ") e), record a { world = w })
            | none ↦ (ok tt, record a { files = delete n.file a.files; world = w })
          ]
        ]
      ]

  unfoldable pub remove_network :
      Option ContextError → Adapter W → NetworkId → Result NetworkError (Unit {0}) × Adapter W
  unfolding network_in_use remove_found
  remove_network ctx a id = elim (resolve h ctx a.files id) [
    | err e ↦ (err e, a)
    | ok n ↦
        if not (is_network_mode n.mode) || is_empty n.file
        then (err (reserved_network_name n.name), a)
        else elim (network_in_use a n.name) [
          | err e ↦ (err e, a)
          | ok true ↦ (err (NetworkError.network_in_use n.name), a)
          | ok false ↦ remove_found a n
        ]
  ]

  unfoldable pub disconnect_runtime_conf : W → C → DisconnectRequest → Text → RuntimeConf
  disconnect_runtime_conf w conf req if_name =
      let runtime_conf : RuntimeConf = record {
        container_id = req.container;
        netns = req.netns;
        if_name = if_name;
        port_mappings = [];
      } in
      elim (plugins.cached_config conf runtime_conf w) [
        | none ↦ runtime_conf
        | some cached ↦ record runtime_conf {
          port_mappings = cached.port_mappings;
          netns = if is_empty req.netns then cached.netns else req.netns;
        }
      ]

  -- The capability arguments of the tracked ports, where the cache has none.
  unfoldable pub restore_mappings : Option AttachmentState → RuntimeConf → RuntimeConf
  unfolding build_port_mappings
  restore_mappings none conf = conf
  restore_mappings (some state) conf = elim conf.port_mappings [
    | m ∷ ms ↦ conf
    | [] ↦ elim (build_port_mappings state.ports) [
      | err e ↦ conf
      | ok mappings ↦ record conf { port_mappings = mappings }
    ]
  ]

  unfoldable pub forget_attachment : AttachmentKey → Option AttachmentState → Adapter W → Adapter W
  unfolding release
  forget_attachment key none a = record a { attachments = delete key a.attachments }
  forget_attachment key (some state) a = record a {
    attachments = delete key a.attachments;
    alloc = release state.allocations a.alloc;
  }

  -- Disconnect with the configuration loaded.
  unfoldable pub detach :
      Adapter W → Network → DisconnectRequest → C → Result NetworkError (Unit {0}) × Adapter W
  unfolding disconnect_runtime_conf restore_mappings forget_attachment normalize_if_name
  detach a n req conf =
      let key : AttachmentKey = record { container = req.container; network = n.name } in
      let tracked = lookup key a.attachments in
      let runtime_conf =
        restore_mappings tracked
          (disconnect_runtime_conf a.world conf req (normalize_if_name req.if_name)) in
      let (failed, w) = plugins.del_network conf runtime_conf a.world in
      let a' = forget_attachment key tracked (record a { world = w }) in
      elim failed [
        | none ↦ (ok tt, a')
        | some e ↦ (err (external (bytes "cni: disconnecting container ") e), a')
      ]

  unfoldable pub disconnect_named :
      Adapter W → Network → DisconnectRequest → Result NetworkError (Unit {0}) × Adapter W
  unfolding detach
  disconnect_named a n req =
      if is_empty (trim_space req.container)
      then (err missing_container, a)
      else elim (plugins.load_conf a.files n.file) [
        | err e ↦ (err (external (bytes "cni: loading network ") e), a)
        | ok conf ↦ detach a n req conf
      ]

  unfoldable pub disconnect :
      Option ContextError
      → Adapter W
      → DisconnectRequest
      → Result NetworkError (Unit {0}) × Adapter W
  unfolding disconnect_named
  disconnect ctx a req = elim (resolve h ctx a.files req.network) [
    | err e ↦ (err e, a)
    | ok n ↦ if is_network_mode n.mode then disconnect_named a n req else (ok tt, a)
  ]

  -- The loop of DisconnectAll over the attachments that it has collected.
  unfoldable pub disconnect_each :
      Option ContextError
      → Adapter W
      → Dict AttachmentKey AttachmentState
      → List NetworkError × Adapter W
  unfolding disconnect
  disconnect_each ctx a [] = ([], a)
  disconnect_each ctx a ((key, state) ∷ m) =
      let (r, a') = disconnect ctx a (record {
        network = key.network;
        container = key.container;
        netns = state.netns;
        if_name = state.if_name;
      }) in
      let (errs, a'') = disconnect_each ctx a' m in (collect r errs, a'')

  unfoldable pub disconnect_all :
      Option ContextError → Adapter W → ContainerId → List NetworkError × Adapter W
  unfolding disconnect_each container_attachments
  disconnect_all ctx a container =
      disconnect_each ctx a (container_attachments container a.attachments)
