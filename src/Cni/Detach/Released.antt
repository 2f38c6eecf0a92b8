-- ===== src/Cni/Detach/Released.antt =====
-- Disconnect of internal/adapters/cni/adapter.go: what it gives back whatever the plugins answer, and that it
-- undoes Connect.
use dockerdless.Base.{
  ℕ, ◌≡◌, refl, sym, subst, arith, false, Option, none, some, List, Text, is_empty, trim_space,
  lookup, delete, ok,
}
use dockerdless.Cni.Ports.{port_key_eq, release, Allocator}
use dockerdless.Cni.Ports.Allocate.{Probe}
use dockerdless.Cni.Modes.{network}
use dockerdless.Cni.Config.{Network}
use dockerdless.Cni.Networks.{Host, resolve}
use dockerdless.Cni.Attach.{
  ConnectRequest, Adapter, AttachmentKey, AttachmentState, attachment_key_eq, Plugins,
  connect_fresh,
}
use dockerdless.Cni.Detach.{
  DisconnectRequest, forget_attachment, detach, disconnect_named, disconnect,
}

abbrev pub key_of_request : DisconnectRequest → Network → AttachmentKey
key_of_request req n = record { container = req.container; network = n.name }

-- The ports of an attachment, if it is tracked.
abbrev pub released : Option AttachmentState → Allocator → Allocator
released none alloc = alloc
released (some state) alloc = release state.allocations alloc

module _ {W C : Type 0} (h : Host) (plugins : Plugins W C) where
  module _ (a : Adapter W) (req : DisconnectRequest) (n : Network) (conf : C) where
    -- The end of a Disconnect that reaches the plugins.
    pub record Releases (b : Adapter W) : Type 0 where
      pub files : b.files ≡ a.files
      pub attachments : b.attachments ≡ delete (key_of_request req n) a.attachments
      pub alloc : b.alloc ≡ released (lookup (key_of_request req n) a.attachments) a.alloc

    detach-Releases : Releases (detach h plugins a n req conf).1
    unfolding detach forget_attachment
    detach-Releases = record {
      files = ground arith;
      attachments = ground arith;
      alloc = ground arith;
    }

    disconnect-detach :
        is_empty (trim_space req.container) ≡ false
        → resolve h none a.files req.network ≡ ok n
        → n.mode ≡ network
        → plugins.load_conf a.files n.file ≡ ok conf
        → disconnect h plugins none a req ≡ detach h plugins a n req conf
    unfolding disconnect disconnect_named
    disconnect-detach container found mode loaded =
        rw (found, disconnect)
          (rw (mode, container, disconnect_named) (rw (loaded, disconnect_named) refl))

    -- Whatever the plugins answer: once a network in named mode is found and its configuration loads,
    -- Disconnect of a container drops exactly the attachment of this container and network, gives
    -- back exactly the ports that the attachment had reserved, and changes no configuration file.
    pub disconnect-Releases :
        is_empty (trim_space req.container) ≡ false
        → resolve h none a.files req.network ≡ ok n
        → n.mode ≡ network
        → plugins.load_conf a.files n.file ≡ ok conf
        → Releases (disconnect h plugins none a req).1
    disconnect-Releases container found mode loaded =
        subst (λ s. Releases s.1) (sym (disconnect-detach container found mode loaded))
          detach-Releases

module _ {W C : Type 0} (h : Host) (plugins : Plugins W C) (parse_ip : Text → Option (List ℕ))
    (probe : Probe) where
  -- The Connect, and the Disconnect of the same container and network behind it.
  abbrev pub connected : Adapter W → ConnectRequest → Adapter W
  connected a req = (connect_fresh h plugins parse_ip probe none a req).1

  abbrev pub disconnected : Adapter W → ConnectRequest → Text → Text → Adapter W
  disconnected a req netns if_name =
      (disconnect h plugins none (connected a req) (record {
        network = req.network;
        container = req.container;
        netns = netns;
        if_name = if_name;
      })).1
