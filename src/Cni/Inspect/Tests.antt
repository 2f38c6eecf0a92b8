-- ===== src/Cni/Inspect/Tests.antt =====
-- Runs and witnesses for internal/adapters/cni/inspect.go.
use dockerdless.Base.{
  ℕ, ◌≡◌, refl, none, some, List, [], ◌∷◌, Text, bytes, pos, ok, Result, text_beq,
}
use dockerdless.Domain.Model.{NetworkAttachment}
use dockerdless.Cni.Inspect.{
  Ip, InterfaceInfo, CniResult, to4, interface_at, interface_mac_by_ip_config,
  sandbox_interface_mac, sandbox_mac, named_interface_mac, container_interface_mac, new_attachment,
  add_ip, add_ips, attachment_from_result, overlay_ip, overlay_ips, overlay_info, fill_from_netns,
}
use dockerdless.Cni.Inspect.Overlay.{Overlays, fill_from_netns-Overlays}

-- An address is printed as its bytes.
abbrev raw : Ip → Text
raw ip = ip

abbrev ones : List ℕ → ℕ
ones mask = 24

abbrev info : InterfaceInfo
info = record {
  ip_addresses = record { ip = some (10 ∷ 88 ∷ 0 ∷ 7 ∷ []); mask = [] } ∷ [];
  mac = bytes "aa:bb";
}

abbrev live : Text → Text → Result Text InterfaceInfo
live netns name = ok info

abbrev partial : NetworkAttachment
partial = record (new_attachment (bytes "id") (bytes "web") []) { mac_address = bytes "cc:dd" }

-- The address is filled in, the MAC stays.
filled :
    fill_from_netns raw ones live (bytes "/ns") (bytes "eth0") partial
    ≡ record partial { ip_address = 10 ∷ 88 ∷ 0 ∷ 7 ∷ []; ip_prefix_len = pos 24 }
unfolding fill_from_netns overlay_info overlay_ips overlay_ip to4 text_beq
filled = refl

fill_from_netns-Overlays_example :
    Overlays partial (fill_from_netns raw ones live (bytes "/ns") (bytes "eth0") partial)
fill_from_netns-Overlays_example =
    fill_from_netns-Overlays raw ones live (bytes "/ns") (bytes "eth0") partial

abbrev result : CniResult
result = record {
  ips =
      some (record {
        interface = some (pos 1);
        address = record { ip = some (10 ∷ 88 ∷ 0 ∷ 9 ∷ []); mask = [] };
        gateway = some (10 ∷ 88 ∷ 0 ∷ 1 ∷ []);
      })
      ∷ none
      ∷ [];
  interfaces =
      some (record { name = bytes "veth0"; mac = bytes "01"; sandbox = [] })
      ∷ some (record { name = bytes "eth0"; mac = bytes "02"; sandbox = bytes "/ns" })
      ∷ [];
}

-- The MAC is that of the interface to which the address belongs.
attached :
    attachment_from_result raw ones (bytes "id") (bytes "web") (bytes "eth0") [] (some (ok result))
    ≡ ok (record (new_attachment (bytes "id") (bytes "web") []) {
      ip_address = 10 ∷ 88 ∷ 0 ∷ 9 ∷ [];
      ip_prefix_len = pos 24;
      gateway = 10 ∷ 88 ∷ 0 ∷ 1 ∷ [];
      mac_address = bytes "02";
    })
unfolding attachment_from_result add_ips add_ip to4 container_interface_mac
    interface_mac_by_ip_config interface_at text_beq sandbox_interface_mac sandbox_mac
    named_interface_mac
attached = refl
