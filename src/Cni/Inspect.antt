-- ===== src/Cni/Inspect.antt =====
-- internal/adapters/cni/inspect.go: a plugin's result as an attachment, what a network namespace adds to it,
-- and the published ports. net.IP.String, net.IPMask.Size, netip.ParseAddr and net.ParseMAC are
-- parameters, as is the conversion of a plugin's result to the current version.
pub mod Overlay
mod Tests
use dockerdless.Base.{
  ℕ, zero, suc, ◌+◌, ◌*◌, ◌/◌, Bool, true, false, ◌&&◌, ◌||◌, not, Option, none, some, List, [],
  ◌∷◌, ◌++◌, Text, text_eq, bytes, is_empty, nat_beq, leb, length, drop, take, ℤ, pos, negsuc, Dict,
  lookup, insert, Result, ok, err, ◌>>=◌, ◌>>◌, refuse_if, if◌then◌else◌, ◌==◌, Comparable,
}
use dockerdless.Domain.Model.{NetworkAttachment, NetworkId, PortBinding}
use dockerdless.Cni.Ports.{PortError, unallocated_port, normalize_protocol, normalize_host_ip}
use dockerdless.Cni.Modes.{ResultError, nil_result, undecodable}

-- An address is its 4 or 16 bytes.
abbrev pub Ip : Type 0
Ip = List ℕ

pub record IpNet : Type 0 where
  pub ip : Option Ip
  pub mask : List ℕ

pub record InterfaceInfo : Type 0 where
  pub ip_addresses : List IpNet
  pub mac : Text

-- The parts of a CNI result that are read; nil entries of its lists are `none`.
pub record IpConfig : Type 0 where
  pub interface : Option ℤ
  pub address : IpNet
  pub gateway : Option Ip

pub record Interface : Type 0 where
  pub name : Text
  pub mac : Text
  pub sandbox : Text

pub record CniResult : Type 0 where
  pub ips : List (Option IpConfig)
  pub interfaces : List (Option Interface)

abbrev v4_in_v6 : List ℕ
v4_in_v6 = 0 ∷ 0 ∷ 0 ∷ 0 ∷ 0 ∷ 0 ∷ 0 ∷ 0 ∷ 0 ∷ 0 ∷ 255 ∷ 255 ∷ []

-- net.IP.To4
unfoldable pub to4 : Ip → Option Ip
to4 ip =
    if nat_beq (length ip) 4
    then some ip
    else if nat_beq (length ip) 16 && take 12 ip == v4_in_v6
    then some (drop 12 ip)
    else none

-- net.IP.IsLinkLocalUnicast of an address that is not of IPv4: fe80::/10.
unfoldable pub is_link_local : Ip → Bool
is_link_local (a ∷ b ∷ ip) = nat_beq (length ip) 14 && (nat_beq a 254 && nat_beq (b / 64) 2)
is_link_local _ = false

-- The interface at an index of the result, if there is one.
unfoldable pub interface_at : ℤ → List (Option Interface) → Option Interface
interface_at (negsuc n) xs = none
interface_at (pos n) [] = none
interface_at (pos zero) (x ∷ xs) = x
interface_at (pos (suc n)) (x ∷ xs) = interface_at (pos n) xs

unfoldable pub interface_mac_by_ip_config : List (Option Interface) → List (Option IpConfig) → Text
unfolding interface_at
interface_mac_by_ip_config interfaces [] = []
interface_mac_by_ip_config interfaces (none ∷ ips) = interface_mac_by_ip_config interfaces ips
interface_mac_by_ip_config interfaces (some c ∷ ips) =
    let rest = interface_mac_by_ip_config interfaces ips in
    elim c.interface [
      | none ↦ rest
      | some index ↦ elim (interface_at index interfaces) [
        | none ↦ rest
        | some i ↦ if is_empty i.mac then rest else i.mac
      ]
    ]

-- The loop of sandboxInterfaceMAC, with the fallback that it carries.
unfoldable pub sandbox_mac : Text → Text → List (Option Interface) → Text
sandbox_mac preferred fallback [] = fallback
sandbox_mac preferred fallback (none ∷ is) = sandbox_mac preferred fallback is
sandbox_mac preferred fallback (some i ∷ is) =
    let skipped = is_empty i.mac || is_empty i.sandbox in
    let rest =
      sandbox_mac preferred
        (if skipped then fallback else if is_empty fallback then i.mac else fallback) is in
    if not skipped && i.name == preferred then i.mac else rest

unfoldable pub sandbox_interface_mac : List (Option Interface) → Text → Text
unfolding sandbox_mac
sandbox_interface_mac interfaces preferred = sandbox_mac preferred [] interfaces

unfoldable pub named_interface_mac : List (Option Interface) → Text → Text
named_interface_mac [] preferred = []
named_interface_mac (none ∷ is) preferred = named_interface_mac is preferred
named_interface_mac (some i ∷ is) preferred =
    let rest = named_interface_mac is preferred in
    if not (is_empty i.mac) && i.name == preferred then i.mac else rest

unfoldable pub container_interface_mac : CniResult → Text → Text
unfolding interface_mac_by_ip_config sandbox_interface_mac named_interface_mac
container_interface_mac result preferred =
    let by_ip = interface_mac_by_ip_config result.interfaces result.ips in
    let sandboxed = sandbox_interface_mac result.interfaces preferred in
    if not (is_empty by_ip)
    then by_ip
    else if not (is_empty sandboxed)
    then sandboxed
    else named_interface_mac result.interfaces preferred

abbrev pub new_attachment : NetworkId → Text → List Text → NetworkAttachment
new_attachment id name aliases = record {
  network_id = id;
  name = name;
  endpoint_id = [];
  ip_address = [];
  ip_prefix_len = pos 0;
  gateway = [];
  global_ipv6_address = [];
  global_ipv6_prefix_len = pos 0;
  mac_address = [];
  aliases = aliases;
}

module _ (ip_text : Ip → Text) (mask_size : List ℕ → ℕ) where
  -- The body of the loop of AttachmentFromResult: the first address of each family is taken.
  unfoldable pub add_ip : NetworkAttachment → Option IpConfig → NetworkAttachment
  unfolding to4
  add_ip a none = a
  add_ip a (some c) = elim c.address.ip [
    | none ↦ a
    | some ip ↦ elim (to4 ip) [
      | some v4 ↦
          if is_empty a.ip_address
          then record a {
            ip_address = ip_text v4;
            ip_prefix_len = pos (mask_size c.address.mask);
            gateway = elim c.gateway [ none ↦ a.gateway | some g ↦ ip_text g ];
          }
          else a
      | none ↦
          if is_empty a.global_ipv6_address
          then record a {
            global_ipv6_address = ip_text ip;
            global_ipv6_prefix_len = pos (mask_size c.address.mask);
          }
          else a
    ]
  ]

  unfoldable pub add_ips : NetworkAttachment → List (Option IpConfig) → NetworkAttachment
  unfolding add_ip
  add_ips a [] = a
  add_ips a (c ∷ cs) = add_ips (add_ip a c) cs

  unfoldable pub attachment_from_result :
      NetworkId
      → Text
      → Text
      → List Text
      → Option (Result Text CniResult)
      → Result ResultError NetworkAttachment
  unfolding add_ips container_interface_mac
  attachment_from_result id name if_name aliases none = err nil_result
  attachment_from_result id name if_name aliases (some (err e)) = err (undecodable e)
  attachment_from_result id name if_name aliases (some (ok decoded)) =
      ok (record (add_ips (new_attachment id name aliases) decoded.ips) {
        mac_address = container_interface_mac decoded if_name;
      })

  -- The body of the loop of FillFromNetNS.
  unfoldable pub overlay_ip : NetworkAttachment → IpNet → NetworkAttachment
  unfolding to4 is_link_local
  overlay_ip a net = elim net.ip [
    | none ↦ a
    | some ip ↦ elim (to4 ip) [
      | some v4 ↦
          if is_empty a.ip_address
          then record a { ip_address = ip_text ip; ip_prefix_len = pos (mask_size net.mask) }
          else a
      | none ↦
          if is_empty a.global_ipv6_address && not (is_link_local ip)
          then record a {
            global_ipv6_address = ip_text ip;
            global_ipv6_prefix_len = pos (mask_size net.mask);
          }
          else a
    ]
  ]

  unfoldable pub overlay_ips : NetworkAttachment → List IpNet → NetworkAttachment
  unfolding overlay_ip
  overlay_ips a [] = a
  overlay_ips a (net ∷ nets) = overlay_ips (overlay_ip a net) nets

  -- FillFromNetNS on the answer of the probe; its caller ignores an error.
  unfoldable pub overlay_info : NetworkAttachment → Result Text InterfaceInfo → NetworkAttachment
  unfolding overlay_ips
  overlay_info a (err e) = a
  overlay_info a (ok info) =
      overlay_ips
        (record a { mac_address = if is_empty a.mac_address then info.mac else a.mac_address })
        info.ip_addresses

  unfoldable pub fill_from_netns :
      (Text → Text → Result Text InterfaceInfo)
      → Text
      → Text
      → NetworkAttachment
      → NetworkAttachment
  unfolding overlay_info
  fill_from_netns probe netns if_name a =
      if is_empty netns || is_empty if_name then a else overlay_info a (probe netns if_name)
