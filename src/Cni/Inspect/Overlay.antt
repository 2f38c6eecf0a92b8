-- ===== src/Cni/Inspect/Overlay.antt =====
-- FillFromNetNS of internal/adapters/cni/inspect.go only fills what is empty.
use dockerdless.Base.{
  ℕ, ◌≡◌, refl, ◌∙◌, ◌⊎◌, inl, arith, true, List, [], ◌∷◌, Text, is_empty, Result, ok, err, if_both,
  if◌then◌else◌, ◌||◌,
}
use dockerdless.Domain.Model.{NetworkAttachment}
use dockerdless.Cni.Inspect.{
  Ip, IpNet, InterfaceInfo, overlay_ip, overlay_ips, overlay_info, fill_from_netns,
}

-- The new text is the old one, or the old one was empty.
abbrev FillsEmpty : Text → Text → Type 0
FillsEmpty old new = (new ≡ old) ⊎ (old ≡ [])

-- Every field but the addresses and the MAC is the same, and these are filled only if they were empty.
pub record Overlays (a b : NetworkAttachment) : Type 0 where
  pub network_id : b.network_id ≡ a.network_id
  pub name : b.name ≡ a.name
  pub endpoint_id : b.endpoint_id ≡ a.endpoint_id
  pub gateway : b.gateway ≡ a.gateway
  pub aliases : b.aliases ≡ a.aliases
  pub mac : FillsEmpty a.mac_address b.mac_address
  pub ip :
      ((b.ip_address ≡ a.ip_address) × (b.ip_prefix_len ≡ a.ip_prefix_len)) ⊎ (a.ip_address ≡ [])
  pub ipv6 :
      ((b.global_ipv6_address ≡ a.global_ipv6_address)
        × (b.global_ipv6_prefix_len ≡ a.global_ipv6_prefix_len))
      ⊎ (a.global_ipv6_address ≡ [])

Overlays-refl : (a : NetworkAttachment) → Overlays a a
Overlays-refl a = record {
  network_id = refl;
  name = refl;
  endpoint_id = refl;
  gateway = refl;
  aliases = refl;
  mac = inl refl;
  ip = inl (refl, refl);
  ipv6 = inl (refl, refl);
}

Overlays-trans : (a b c : NetworkAttachment) → Overlays a b → Overlays b c → Overlays a c
Overlays-trans a b c p q = record {
  network_id = q.network_id ∙ p.network_id;
  name = q.name ∙ p.name;
  endpoint_id = q.endpoint_id ∙ p.endpoint_id;
  gateway = q.gateway ∙ p.gateway;
  aliases = q.aliases ∙ p.aliases;
  mac = ground (arith, p.mac, q.mac);
  ip = ground (arith, p.ip, q.ip);
  ipv6 = ground (arith, p.ipv6, q.ipv6);
}

empty_text : (s : Text) → is_empty s ≡ true → s ≡ []
empty_text [] e = refl
empty_text (c ∷ s) e = cc

module _ (ip_text : Ip → Text) (mask_size : List ℕ → ℕ) where
  overlay_ip-Overlays :
      (a : NetworkAttachment) (net : IpNet) → Overlays a (overlay_ip ip_text mask_size a net)
  unfolding overlay_ip
  overlay_ip-Overlays a net = record {
    network_id = ground arith;
    name = ground arith;
    endpoint_id = ground arith;
    gateway = ground arith;
    aliases = ground arith;
    mac = ground arith;
    ip = ground (arith, empty_text a.ip_address);
    ipv6 = ground (arith, empty_text a.global_ipv6_address);
  }

  overlay_ips-Overlays :
      (a : NetworkAttachment) (nets : List IpNet)
      → Overlays a (overlay_ips ip_text mask_size a nets)
  unfolding overlay_ips
  overlay_ips-Overlays a [] = Overlays-refl a
  overlay_ips-Overlays a (net ∷ nets) =
      Overlays-trans a (overlay_ip ip_text mask_size a net) _ (overlay_ip-Overlays a net)
        (overlay_ips-Overlays (overlay_ip ip_text mask_size a net) nets)

  mac-Overlays :
      (a : NetworkAttachment) (mac : Text)
      → Overlays a
          (record a { mac_address = if is_empty a.mac_address then mac else a.mac_address })
  mac-Overlays a mac = record {
    network_id = refl;
    name = refl;
    endpoint_id = refl;
    gateway = refl;
    aliases = refl;
    mac = ground (arith, empty_text a.mac_address);
    ip = inl (refl, refl);
    ipv6 = inl (refl, refl);
  }

  overlay_info-Overlays :
      (a : NetworkAttachment) (r : Result Text InterfaceInfo)
      → Overlays a (overlay_info ip_text mask_size a r)
  unfolding overlay_info
  overlay_info-Overlays a (err e) = Overlays-refl a
  overlay_info-Overlays a (ok info) =
      let b = record a {
        mac_address = if is_empty a.mac_address then info.mac else a.mac_address;
      } in
      Overlays-trans a b (overlay_ips ip_text mask_size b info.ip_addresses)
        (mac-Overlays a info.mac) (overlay_ips-Overlays b info.ip_addresses)

  -- Whatever a network namespace answers, the overlay changes no field that has a value: the MAC, the
  -- IPv4 address with its prefix length and the IPv6 address with its prefix length are filled only
  -- where they are empty, and all other fields are the same.
  pub fill_from_netns-Overlays :
      (probe : Text → Text → Result Text InterfaceInfo) (netns if_name : Text)
      (a : NetworkAttachment)
      → Overlays a (fill_from_netns ip_text mask_size probe netns if_name a)
  unfolding fill_from_netns
  fill_from_netns-Overlays probe netns if_name a =
      if_both (Overlays a) (is_empty netns || is_empty if_name) (Overlays-refl a)
        (overlay_info-Overlays a (probe netns if_name))
