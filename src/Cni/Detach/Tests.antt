-- ===== src/Cni/Detach/Tests.antt =====
-- Runs and witnesses for Disconnect and Remove of internal/adapters/cni/adapter.go.
use dockerdless.Base.{
  ◌≡◌, refl, none, some, [], ◌∷◌, bytes, lookup, insert, delete, ok, err, to_lower, trim_space,
  text_beq, text_eq, sort_by, insert_by, strip_prefix,
}
use dockerdless.Cni.Ports.{
  port_key_eq, normalize_protocol, normalize_host_ip, build_port_mappings, build_port_mapping,
  conflicts_locked,
}
use dockerdless.Cni.Ports.Allocate.{
  allocate, allocate_fixed, allocate_all, allocate_bindings, reserve, counted, fill,
}
use dockerdless.Cni.Modes.{network, parse_network_mode, contains_byte, NetworkError}
use dockerdless.Cni.Config.{
  network_of, scan_plugins, take_bridge, network_id_for_name, bridge_interface_name,
  parse_network_file, Network,
}
use dockerdless.Cni.Networks.{
  base_name, parse_files, list_networks, find_exact, find_prefix, find_network, resolve,
}
use dockerdless.Cni.Inspect.{
  new_attachment, attachment_from_result, add_ips, container_interface_mac, fill_from_netns,
  interface_mac_by_ip_config, sandbox_interface_mac, sandbox_mac, named_interface_mac,
}
use dockerdless.Cni.Attach.{
  attachment_key_eq, track_attachment, ConnectResult, Adapter, Plugins, normalize_if_name,
  prepare_connect_ports, add_container_network, conclude_connect, finish_connect, connect_prepared,
  connect_loaded, connect_named, connect_resolved, connect, connect_fresh,
}
use dockerdless.Cni.Attach.Tests.{machine, any_ip, echo_probe, fresh, web_request, failing}
use dockerdless.Cni.Detach.{
  remove_network, network_in_use, remove_found, tracks_network, caches_network,
}

-- Plugins that attach, and fail to detach.
abbrev sticky : Plugins (Unit {0}) (Unit {0})
sticky = record failing {
  add_network = λ c conf w. (ok (some (ok (record { ips = []; interfaces = [] }))), w);
  del_network = λ c conf w. (some (bytes "busy"), w);
}

abbrev web : Network
web = record {
  id = bytes "0123456789abcdef";
  name = bytes "web";
  driver = bytes "bridge";
  mode = network;
  file = bytes "/c/dockerdless-web.conflist";
  bridge = bytes "dls0123456789";
  subnet = bytes "10.88.0.0/24";
  gateway = bytes "10.88.0.1";
  labels = [];
}

abbrev web_result : ConnectResult
web_result = record {
  attachment = new_attachment web.id web.name [];
  ports =
      record {
        container_port = 80;
        protocol = bytes "tcp";
        host_ip = bytes "0.0.0.0";
        host_port = 8080;
      }
      ∷ [];
}

abbrev removed_web : Adapter (Unit {0})
removed_web = record fresh { files = [] }

removed : remove_network machine sticky none fresh (bytes "web") ≡ (ok tt, removed_web)
unfolding resolve list_networks parse_files parse_network_file network_of scan_plugins take_bridge
    network_id_for_name bridge_interface_name find_network find_exact find_prefix parse_network_mode
    contains_byte base_name strip_prefix to_lower trim_space text_beq lookup insert sort_by
    insert_by remove_network network_in_use remove_found tracks_network caches_network delete
removed = refl

-- With an attachment the network stays.
in_use :
    (remove_network machine sticky none
      (connect_fresh machine sticky any_ip echo_probe none fresh web_request).1
      (bytes "web")).0
    ≡ err (NetworkError.network_in_use (bytes "web"))
unfolding connect_fresh connect connect_resolved connect_named connect_loaded connect_prepared
    finish_connect conclude_connect add_container_network prepare_connect_ports allocate_bindings
    allocate_all allocate allocate_fixed reserve counted fill conflicts_locked build_port_mappings
    build_port_mapping normalize_protocol normalize_host_ip resolve list_networks parse_files
    parse_network_file network_of scan_plugins take_bridge network_id_for_name bridge_interface_name
    find_network find_exact find_prefix parse_network_mode contains_byte base_name strip_prefix
    to_lower trim_space text_beq lookup insert sort_by insert_by attachment_from_result add_ips
    container_interface_mac fill_from_netns normalize_if_name track_attachment
    interface_mac_by_ip_config sandbox_interface_mac sandbox_mac named_interface_mac remove_network
    network_in_use remove_found tracks_network caches_network
in_use = refl
