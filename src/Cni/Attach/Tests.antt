-- ===== src/Cni/Attach/Tests.antt =====
-- Runs and witnesses for Connect of internal/adapters/cni/adapter.go: plugins that fail.
use dockerdless.Base.{
  ℕ, ◌≡◌, refl, true, Option, none, List, [], ◌∷◌, Text, bytes, lookup, insert, ok, err, to_lower,
  trim_space, text_beq, text_eq, sort_by, insert_by, strip_prefix, keys,
}
use dockerdless.Cni.Ports.{
  normalize_protocol, normalize_host_ip, build_port_mappings, build_port_mapping, conflicts_locked,
}
use dockerdless.Cni.Ports.Allocate.{
  Probe, allocate, allocate_fixed, allocate_all, allocate_bindings, reserve, counted, fill,
}
use dockerdless.Cni.Modes.{external, parse_network_mode, contains_byte}
use dockerdless.Cni.Config.{
  document, bridge_config, network_of, scan_plugins, take_bridge, network_id_for_name,
  bridge_interface_name, parse_network_file,
}
use dockerdless.Cni.Networks.{
  Host, base_name, parse_files, list_networks, find_exact, find_prefix, find_network, resolve,
}
use dockerdless.Cni.Attach.{
  ConnectRequest, Adapter, Plugins, link_deleted, prepare_connect_ports, add_container_network,
  conclude_connect, finish_connect, connect_prepared, connect_loaded, connect_named,
  connect_resolved, connect, connect_fresh,
}
use dockerdless.Cni.Attach.Undone.{Unchanged, connect_fresh_failed}

abbrev pub machine : Host
machine = record {
  conf_dir = bytes "/c";
  ipam_data_dir = [];
  sha256_hex = λ t. bytes "0123456789abcdef";
  conf_files = λ files exts. ok (keys files);
  parse_prefix = λ s. none;
  is_addr = λ s. true;
  mkdir_error = none;
  write_error = λ p. none;
}

abbrev pub failing : Plugins (Unit {0}) (Unit {0})
failing = record {
  load_conf = λ files path. ok tt;
  add_network = λ c conf w. (err (bytes "boom"), w);
  del_network = λ c conf w. (none, w);
  cached_config = λ c conf w. none;
  cached_attachments = λ w. ok [];
  interface_info = λ w netns name. err [];
  delete_link = λ name w. (link_deleted, w);
  remove_error = λ p. none;
  ip_text = λ ip. [];
  mask_size = λ m. 24;
}

abbrev pub any_ip : Text → Option (List ℕ)
any_ip t = none

abbrev pub echo_probe : Probe
echo_probe n protocol ip port = ok port

abbrev pub fresh : Adapter (Unit {0})
fresh = record {
  files =
      (
        bytes "/c/dockerdless-web.conflist",
        document (
            bridge_config machine.sha256_hex (bytes "web") (bytes "10.88.0.0/24")
              (bytes "10.88.0.1") [] []),
      )
      ∷ [];
  alloc = record { used = []; attempts = 16; calls = 0 };
  attachments = [];
  world = tt;
}

abbrev pub web_request : ConnectRequest
web_request = record {
  network = bytes "web";
  container = bytes "c1";
  netns = bytes "/proc/7/ns/net";
  if_name = [];
  ports =
      record { container_port = 80; protocol = bytes "tcp"; host_ip = []; host_port = 8080 } ∷ [];
  aliases = [];
}

boom :
    (connect_fresh machine failing any_ip echo_probe none fresh web_request).0
    ≡ err (external (bytes "cni: connecting container ") (bytes "boom"))
unfolding connect_fresh connect connect_resolved connect_named connect_loaded connect_prepared
    finish_connect conclude_connect add_container_network prepare_connect_ports allocate_bindings
    allocate_all allocate allocate_fixed reserve counted fill conflicts_locked build_port_mappings
    build_port_mapping normalize_protocol normalize_host_ip resolve list_networks parse_files
    parse_network_file network_of scan_plugins take_bridge network_id_for_name bridge_interface_name
    find_network find_exact find_prefix parse_network_mode contains_byte base_name strip_prefix
    to_lower trim_space text_beq lookup insert sort_by insert_by
boom = refl

-- The plugins refuse, and port 8080 is free again.
connect_fresh_failed_example :
    Unchanged fresh (connect_fresh machine failing any_ip echo_probe none fresh web_request).1
connect_fresh_failed_example =
    connect_fresh_failed machine failing any_ip echo_probe none fresh web_request
      (external (bytes "cni: connecting container ") (bytes "boom")) boom
