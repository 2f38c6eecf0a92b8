-- ===== src/Cni/Networks/Tests.antt =====
-- Runs and witnesses for the networks of internal/adapters/cni.
use dockerdless.Base.{
  ℕ, ◌≡◌, ◌≢◌, refl, arith, true, false, none, [], ◌∷◌, Text, bytes, ap, is_some, length, lookup,
  insert, ok, err, keys, Listed-keys→lookup, lookup→Listed-keys, trim_space, to_lower, text_beq,
  text_eq, Option-cases, inl, inr, ◌++◌,
}
use dockerdless.Cni.Modes.{
  unknown_network_mode, parse_network_mode, contains_byte, all_bytes, matches_name_pattern,
  validate_network_name, is_reserved_network_name, network_exists, reserved_network_name,
  invalid_network_name,
}
use dockerdless.Cni.Addresses.{add_ipv4, masked, prefix_contains, prefix_text, default_gateway_for}
use dockerdless.Cni.Config.{
  Files, FileContent, document, bridge_config, build_bridge_network_config, network_id_for_name,
  bridge_interface_name, file_subnets, plugins_subnets,
}
use dockerdless.Cni.Networks.{
  Host, CreateNetworkRequest, network_file_path, is_taken, scan_pool, pool_start, subnets_of,
  write_file_exclusive, used_subnets, allocate_subnet, check_request, make_conf_dir, create_network,
}
use dockerdless.Cni.Networks.Directory.{ListsFiles, HasHexLength, IsDirectory}
use dockerdless.Cni.Networks.Names.{IsProper}
use dockerdless.Cni.Networks.Changes.{create_network-resolve, Resolves}
use dockerdless.Cni.Networks.Subnets.{PoolAnswer, allocate_subnet_pool}

abbrev zeros : ℕ → Text
zeros ℕ.zero = []
zeros (ℕ.suc n) = b'0' ∷ zeros n

-- A machine on which the directory holds network files only.
abbrev machine : Host
machine = record {
  conf_dir = bytes "/etc/cni/net.d";
  ipam_data_dir = [];
  sha256_hex = λ t. zeros 64;
  conf_files = λ files exts. ok (keys files);
  parse_prefix = λ s. none;
  is_addr = λ s. true;
  mkdir_error = none;
  write_error = λ p. none;
}

machine_lists : ListsFiles machine
machine_lists files = (
  keys files,
  refl,
  λ p l. let (c, e) = Listed-keys→lookup p files l in ap is_some e,
  λ name e.
      let path = network_file_path machine.conf_dir name in
      elim (Option-cases (lookup path files)) [
        | inl k ↦ absurd (ground (arith, k))
        | inr (c, k) ↦ lookup→Listed-keys path files c k
      ],
)

machine_hex : HasHexLength machine
machine_hex t = refl

empty-IsDirectory : IsDirectory machine []
unfolding lookup
empty-IsDirectory p c e = absurd (ground arith)

abbrev request : Text → CreateNetworkRequest
request name = record {
  name = name;
  driver = [];
  subnet = [];
  gateway = [];
  enable_ipv6 = false;
  labels = [];
}

abbrev bridge_file : Text → Text → Text → Text × FileContent
bridge_file name subnet gateway = (
  bytes "/etc/cni/net.d/dockerdless-" ++ (name ++ bytes ".conflist"),
  document (bridge_config machine.sha256_hex name subnet gateway [] []),
)

abbrev web_files : Files
web_files = bridge_file (bytes "web") (bytes "10.88.0.0/24") (bytes "10.88.0.1") ∷ []

abbrev two_files : Files
two_files = web_files ++ bridge_file (bytes "db") (bytes "10.88.1.0/24") (bytes "10.88.1.1") ∷ []

web_created : create_network machine none [] (request (bytes " web ")) ≡ ok (zeros 64, web_files)
unfolding create_network check_request make_conf_dir allocate_subnet used_subnets subnets_of
    file_subnets plugins_subnets scan_pool pool_start prefix_contains prefix_text is_taken add_ipv4
    masked default_gateway_for build_bridge_network_config network_id_for_name bridge_interface_name
    write_file_exclusive network_file_path validate_network_name matches_name_pattern all_bytes
    is_reserved_network_name to_lower trim_space text_beq lookup insert
web_created = refl

-- The second network gets the next subnet.
db_created : create_network machine none web_files (request (bytes "db")) ≡ ok (zeros 64, two_files)
unfolding create_network check_request make_conf_dir allocate_subnet used_subnets subnets_of
    file_subnets plugins_subnets scan_pool pool_start prefix_contains prefix_text is_taken add_ipv4
    masked default_gateway_for build_bridge_network_config network_id_for_name bridge_interface_name
    write_file_exclusive network_file_path validate_network_name matches_name_pattern all_bytes
    is_reserved_network_name to_lower trim_space text_beq lookup insert
db_created = refl

name_taken :
    create_network machine none web_files (request (bytes "web"))
    ≡ err (network_exists (bytes "web"))
unfolding create_network check_request make_conf_dir allocate_subnet used_subnets subnets_of
    file_subnets plugins_subnets scan_pool pool_start prefix_contains prefix_text is_taken add_ipv4
    masked default_gateway_for build_bridge_network_config network_id_for_name bridge_interface_name
    write_file_exclusive network_file_path validate_network_name matches_name_pattern all_bytes
    is_reserved_network_name to_lower trim_space text_beq lookup insert
name_taken = refl

name_reserved :
    create_network machine none [] (request (bytes "Host"))
    ≡ err (reserved_network_name (bytes "Host"))
unfolding create_network check_request make_conf_dir allocate_subnet used_subnets subnets_of
    file_subnets plugins_subnets scan_pool pool_start prefix_contains prefix_text is_taken add_ipv4
    masked default_gateway_for build_bridge_network_config network_id_for_name bridge_interface_name
    write_file_exclusive network_file_path validate_network_name matches_name_pattern all_bytes
    is_reserved_network_name to_lower trim_space text_beq lookup insert
name_reserved = refl

name_invalid :
    create_network machine none [] (request (bytes "a/b"))
    ≡ err (invalid_network_name (bytes "a/b"))
unfolding create_network check_request make_conf_dir allocate_subnet used_subnets subnets_of
    file_subnets plugins_subnets scan_pool pool_start prefix_contains prefix_text is_taken add_ipv4
    masked default_gateway_for build_bridge_network_config network_id_for_name bridge_interface_name
    write_file_exclusive network_file_path validate_network_name matches_name_pattern all_bytes
    is_reserved_network_name to_lower trim_space text_beq lookup insert
name_invalid = refl

mode_rejected :
    parse_network_mode (bytes "container:x") ≡ err (unknown_network_mode (bytes "container:x"))
unfolding parse_network_mode contains_byte to_lower trim_space text_beq
mode_rejected = refl

web_name : length (trim_space (bytes " web ")) ≢ 64
unfolding trim_space
web_name = omega arith

db_name : length (trim_space (bytes "db")) ≢ 64
unfolding trim_space
db_name = omega arith

cache-IsProper : IsProper (bytes "cache")
unfolding trim_space matches_name_pattern is_reserved_network_name to_lower text_beq
cache-IsProper = record { trimmed = refl; pattern = refl; free = refl }

web-IsProper : IsProper (bytes "web")
unfolding trim_space matches_name_pattern is_reserved_network_name to_lower text_beq
web-IsProper = record { trimmed = refl; pattern = refl; free = refl }

cache_other : bytes "cache" ≢ trim_space (bytes " web ")
unfolding trim_space
cache_other e = absurd (ground arith)

web_other : bytes "web" ≢ trim_space (bytes "db")
unfolding trim_space
web_other e = absurd (ground arith)

web-IsDirectory : IsDirectory machine web_files
web-IsDirectory =
    (create_network-resolve machine machine_lists machine_hex [] web_files (request (bytes " web "))
      (zeros 64) (bytes "cache") empty-IsDirectory web_name cache-IsProper cache_other (omega arith)
      web_created).0

-- The second network is created beside the first, which resolves as before.
create_network-resolve_example :
    Resolves machine machine_lists machine_hex web_files two_files
      (request (bytes "db"))
      (zeros 64)
      (bytes "web")
      (trim_space (bytes "db"))
create_network-resolve_example =
    create_network-resolve machine machine_lists machine_hex web_files two_files
      (request (bytes "db")) (zeros 64) (bytes "web") web-IsDirectory db_name web-IsProper web_other
      (omega arith) db_created

web_subnets : used_subnets machine none web_files ≡ ok (bytes "10.88.0.0/24" ∷ [])
unfolding used_subnets subnets_of file_subnets plugins_subnets text_beq lookup
web_subnets = refl

-- The first subnet is in use, so the second one is free.
allocate_subnet_pool_example : PoolAnswer machine none web_files [] (bytes "10.88.0.0/24" ∷ [])
allocate_subnet_pool_example =
    allocate_subnet_pool machine none web_files [] (bytes "10.88.0.0/24" ∷ []) web_subnets
