-- ===== src/Cni/Networks.antt =====
-- The networks of internal/adapters/cni/adapter.go and the subnets of
-- internal/adapters/cni/networkconfig.go: create, list, resolve, ensure and remove over the directory of
-- configuration files. The operating system and libcni's listing are parameters.
pub mod Pool
pub mod Subnets
pub mod Names
pub mod Directory
pub mod Resolved
pub mod Created
pub mod Changes
mod Tests
use dockerdless.Base.{
  ℕ, zero, suc, ◌-◌, ◌^◌, Bool, true, false, ◌&&◌, ◌||◌, not, Option, none, some, List, [], ◌∷◌,
  ◌++◌, Text, bytes, is_empty, trim_space, to_lower, text_eq, leb, nat_beq, length, Dict, lookup,
  insert, delete, Result, ok, err, ◌>>=◌, ◌>>◌, refuse_if, if◌then◌else◌, ◌==◌, sort_by,
  strip_prefix, is_some,
}
use dockerdless.Domain.Model.{NetworkId}
use dockerdless.Domain.Registry.{ContextError}
use dockerdless.Cni.Modes.{
  Mode, host, isolated, network, NetworkError, network_not_found, network_exists,
  reserved_network_name, unsupported_network_driver, ipv6_unsupported, invalid_subnet,
  invalid_gateway, no_free_subnet, external, context_ended, driver_bridge, default_network_name,
  parse_network_mode, validate_network_name, is_reserved_network_name,
}
use dockerdless.Cni.Addresses.{
  Addr, Prefix, IpPrefix, v4, v6, add_ipv4, masked, prefix_contains, prefix_text,
  default_gateway_for,
}
use dockerdless.Cni.Config.{
  Files, FileContent, document, Network, network_id_for_name, build_bridge_network_config,
  parse_network_file, file_subnets,
}

pub record CreateNetworkRequest : Type 0 where
  pub name : Text
  pub driver : Text
  pub subnet : Text
  pub gateway : Text
  pub enable_ipv6 : Bool
  pub labels : Dict Text Text

-- What the adapter is configured with and what it asks of others. `conf_files` is libcni.ConfFiles;
-- the errors of os.MkdirAll and of writing a file under a path are Options.
pub record Host : Type 0 where
  pub conf_dir : Text
  pub ipam_data_dir : Text
  pub sha256_hex : Text → Text
  pub conf_files : Files → List Text → Result Text (List Text)
  pub parse_prefix : Text → Option IpPrefix
  pub is_addr : Text → Bool
  pub mkdir_error : Option Text
  pub write_error : Text → Option Text

abbrev pub network_file_prefix : Text
network_file_prefix = bytes "dockerdless-"

abbrev pub network_file_ext : Text
network_file_ext = bytes ".conflist"

abbrev pub conf_extensions : List Text
conf_extensions = network_file_ext ∷ bytes ".conf" ∷ []

-- filepath.Join of a clean directory and a file's name.
unfoldable pub network_file_path : Text → Text → Text
network_file_path dir name = dir ++ (b'/' ∷ (network_file_prefix ++ (name ++ network_file_ext)))

-- filepath.Base of a path that does not end in a slash.
unfoldable pub base_name : Text → Text → Text
base_name last [] = last
base_name last (c ∷ s) = base_name (if nat_beq c b'/' then s else last) s

unfoldable pub is_taken : Text → List Text → Bool
is_taken s [] = false
is_taken s (t ∷ ts) = t == s || is_taken s ts

abbrev pub default_subnet_bits : ℕ
default_subnet_bits = 24

-- 10.88.0.0/16
abbrev pub default_subnet_pool : Prefix
default_subnet_pool = record {
  addr = record { first = 10; second = 88; third = 0; fourth = 0 };
  bits = 16;
}

-- The loop over the pool, with fuel: `none` says that the fuel ran out.
unfoldable pub scan_pool : ℕ → List Text → Addr → Option (Option Prefix)
scan_pool zero used addr = none
scan_pool (suc n) used addr =
    let rest = scan_pool n used (add_ipv4 addr (2 ^ (32 - default_subnet_bits))) in
    let candidate : Prefix = record { addr = addr; bits = default_subnet_bits } in
    if prefix_contains default_subnet_pool addr
    then if is_taken (prefix_text candidate) used then rest else some (some candidate)
    else some none

-- The address of the masked pool.
unfoldable pub pool_start : Addr
unfolding masked
pool_start = (masked default_subnet_pool).addr

abbrev pub pool_rounds : ℕ
pool_rounds = 257

unfoldable pub subnets_of : Files → List Text → List Text
unfolding file_subnets
subnets_of files [] = []
subnets_of files (path ∷ paths) = file_subnets (lookup path files) ++ subnets_of files paths

-- os.OpenFile with O_EXCL, and the write; a failed write removes the file again.
unfoldable pub write_file_exclusive :
    (Text → Option Text) → Files → Text → Text → FileContent → Result NetworkError Files
write_file_exclusive write_error files name path content = elim (lookup path files) [
  | some old ↦ err (network_exists name)
  | none ↦ elim (write_error path) [
    | some e ↦ err (external (bytes "cni: writing ") e)
    | none ↦ ok (insert path content files)
  ]
]

abbrev pub context_open : Option ContextError → Result NetworkError (Unit {0})
context_open none = ok tt
context_open (some e) = err (context_ended e)

abbrev pub external_result {ℓ} : {A : Type ℓ} → Text → Result Text A → Result NetworkError A
external_result message (ok a) = ok a
external_result message (err e) = err (external message e)

unfoldable pub find_exact : Text → List Network → Option Network
find_exact ref [] = none
find_exact ref (n ∷ ns) = if n.name == ref || n.id == ref then some n else find_exact ref ns

unfoldable pub find_prefix : Text → List Network → Option Network
unfolding strip_prefix
find_prefix ref [] = none
find_prefix ref (n ∷ ns) = if is_some (strip_prefix ref n.id) then some n else find_prefix ref ns

-- The two loops of Resolve over the listed networks.
unfoldable pub find_network : Text → List Network → Result NetworkError Network
find_network ref networks = elim (find_exact ref networks) [
  | some n ↦ ok n
  | none ↦ elim (if leb 12 (length ref) then find_prefix ref networks else none) [
    | some n ↦ ok n
    | none ↦ err (network_not_found ref)
  ]
]

module _ (h : Host) (ctx : Option ContextError) where
  unfoldable pub used_subnets : Files → Result NetworkError (List Text)
  unfolding subnets_of
  used_subnets files = do
    paths ← external_result (bytes "cni: listing ") (h.conf_files files conf_extensions)
    ok (subnets_of files paths)

  -- A subnet that the request names: it must be of IPv4, and is not compared with those in use.
  unfoldable pub requested_subnet : Text → Text → Result NetworkError (Text × Text)
  unfolding masked prefix_text default_gateway_for
  requested_subnet subnet gateway = elim (h.parse_prefix subnet) [
    | none ↦ err (invalid_subnet subnet)
    | some (v6 text) ↦ err (ipv6_unsupported subnet)
    | some (v4 p) ↦
        if is_empty gateway
        then ok (prefix_text (masked p), default_gateway_for (masked p))
        else if h.is_addr gateway
        then ok (prefix_text (masked p), gateway)
        else err (invalid_gateway gateway)
  ]

  unfoldable pub allocate_subnet : Files → Text → Text → Result NetworkError (Text × Text)
  unfolding requested_subnet
  allocate_subnet files subnet gateway =
      if not (is_empty subnet) then requested_subnet subnet gateway else do
        used ← used_subnets files
        elim (scan_pool pool_rounds used pool_start) [
          | some (some candidate) ↦ ok (prefix_text candidate, default_gateway_for candidate)
          | some none ↦ err no_free_subnet
          | none ↦ err no_free_subnet
        ]

  -- The driver that a request means: bridge, or none.
  abbrev pub is_bridge_driver : Text → Bool
  is_bridge_driver requested =
      let driver = to_lower (trim_space requested) in is_empty driver || driver == driver_bridge

  -- The tests on a request, which give the name that it means.
  unfoldable pub check_request : CreateNetworkRequest → Result NetworkError Text
  check_request req = do
    context_open ctx
    let name = trim_space req.name
    validate_network_name name
    refuse_if (is_reserved_network_name name) (reserved_network_name name)
    refuse_if (not (is_bridge_driver req.driver)) (unsupported_network_driver req.driver)
    refuse_if req.enable_ipv6 (ipv6_unsupported name)
    ok name

  unfoldable pub make_conf_dir : Result NetworkError (Unit {0})
  make_conf_dir = elim h.mkdir_error [
    | none ↦ ok tt
    | some e ↦ err (external (bytes "cni: creating ") e)
  ]

  unfoldable pub create_network :
      Files → CreateNetworkRequest → Result NetworkError (NetworkId × Files)
  create_network files req = do
    name ← check_request req
    make_conf_dir
    addresses ← allocate_subnet files req.subnet req.gateway
    raw ←
        build_bridge_network_config h.sha256_hex name addresses.0 addresses.1 h.ipam_data_dir
          req.labels
    files' ←
        write_file_exclusive h.write_error files name (network_file_path h.conf_dir name)
          (document raw)
    ok (network_id_for_name h.sha256_hex name, files')

  -- The loop of List over the files.
  unfoldable pub parse_files : Files → List Text → Result NetworkError (List Network)
  unfolding base_name parse_network_file strip_prefix
  parse_files files [] = ok []
  parse_files files (path ∷ paths) =
      if is_some (strip_prefix network_file_prefix (base_name path path))
      then (do
        n ← parse_network_file h.sha256_hex path (lookup path files)
        ns ← parse_files files paths
        ok (n ∷ ns))
      else parse_files files paths

  unfoldable pub list_networks : Files → Result NetworkError (List Network)
  unfolding parse_files sort_by
  list_networks files = do
    context_open ctx
    paths ← external_result (bytes "cni: listing ") (h.conf_files files conf_extensions)
    networks ← parse_files files paths
    ok (sort_by (λ n. n.name) networks)

  -- A predefined network, which has no file.
  abbrev pub predefined : Mode → Text → Network
  predefined mode ref = record {
    id = network_id_for_name h.sha256_hex ref;
    name = ref;
    driver = ref;
    mode = mode;
    file = [];
    bridge = [];
    subnet = [];
    gateway = [];
    labels = [];
  }

  abbrev pub resolve_in : Files → Mode → Text → Result NetworkError Network
  resolve_in files host ref = ok (predefined host ref)
  resolve_in files isolated ref = ok (predefined isolated ref)
  resolve_in files network ref = do networks ← list_networks files; find_network ref networks

  unfoldable pub resolve : Files → Text → Result NetworkError Network
  unfolding parse_network_mode list_networks find_network network_id_for_name
  resolve files requested = do
    context_open ctx
    let trimmed = trim_space requested
    let ref = if is_empty trimmed then default_network_name else trimmed
    mode ← parse_network_mode ref
    resolve_in files mode ref

  abbrev pub default_request : CreateNetworkRequest
  default_request = record {
    name = default_network_name;
    driver = driver_bridge;
    subnet = [];
    gateway = [];
    enable_ipv6 = false;
    labels = [];
  }

  unfoldable pub ensure_default_network : Files → Result NetworkError (NetworkId × Files)
  unfolding resolve create_network network_id_for_name
  ensure_default_network files = elim (resolve files default_network_name) [
    | ok found ↦ ok (network_id_for_name h.sha256_hex default_network_name, files)
    | err (network_not_found ref) ↦ create_network files default_request
    | err e ↦ err e
  ]

  -- Create of ports.Network
  unfoldable pub create : Files → Text → Result NetworkError (NetworkId × Files)
  unfolding create_network
  create files name = create_network files (record default_request { name = name })
