-- ===== src/Cni/Config.antt =====
-- The CNI configuration files of internal/adapters/cni/networkconfig.go: what CreateNetwork writes and how
-- a file is read back as a network. A file is the document that encoding/json reads from it, or the
-- error of reading or decoding it; SHA-256 in hexadecimal is a parameter.
use dockerdless.Base.{
  Bool, true, false, ◌||◌, Option, none, some, List, [], ◌∷◌, ◌++◌, Text, bytes, is_empty, text_eq,
  take, Dict, Result, ok, err, ◌>>◌, refuse_if, if◌then◌else◌,
}
use dockerdless.Domain.Model.{NetworkId}
use dockerdless.Cni.Modes.{
  Mode, network, NetworkError, missing_addresses, malformed_config, external, driver_bridge,
}

pub record RangeItem : Type 0 where
  pub subnet : Text
  pub gateway : Text

pub record RouteItem : Type 0 where
  pub dst : Text

pub record IpamConfig : Type 0 where
  pub kind : Text
  pub ranges : List (List RangeItem)
  pub gateway : Text
  pub routes : List RouteItem
  pub data_dir : Text

pub record PluginConfig : Type 0 where
  pub kind : Text
  pub bridge : Text
  pub is_gateway : Bool
  pub ip_masq : Bool
  pub hairpin_mode : Bool
  pub capabilities : Dict Text Bool
  pub ipam : Option IpamConfig

pub record NetworkConfigFile : Type 0 where
  pub cni_version : Text
  pub name : Text
  pub dockerdless_id : Text
  pub dockerdless_labels : Dict Text Text
  pub plugins : List PluginConfig

pub data FileContent : Type 0 where
  document : NetworkConfigFile → FileContent
  unreadable not_json : Text → FileContent

-- The files under their paths.
abbrev pub Files : Type 0
Files = Dict Text FileContent

pub record Network : Type 0 where
  pub id : NetworkId
  pub name : Text
  pub driver : Text
  pub mode : Mode
  pub file : Text
  pub bridge : Text
  pub subnet : Text
  pub gateway : Text
  pub labels : Dict Text Text

-- A plugin of which nothing but the type is set.
abbrev pub plain_plugin : Text → PluginConfig
plain_plugin kind = record {
  kind = kind;
  bridge = [];
  is_gateway = false;
  ip_masq = false;
  hairpin_mode = false;
  capabilities = [];
  ipam = none;
}

-- The bridge's name and addresses, where the loop over the plugins ends.
unfoldable pub take_bridge : Network → PluginConfig → Network
take_bridge n p = elim p.ipam [
  | none ↦ record n { driver = driver_bridge; bridge = p.bridge }
  | some ipam ↦ elim ipam.ranges [
    | (item ∷ items) ∷ groups ↦ record n {
      driver = driver_bridge;
      bridge = p.bridge;
      subnet = item.subnet;
      gateway = if is_empty ipam.gateway then item.gateway else ipam.gateway;
    }
    | _ ↦ record n { driver = driver_bridge; bridge = p.bridge; gateway = ipam.gateway }
  ]
]

-- The loop over the plugins up to the first one with a bridge.
unfoldable pub scan_plugins : Network → List PluginConfig → Network
unfolding take_bridge
scan_plugins n [] = n
scan_plugins n (p ∷ ps) =
    let rest = scan_plugins (if is_empty p.kind then n else record n { driver = p.kind }) ps in
    if is_empty p.bridge then rest else take_bridge n p

module _ (sha256_hex : Text → Text) where
  unfoldable pub network_id_for_name : Text → NetworkId
  network_id_for_name name = sha256_hex (bytes "dockerdless-network:" ++ name)

  unfoldable pub bridge_interface_name : Text → Text
  bridge_interface_name name =
      bytes "dls" ++ take 10 (sha256_hex (bytes "dockerdless-bridge:" ++ name))

  abbrev pub bridge_plugin : Text → Text → Text → Text → PluginConfig
  bridge_plugin name subnet gateway ipam_data_dir = record {
    kind = driver_bridge;
    bridge = bridge_interface_name name;
    is_gateway = true;
    ip_masq = true;
    hairpin_mode = true;
    capabilities = [];
    ipam = some (record {
      kind = bytes "host-local";
      ranges = (record { subnet = subnet; gateway = gateway } ∷ []) ∷ [];
      gateway = gateway;
      routes = record { dst = bytes "0.0.0.0/0" } ∷ [];
      data_dir = ipam_data_dir;
    });
  }

  abbrev pub bridge_config : Text → Text → Text → Text → Dict Text Text → NetworkConfigFile
  bridge_config name subnet gateway ipam_data_dir labels = record {
    cni_version = bytes "1.0.0";
    name = name;
    dockerdless_id = network_id_for_name name;
    dockerdless_labels = labels;
    plugins =
        bridge_plugin name subnet gateway ipam_data_dir
        ∷ record (plain_plugin (bytes "portmap")) {
          capabilities = (bytes "portMappings", true) ∷ [];
        }
        ∷ plain_plugin (bytes "firewall")
        ∷ [];
  }

  unfoldable pub build_bridge_network_config :
      Text → Text → Text → Text → Dict Text Text → Result NetworkError NetworkConfigFile
  build_bridge_network_config name subnet gateway ipam_data_dir labels =
      if is_empty subnet || is_empty gateway
      then err missing_addresses
      else ok (bridge_config name subnet gateway ipam_data_dir labels)

  unfoldable pub network_of : Text → NetworkConfigFile → Network
  unfolding scan_plugins network_id_for_name
  network_of path raw =
      scan_plugins
        (record {
          id =
              if is_empty raw.dockerdless_id
              then network_id_for_name raw.name
              else raw.dockerdless_id;
          name = raw.name;
          driver = driver_bridge;
          mode = network;
          file = path;
          bridge = [];
          subnet = [];
          gateway = [];
          labels = raw.dockerdless_labels;
        })
        raw.plugins

  -- `none` is a file that is not there.
  unfoldable pub parse_network_file : Text → Option FileContent → Result NetworkError Network
  unfolding network_of
  parse_network_file path none = err (external (bytes "cni: reading ") path)
  parse_network_file path (some (unreadable e)) = err (external (bytes "cni: reading ") e)
  parse_network_file path (some (not_json e)) = err (malformed_config e)
  parse_network_file path (some (document raw)) = do
    refuse_if (is_empty raw.name) (malformed_config path)
    ok (network_of path raw)

-- What one file adds to the subnets in use.
abbrev group_subnets : List RangeItem → List Text
group_subnets [] = []
group_subnets (item ∷ items) =
    if is_empty item.subnet then group_subnets items else item.subnet ∷ group_subnets items

abbrev groups_subnets : List (List RangeItem) → List Text
groups_subnets [] = []
groups_subnets (group ∷ groups) = group_subnets group ++ groups_subnets groups

unfoldable pub plugins_subnets : List PluginConfig → List Text
plugins_subnets [] = []
plugins_subnets (p ∷ ps) = elim p.ipam [
  | none ↦ plugins_subnets ps
  | some ipam ↦ groups_subnets ipam.ranges ++ plugins_subnets ps
]

unfoldable pub file_subnets : Option FileContent → List Text
unfolding plugins_subnets
file_subnets (some (document raw)) = plugins_subnets raw.plugins
file_subnets (some (unreadable e)) = []
file_subnets (some (not_json e)) = []
file_subnets none = []
