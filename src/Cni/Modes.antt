-- ===== src/Cni/Modes.antt =====
-- Network modes and network names: ParseNetworkMode of internal/adapters/cni/adapter.go, and the name
-- rules of internal/adapters/cni/networkconfig.go. An error of the adapter is its sentinel with the
-- value that its message quotes.
use dockerdless.Base.{
  ℕ, Bool, true, false, ◌&&◌, ◌||◌, [], ◌∷◌, Text, bytes, is_empty, trim_space, to_lower, text_eq,
  nat_beq, leb, ltb, length, Result, ok, err, if◌then◌else◌, ◌==◌,
}
use dockerdless.Domain.Registry.{ContextError}
use dockerdless.Cni.Ports.{PortError}

abbrev pub driver_bridge : Text
driver_bridge = bytes "bridge"

abbrev pub default_network_name : Text
default_network_name = bytes "bridge"

abbrev pub host_network_name : Text
host_network_name = bytes "host"

abbrev pub none_network_name : Text
none_network_name = bytes "none"

abbrev pub default_if_name : Text
default_if_name = bytes "eth0"

pub data Mode : Type 0 where
  host isolated network : Mode

-- What a plugin's result fails with.
pub data ResultError : Type 0 where
  nil_result : ResultError
  undecodable : Text → ResultError

-- `external` is an error that another package made, under the text that the adapter puts before it.
pub data NetworkError : Type 0 where
  network_not_found network_exists network_in_use reserved_network_name : Text → NetworkError
  invalid_network_name unsupported_network_driver unknown_network_mode : Text → NetworkError
  ipv6_unsupported invalid_subnet invalid_gateway malformed_config : Text → NetworkError
  port_publish_with_mode : Mode → NetworkError
  missing_netns missing_container no_free_subnet missing_addresses : NetworkError
  port_failed : PortError → NetworkError
  result_failed : ResultError → NetworkError
  context_ended : ContextError → NetworkError
  external : Text → Text → NetworkError

unfoldable pub contains_byte : ℕ → Text → Bool
contains_byte b [] = false
contains_byte b (c ∷ s) = nat_beq c b || contains_byte b s

unfoldable pub parse_network_mode : Text → Result NetworkError Mode
unfolding contains_byte
parse_network_mode mode =
    let token = to_lower (trim_space mode) in
    if is_empty token || (token == bytes "default" || token == driver_bridge)
    then ok network
    else if token == host_network_name
    then ok host
    else if token == none_network_name
    then ok isolated
    else if contains_byte b':' mode
    then err (unknown_network_mode mode)
    else ok network

abbrev pub is_alphanumeric : ℕ → Bool
is_alphanumeric c =
    (leb b'a' c && leb c b'z') || ((leb b'A' c && leb c b'Z') || (leb b'0' c && leb c b'9'))

abbrev pub is_name_byte : ℕ → Bool
is_name_byte c = is_alphanumeric c || (nat_beq c b'_' || (nat_beq c b'.' || nat_beq c b'-'))

unfoldable pub all_bytes : (ℕ → Bool) → Text → Bool
all_bytes p [] = true
all_bytes p (c ∷ s) = p c && all_bytes p s

-- networkNamePattern, which has no alternative to run over byte by byte.
unfoldable pub matches_name_pattern : Text → Bool
unfolding all_bytes
matches_name_pattern [] = false
matches_name_pattern (c ∷ s) = is_alphanumeric c && all_bytes is_name_byte s

unfoldable pub validate_network_name : Text → Result NetworkError (Unit {0})
unfolding matches_name_pattern
validate_network_name name =
    if is_empty name
    then err (invalid_network_name name)
    else if ltb 128 (length name)
    then err (invalid_network_name name)
    else if matches_name_pattern name
    then ok tt
    else err (invalid_network_name name)

unfoldable pub is_reserved_network_name : Text → Bool
is_reserved_network_name name =
    let token = to_lower name in token == host_network_name || token == none_network_name
