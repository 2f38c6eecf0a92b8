-- ===== src/Cni/Addresses.antt =====
-- IPv4 addresses and prefixes of net/netip as internal/adapters/cni/networkconfig.go uses them: an
-- address is its four octets, and addition wraps at 2^32.
use dockerdless.Base.{
  ℕ, ◌+◌, ◌-◌, ◌*◌, ◌/◌, ◌%◌, ◌^◌, Bool, [], ◌∷◌, ◌++◌, Text, ltb, nat_beq, if◌then◌else◌,
}

pub record Addr : Type 0 where
  pub first : ℕ
  pub second : ℕ
  pub third : ℕ
  pub fourth : ℕ

pub record Prefix : Type 0 where
  pub addr : Addr
  pub bits : ℕ

-- A prefix of netip.ParsePrefix: only those of IPv4 are served.
pub data IpPrefix : Type 0 where
  v4 : Prefix → IpPrefix
  v6 : Text → IpPrefix

-- binary.BigEndian.PutUint32 of a value below 2^32, and the shifts that undo it.
unfoldable pub put_uint32 : ℕ → Addr
put_uint32 value = record {
  first = value / 2 ^ 24 % 256;
  second = value / 2 ^ 16 % 256;
  third = value / 2 ^ 8 % 256;
  fourth = value % 256;
}

unfoldable pub addr_value : Addr → ℕ
addr_value a = a.first * 2 ^ 24 + a.second * 2 ^ 16 + a.third * 2 ^ 8 + a.fourth

unfoldable pub add_ipv4 : Addr → ℕ → Addr
unfolding put_uint32 addr_value
add_ipv4 addr delta = put_uint32 ((addr_value addr + delta) % 2 ^ 32)

-- Prefix.Masked: the bits behind the prefix are cleared.
unfoldable pub masked : Prefix → Prefix
unfolding put_uint32 addr_value
masked p =
    let host = 2 ^ (32 - p.bits) in record p { addr = put_uint32 (addr_value p.addr / host * host) }

-- Prefix.Contains
unfoldable pub prefix_contains : Prefix → Addr → Bool
unfolding addr_value
prefix_contains p a =
    let host = 2 ^ (32 - p.bits) in nat_beq (addr_value p.addr / host) (addr_value a / host)

-- A number below 1000 in decimal.
unfoldable pub decimal_text : ℕ → Text
decimal_text n =
    if ltb n 10
    then (b'0' + n) ∷ []
    else if ltb n 100
    then (b'0' + n / 10) ∷ (b'0' + n % 10) ∷ []
    else (b'0' + n / 100) ∷ (b'0' + n / 10 % 10) ∷ (b'0' + n % 10) ∷ []

-- Addr.String and Prefix.String
unfoldable pub addr_text : Addr → Text
unfolding decimal_text
addr_text a =
    decimal_text a.first
    ++ b'.' ∷ decimal_text a.second
    ++ b'.' ∷ decimal_text a.third
    ++ b'.' ∷ decimal_text a.fourth

unfoldable pub prefix_text : Prefix → Text
unfolding addr_text decimal_text
prefix_text p = addr_text p.addr ++ b'/' ∷ decimal_text p.bits

unfoldable pub default_gateway_for : Prefix → Text
unfolding addr_text add_ipv4 masked
default_gateway_for p = addr_text (add_ipv4 (masked p).addr 1)
