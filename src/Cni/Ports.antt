-- ===== src/Cni/Ports.antt =====
-- internal/adapters/cni/portmap.go: concrete host ports are reserved before the portmap plugin runs.
-- Each method holds the allocator's lock; net.ParseIP is a parameter.
pub mod Allocate
pub mod Clash
pub mod Single
pub mod Batch
pub mod Undo
pub mod Filled
pub mod Payload
pub mod History
mod Tests
use dockerdless.Base.{
  ℕ, zero, suc, ◌+◌, ◌≡◌, refl, Bool, true, false, not, ◌&&◌, ◌||◌, Option, none, some, List, [],
  ◌∷◌, ◌++◌, map, Text, bytes, is_empty, trim_space, to_lower, text_beq, text_eq, Dict, lookup,
  insert, delete, Result, ok, err, ◌>>=◌, ◌>>◌, refuse_if, if◌then◌else◌, ◌==◌, nat_eq, nat_beq,
  Comparable, ◌↔◌, arith, text_beq_iff, nat_beq_iff, is_some,
}
use dockerdless.Domain.Model.{PortBinding}

abbrev pub protocol_tcp : Text
protocol_tcp = bytes "tcp"

abbrev pub protocol_udp : Text
protocol_udp = bytes "udp"

abbrev pub default_host_ip : Text
default_host_ip = bytes "0.0.0.0"

abbrev pub default_probe_retry_limit : ℕ
default_probe_retry_limit = 16

-- What a probe fails with: syscall.EADDRINUSE, or another error.
pub data ProbeError : Type 0 where
  addr_in_use : ProbeError
  probe_broken : ℕ → ProbeError

pub data PortError : Type 0 where
  port_in_use : Text → Text → ℕ → PortError
  probing : ℕ → ProbeError → PortError
  wrong_port : ℕ → ℕ → PortError
  no_free_host_port : PortError
  unsupported_protocol : Text → PortError
  port_not_reserved : Text → ℕ → PortError
  unallocated_port : ℕ → PortError
  zero_container_port : ℕ → PortError
  binding_failed : ℕ → PortError → PortError

pub record PortMapping : Type 0 where
  pub host_port : ℕ
  pub container_port : ℕ
  pub protocol : Text
  pub host_ip : Text

pub record PortAllocation : Type 0 where
  pub protocol : Text
  pub host_ip : Text
  pub host_port : ℕ

pub record PortKey : Type 0 where
  pub protocol : Text
  pub host_ip : Text
  pub port : ℕ

unfoldable pub port_key_beq : PortKey → PortKey → Bool
port_key_beq a b =
    text_beq a.protocol b.protocol && (text_beq a.host_ip b.host_ip && nat_beq a.port b.port)

pub port_key_beq_iff : (a b : PortKey) → (port_key_beq a b ≡ true) ↔ (a ≡ b)
unfolding port_key_beq
port_key_beq_iff a b = (
  λ h. ground (arith, text_beq_iff a.protocol b.protocol, text_beq_iff a.host_ip b.host_ip),
  λ h. ground (arith, text_beq_iff a.protocol b.protocol, text_beq_iff a.host_ip b.host_ip),
)

instance abbrev pub port_key_eq : Comparable PortKey
port_key_eq = record { equal = port_key_beq; equal_iff = port_key_beq_iff }

-- `calls` counts the probes made so far.
pub record Allocator : Type 0 where
  pub used : Dict PortKey (Unit {0})
  pub attempts : ℕ
  pub calls : ℕ

unfoldable pub new_port_allocator : Allocator
new_port_allocator = record { used = []; attempts = default_probe_retry_limit; calls = 0 }

unfoldable pub normalize_protocol : Text → Result PortError Text
normalize_protocol protocol =
    let p = to_lower (trim_space protocol) in
    if is_empty p || p == protocol_tcp
    then ok protocol_tcp
    else if p == protocol_udp
    then ok protocol_udp
    else err (unsupported_protocol protocol)

unfoldable pub normalize_host_ip : Text → Text
normalize_host_ip ip = let t = trim_space ip in if is_empty t then default_host_ip else t

-- IP.IsUnspecified of a 16-byte address: the zero address of IPv6 or of IPv4.
abbrev pub is_unspecified : List ℕ → Bool
is_unspecified a =
    a == (0 ∷ 0 ∷ 0 ∷ 0 ∷ 0 ∷ 0 ∷ 0 ∷ 0 ∷ 0 ∷ 0 ∷ 0 ∷ 0 ∷ 0 ∷ 0 ∷ 0 ∷ 0 ∷ [])
    || a == (0 ∷ 0 ∷ 0 ∷ 0 ∷ 0 ∷ 0 ∷ 0 ∷ 0 ∷ 0 ∷ 0 ∷ 255 ∷ 255 ∷ 0 ∷ 0 ∷ 0 ∷ 0 ∷ [])

abbrev pub key_of : PortAllocation → PortKey
key_of a = record { protocol = a.protocol; host_ip = a.host_ip; port = a.host_port }

-- Release, for one allocation.
unfoldable pub release_one : PortAllocation → Allocator → Allocator
release_one alloc a = elim (normalize_protocol alloc.protocol) [
  | err e ↦ a
  | ok proto ↦ record a {
    used =
        delete
          (record {
            protocol = proto;
            host_ip = normalize_host_ip alloc.host_ip;
            port = alloc.host_port;
          })
          a.used;
  }
]

unfoldable pub release : List PortAllocation → Allocator → Allocator
release [] a = a
release (alloc ∷ allocs) a = release allocs (release_one alloc a)

-- The reservation that a binding names.
unfoldable pub adopt_one : Allocator → PortBinding → Result PortError PortAllocation
adopt_one a b = do
  proto ← normalize_protocol b.protocol
  let alloc : PortAllocation = record {
    protocol = proto;
    host_ip = normalize_host_ip b.host_ip;
    host_port = b.host_port;
  }
  refuse_if (not (is_some (lookup (key_of alloc) a.used)))
      (port_not_reserved alloc.host_ip alloc.host_port)
  ok alloc

unfoldable pub adopt_bindings :
    Allocator → List PortBinding → Result PortError (List PortAllocation)
adopt_bindings a [] = ok []
adopt_bindings a (b ∷ bs) = do
  alloc ← adopt_one a b
  allocs ← adopt_bindings a bs
  ok (alloc ∷ allocs)

unfoldable pub build_port_mapping : PortBinding → Result PortError PortMapping
build_port_mapping b = do
  refuse_if (nat_beq b.host_port 0) (unallocated_port b.container_port)
  refuse_if (nat_beq b.container_port 0) (zero_container_port b.host_port)
  proto ← normalize_protocol b.protocol
  ok (record {
    host_port = b.host_port;
    container_port = b.container_port;
    protocol = proto;
    host_ip = normalize_host_ip b.host_ip;
  })

unfoldable pub build_port_mappings : List PortBinding → Result PortError (List PortMapping)
build_port_mappings [] = ok []
build_port_mappings (b ∷ bs) = do m ← build_port_mapping b; ms ← build_port_mappings bs; ok (m ∷ ms)

module _ (parse_ip : Text → Option (List ℕ)) where
  unfoldable pub is_wildcard_host : Text → Bool
  is_wildcard_host ip = elim (parse_ip ip) [ none ↦ true | some a ↦ is_unspecified a ]

  -- The test in the loop of conflictsLocked.
  unfoldable pub clashes : PortKey → PortKey → Bool
  clashes key k =
      (key.protocol == k.protocol && key.port == k.port)
      && (key.host_ip == k.host_ip || (is_wildcard_host key.host_ip || is_wildcard_host k.host_ip))

  unfoldable pub conflicts_locked : Dict PortKey (Unit {0}) → PortKey → Bool
  conflicts_locked [] k = false
  conflicts_locked ((key, u) ∷ m) k = clashes key k || conflicts_locked m k

  unfoldable pub is_used : Allocator → Text → Text → ℕ → Bool
  is_used a protocol host_ip port = elim (normalize_protocol protocol) [
    | err e ↦ false
    | ok proto ↦
        conflicts_locked a.used
          (record { protocol = proto; host_ip = normalize_host_ip host_ip; port = port })
  ]
