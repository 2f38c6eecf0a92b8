-- ===== src/Cni/Ports/Tests.antt =====
-- Runs of internal/adapters/cni/portmap.go against a host on which port 80 is taken.
use dockerdless.Base.{
  ℕ, ◌≡◌, ◌≢◌, refl, true, false, Option, some, List, [], ◌∷◌, Text, bytes, ok, err, lookup, insert,
  delete, text_beq, if◌then◌else◌, nat_beq, is_some, trim_space, to_lower, ◌==◌, text_eq, All,
}
use dockerdless.Domain.Model.{PortBinding}
use dockerdless.Cni.Ports.{
  key_of, PortAllocation, PortKey, addr_in_use, new_port_allocator, normalize_protocol,
  normalize_host_ip, port_key_beq, port_key_eq, clashes, conflicts_locked, is_wildcard_host,
  adopt_bindings, build_port_mappings, release, release_one, binding_failed, port_in_use,
  default_host_ip, protocol_tcp,
}
use dockerdless.Cni.Ports.Allocate.{
  Probe, allocate, allocate_all, allocate_bindings, fill, PortCall, allocates, allocates_all,
  releases_all, port_run, port_step,
}
use dockerdless.Cni.Ports.Single.{Reserves, allocate_ok}
use dockerdless.Cni.Ports.Batch.{allocate_bindings_rollback}
use dockerdless.Cni.Ports.Filled.{Filled, allocate_bindings-Filled}
use dockerdless.Cni.Ports.Payload.{allocate-adopt-build, mappings_of, HasContainerPort}
use dockerdless.Cni.Ports.History.{port_run_apart}

-- Two addresses: the wildcard of IPv4, and one of a host.
abbrev parse_host : Text → Option (List ℕ)
parse_host ip =
    if ip == default_host_ip
    then some (0 ∷ 0 ∷ 0 ∷ 0 ∷ 0 ∷ 0 ∷ 0 ∷ 0 ∷ 0 ∷ 0 ∷ 255 ∷ 255 ∷ 0 ∷ 0 ∷ 0 ∷ 0 ∷ [])
    else some (0 ∷ 0 ∷ 0 ∷ 0 ∷ 0 ∷ 0 ∷ 0 ∷ 0 ∷ 0 ∷ 0 ∷ 255 ∷ 255 ∷ 10 ∷ 0 ∷ 0 ∷ 1 ∷ [])

abbrev host : Probe
host n protocol ip port =
    if nat_beq port 80 then err addr_in_use else ok (if nat_beq port 0 then 49152 else port)

abbrev binding : ℕ → ℕ → PortBinding
binding inner outer = record {
  container_port = inner;
  protocol = bytes " TCP";
  host_ip = [];
  host_port = outer;
}

abbrev reservation : ℕ → PortAllocation
reservation port = record { protocol = protocol_tcp; host_ip = default_host_ip; host_port = port }

abbrev filled : ℕ → ℕ → PortBinding
filled inner outer = record {
  container_port = inner;
  protocol = protocol_tcp;
  host_ip = default_host_ip;
  host_port = outer;
}

allocate_any_port :
    (allocate parse_host host new_port_allocator (bytes "tcp") [] 0).0 ≡ ok (reservation 49152)
unfolding allocate new_port_allocator normalize_protocol normalize_host_ip trim_space to_lower
    conflicts_locked text_beq
allocate_any_port = refl

allocate_ok_example :
    Reserves parse_host new_port_allocator
      (allocate parse_host host new_port_allocator (bytes "tcp") [] 0).1
      (reservation 49152)
    × (normalize_protocol (bytes "tcp") ≡ ok (bytes "tcp"))
    × (default_host_ip ≡ normalize_host_ip [])
    × (◌≢◌ {A = ℕ} 0 0 → ◌≡◌ {A = ℕ} 49152 0)
allocate_ok_example =
    allocate_ok parse_host host new_port_allocator (bytes "tcp") [] 0 (reservation 49152)
      allocate_any_port

bindings_fail :
    (allocate_bindings parse_host host new_port_allocator (binding 1 8080 ∷ binding 2 80 ∷ [])).0
    ≡ err (binding_failed 2 (port_in_use protocol_tcp default_host_ip 80))
unfolding allocate_bindings allocate_all allocate new_port_allocator normalize_protocol
    normalize_host_ip trim_space to_lower conflicts_locked clashes text_beq insert lookup
    port_key_beq fill
bindings_fail = refl

allocate_bindings_rollback_example :
    lookup
      (key_of (reservation 8080))
      (allocate_bindings parse_host host new_port_allocator
        (binding 1 8080 ∷ binding 2 80 ∷ [])).1.used
    ≡ lookup (key_of (reservation 8080)) new_port_allocator.used
allocate_bindings_rollback_example =
    allocate_bindings_rollback parse_host host new_port_allocator
      (binding 1 8080 ∷ binding 2 80 ∷ [])
      (binding_failed 2 (port_in_use protocol_tcp default_host_ip 80)) bindings_fail
      (key_of (reservation 8080))

abbrev wanted : List PortBinding
wanted = binding 1 8080 ∷ binding 2 0 ∷ []

bindings_succeed :
    (allocate_bindings parse_host host new_port_allocator wanted).0
    ≡ ok (filled 1 8080 ∷ filled 2 49152 ∷ [], reservation 8080 ∷ reservation 49152 ∷ [])
unfolding allocate_bindings allocate_all allocate new_port_allocator normalize_protocol
    normalize_host_ip trim_space to_lower conflicts_locked clashes text_beq insert lookup
    port_key_beq fill
bindings_succeed = refl

allocate_bindings-Filled_example :
    Filled
      (allocate_bindings parse_host host new_port_allocator wanted).1.used
      wanted
      (filled 1 8080 ∷ filled 2 49152 ∷ [])
      (reservation 8080 ∷ reservation 49152 ∷ [])
allocate_bindings-Filled_example =
    allocate_bindings-Filled parse_host host new_port_allocator wanted
      (filled 1 8080 ∷ filled 2 49152 ∷ []) (reservation 8080 ∷ reservation 49152 ∷ [])
      bindings_succeed

allocate-adopt-build_example :
    (adopt_bindings
        (allocate_bindings parse_host host new_port_allocator wanted).1
        (filled 1 8080 ∷ filled 2 49152 ∷ [])
      ≡ ok (reservation 8080 ∷ reservation 49152 ∷ []))
    × (All HasContainerPort wanted
        → build_port_mappings (filled 1 8080 ∷ filled 2 49152 ∷ [])
          ≡ ok (mappings_of wanted (reservation 8080 ∷ reservation 49152 ∷ [])))
allocate-adopt-build_example =
    allocate-adopt-build parse_host host new_port_allocator wanted
      (filled 1 8080 ∷ filled 2 49152 ∷ []) (reservation 8080 ∷ reservation 49152 ∷ [])
      bindings_succeed

abbrev history : List PortCall
history =
    allocates (bytes "udp") (bytes "10.0.0.1") 53
    ∷ allocates_all wanted
    ∷ releases_all (reservation 8080 ∷ [])
    ∷ allocates (bytes "tcp") (bytes "10.0.0.1") 8080
    ∷ []

abbrev dns : PortKey
dns = record { protocol = bytes "udp"; host_ip = bytes "10.0.0.1"; port = 53 }

abbrev web : PortKey
web = record { protocol = bytes "tcp"; host_ip = bytes "10.0.0.1"; port = 8080 }

dns_reserved :
    is_some (lookup dns (port_run parse_host host new_port_allocator history).used) ≡ true
unfolding port_run port_step release release_one allocate_bindings allocate_all allocate
    new_port_allocator normalize_protocol normalize_host_ip trim_space to_lower conflicts_locked
    clashes text_beq insert lookup delete port_key_beq fill is_wildcard_host
dns_reserved = refl

web_reserved :
    is_some (lookup web (port_run parse_host host new_port_allocator history).used) ≡ true
unfolding port_run port_step release release_one allocate_bindings allocate_all allocate
    new_port_allocator normalize_protocol normalize_host_ip trim_space to_lower conflicts_locked
    clashes text_beq insert lookup delete port_key_beq fill is_wildcard_host
web_reserved = refl

dns_is_not_web : (dns == web) ≡ false
unfolding port_key_beq text_beq
dns_is_not_web = refl

port_run_apart_example : clashes parse_host dns web ≡ false
port_run_apart_example =
    port_run_apart parse_host host history dns web dns_reserved web_reserved dns_is_not_web
