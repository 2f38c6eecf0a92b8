-- ===== src/Cni/Ports/Allocate.antt =====
-- Allocate and AllocateBindings of internal/adapters/cni/portmap.go. The operating system's answers are
-- a parameter: a probe may answer each call differently, so it takes the number of calls made.
use dockerdless.Base.{
  ℕ, zero, suc, Option, List, [], ◌∷◌, ◌++◌, Text, text_eq, insert, Result, ok, err, if◌then◌else◌,
  nat_eq, nat_beq,
}
use dockerdless.Domain.Model.{PortBinding}
use dockerdless.Cni.Ports.{
  ProbeError, addr_in_use, probe_broken, PortError, port_in_use, probing, wrong_port,
  no_free_host_port, binding_failed, PortAllocation, PortKey, port_key_eq, Allocator,
  normalize_protocol, normalize_host_ip, release, conflicts_locked,
}

-- The binding with the values of its allocation.
unfoldable pub fill : PortBinding → PortAllocation → PortBinding
fill b alloc = record b {
  protocol = alloc.protocol;
  host_ip = alloc.host_ip;
  host_port = alloc.host_port;
}

-- The answer of the operating system to one probe: protocol, address and requested port.
abbrev pub Probe : Type 0
Probe = ℕ → Text → Text → ℕ → Result ProbeError ℕ

pub data PortCall : Type 0 where
  allocates : Text → Text → ℕ → PortCall
  allocates_all : List PortBinding → PortCall
  releases_all : List PortAllocation → PortCall

module _ (parse_ip : Text → Option (List ℕ)) (probe : Probe) where
  unfoldable pub reserve : Allocator → PortKey → Result PortError PortAllocation × Allocator
  reserve a k = (
    ok (record { protocol = k.protocol; host_ip = k.host_ip; host_port = k.port }),
    record a { used = insert k tt a.used },
  )

  unfoldable pub counted : Allocator → Allocator
  counted a = record a { calls = suc a.calls }

  unfoldable pub allocate_fixed : Allocator → PortKey → Result PortError PortAllocation × Allocator
  unfolding reserve counted
  allocate_fixed a k =
      if conflicts_locked parse_ip a.used k
      then (err (port_in_use k.protocol k.host_ip k.port), a)
      else elim (probe a.calls k.protocol k.host_ip k.port) [
        | err addr_in_use ↦ (err (port_in_use k.protocol k.host_ip k.port), counted a)
        | err (probe_broken e) ↦ (err (probing k.port (probe_broken e)), counted a)
        | ok port ↦
            if nat_beq port k.port
            then reserve (counted a) k
            else (err (wrong_port port k.port), counted a)
      ]

  -- The loop over the attempts for a port that the operating system chooses.
  unfoldable pub allocate_any :
      ℕ → Allocator → Text → Text → Result PortError PortAllocation × Allocator
  unfolding reserve counted
  allocate_any zero a proto ip = (err no_free_host_port, a)
  allocate_any (suc n) a proto ip =
      let again = allocate_any n (counted a) proto ip in
      elim (probe a.calls proto ip 0) [
        | err e ↦ (err (probing 0 e), counted a)
        | ok port ↦
            let k : PortKey = record { protocol = proto; host_ip = ip; port = port } in
            if nat_beq port 0
            then (err no_free_host_port, counted a)
            else if conflicts_locked parse_ip a.used k
            then again
            else reserve (counted a) k
      ]

  unfoldable pub allocate :
      Allocator → Text → Text → ℕ → Result PortError PortAllocation × Allocator
  unfolding allocate_fixed allocate_any
  allocate a protocol host_ip requested = elim (normalize_protocol protocol) [
    | err e ↦ (err e, a)
    | ok proto ↦
        let ip = normalize_host_ip host_ip in
        if nat_beq requested 0
        then allocate_any a.attempts a proto ip
        else allocate_fixed a (record { protocol = proto; host_ip = ip; port = requested })
  ]

  -- The loop of AllocateBindings; a failure releases what it has reserved so far.
  unfoldable pub allocate_all :
      Allocator
      → List PortBinding
      → List PortAllocation
      → List PortBinding
      → Result PortError (List PortBinding × List PortAllocation) × Allocator
  unfolding fill
  allocate_all a filled allocs [] = (ok (filled, allocs), a)
  allocate_all a filled allocs (b ∷ bs) =
      let (r, a') = allocate a b.protocol b.host_ip b.host_port in
      elim r [
        | err e ↦ (err (binding_failed b.container_port e), release allocs a')
        | ok alloc ↦ allocate_all a' (filled ++ fill b alloc ∷ []) (allocs ++ alloc ∷ []) bs
      ]

  unfoldable pub allocate_bindings :
      Allocator
      → List PortBinding
      → Result PortError (List PortBinding × List PortAllocation) × Allocator
  unfolding allocate_all
  allocate_bindings a bs = allocate_all a [] [] bs

  -- A call of a method that changes the allocator.
  unfoldable pub port_step : Allocator → PortCall → Allocator
  port_step a (allocates protocol host_ip requested) = (allocate a protocol host_ip requested).1
  port_step a (allocates_all bs) = (allocate_bindings a bs).1
  port_step a (releases_all xs) = release xs a

  unfoldable pub port_run : Allocator → List PortCall → Allocator
  port_run a [] = a
  port_run a (c ∷ cs) = port_run (port_step a c) cs
