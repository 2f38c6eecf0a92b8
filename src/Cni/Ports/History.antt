-- ===== src/Cni/Ports/History.antt =====
-- The reservations of internal/adapters/cni/portmap.go after any calls: none clashes with another.
use dockerdless.Base.{
  ℕ, ◌≡◌, true, false, Option, List, [], ◌∷◌, ◌++◌, Text, lookup, delete, arith, inl, inr, sym, ok,
  err, is_some, subst, Result-cases, ◌==◌,
}
use dockerdless.Domain.Model.{PortBinding}
use dockerdless.Cni.Ports.{
  PortKey, PortAllocation, PortError, Allocator, port_key_eq, normalize_protocol, normalize_host_ip,
  release, release_one, new_port_allocator, clashes,
}
use dockerdless.Cni.Ports.Allocate.{
  Probe, allocate_all, allocate_bindings, fill, PortCall, allocates, allocates_all, releases_all,
  port_step, port_run,
}
use dockerdless.Cni.Ports.Clash.{Apart, delete-Apart, Apart-reserved}
use dockerdless.Cni.Ports.Single.{allocate-Apart}
use dockerdless.Cni.Ports.Batch.{next, allocate_all_err, allocate_all_ok}

module _ (parse_ip : Text → Option (List ℕ)) where
  release_one_refused :
      (x : PortAllocation) (a : Allocator) (e : PortError)
      → normalize_protocol x.protocol ≡ err e
      → release_one x a ≡ a
  unfolding release_one
  release_one_refused x a e h = ground (arith, h)

  release_one_released :
      (x : PortAllocation) (a : Allocator) (proto : Text)
      → normalize_protocol x.protocol ≡ ok proto
      → release_one x a ≡ record a {
        used =
            delete
              (record {
                protocol = proto;
                host_ip = normalize_host_ip x.host_ip;
                port = x.host_port;
              })
              a.used;
      }
  unfolding release_one
  release_one_released x a proto h = ground (arith, h)

  release_one-Apart :
      (x : PortAllocation) (a : Allocator)
      → Apart parse_ip a.used
      → Apart parse_ip (release_one x a).used
  release_one-Apart x a p = elim (Result-cases (normalize_protocol x.protocol)) [
    | inr (e, h) ↦ subst (λ s. Apart parse_ip s.used) (sym (release_one_refused x a e h)) p
    | inl (proto, h) ↦
        subst (λ s. Apart parse_ip s.used) (sym (release_one_released x a proto h))
          (delete-Apart parse_ip a.used
            (record { protocol = proto; host_ip = normalize_host_ip x.host_ip; port = x.host_port })
            p)
  ]

  release-Apart :
      (xs : List PortAllocation) (a : Allocator)
      → Apart parse_ip a.used
      → Apart parse_ip (release xs a).used
  unfolding release
  release-Apart [] a p = p
  release-Apart (x ∷ xs) a p = release-Apart xs (release_one x a) (release_one-Apart x a p)

module _ (parse_ip : Text → Option (List ℕ)) (probe : Probe) where
  allocate_all-Apart :
      (a : Allocator) (filled : List PortBinding) (xs : List PortAllocation) (bs : List PortBinding)
      → Apart parse_ip a.used
      → Apart parse_ip (allocate_all parse_ip probe a filled xs bs).1.used
  allocate_all-Apart a filled xs [] p = unfold allocate_all in p
  allocate_all-Apart a filled xs (b ∷ bs) p =
      let p' = allocate-Apart parse_ip probe a b.protocol b.host_ip b.host_port p in
      elim (Result-cases (next parse_ip probe a b).0) [
        | inr (e, f) ↦
            subst (λ s. Apart parse_ip s.1.used)
              (sym (allocate_all_err parse_ip probe a filled xs b bs e f))
              (release-Apart parse_ip xs (next parse_ip probe a b).1 p')
        | inl (x, f) ↦
            subst (λ s. Apart parse_ip s.1.used)
              (sym (allocate_all_ok parse_ip probe a filled xs b bs x f))
              (allocate_all-Apart (next parse_ip probe a b).1 (filled ++ fill b x ∷ [])
                (xs ++ x ∷ []) bs p')
      ]

  port_step-Apart :
      (a : Allocator) (c : PortCall)
      → Apart parse_ip a.used
      → Apart parse_ip (port_step parse_ip probe a c).used
  unfolding port_step allocate_bindings
  port_step-Apart a (allocates protocol host_ip requested) p =
      allocate-Apart parse_ip probe a protocol host_ip requested p
  port_step-Apart a (allocates_all bs) p = allocate_all-Apart a [] [] bs p
  port_step-Apart a (releases_all xs) p = release-Apart parse_ip xs a p

  port_run-Apart :
      (a : Allocator) (cs : List PortCall)
      → Apart parse_ip a.used
      → Apart parse_ip (port_run parse_ip probe a cs).used
  unfolding port_run
  port_run-Apart a [] p = p
  port_run-Apart a (c ∷ cs) p =
      port_run-Apart (port_step parse_ip probe a c) cs (port_step-Apart a c p)

  -- After any calls on a new allocator, whatever the probes answer and however addresses are parsed,
  -- no two different reserved keys clash: their protocols or ports differ, or their addresses differ
  -- and neither is a wildcard.
  pub port_run_apart :
      (cs : List PortCall) (j k : PortKey)
      → let used = (port_run parse_ip probe new_port_allocator cs).used in
        is_some (lookup j used) ≡ true
        → is_some (lookup k used) ≡ true
        → (j == k) ≡ false
        → clashes parse_ip j k ≡ false
  port_run_apart cs j k h l n =
      Apart-reserved parse_ip (port_run parse_ip probe new_port_allocator cs).used j k
        (port_run-Apart new_port_allocator cs (unfold new_port_allocator in tt)) h l n
