-- ===== src/Cni/Ports/Single.antt =====
-- Allocate of internal/adapters/cni/portmap.go, on every branch.
use dockerdless.Base.{
  ℕ, zero, suc, ◌≡◌, ◌≢◌, refl, false, Option, List, Text, text_eq, text_beq, insert, if◌then◌else◌,
  nat_eq, nat_beq, arith, Bool-cases, inl, inr, ◌∙◌, sym, ok, err, Result-cases, subst, ap,
  trim_space, trim_space_idem, to_lower, is_empty, ◌⊎◌,
}
use dockerdless.Cni.Ports.{
  PortKey, PortAllocation, PortError, Allocator, port_key_eq, conflicts_locked, key_of,
  normalize_protocol, normalize_host_ip, protocol_tcp, protocol_udp, default_host_ip,
}
use dockerdless.Cni.Ports.Allocate.{Probe, allocate, allocate_any, allocate_fixed, counted}
use dockerdless.Cni.Ports.Clash.{Apart, insert-Apart}

-- A reservation that was free before and is held afterwards, with nothing else changed.
pub record Reserves (parse_ip : Text → Option (List ℕ)) (a b : Allocator) (alloc : PortAllocation)
    : Type 0 where
  pub free : conflicts_locked parse_ip a.used (key_of alloc) ≡ false
  pub held : b.used ≡ insert (key_of alloc) tt a.used
  pub concrete : alloc.host_port ≢ 0

module _ (parse_ip : Text → Option (List ℕ)) (probe : Probe) where
  allocate_fixed_ok :
      (a : Allocator) (k : PortKey) (alloc : PortAllocation)
      → k.port ≢ 0
      → (allocate_fixed parse_ip probe a k).0 ≡ ok alloc
      → Reserves parse_ip a (allocate_fixed parse_ip probe a k).1 alloc × (key_of alloc ≡ k)
  unfolding allocate_fixed
  allocate_fixed_ok a k alloc n h = (
    record { free = ground arith; held = ground arith; concrete = λ z. ground arith },
    ground arith,
  )

  allocate_any_ok :
      (n : ℕ) (a : Allocator) (proto ip : Text) (alloc : PortAllocation)
      → (allocate_any parse_ip probe n a proto ip).0 ≡ ok alloc
      → Reserves parse_ip a (allocate_any parse_ip probe n a proto ip).1 alloc
        × (alloc.protocol ≡ proto)
        × (alloc.host_ip ≡ ip)
  unfolding allocate_any
  allocate_any_ok zero a proto ip alloc h = absurd (cc)
  allocate_any_ok (suc n) a proto ip alloc h =
      let again = allocate_any_ok n (counted parse_ip probe a) proto ip alloc in
      (
        record {
          free = ground (arith, again);
          held = ground (arith, again);
          concrete = λ z. ground (arith, again);
        },
        ground (arith, again),
        ground (arith, again),
      )

  allocate_any_err :
      (n : ℕ) (a : Allocator) (proto ip : Text) (e : PortError)
      → (allocate_any parse_ip probe n a proto ip).0 ≡ err e
      → (allocate_any parse_ip probe n a proto ip).1.used ≡ a.used
  unfolding allocate_any
  allocate_any_err zero a proto ip e h = refl
  allocate_any_err (suc n) a proto ip e h =
      ground (arith, allocate_any_err n (counted parse_ip probe a) proto ip e)

  allocate_fixed_err :
      (a : Allocator) (k : PortKey) (e : PortError)
      → (allocate_fixed parse_ip probe a k).0 ≡ err e
      → (allocate_fixed parse_ip probe a k).1.used ≡ a.used
  unfolding allocate_fixed
  allocate_fixed_err a k e h = ground arith

  allocate_any_lem :
      (a : Allocator) (protocol host_ip proto : Text) (requested : ℕ)
      → normalize_protocol protocol ≡ ok proto
      → requested ≡ 0
      → allocate parse_ip probe a protocol host_ip requested
        ≡ allocate_any parse_ip probe a.attempts a proto (normalize_host_ip host_ip)
  unfolding allocate
  allocate_any_lem a protocol host_ip proto requested e z = ground (arith, e)

  allocate_fixed_lem :
      (a : Allocator) (protocol host_ip proto : Text) (requested : ℕ)
      → normalize_protocol protocol ≡ ok proto
      → requested ≢ 0
      → allocate parse_ip probe a protocol host_ip requested
        ≡ allocate_fixed parse_ip probe a
            (record { protocol = proto; host_ip = normalize_host_ip host_ip; port = requested })
  unfolding allocate
  allocate_fixed_lem a protocol host_ip proto requested e z = ground (arith, e)

  allocate_refused :
      (a : Allocator) (protocol host_ip : Text) (requested : ℕ) (x : PortError)
      → normalize_protocol protocol ≡ err x
      → allocate parse_ip probe a protocol host_ip requested ≡ (err x, a)
  unfolding allocate
  allocate_refused a protocol host_ip requested x e = ground (arith, e)

  -- A successful Allocate reserves a concrete port that clashed with no reservation, under the
  -- normalized protocol and address; a fixed request gets exactly its port.
  pub allocate_ok :
      (a : Allocator) (protocol host_ip : Text) (requested : ℕ) (alloc : PortAllocation)
      → (allocate parse_ip probe a protocol host_ip requested).0 ≡ ok alloc
      → Reserves parse_ip a (allocate parse_ip probe a protocol host_ip requested).1 alloc
        × (normalize_protocol protocol ≡ ok alloc.protocol)
        × (alloc.host_ip ≡ normalize_host_ip host_ip)
        × (requested ≢ 0 → alloc.host_port ≡ requested)
  allocate_ok a protocol host_ip requested alloc h =
      elim (Result-cases (normalize_protocol protocol)) [
        | inr (x, e) ↦ absurd (cc (h, allocate_refused a protocol host_ip requested x e))
        | inl (proto, e) ↦ elim (Bool-cases (nat_beq requested 0)) [
          | inl z ↦
              let same = allocate_any_lem a protocol host_ip proto requested e (ground arith) in
              let (r, named, at) =
                allocate_any_ok a.attempts a proto (normalize_host_ip host_ip) alloc
                  (ap (λ x. x.0) (sym same) ∙ h) in
              (
                subst (λ x. Reserves parse_ip a x.1 alloc) (sym same) r,
                e ∙ ap ok (sym named),
                at,
                λ n. absurd (ground (arith, n)),
              )
          | inr z ↦
              let k : PortKey = record {
                protocol = proto;
                host_ip = normalize_host_ip host_ip;
                port = requested;
              } in
              let n : requested ≢ 0 = λ q. ground arith in
              let same = allocate_fixed_lem a protocol host_ip proto requested e n in
              let (r, at) = allocate_fixed_ok a k alloc n (ap (λ x. x.0) (sym same) ∙ h) in
              (
                subst (λ x. Reserves parse_ip a x.1 alloc) (sym same) r,
                e ∙ ap (λ x. ok x.protocol) (sym at),
                ap (λ x. x.host_ip) at,
                λ _. ap (λ x. x.port) at,
              )
        ]
      ]

  -- A failed Allocate reserves nothing.
  pub allocate_err :
      (a : Allocator) (protocol host_ip : Text) (requested : ℕ) (e : PortError)
      → (allocate parse_ip probe a protocol host_ip requested).0 ≡ err e
      → (allocate parse_ip probe a protocol host_ip requested).1.used ≡ a.used
  unfolding allocate
  allocate_err a protocol host_ip requested x h =
      elim (Result-cases (normalize_protocol protocol)) [
        | inr (y, e) ↦ ground (arith, e)
        | inl (proto, e) ↦
            let ip = normalize_host_ip host_ip in
            let k : PortKey = record { protocol = proto; host_ip = ip; port = requested } in
            ground (arith, e, allocate_any_err a.attempts a proto ip x, allocate_fixed_err a k x)
      ]

  pub allocate-Apart :
      (a : Allocator) (protocol host_ip : Text) (requested : ℕ)
      → Apart parse_ip a.used
      → Apart parse_ip (allocate parse_ip probe a protocol host_ip requested).1.used
  allocate-Apart a protocol host_ip requested p =
      elim (Result-cases (allocate parse_ip probe a protocol host_ip requested).0) [
        | inr (e, h) ↦ rw (allocate_err a protocol host_ip requested e h) p
        | inl (alloc, h) ↦
            let (r, _, _, _) = allocate_ok a protocol host_ip requested alloc h in
            rw r.held (insert-Apart parse_ip a.used (key_of alloc) r.free p)
      ]

normal_tcp : normalize_protocol protocol_tcp ≡ ok protocol_tcp
unfolding normalize_protocol trim_space to_lower text_beq
normal_tcp = refl

normal_udp : normalize_protocol protocol_udp ≡ ok protocol_udp
unfolding normalize_protocol trim_space to_lower text_beq
normal_udp = refl

normalize_protocol_values :
    (p q : Text) → normalize_protocol p ≡ ok q → (q ≡ protocol_tcp) ⊎ (q ≡ protocol_udp)
unfolding normalize_protocol
normalize_protocol_values p q h = ground arith

-- A normalized protocol or address is left alone by another normalization.
pub normalize_protocol_idem :
    (p q : Text) → normalize_protocol p ≡ ok q → normalize_protocol q ≡ ok q
normalize_protocol_idem p q h = elim (normalize_protocol_values p q h) [
  | inl e ↦ subst (λ x. normalize_protocol x ≡ ok x) (sym e) normal_tcp
  | inr e ↦ subst (λ x. normalize_protocol x ≡ ok x) (sym e) normal_udp
]

normal_default_ip : normalize_host_ip default_host_ip ≡ default_host_ip
unfolding normalize_host_ip trim_space
normal_default_ip = refl

normalize_host_ip_cases :
    (ip : Text) → (normalize_host_ip ip ≡ default_host_ip) ⊎ (normalize_host_ip ip ≡ trim_space ip)
unfolding normalize_host_ip
normalize_host_ip_cases ip = ground arith

normalize_host_ip_trimmed :
    (t : Text)
    → trim_space t ≡ t
    → normalize_host_ip t ≡ (if is_empty t then default_host_ip else t)
unfolding normalize_host_ip
normalize_host_ip_trimmed t h = rw h

pub normalize_host_ip_idem :
    (ip : Text) → normalize_host_ip (normalize_host_ip ip) ≡ normalize_host_ip ip
unfolding normalize_host_ip
normalize_host_ip_idem ip = elim (Bool-cases (is_empty (trim_space ip))) [
  | inl e ↦ rw e normal_default_ip
  | inr e ↦ rw e (normalize_host_ip_trimmed (trim_space ip) (trim_space_idem ip) ∙ rw e refl)
]
