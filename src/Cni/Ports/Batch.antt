-- ===== src/Cni/Ports/Batch.antt =====
-- AllocateBindings of internal/adapters/cni/portmap.go reserves a port for every binding or for none.
use dockerdless.Base.{
  ℕ, ◌≡◌, refl, Bool, false, ◌||◌, Option, none, some, List, [], ◌∷◌, ◌++◌, Text, text_eq, lookup,
  delete, if◌then◌else◌, ◌==◌, nat_eq, arith, inl, inr, ◌∙◌, sym, Result, ok, err, Result-cases,
  lookup-insert, lookup-delete, ap,
}
use dockerdless.Domain.Model.{PortBinding}
use dockerdless.Cni.Ports.{
  PortKey, PortAllocation, PortError, Allocator, port_key_eq, port_key_beq_iff, key_of,
  normalize_protocol, normalize_host_ip, release, release_one, binding_failed,
}
use dockerdless.Cni.Ports.Allocate.{Probe, allocate, allocate_all, allocate_bindings, fill}
use dockerdless.Cni.Ports.Clash.{free_of_reserved, clashes_refl}
use dockerdless.Cni.Ports.Single.{
  Reserves, allocate_ok, allocate_err, normalize_protocol_idem, normalize_host_ip_idem,
}

-- One of the allocations names the key, after normalization.
unfoldable pub releases : PortKey → List PortAllocation → Bool
releases k [] = false
releases k (x ∷ xs) = elim (normalize_protocol x.protocol) [
  | err e ↦ releases k xs
  | ok proto ↦
      (record { protocol = proto; host_ip = normalize_host_ip x.host_ip; port = x.host_port }) == k
      || releases k xs
]

-- Release drops the keys that its arguments name, and no others.
pub lookup-release :
    (k : PortKey) (xs : List PortAllocation) (a : Allocator)
    → lookup k (release xs a).used ≡ (if releases k xs then none else lookup k a.used)
unfolding release release_one releases
lookup-release k [] a = refl
lookup-release k (x ∷ xs) a = elim (Result-cases (normalize_protocol x.protocol)) [
  | inr (e, h) ↦ ground (arith, h, lookup-release k xs a)
  | inl (proto, h) ↦
      let j : PortKey = record {
        protocol = proto;
        host_ip = normalize_host_ip x.host_ip;
        port = x.host_port;
      } in
      ground (
        arith,
        h,
        lookup-release k xs (record a { used = delete j a.used }),
        lookup-delete j k a.used,
      )
]

-- An allocation in the form that Release gives back.
abbrev pub IsNormal : PortAllocation → Type 0
IsNormal x =
    (normalize_protocol x.protocol ≡ ok x.protocol) × (normalize_host_ip x.host_ip ≡ x.host_ip)

releases-append :
    (k : PortKey) (xs : List PortAllocation) (x : PortAllocation)
    → IsNormal x
    → releases k (xs ++ x ∷ []) ≡ (releases k xs || key_of x == k)
unfolding releases
releases-append k [] x n = ground (arith, n)
releases-append k (y ∷ xs) x n = elim (Result-cases (normalize_protocol y.protocol)) [
  | inr (e, h) ↦ ground (arith, h, releases-append k xs x n)
  | inl (proto, h) ↦ ground (arith, h, releases-append k xs x n)
]

-- Releasing what has been collected leads back to the reservations of the start.
abbrev pub Returns : Allocator → Allocator → List PortAllocation → Type 0
Returns start a xs =
    (k : PortKey) → (if releases k xs then none else lookup k a.used) ≡ lookup k start.used

module _ (parse_ip : Text → Option (List ℕ)) (probe : Probe) where
  pub allocate-IsNormal :
      (a : Allocator) (protocol host_ip : Text) (requested : ℕ) (x : PortAllocation)
      → (allocate parse_ip probe a protocol host_ip requested).0 ≡ ok x
      → IsNormal x
  allocate-IsNormal a protocol host_ip requested x h =
      let (_, p, i, _) = allocate_ok parse_ip probe a protocol host_ip requested x h in
      (
        normalize_protocol_idem protocol x.protocol p,
        ap normalize_host_ip i ∙ normalize_host_ip_idem host_ip ∙ sym i,
      )

  pub Returns-step :
      (start a b : Allocator) (xs : List PortAllocation) (x : PortAllocation)
      → IsNormal x
      → Reserves parse_ip a b x
      → Returns start a xs
      → Returns start b (xs ++ x ∷ [])
  Returns-step start a b xs x n r back k =
      let key = key_of x in
      let held : lookup k b.used ≡ (if key == k then some tt else lookup k a.used) =
        ap (lookup k) r.held ∙ lookup-insert key k tt a.used in
      ground (
        arith,
        releases-append k xs x n,
        held,
        back k,
        port_key_beq_iff key k,
        free_of_reserved parse_ip a.used key key r.free,
        clashes_refl parse_ip key,
      )

  -- Allocate on the next binding.
  abbrev pub next : Allocator → PortBinding → Result PortError PortAllocation × Allocator
  next a b = allocate parse_ip probe a b.protocol b.host_ip b.host_port

  pub allocate_all_err :
      (a : Allocator) (filled : List PortBinding) (xs : List PortAllocation) (b : PortBinding)
      (bs : List PortBinding) (e : PortError)
      → (next a b).0 ≡ err e
      → allocate_all parse_ip probe a filled xs (b ∷ bs)
        ≡ (err (binding_failed b.container_port e), release xs (next a b).1)
  unfolding allocate_all
  allocate_all_err a filled xs b bs e h = ground (arith, h)

  pub allocate_all_ok :
      (a : Allocator) (filled : List PortBinding) (xs : List PortAllocation) (b : PortBinding)
      (bs : List PortBinding) (x : PortAllocation)
      → (next a b).0 ≡ ok x
      → allocate_all parse_ip probe a filled xs (b ∷ bs)
        ≡ allocate_all parse_ip probe (next a b).1 (filled ++ fill b x ∷ []) (xs ++ x ∷ []) bs
  unfolding allocate_all
  allocate_all_ok a filled xs b bs x h = ground (arith, h)

  rollback :
      (start a : Allocator) (filled : List PortBinding) (xs : List PortAllocation)
      (bs : List PortBinding) (e : PortError)
      → Returns start a xs
      → (allocate_all parse_ip probe a filled xs bs).0 ≡ err e
      → (k : PortKey)
      → lookup k (allocate_all parse_ip probe a filled xs bs).1.used ≡ lookup k start.used
  rollback start a filled xs [] e back h k = absurd (unfold allocate_all in cc)
  rollback start a filled xs (b ∷ bs) e back h k = elim (Result-cases (next a b).0) [
    | inr (x, f) ↦
        let kept = allocate_err parse_ip probe a b.protocol b.host_ip b.host_port x f in
        ap (λ r. lookup k r.1.used) (allocate_all_err a filled xs b bs x f)
        ∙ lookup-release k xs (next a b).1
        ∙ ap (λ m. if releases k xs then none else lookup k m) kept
        ∙ back k
    | inl (x, f) ↦
        let same = allocate_all_ok a filled xs b bs x f in
        let normal = allocate-IsNormal a b.protocol b.host_ip b.host_port x f in
        let (r, _, _, _) = allocate_ok parse_ip probe a b.protocol b.host_ip b.host_port x f in
        ap (λ r. lookup k r.1.used) same
        ∙ rollback start (next a b).1 (filled ++ fill b x ∷ []) (xs ++ x ∷ []) bs e
            (Returns-step start a (next a b).1 xs x normal r back) (ap (λ r. r.0) (sym same) ∙ h) k
  ]

  -- AllocateBindings that fails leaves every host port as it was, reserved or free.
  pub allocate_bindings_rollback :
      (a : Allocator) (bs : List PortBinding) (e : PortError)
      → (allocate_bindings parse_ip probe a bs).0 ≡ err e
      → (k : PortKey) → lookup k (allocate_bindings parse_ip probe a bs).1.used ≡ lookup k a.used
  unfolding allocate_bindings releases
  allocate_bindings_rollback a bs e h k = rollback a a [] [] bs e (λ j. refl) h k
