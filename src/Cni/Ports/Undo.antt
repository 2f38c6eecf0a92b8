-- ===== src/Cni/Ports/Undo.antt =====
-- Release undoes AllocateBindings (internal/adapters/cni/portmap.go): after a success too, giving back the
-- allocations returned leaves the reservations of the start.
use dockerdless.Base.{
  ◌≡◌, refl, true, none, Option, ℕ, List, [], ◌∷◌, ◌++◌, Text, lookup, if◌then◌else◌, arith, inl,
  inr, ◌∙◌, sym, ap, ok, Result-cases, Listed, subst, subst₂,
}
use dockerdless.Domain.Model.{PortBinding}
use dockerdless.Cni.Ports.{
  PortKey, PortAllocation, Allocator, port_key_eq, release, key_of, normalize_protocol,
  port_key_beq_iff,
}
use dockerdless.Cni.Ports.Allocate.{Probe, allocate_all, allocate_bindings, fill}
use dockerdless.Cni.Ports.Single.{allocate_ok}
use dockerdless.Cni.Ports.Batch.{
  releases, lookup-release, IsNormal, Returns, Returns-step, allocate-IsNormal, next,
  allocate_all_err, allocate_all_ok,
}

-- An allocation in normal form names its own key.
pub releases-Listed :
    (x : PortAllocation) (xs : List PortAllocation)
    → IsNormal x
    → Listed x xs
    → releases (key_of x) xs ≡ true
unfolding releases
releases-Listed x [] n l = absurd l
releases-Listed x (y ∷ ys) n (inl i) =
    subst (λ z. releases (key_of x) (z ∷ ys) ≡ true) (sym i)
      (ground (arith, n, port_key_beq_iff (key_of x) (key_of x)))
releases-Listed x (y ∷ ys) n (inr l) = elim (Result-cases (normalize_protocol y.protocol)) [
  | inl (p, e) ↦ ground (arith, e, releases-Listed x ys n l)
  | inr (q, e) ↦ ground (arith, e, releases-Listed x ys n l)
]

pub release-Listed :
    (x : PortAllocation) (xs : List PortAllocation) (a : Allocator)
    → IsNormal x
    → Listed x xs
    → lookup (key_of x) (release xs a).used ≡ none
release-Listed x xs a n l =
    lookup-release (key_of x) xs a
    ∙ ap (λ b. if b then none else lookup (key_of x) a.used) (releases-Listed x xs n l)

module _ (parse_ip : Text → Option (List ℕ)) (probe : Probe) where
  allocate_all_end :
      (a : Allocator) (filled : List PortBinding) (xs : List PortAllocation) (fs : List PortBinding)
      (ys : List PortAllocation)
      → (allocate_all parse_ip probe a filled xs []).0 ≡ ok (fs, ys)
      → ((allocate_all parse_ip probe a filled xs []).1 ≡ a) × (xs ≡ ys)
  unfolding allocate_all
  allocate_all_end a filled xs fs ys h = (refl, cc)

  allocate_all-Returns :
      (start a : Allocator) (filled : List PortBinding) (xs : List PortAllocation)
      (bs fs : List PortBinding) (ys : List PortAllocation)
      → Returns start a xs
      → (allocate_all parse_ip probe a filled xs bs).0 ≡ ok (fs, ys)
      → Returns start (allocate_all parse_ip probe a filled xs bs).1 ys
  allocate_all-Returns start a filled xs [] fs ys back h =
      let i = allocate_all_end a filled xs fs ys h in
      subst₂ (λ b zs. Returns start b zs) (sym i.0) i.1 back
  allocate_all-Returns start a filled xs (b ∷ bs) fs ys back h =
      elim (Result-cases (next parse_ip probe a b).0) [
        | inr (e, f) ↦ absurd (
            let i = ap (λ r. r.0) (allocate_all_err parse_ip probe a filled xs b bs e f) in
            cc (i, h))
        | inl (x, f) ↦
            let same = allocate_all_ok parse_ip probe a filled xs b bs x f in
            let a' = (next parse_ip probe a b).1 in
            let normal = allocate-IsNormal parse_ip probe a b.protocol b.host_ip b.host_port x f in
            let (r, _, _, _) = allocate_ok parse_ip probe a b.protocol b.host_ip b.host_port x f in
            subst (λ s. Returns start s.1 ys) (sym same)
              (allocate_all-Returns start a' (filled ++ fill b x ∷ []) (xs ++ x ∷ []) bs fs ys
                (Returns-step parse_ip probe start a a' xs x normal r back)
                (ap (λ s. s.0) (sym same) ∙ h))
      ]

  pub release-allocate_bindings :
      (a : Allocator) (bs fs : List PortBinding) (xs : List PortAllocation)
      → (allocate_bindings parse_ip probe a bs).0 ≡ ok (fs, xs)
      → (k : PortKey)
      → lookup k (release xs (allocate_bindings parse_ip probe a bs).1).used ≡ lookup k a.used
  unfolding allocate_bindings releases
  release-allocate_bindings a bs fs xs h k =
      lookup-release k xs (allocate_all parse_ip probe a [] [] bs).1
      ∙ allocate_all-Returns a a [] [] bs fs xs (λ j. refl) h k
