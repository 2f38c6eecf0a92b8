-- ===== src/Cni/Ports/Filled.antt =====
-- What AllocateBindings of internal/adapters/cni/portmap.go returns when it succeeds.
use dockerdless.Base.{
  ℕ, ◌≡◌, ◌≢◌, refl, true, Option, some, List, [], ◌∷◌, ◌++◌, Text, text_eq, Dict, lookup,
  if◌then◌else◌, ◌==◌, nat_eq, arith, inl, inr, ◌∙◌, sym, ok, Result-cases, lookup-insert, is_some,
  subst, subst₂, ap, append_assoc, append-nil,
}
use dockerdless.Domain.Model.{PortBinding}
use dockerdless.Cni.Ports.{
  PortKey, PortAllocation, Allocator, port_key_eq, port_key_beq_iff, key_of,
}
use dockerdless.Cni.Ports.Allocate.{Probe, allocate_all, allocate_bindings, fill}
use dockerdless.Cni.Ports.Single.{allocate_ok}
use dockerdless.Cni.Ports.Batch.{
  IsNormal, next, allocate_all_err, allocate_all_ok, allocate-IsNormal,
}

-- What a binding is filled with: a concrete, normalized port that is reserved at the end.
pub record FilledBy (used : Dict PortKey (Unit {0})) (b f : PortBinding) (x : PortAllocation)
    : Type 0 where
  pub same : f ≡ fill b x
  pub normal : IsNormal x
  pub concrete : x.host_port ≢ 0
  pub fixed : b.host_port ≢ 0 → x.host_port ≡ b.host_port
  pub reserved : is_some (lookup (key_of x) used) ≡ true

-- Each binding is filled, in its place.
abbrev pub Filled :
    Dict PortKey (Unit {0}) → List PortBinding → List PortBinding → List PortAllocation → Type 0
Filled used [] [] [] = Unit {0}
Filled used [] [] (x ∷ xs) = ⊥
Filled used [] (f ∷ fs) xs = ⊥
Filled used (b ∷ bs) [] xs = ⊥
Filled used (b ∷ bs) (f ∷ fs) [] = ⊥
Filled used (b ∷ bs) (f ∷ fs) (x ∷ xs) = FilledBy used b f x × Filled used bs fs xs

module _ (parse_ip : Text → Option (List ℕ)) (probe : Probe) where
  -- A reservation outlasts the rest of a successful loop.
  allocate_all_keeps :
      (a : Allocator) (filled : List PortBinding) (xs : List PortAllocation) (bs : List PortBinding)
      (r : List PortBinding × List PortAllocation) (k : PortKey)
      → (allocate_all parse_ip probe a filled xs bs).0 ≡ ok r
      → is_some (lookup k a.used) ≡ true
      → is_some (lookup k (allocate_all parse_ip probe a filled xs bs).1.used) ≡ true
  allocate_all_keeps a filled xs [] r k h held = unfold allocate_all in held
  allocate_all_keeps a filled xs (b ∷ bs) r k h held =
      elim (Result-cases (next parse_ip probe a b).0) [
        | inr (e, f) ↦ absurd (cc (h, allocate_all_err parse_ip probe a filled xs b bs e f))
        | inl (x, f) ↦
            let same = allocate_all_ok parse_ip probe a filled xs b bs x f in
            let (r', _, _, _) = allocate_ok parse_ip probe a b.protocol b.host_ip b.host_port x f in
            let now : lookup k (next parse_ip probe a b).1.used
                ≡ (if key_of x == k then some tt else lookup k a.used) =
              ap (lookup k) r'.held ∙ lookup-insert (key_of x) k tt a.used in
            ap (λ s. is_some (lookup k s.1.used)) same
            ∙ allocate_all_keeps (next parse_ip probe a b).1 (filled ++ fill b x ∷ [])
                (xs ++ x ∷ []) bs r k (ap (λ s. s.0) (sym same) ∙ h) (ground (arith, now))
      ]

  allocate_all-Filled :
      (a : Allocator) (filled : List PortBinding) (xs : List PortAllocation) (bs : List PortBinding)
      (r : List PortBinding × List PortAllocation)
      → (allocate_all parse_ip probe a filled xs bs).0 ≡ ok r
      → (fs : List PortBinding) × (ys : List PortAllocation) × (r.0 ≡ filled ++ fs)
        × (r.1 ≡ xs ++ ys)
        × Filled (allocate_all parse_ip probe a filled xs bs).1.used bs fs ys
  allocate_all-Filled a filled xs [] r h = (
    [],
    [],
    unfold allocate_all in ground (arith, append-nil filled),
    unfold allocate_all in ground (arith, append-nil xs),
    tt,
  )
  allocate_all-Filled a filled xs (b ∷ bs) r h = elim (Result-cases (next parse_ip probe a b).0) [
    | inr (e, f) ↦ absurd (cc (h, allocate_all_err parse_ip probe a filled xs b bs e f))
    | inl (x, f) ↦
        let same = allocate_all_ok parse_ip probe a filled xs b bs x f in
        let a' = (next parse_ip probe a b).1 in
        let k = ap (λ s. s.0) (sym same) ∙ h in
        let (r', _, _, fixed) = allocate_ok parse_ip probe a b.protocol b.host_ip b.host_port x f in
        let now : lookup (key_of x) a'.used ≡ some tt =
          ap (lookup (key_of x)) r'.held
          ∙ lookup-insert (key_of x) (key_of x) tt a.used
          ∙ ground (arith, port_key_beq_iff (key_of x) (key_of x)) in
        let (fs, ys, e0, e1, rest) =
          allocate_all-Filled a' (filled ++ fill b x ∷ []) (xs ++ x ∷ []) bs r k in
        (
          fill b x ∷ fs,
          x ∷ ys,
          e0 ∙ append_assoc filled (fill b x ∷ []) fs,
          e1 ∙ append_assoc xs (x ∷ []) ys,
          subst (λ s. Filled s.1.used (b ∷ bs) (fill b x ∷ fs) (x ∷ ys)) (sym same)
              (
                record {
                  same = refl;
                  normal = allocate-IsNormal parse_ip probe a b.protocol b.host_ip b.host_port x f;
                  concrete = r'.concrete;
                  fixed = fixed;
                  reserved =
                      allocate_all_keeps a' (filled ++ fill b x ∷ []) (xs ++ x ∷ []) bs r (key_of x)
                        k (ap is_some now);
                },
                rest,
              ),
        )
  ]

  -- AllocateBindings that succeeds fills every binding in its place with a concrete port, the
  -- requested one where one was requested, and all these ports are reserved afterwards.
  pub allocate_bindings-Filled :
      (a : Allocator) (bs fs : List PortBinding) (xs : List PortAllocation)
      → (allocate_bindings parse_ip probe a bs).0 ≡ ok (fs, xs)
      → Filled (allocate_bindings parse_ip probe a bs).1.used bs fs xs
  unfolding allocate_bindings
  allocate_bindings-Filled a bs fs xs h =
      let (gs, ys, e0, e1, all) = allocate_all-Filled a [] [] bs (fs, xs) h in
      subst₂ (Filled (allocate_all parse_ip probe a [] [] bs).1.used bs) (sym e0) (sym e1) all
