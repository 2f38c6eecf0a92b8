-- ===== src/Cni/Networks/Subnets.antt =====
-- The subnets that allocateSubnet of internal/adapters/cni/networkconfig.go takes from its pool.
use dockerdless.Base.{
  ℕ, ◌+◌, ◌/◌, ◌<◌, ◌≡◌, ◌⊎◌, inl, inr, refl, ◌∙◌, ap, arith, true, false, Option, none, some, List,
  [], Text, ok, err, Bool-cases, nat_beq_iff,
}
use dockerdless.Domain.Registry.{ContextError}
use dockerdless.Cni.Modes.{no_free_subnet}
use dockerdless.Cni.Addresses.{
  Addr, Prefix, add_ipv4, addr_value, masked, prefix_contains, prefix_text, default_gateway_for,
  addr_text,
}
use dockerdless.Cni.Config.{Files}
use dockerdless.Cni.Networks.{
  Host, scan_pool, pool_start, pool_rounds, used_subnets, allocate_subnet,
}
use dockerdless.Cni.Networks.Pool.{
  Addr-ext, pool_subnet, taken_subnet, scan_pool-ScanEnd, slot_addr,
}

-- The gateway of the i-th subnet of the pool.
abbrev pub pool_gateway : ℕ → Addr
pool_gateway i = record { first = 10; second = 88; third = i; fourth = 1 }

masked-pool : (i : ℕ) → i < 256 → masked (pool_subnet i) ≡ pool_subnet i
unfolding masked
masked-pool i h =
    ap (λ a. record { addr = a; bits = 24 })
      (Addr-ext (masked (pool_subnet i)).addr (pool_subnet i).addr (omega arith) (omega arith)
        (omega arith) (omega arith))

add_ipv4-pool : (i : ℕ) → i < 256 → add_ipv4 (pool_subnet i).addr 1 ≡ pool_gateway i
unfolding add_ipv4
add_ipv4-pool i h =
    Addr-ext (add_ipv4 (pool_subnet i).addr 1) (pool_gateway i) (omega arith) (omega arith)
      (omega arith) (omega arith)

default_gateway-pool :
    (i : ℕ) → i < 256 → default_gateway_for (pool_subnet i) ≡ addr_text (pool_gateway i)
unfolding default_gateway_for
default_gateway-pool i h =
    ap (λ p. addr_text (add_ipv4 p.addr 1)) (masked-pool i h) ∙ ap addr_text (add_ipv4-pool i h)

pool_block :
    (i : ℕ) (a : Addr) → prefix_contains (pool_subnet i) a ≡ true → 677888 + i ≡ addr_value a / 256
unfolding prefix_contains addr_value
pool_block i a h =
    omega (arith, (nat_beq_iff (addr_value (pool_subnet i).addr / 256) (addr_value a / 256)).0 h)

-- No address is in two subnets of the pool.
pool_disjoint :
    (i j : ℕ) (a : Addr)
    → prefix_contains (pool_subnet i) a ≡ true
    → prefix_contains (pool_subnet j) a ≡ true
    → i ≡ j
pool_disjoint i j a p q = omega (arith, pool_block i a p, pool_block j a q)

pool_apart :
    (used : List Text) (k j : ℕ) (a : Addr)
    → taken_subnet used k ≡ false
    → taken_subnet used j ≡ true
    → prefix_contains (pool_subnet k) a ≡ true
    → prefix_contains (pool_subnet j) a ≡ false
pool_apart used k j a free taken inside = elim (Bool-cases (prefix_contains (pool_subnet j) a)) [
  | inr e ↦ e
  | inl e ↦
      let same = ap (taken_subnet used) (pool_disjoint k j a inside e) in cc (same, free, taken)
]

pool_start_lem : pool_start ≡ slot_addr 0
unfolding pool_start
pool_start_lem = refl

module _ (h : Host) (ctx : Option ContextError) (files : Files) (gateway : Text) where
  allocate_subnet_found :
      (used : List Text) (p : Prefix)
      → used_subnets h ctx files ≡ ok used
      → scan_pool pool_rounds used pool_start ≡ some (some p)
      → allocate_subnet h ctx files [] gateway ≡ ok (prefix_text p, default_gateway_for p)
  unfolding allocate_subnet
  allocate_subnet_found used p e found = ground arith

  allocate_subnet_full :
      (used : List Text)
      → used_subnets h ctx files ≡ ok used
      → scan_pool pool_rounds used pool_start ≡ some none
      → allocate_subnet h ctx files [] gateway ≡ err no_free_subnet
  unfolding allocate_subnet
  allocate_subnet_full used e found = ground arith

  -- The answers of allocateSubnet to a request without a subnet, by the subnets in use.
  abbrev pub PoolAnswer : List Text → Type 0
  PoolAnswer used =
      ((k : ℕ) × (k < 256)
        × (allocate_subnet h ctx files [] gateway
            ≡ ok (prefix_text (pool_subnet k), addr_text (pool_gateway k)))
        × (taken_subnet used k ≡ false)
        × ((j : ℕ) → j < k → taken_subnet used j ≡ true)
        × ((j : ℕ) (a : Addr)
            → taken_subnet used j ≡ true
            → prefix_contains (pool_subnet k) a ≡ true
            → prefix_contains (pool_subnet j) a ≡ false))
      ⊎ ((allocate_subnet h ctx files [] gateway ≡ err no_free_subnet)
          × ((j : ℕ) → j < 256 → taken_subnet used j ≡ true))

  -- When a network is created without a subnet and the subnets in use can be read: either the first
  -- 10.88.k.0/24 whose text is not in use is handed out, with the gateway 10.88.k.1, and then no
  -- address of it is in another such subnet of the pool that is in use; or the request is refused,
  -- and then all 256 of them are in use.
  pub allocate_subnet_pool :
      (used : List Text) → used_subnets h ctx files ≡ ok used → PoolAnswer used
  allocate_subnet_pool used e = elim (scan_pool-ScanEnd used 257 0 (omega arith) (omega arith)) [
    | inl (k, p, q, found, free, first) ↦ inl (
      k,
      q,
      allocate_subnet_found used (pool_subnet k) e
            (ap (scan_pool pool_rounds used) pool_start_lem ∙ found)
          ∙ ap (λ g. ok (prefix_text (pool_subnet k), g)) (default_gateway-pool k q),
      free,
      λ j. first j (omega arith),
      λ j a taken. pool_apart used k j a free taken,
    )
    | inr (full, all) ↦ inr (
      allocate_subnet_full used e (ap (scan_pool pool_rounds used) pool_start_lem ∙ full),
      λ j. all j (omega arith),
    )
  ]
