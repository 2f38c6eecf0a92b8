-- ===== src/Cni/Networks/Pool.antt =====
-- The loop over the pool of subnets in allocateSubnet of internal/adapters/cni/networkconfig.go.
use dockerdless.Base.{
  ℕ, zero, suc, ◌+◌, ◌/◌, ◌%◌, ◌≤◌, ◌<◌, ◌≡◌, ◌⊎◌, inl, inr, refl, sym, ◌∙◌, ap, arith, Bool, true,
  false, Option, none, some, List, Text, Bool-cases, ltb, nat_beq, ltb→lt, subst,
}
use dockerdless.Cni.Addresses.{Addr, Prefix, add_ipv4, addr_value, prefix_contains, prefix_text}
use dockerdless.Cni.Networks.{is_taken, default_subnet_bits, default_subnet_pool, scan_pool}

-- The address that the loop looks at in round i: 10.88.i.0, and 10.89.0.0 behind the pool.
abbrev pub slot_addr : ℕ → Addr
slot_addr i = record { first = 10; second = 88 + i / 256; third = i % 256; fourth = 0 }

-- The i-th subnet of the pool, 10.88.i.0/24.
abbrev pub pool_subnet : ℕ → Prefix
pool_subnet i = record {
  addr = record { first = 10; second = 88; third = i; fourth = 0 };
  bits = 24;
}

pub Addr-ext :
    (a b : Addr)
    → a.first ≡ b.first
    → a.second ≡ b.second
    → a.third ≡ b.third
    → a.fourth ≡ b.fourth
    → a ≡ b
Addr-ext a b p q r s = cc

slot_inside : (i : ℕ) → i < 256 → slot_addr i ≡ (pool_subnet i).addr
slot_inside i h = Addr-ext (slot_addr i) (pool_subnet i).addr refl (omega arith) (omega arith) refl

add_ipv4-slot : (i : ℕ) → i < 256 → add_ipv4 (slot_addr i) 256 ≡ slot_addr (suc i)
unfolding add_ipv4
add_ipv4-slot i h =
    Addr-ext (add_ipv4 (slot_addr i) 256) (slot_addr (suc i)) (omega arith) (omega arith)
      (omega arith) (omega arith)

pool_value : (i : ℕ) → addr_value (slot_addr i) / 65536 ≡ 2648 + i / 256
unfolding addr_value
pool_value i = omega arith

prefix_contains-slot : (i : ℕ) → i < 256 → prefix_contains default_subnet_pool (slot_addr i) ≡ true
unfolding prefix_contains
prefix_contains-slot i h = ground (arith, pool_value i)

prefix_contains-slot_past : prefix_contains default_subnet_pool (slot_addr 256) ≡ false
unfolding prefix_contains
prefix_contains-slot_past = refl

module _ (used : List Text) where
  abbrev pub taken_subnet : ℕ → Bool
  taken_subnet i = is_taken (prefix_text (pool_subnet i)) used

  -- Round by round: the subnets from i to k are taken and k is free, or all from i on are taken.
  abbrev pub ScanEnd : ℕ → Option (Option Prefix) → Type 0
  ScanEnd i outcome =
      ((k : ℕ) × (i ≤ k)
        × (k < 256)
        × (outcome ≡ some (some (pool_subnet k)))
        × (taken_subnet k ≡ false)
        × ((j : ℕ) → i ≤ j → j < k → taken_subnet j ≡ true))
      ⊎ ((outcome ≡ some none) × ((j : ℕ) → i ≤ j → j < 256 → taken_subnet j ≡ true))

  all_from :
      (i k : ℕ)
      → taken_subnet i ≡ true
      → ((j : ℕ) → suc i ≤ j → j < k → taken_subnet j ≡ true)
      → (j : ℕ) → i ≤ j
      → j < k
      → taken_subnet j ≡ true
  all_from i k taken h j p q = elim (Bool-cases (nat_beq i j)) [
    | inl e ↦ let same : i ≡ j = ground arith in subst (λ n. taken_subnet n ≡ true) same taken
    | inr e ↦ h j (ground arith) q
  ]

  ScanEnd-next :
      (i : ℕ) (outcome : Option (Option Prefix))
      → taken_subnet i ≡ true
      → ScanEnd (suc i) outcome
      → ScanEnd i outcome
  ScanEnd-next i outcome taken (inl (k, p, q, found, free, h)) =
      inl (k, omega arith, q, found, free, all_from i k taken h)
  ScanEnd-next i outcome taken (inr (e, h)) = inr (e, all_from i 256 taken h)

  abbrev subnet_at : Addr → Prefix
  subnet_at addr = record { addr = addr; bits = default_subnet_bits }

  scan_pool_free :
      (n : ℕ) (addr : Addr)
      → prefix_contains default_subnet_pool addr ≡ true
      → is_taken (prefix_text (subnet_at addr)) used ≡ false
      → scan_pool (suc n) used addr ≡ some (some (subnet_at addr))
  unfolding scan_pool
  scan_pool_free n addr inside free = ground arith

  scan_pool_taken :
      (n : ℕ) (addr : Addr)
      → prefix_contains default_subnet_pool addr ≡ true
      → is_taken (prefix_text (subnet_at addr)) used ≡ true
      → scan_pool (suc n) used addr ≡ scan_pool n used (add_ipv4 addr 256)
  unfolding scan_pool
  scan_pool_taken n addr inside taken = ground arith

  scan_pool_past :
      (n : ℕ) (addr : Addr)
      → prefix_contains default_subnet_pool addr ≡ false
      → scan_pool (suc n) used addr ≡ some none
  unfolding scan_pool
  scan_pool_past n addr past = ground arith

  scan_pool-free :
      (n i : ℕ)
      → i < 256
      → taken_subnet i ≡ false
      → scan_pool (suc n) used (slot_addr i) ≡ some (some (pool_subnet i))
  scan_pool-free n i h free =
      let e = slot_inside i h in
      scan_pool_free n (slot_addr i) (prefix_contains-slot i h)
        (ap (λ a. is_taken (prefix_text (subnet_at a)) used) e ∙ free)
      ∙ ap (λ a. some (some (subnet_at a))) e

  scan_pool-taken :
      (n i : ℕ)
      → i < 256
      → taken_subnet i ≡ true
      → scan_pool (suc n) used (slot_addr i) ≡ scan_pool n used (slot_addr (suc i))
  scan_pool-taken n i h taken =
      scan_pool_taken n (slot_addr i) (prefix_contains-slot i h)
        (ap (λ a. is_taken (prefix_text (subnet_at a)) used) (slot_inside i h) ∙ taken)
      ∙ ap (scan_pool n used) (add_ipv4-slot i h)

  pub scan_pool-ScanEnd :
      (n i : ℕ) → i ≤ 256 → 256 < n + i → ScanEnd i (scan_pool n used (slot_addr i))
  scan_pool-ScanEnd zero i h k = absurd (omega arith)
  scan_pool-ScanEnd (suc n) i h k = elim (Bool-cases (ltb i 256)) [
    | inr past ↦
        let e : i ≡ 256 = ground arith in
        inr (
          subst (λ j. scan_pool (suc n) used (slot_addr j) ≡ some none) (sym e)
              (scan_pool_past n (slot_addr 256) prefix_contains-slot_past),
          λ j p q. absurd (omega arith),
        )
    | inl inside ↦ elim (Bool-cases (taken_subnet i)) [
      | inl taken ↦
          rw (scan_pool-taken n i (ltb→lt i 256 inside) taken) (
            ScanEnd-next i _ taken
              (scan_pool-ScanEnd n (suc i) (ltb→lt i 256 inside) (omega arith)))
      | inr free ↦ inl (
        i,
        omega arith,
        ltb→lt i 256 inside,
        scan_pool-free n i (ltb→lt i 256 inside) free,
        free,
        λ j p q. absurd (omega arith),
      )
    ]
  ]
