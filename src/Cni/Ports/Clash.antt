-- ===== src/Cni/Ports/Clash.antt =====
-- When two reservations clash (conflictsLocked of internal/adapters/cni/portmap.go), and that an
-- allocation of a free key keeps the reservations apart.
use dockerdless.Base.{
  ℕ, ◌≡◌, refl, true, false, ◌||◌, Option, List, [], ◌∷◌, Text, text_eq, text_beq_iff, Dict, lookup,
  insert, delete, ◌==◌, nat_eq, arith, is_some,
}
use dockerdless.Cni.Ports.{PortKey, port_key_eq, port_key_beq_iff, clashes, conflicts_locked}

module _ (parse_ip : Text → Option (List ℕ)) where
  pub clashes_refl : (k : PortKey) → clashes parse_ip k k ≡ true
  unfolding clashes
  clashes_refl k =
      ground (arith, text_beq_iff k.protocol k.protocol, text_beq_iff k.host_ip k.host_ip)

  pub clashes_symm : (j k : PortKey) → clashes parse_ip j k ≡ clashes parse_ip k j
  unfolding clashes
  clashes_symm j k = ground (
    arith,
    text_beq_iff j.protocol k.protocol,
    text_beq_iff k.protocol j.protocol,
    text_beq_iff j.host_ip k.host_ip,
    text_beq_iff k.host_ip j.host_ip,
  )

  -- Each reservation clashes with none of those behind it.
  abbrev pub Apart : Dict PortKey (Unit {0}) → Type 0
  Apart [] = Unit {0}
  Apart ((k, u) ∷ m) = (conflicts_locked parse_ip m k ≡ false) × Apart m

  conflicts-insert :
      (m : Dict PortKey (Unit {0})) (j k : PortKey)
      → conflicts_locked parse_ip (insert k tt m) j
        ≡ (conflicts_locked parse_ip m j || clashes parse_ip k j)
  unfolding conflicts_locked insert
  conflicts-insert [] j k = ground arith
  conflicts-insert ((i, u) ∷ m) j k = ground (arith, port_key_beq_iff i k, conflicts-insert m j k)

  pub insert-Apart :
      (m : Dict PortKey (Unit {0})) (k : PortKey)
      → conflicts_locked parse_ip m k ≡ false
      → Apart m
      → Apart (insert k tt m)
  unfolding conflicts_locked insert
  insert-Apart [] k free a = (refl, tt)
  insert-Apart ((i, u) ∷ m) k free a = ground (
    arith,
    port_key_beq_iff i k,
    clashes_refl k,
    clashes_symm i k,
    conflicts-insert m i k,
    insert-Apart m k,
  )

  delete-conflicts :
      (m : Dict PortKey (Unit {0})) (j k : PortKey)
      → conflicts_locked parse_ip m j ≡ false
      → conflicts_locked parse_ip (delete k m) j ≡ false
  unfolding conflicts_locked delete
  delete-conflicts [] j k h = refl
  delete-conflicts ((i, u) ∷ m) j k h = ground (arith, delete-conflicts m j k)

  pub delete-Apart : (m : Dict PortKey (Unit {0})) (k : PortKey) → Apart m → Apart (delete k m)
  unfolding delete
  delete-Apart [] k a = tt
  delete-Apart ((i, u) ∷ m) k a = ground (arith, delete-Apart m k a.1, delete-conflicts m i k a.0)

  -- A key that conflicts with nothing clashes with no reservation.
  pub free_of_reserved :
      (m : Dict PortKey (Unit {0})) (j k : PortKey)
      → conflicts_locked parse_ip m k ≡ false
      → is_some (lookup j m) ≡ true
      → clashes parse_ip j k ≡ false
  unfolding conflicts_locked lookup
  free_of_reserved [] j k free h = cc
  free_of_reserved ((i, v) ∷ m) j k free h =
      ground (arith, port_key_beq_iff i j, free_of_reserved m j k)

  -- Two different reservations never clash.
  pub Apart-reserved :
      (m : Dict PortKey (Unit {0})) (j k : PortKey)
      → Apart m
      → is_some (lookup j m) ≡ true
      → is_some (lookup k m) ≡ true
      → (j == k) ≡ false
      → clashes parse_ip j k ≡ false
  unfolding lookup
  Apart-reserved [] j k a h l n = cc
  Apart-reserved ((i, w) ∷ m) j k a h l n = ground (
    arith,
    port_key_beq_iff i j,
    port_key_beq_iff i k,
    port_key_beq_iff j k,
    clashes_symm i k,
    free_of_reserved m j i a.0,
    free_of_reserved m k i a.0,
    Apart-reserved m j k a.1,
  )
