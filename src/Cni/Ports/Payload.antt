-- ===== src/Cni/Ports/Payload.antt =====
-- The bindings that AllocateBindings filled, in the later calls of internal/adapters/cni/portmap.go:
-- AdoptBindings finds the reservations again, and BuildPortMappings accepts them.
use dockerdless.Base.{ℕ, ◌≡◌, ◌≢◌, refl, Option, List, [], ◌∷◌, Text, Dict, arith, ok, All}
use dockerdless.Domain.Model.{PortBinding}
use dockerdless.Cni.Ports.{
  PortKey, PortAllocation, PortMapping, Allocator, port_key_eq, adopt_one, adopt_bindings,
  build_port_mapping, build_port_mappings,
}
use dockerdless.Cni.Ports.Allocate.{Probe, allocate_bindings, fill}
use dockerdless.Cni.Ports.Filled.{Filled, FilledBy, allocate_bindings-Filled}

adopt_one-FilledBy :
    (a : Allocator) (b f : PortBinding) (x : PortAllocation)
    → FilledBy a.used b f x
    → adopt_one a f ≡ ok x
unfolding adopt_one fill
adopt_one-FilledBy a b f x h = ground (arith, h.same, h.normal, h.reserved)

adopt_bindings-Filled :
    (a : Allocator) (bs fs : List PortBinding) (xs : List PortAllocation)
    → Filled a.used bs fs xs
    → adopt_bindings a fs ≡ ok xs
unfolding adopt_bindings
adopt_bindings-Filled a [] [] [] h = refl
adopt_bindings-Filled a [] [] (x ∷ xs) h = absurd h
adopt_bindings-Filled a [] (f ∷ fs) xs h = absurd h
adopt_bindings-Filled a (b ∷ bs) [] xs h = absurd h
adopt_bindings-Filled a (b ∷ bs) (f ∷ fs) [] h = absurd h
adopt_bindings-Filled a (b ∷ bs) (f ∷ fs) (x ∷ xs) h =
    ground (arith, adopt_one-FilledBy a b f x h.0, adopt_bindings-Filled a bs fs xs h.1)

-- The payload entry of a binding and of its allocation.
abbrev pub mapping_of : PortBinding → PortAllocation → PortMapping
mapping_of b x = record {
  host_port = x.host_port;
  container_port = b.container_port;
  protocol = x.protocol;
  host_ip = x.host_ip;
}

pub mappings_of : List PortBinding → List PortAllocation → List PortMapping
mappings_of [] xs = []
mappings_of (b ∷ bs) [] = []
mappings_of (b ∷ bs) (x ∷ xs) = mapping_of b x ∷ mappings_of bs xs

abbrev pub HasContainerPort : PortBinding → Type 0
HasContainerPort b = b.container_port ≢ 0

build_port_mapping-FilledBy :
    (used : Dict PortKey (Unit {0})) (b f : PortBinding) (x : PortAllocation)
    → HasContainerPort b
    → FilledBy used b f x
    → build_port_mapping f ≡ ok (mapping_of b x)
unfolding build_port_mapping fill
build_port_mapping-FilledBy used b f x c h = ground (arith, h.same, h.normal, h.concrete, c)

build_port_mappings-Filled :
    (used : Dict PortKey (Unit {0})) (bs fs : List PortBinding) (xs : List PortAllocation)
    → All HasContainerPort bs
    → Filled used bs fs xs
    → build_port_mappings fs ≡ ok (mappings_of bs xs)
unfolding build_port_mappings mappings_of
build_port_mappings-Filled used [] [] [] c h = refl
build_port_mappings-Filled used [] [] (x ∷ xs) c h = absurd h
build_port_mappings-Filled used [] (f ∷ fs) xs c h = absurd h
build_port_mappings-Filled used (b ∷ bs) [] xs c h = absurd h
build_port_mappings-Filled used (b ∷ bs) (f ∷ fs) [] c h = absurd h
build_port_mappings-Filled used (b ∷ bs) (f ∷ fs) (x ∷ xs) c h = ground (
  arith,
  build_port_mapping-FilledBy used b f x c.0 h.0,
  build_port_mappings-Filled used bs fs xs c.1 h.1,
)

module _ (parse_ip : Text → Option (List ℕ)) (probe : Probe) where
  -- After a successful AllocateBindings, AdoptBindings on the filled bindings returns exactly the
  -- allocations made, and BuildPortMappings accepts them if every binding had a container port: it
  -- returns the container port of each binding with the port, protocol and address allocated to it.
  pub allocate-adopt-build :
      (a : Allocator) (bs fs : List PortBinding) (xs : List PortAllocation)
      → (allocate_bindings parse_ip probe a bs).0 ≡ ok (fs, xs)
      → (adopt_bindings (allocate_bindings parse_ip probe a bs).1 fs ≡ ok xs)
        × (All HasContainerPort bs → build_port_mappings fs ≡ ok (mappings_of bs xs))
  allocate-adopt-build a bs fs xs h =
      let f = allocate_bindings-Filled parse_ip probe a bs fs xs h in
      let b = (allocate_bindings parse_ip probe a bs).1 in
      (adopt_bindings-Filled b bs fs xs f, λ c. build_port_mappings-Filled b.used bs fs xs c f)
