-- ===== src/App/Containers/Undone.antt =====
-- ContainerCreate of internal/app/containers.go by how it ends: a failure gives every host port back and
-- leaves the registry as it was, a success records the container with the ports that it holds.
use dockerdless.Base.{◌≡◌, true, List, [], ◌∷◌, ok, text_eq}
use dockerdless.Domain.Model.{ContainerId, Container, PortBinding, created}
use dockerdless.Domain.Registry.{Registry, Context, save as registry_save}
use dockerdless.Cni.Ports.{PortAllocation, Allocator, port_key_eq}
use dockerdless.Cni.Ports.Allocate.{allocate_bindings}
use dockerdless.Cni.Ports.Filled.{Filled}
use dockerdless.App.Ports.{Ports, ContainerCreateRequest}
use dockerdless.App.Service.{State}
use dockerdless.App.Service.Frames.{Quiet}
use dockerdless.App.Containers.{requested_name}

module _ {W : Type 0} (p : Ports W) where
  -- What a list of requested bindings has become.
  abbrev pub Published : Allocator → List PortBinding → List PortBinding → Allocator → Type 0
  Published a [] fs b = (fs ≡ []) × (b ≡ a)
  Published a (r ∷ rs) fs b =
      (xs : List PortAllocation) × (allocate_bindings p.parse_ip p.probe a (r ∷ rs)
        ≡ (ok (fs, xs), b))
      × (p.has_alloc ≡ true)

  -- What a list of requested bindings has become in the state, and what stayed.
  pub record Bound (s : State W) (bs fs : List PortBinding) (t : State W) : Type 0 where
    pub registry : t.registry ≡ s.registry
    pub logs : t.logs ≡ s.logs
    pub ports : Published s.alloc bs fs t.alloc

  -- What a successful create has done.
  pub record Creates (request : ContainerCreateRequest) (s : State W) (id : ContainerId)
      (t : State W) : Type 0 where
    pub container : Container
    pub ctx : Context
    pub saved : registry_save s.registry ctx container ≡ ok t.registry
    pub ids : container.id ≡ id
    pub names : container.name ≡ requested_name request
    pub states : container.state ≡ created
    pub logs : t.logs ≡ s.logs
    pub ports : Published s.alloc request.port_bindings container.port_bindings t.alloc

  module _ (request : ContainerCreateRequest) (s : State W) where
    -- The record that is saved.
    record IsNew (t : State W) (container : Container) : Type 0 where
      names : container.name ≡ requested_name request
      states : container.state ≡ created
      bound : Bound s request.port_bindings container.port_bindings t
