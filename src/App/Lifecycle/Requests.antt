-- ===== src/App/Lifecycle/Requests.antt =====
-- The container requests of internal/app/containers.go in any sequence, on one service.
use dockerdless.Base.{Bool, List, [], ◌∷◌, Text, Option, ℤ}
use dockerdless.App.Ports.{Ports, ContainerCreateRequest}
use dockerdless.App.Service.{State}
use dockerdless.App.Containers.{container_create}
use dockerdless.App.Lifecycle.{container_list, container_inspect, container_stop, container_remove}
use dockerdless.App.Lifecycle.Start.{container_start}

pub data Request : Type 0 where
  creates : ContainerCreateRequest → Request
  lists : Bool → Request
  inspects starts : Text → Request
  stops : Text → Option ℤ → Request
  removes : Text → Bool → Request

module _ {W : Type 0} (p : Ports W) where
  unfoldable pub serve : Request → State W → State W
  unfolding container_create container_list container_inspect container_start container_stop
      container_remove
  serve (creates request) s = (container_create p request s).1
  serve (lists all) s = (container_list p all s).1
  serve (inspects ref) s = (container_inspect p ref s).1
  serve (starts ref) s = (container_start p ref s).1
  serve (stops ref timeout) s = (container_stop p ref timeout s).1
  serve (removes ref force) s = (container_remove p ref force s).1

  unfoldable pub serve_all : List Request → State W → State W
  unfolding serve
  serve_all [] s = s
  serve_all (r ∷ rs) s = serve_all rs (serve r s)
