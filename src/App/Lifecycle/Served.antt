-- ===== src/App/Lifecycle/Served.antt =====
-- ContainerStart of internal/app/containers.go keeps the registry consistent, and so does every request.
use dockerdless.App.Ports.{Ports}
use dockerdless.App.Service.Frames.{Undone}
