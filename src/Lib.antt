-- ===== src/Lib.antt =====
-- dockerdless: a Docker-compatible daemon over containerd, BuildKit and CNI, written in Go.
--
-- The parts. internal/api takes HTTP requests, negotiates the API version, matches a route and calls
-- the application service of internal/app, which drives the adapters under internal/adapters
-- (containerd for containers, cni for networks and host ports, buildkit for images) and keeps the
-- containers in the registry of internal/domain. internal/streams frames and reads container output.
-- At start-up cmd/dockerdless reconciles the stored metadata with the running tasks.
--
-- Which file models which part.
--   Base (and its children): tests on numbers, lists, Go strings as byte lists, maps as association
--     lists, Go's pair of value and error as Result, sorting, strings.TrimSpace.
--   Domain/Model: internal/domain/model.go. A Go string is its list of bytes, an instant its distance
--     from the zero time.
--   Domain/Registry: internal/domain/registry.go. The record Registry is the two maps; get,
--     get_by_name, list, save, rename and remove are the methods, `step` is one call of a method that
--     changes the maps, `run` a sequence of calls in any order. Each method holds the lock for its
--     whole access, so a sequence of steps covers every interleaving.
--   Domain/Reconcile: internal/domain/reconcile.go. index_metadata, index_tasks and merge_all are the
--     three loops of Reconcile.
--   Domain/Events: internal/domain/events.go.
--   Streams/Io: the readers and writers of package io: a Source is the bytes a reader still delivers
--     and how it ends, a Sink any function that answers a Write.
--   Streams/Frame: internal/streams/stdcopy.go. write_bytes is Writer.Write, read_frame is ReadFrame,
--     demux is Demux.
--   Cni/Ports and Cni/Ports/Allocate: internal/adapters/cni/portmap.go. The Allocator's record has the
--     map of reservations, the number of attempts and the number of probes made; net.ParseIP and the
--     bind probe are parameters, and a probe may answer each call differently.
--   Failures: error values of Go: the sentinels that the parts compare with, wrapped chains, errors.Is
--     and the Docker message of a chain.
--   Runtime/Errors: internal/adapters/containerd/errors.go; errdefs is a parameter.
--   App/Errors: internal/app/errors.go. translate_error is translateError.
--   Api/Errors: internal/api/errors.go. map_service_error is mapServiceError, error_for_status is
--     NewDockerError.
--   Api/Version: internal/api/version.go. negotiate is what VersionMiddleware.Wrap does before it calls
--     the next handler.
--   Daemon/Startup: cmd/dockerdless/reconciliation.go. reconcile_at_startup has the registry, the log
--     and the error that the start ends with; the loader's answer is an argument.
--   Streams/Logs: internal/streams/logs.go. find_tail_start is FindTailStart, parse_cri_entry is
--     ParseCRIEntry and emit_log_lines is emitLogLines; a file is its bytes, and time.Parse and
--     Time.Format are parameters.
--   Streams/Logs/Follow: the loop of ReadLogs in the same file. What a poll opens and when the context
--     ends are inputs; read_logs_once is readLogsOnce and track is logReadState.track.
--   Api/Limiter: the stream limiter of internal/api/errors.go. Acquires relates a limiter to each way
--     in which acquire can return; Led is a history of returns of many handlers.
--   Api/Router: internal/api/router.go and internal/api/routes.go. match_string is the match of a
--     pattern that compileRoutePattern built, serve_http is ServeHTTP up to the call of the handler.
--   Cni/Modes, Cni/Addresses, Cni/Config, Cni/Networks: the networks of internal/adapters/cni/adapter.go
--     and internal/adapters/cni/networkconfig.go. The configuration directory is a map from paths to the
--     documents in it; create_network, list_networks, resolve and ensure_default_network are the methods.
--     The record Host has what others answer: the file system, SHA-256, libcni.ConfFiles, netip.
--   Cni/Inspect: internal/adapters/cni/inspect.go.
--   Cni/Attach and Cni/Detach: the other methods of internal/adapters/cni/adapter.go: connect_fresh is
--     Connect, connect_reserved is ConnectReserved, remove_network is Remove, disconnect_all is
--     DisconnectAll. The record Adapter has the files, the allocator, the tracked attachments and the
--     machine behind the plugins, of any type; the record Plugins has what libcni and the kernel do.
--   App/Ports: the data and the interfaces of internal/ports/ports.go. The record Ports has the runtime,
--     the images, the networks and the clock.
--   App/Service: internal/app/service.go and the log sinks of internal/app/logs.go. State has the mutable
--     fields of Service and the world behind the ports. An Action gives a result and the next state, which a failure keeps too. The
--     request's time-out is what the port `context` answers by then.
--   App/Containers: ContainerCreate of internal/app/containers.go, with its checks in Request.
--   App/Lifecycle: the other container requests of that file but the logs; Start has ContainerStart.
--     A loop is over the list of the registry's containers. Warnings to the logger are left out.
-- The children of a file hold its proofs, a child named Tests its runs and witnesses.
--
-- Bounds and fuel. The loop of Writer.Write and the loop of Demux run on fuel, the length of the
-- payload and one more than the length of the source; both are shown to be enough. The backward scan
-- of FindTailStart runs on the length of the file, which is enough since each block has a byte. The
-- loop over a probe runs the 16 attempts of the source. Sizes of frames wrap at 2^32 as in the source.
--
-- Not modelled: the other requests of the application service (images, builds, execs, logs,
-- networks), the HTTP handlers, the containerd and BuildKit adapters, the synthesis of network settings,
-- configuration, telemetry, and the daemon's process and signals.
-- The deep copies that the registry makes are left out, since a value has no alias here.
mod Base
pub mod Failures
pub mod Domain
pub mod Streams
pub mod Cni
pub mod Runtime
pub mod App
pub mod Api
pub mod Daemon
