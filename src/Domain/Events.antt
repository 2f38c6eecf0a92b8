-- ===== src/Domain/Events.antt =====
-- internal/domain/events.go: containerd event topics and the Docker actions they stand for.
use dockerdless.Base.{Option, [], ◌∷◌, Text, bytes, Dict, lookup, text_eq}

pub data DockerEventAction : Type 0 where
  create start die stop kill exec_create exec_start pause unpause : DockerEventAction
  destroy pull untag update : DockerEventAction

abbrev pub containerd_event_actions : Dict Text DockerEventAction
containerd_event_actions =
    (bytes "/tasks/create", create)
    ∷ (bytes "/tasks/start", start)
    ∷ (bytes "/tasks/exit", die)
    ∷ (bytes "/tasks/delete", stop)
    ∷ (bytes "/tasks/exec-added", exec_create)
    ∷ (bytes "/tasks/exec-started", exec_start)
    ∷ (bytes "/tasks/paused", pause)
    ∷ (bytes "/tasks/resumed", unpause)
    ∷ (bytes "/tasks/oom", kill)
    ∷ (bytes "/containers/create", create)
    ∷ (bytes "/containers/update", update)
    ∷ (bytes "/containers/delete", destroy)
    ∷ (bytes "/images/create", pull)
    ∷ (bytes "/images/delete", untag)
    ∷ []

unfoldable pub lookup_docker_action : Text → Option DockerEventAction
lookup_docker_action topic = lookup topic containerd_event_actions
