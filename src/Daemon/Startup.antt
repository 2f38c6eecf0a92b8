-- ===== src/Daemon/Startup.antt =====
-- cmd/dockerdless/reconciliation.go: at start-up the registry is rebuilt from the metadata and the
-- tasks that containerd reports. The loader's answer is an argument; decoding a JSON array of strings
-- is a parameter.
pub mod Digest
pub mod Recovered
mod Tests
use dockerdless.Base.{
  ℕ, zero, suc, ◌≡◌, refl, Bool, true, false, not, ◌&&◌, Option, none, some, List, [], ◌∷◌, ◌++◌,
  Text, bytes, is_empty, Dict, lookup, Result, ok, err, ◌>>=◌, if◌then◌else◌, ◌==◌, text_eq,
  nat_beq, pos, ℤ,
}
use dockerdless.Domain.Model.{
  Container, ContainerId, ImageId, ContainerState, Time, zero_container, running, exited, dead,
  unknown, created, paused, restarting, removing, other,
}
use dockerdless.Domain.Registry.{Registry, RegistryError, Context, save}
use dockerdless.Domain.Reconcile.{TaskSnapshot, ReconcileError, ReconcileResult, reconcile}
use dockerdless.Domain.Events.{DockerEventAction, lookup_docker_action}

pub data StartupError : Type 0 where
  load_failed : ℕ → StartupError
  reconcile_failed : ReconcileError → StartupError
  save_failed : ContainerId → RegistryError → StartupError
  bad_command_label : ContainerId → StartupError

-- What is logged of a recovered container.
pub record Recovery : Type 0 where
  pub container_id : ContainerId
  pub status : ContainerState
  pub event_topic : Text
  pub docker_action : DockerEventAction

unfoldable pub state_topic : ContainerState → Text
state_topic running = bytes "/tasks/start"
state_topic exited = bytes "/tasks/exit"
state_topic dead = bytes "/tasks/exit"
state_topic unknown = []
state_topic created = []
state_topic paused = []
state_topic restarting = []
state_topic removing = []
state_topic (other s) = []

unfoldable pub recovery : Container → List Recovery
unfolding state_topic
recovery c = elim (lookup_docker_action (state_topic c.state)) [
  | none ↦ []
  | some action ↦
      record {
        container_id = c.id;
        status = c.state;
        event_topic = state_topic c.state;
        docker_action = action;
      }
      ∷ []
]

-- The loop over the reconciled containers. A Save that fails keeps what was saved before it.
unfoldable pub save_all :
    Registry → Context → List Container → Registry × List Recovery × Result StartupError (Unit {0})
unfolding recovery
save_all r ctx [] = (r, [], ok tt)
save_all r ctx (c ∷ cs) = elim (save r ctx c) [
  | err e ↦ (r, [], err (save_failed c.id e))
  | ok t ↦ let (u, log, answer) = save_all t ctx cs in (u, recovery c ++ log, answer)
]

unfoldable pub reconcile_at_startup :
    Registry
    → Context
    → Result ℕ (List Container × List TaskSnapshot)
    → Registry × List Recovery × Result StartupError (Unit {0})
unfolding save_all
reconcile_at_startup r ctx (err e) = (r, [], err (load_failed e))
reconcile_at_startup r ctx (ok (metadata, tasks)) = elim (reconcile metadata tasks) [
  | err e ↦ (r, [], err (reconcile_failed e))
  | ok result ↦ save_all r ctx result.containers
]

-- The text behind the last occurrence of a byte, if there is one.
unfoldable pub after_last : ℕ → Text → Option Text
after_last c [] = none
after_last c (d ∷ s) = elim (after_last c s) [
  | some t ↦ some t
  | none ↦ if nat_beq d c then some s else none
]

-- An "@" at the very end is no digest.
unfoldable pub digest_from_reference : ImageId → ImageId
unfolding after_last
digest_from_reference image = elim (after_last b'@' image) [ none ↦ [] | some t ↦ t ]

abbrev pub label : Text → Dict Text Text → Text
label name labels = elim (lookup name labels) [ none ↦ [] | some value ↦ value ]

unfoldable pub restored_container :
    (Text → Option (List Text))
    → ContainerId
    → ImageId
    → Dict Text Text
    → Time
    → Time
    → Result StartupError Container
unfolding digest_from_reference
restored_container decode id image labels created_at updated_at =
    let stored_digest = label (bytes "io.dockerdless.image-digest") labels in
    let digest = if is_empty stored_digest then digest_from_reference image else stored_digest in
    let raw = label (bytes "io.dockerdless.command") labels in
    let command : Option (List Text) = if is_empty raw then some [] else decode raw in
    elim command [
      | none ↦ err (bad_command_label id)
      | some arguments ↦ ok (record zero_container {
        id = id;
        name = label (bytes "io.dockerdless.name") labels;
        spec = record { image = image; command = arguments; env = [] };
        image_reference = image;
        image_digest = digest;
        labels = labels;
        created_at = created_at;
        updated_at = updated_at;
      })
    ]
