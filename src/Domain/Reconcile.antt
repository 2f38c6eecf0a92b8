-- ===== src/Domain/Reconcile.antt =====
-- internal/domain/reconcile.go: stored container metadata is matched with the tasks that the runtime
-- reports, at start-up.
pub mod Index
pub mod Merge
pub mod Account
mod Tests
use dockerdless.Base.{
  ◌≡◌, refl, Bool, true, false, not, ◌&&◌, Option, none, some, List, [], ◌∷◌, map, Text, is_empty,
  Dict, lookup, insert, delete, Result, ok, err, ◌>>=◌, ◌>>◌, refuse_if, if◌then◌else◌, ◌==◌,
  text_eq, ℤ, sort_by, is_some, int_beq,
}
use dockerdless.Domain.Model.{Container, ContainerId, ContainerState, Time, is_zero}
use dockerdless.Domain.Registry.{default_image}

-- `unsupported` is a status string that is none of the declared constants.
pub data TaskState : Type 0 where
  created running paused restarting stopped exited dead : TaskState
  unsupported : Text → TaskState

pub record TaskSnapshot : Type 0 where
  pub id : ContainerId
  pub container_id : ContainerId
  pub status : TaskState
  pub exit_code : ℤ
  pub oom_killed : Bool
  pub error : Text
  pub started_at : Time
  pub finished_at : Time

pub record ReconcileResult : Type 0 where
  pub containers : List Container
  pub stale : List ContainerId
  pub cleanup : List ContainerId

pub data ReconcileError : Type 0 where
  empty_identity ids_disagree task_identity_empty : ReconcileError
  duplicate_metadata duplicate_task : ContainerId → ReconcileError
  unsupported_status : ContainerId → Text → ReconcileError

-- The first loop: every record has an identity of its own.
unfoldable pub index_metadata :
    Dict ContainerId Container → List Container → Result ReconcileError (Dict ContainerId Container)
index_metadata m [] = ok m
index_metadata m (c ∷ cs) = do
  refuse_if (is_empty c.id) empty_identity
  refuse_if (is_some (lookup c.id m)) (duplicate_metadata c.id)
  index_metadata (insert c.id c m) cs

unfoldable pub task_identity : TaskSnapshot → Result ReconcileError ContainerId
task_identity task =
    if not (is_empty task.container_id)
      && (not (is_empty task.id) && not (task.container_id == task.id))
    then err ids_disagree
    else if not (is_empty task.container_id)
    then ok task.container_id
    else if not (is_empty task.id)
    then ok task.id
    else err task_identity_empty

-- The second loop: every task has an identity of its own.
unfoldable pub index_tasks :
    Dict ContainerId TaskSnapshot
    → List TaskSnapshot
    → Result ReconcileError (Dict ContainerId TaskSnapshot)
index_tasks m [] = ok m
index_tasks m (task ∷ tasks) = do
  id ← task_identity task
  refuse_if (is_some (lookup id m)) (duplicate_task id)
  index_tasks (insert id (record task { container_id = id }) m) tasks

-- The switch of applyTask: the container's state and its Dead flag.
unfoldable pub task_state : ContainerId → TaskState → Result ReconcileError (ContainerState × Bool)
task_state id created = ok (ContainerState.created, false)
task_state id running = ok (ContainerState.running, false)
task_state id paused = ok (ContainerState.paused, false)
task_state id restarting = ok (ContainerState.restarting, false)
task_state id stopped = ok (ContainerState.exited, false)
task_state id exited = ok (ContainerState.exited, false)
task_state id dead = ok (ContainerState.dead, true)
task_state id (unsupported s) = err (unsupported_status id s)

unfoldable pub apply_task : Container → TaskSnapshot → Result ReconcileError Container
unfolding task_state
apply_task c task = do
  (state, is_dead) ← task_state c.id task.status
  ok (record c {
    exit_code = task.exit_code;
    oom_killed = task.oom_killed;
    error = task.error;
    started_at = task.started_at;
    finished_at = task.finished_at;
    updated_at = if is_zero task.finished_at then c.updated_at else task.finished_at;
    state = state;
    is_dead = is_dead;
  })

-- What the third loop has collected, and the tasks that no container has taken.
pub record Merged : Type 0 where
  pub containers : List Container
  pub stale : List ContainerId
  pub left : Dict ContainerId TaskSnapshot

-- The container that has no task any more.
unfoldable pub lost : Container → Container
lost c = record c { state = ContainerState.exited; is_dead = false }

-- The body of the third loop: the container, whether it is stale, and the tasks left.
unfoldable pub merge_one :
    Dict ContainerId TaskSnapshot
    → Container
    → Result ReconcileError (Container × Bool × Dict ContainerId TaskSnapshot)
unfolding lost
merge_one tasks c = elim (lookup c.id tasks) [
  | none ↦ ok (default_image (lost c), true, tasks)
  | some task ↦ do applied ← apply_task c task; ok (default_image applied, false, delete c.id tasks)
]

unfoldable pub merge_all :
    Dict ContainerId TaskSnapshot → List Container → Result ReconcileError Merged
unfolding merge_one
merge_all tasks [] = ok (record { containers = []; stale = []; left = tasks })
merge_all tasks (c ∷ cs) = do
  (merged, is_stale, left) ← merge_one tasks c
  rest ← merge_all left cs
  ok (record rest {
    containers = merged ∷ rest.containers;
    stale = if is_stale then c.id ∷ rest.stale else rest.stale;
  })

unfoldable pub reconcile :
    List Container → List TaskSnapshot → Result ReconcileError ReconcileResult
unfolding index_metadata index_tasks merge_all
reconcile metadata tasks = do
  index_metadata [] metadata >>= λ _. ok tt
  by_id ← index_tasks [] tasks
  merged ← merge_all by_id metadata
  ok (record {
    containers = merged.containers;
    stale = merged.stale;
    cleanup = sort_by (λ id. id) (map (λ e. e.0) merged.left);
  })
