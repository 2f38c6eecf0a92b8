-- ===== src/Domain/Reconcile/Tests.antt =====
-- A run of internal/domain/reconcile.go: one container with a task, one without, and a task that no
-- container owns.
use dockerdless.Base.{
  ◌≡◌, refl, false, List, [], ◌∷◌, bytes, ok, err, pos, lookup, insert, delete, text_beq, sort_by,
  insert_by, text_ltb, int_beq,
}
use dockerdless.Domain.Model.{Container, zero_container}
use dockerdless.Domain.Registry.{default_image}
use dockerdless.Domain.Reconcile.{
  TaskSnapshot, ReconcileResult, running, dead, duplicate_metadata, reconcile, index_metadata,
  index_tasks, task_identity, merge_all, merge_one, apply_task, task_state, lost,
}
use dockerdless.Domain.Reconcile.Account.{Accounts, reconcile-Accounts}

abbrev stored : List Container
stored = record zero_container { id = bytes "a" } ∷ record zero_container { id = bytes "b" } ∷ []

abbrev task_of_a : TaskSnapshot
task_of_a = record {
  id = [];
  container_id = bytes "a";
  status = running;
  exit_code = pos 0;
  oom_killed = false;
  error = [];
  started_at = pos 5;
  finished_at = pos 0;
}

abbrev orphan : TaskSnapshot
orphan = record task_of_a { container_id = bytes "c"; status = dead }

abbrev answer : ReconcileResult
answer = record {
  containers =
      record zero_container {
        id = bytes "a";
        state = dockerdless.Domain.Model.ContainerState.running;
        started_at = pos 5;
      }
      ∷ record zero_container {
        id = bytes "b";
        state = dockerdless.Domain.Model.ContainerState.exited;
      }
      ∷ [];
  stale = bytes "b" ∷ [];
  cleanup = bytes "c" ∷ [];
}

reconcile_answers : reconcile stored (orphan ∷ task_of_a ∷ []) ≡ ok answer
unfolding reconcile index_metadata index_tasks task_identity merge_all merge_one apply_task
    task_state lost default_image lookup insert delete text_beq sort_by insert_by text_ltb int_beq
reconcile_answers = refl

reconcile-Accounts_example : Accounts stored (orphan ∷ task_of_a ∷ []) answer
reconcile-Accounts_example =
    reconcile-Accounts stored (orphan ∷ task_of_a ∷ []) answer reconcile_answers

reconcile_duplicate :
    reconcile (record zero_container { id = bytes "a" } ∷ stored) []
    ≡ err (duplicate_metadata (bytes "a"))
unfolding reconcile index_metadata lookup insert text_beq
reconcile_duplicate = refl
