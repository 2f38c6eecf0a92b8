-- ===== src/Daemon/Startup/Tests.antt =====
-- A start of cmd/dockerdless with one running container and one that has lost its task.
use dockerdless.Base.{
  ◌≡◌, refl, false, List, [], ◌∷◌, Text, bytes, ok, pos, lookup, insert, delete, text_beq, sort_by,
  insert_by, text_ltb, int_beq, ◌↔◌, Listed,
}
use dockerdless.Domain.Model.{Container, zero_container}
use dockerdless.Domain.Registry.{
  new_registry, live, get, save, store, context_error, name_taken, drop_previous_name,
  default_image,
}
use dockerdless.Domain.Registry.Consistency.{IsConsistent}
use dockerdless.Domain.Reconcile.{
  TaskSnapshot, ReconcileResult, running, reconcile, index_metadata, index_tasks, task_identity,
  merge_all, merge_one, apply_task, task_state, lost,
}
use dockerdless.Domain.Events.{lookup_docker_action, start, die}
use dockerdless.Daemon.Startup.{reconcile_at_startup, save_all, recovery, state_topic}
use dockerdless.Daemon.Startup.Recovered.{startup_recovers}

abbrev stored : List Container
stored =
    record zero_container { id = bytes "a"; name = bytes "web" }
    ∷ record zero_container { id = bytes "b"; name = bytes "db" }
    ∷ []

abbrev tasks : List TaskSnapshot
tasks =
    record {
      id = [];
      container_id = bytes "a";
      status = running;
      exit_code = pos 0;
      oom_killed = false;
      error = [];
      started_at = pos 5;
      finished_at = pos 0;
    }
    ∷ []

startup_succeeds : (reconcile_at_startup new_registry live (ok (stored, tasks))).2 ≡ ok tt
unfolding reconcile_at_startup save_all new_registry save store context_error name_taken
    drop_previous_name default_image reconcile index_metadata index_tasks task_identity merge_all
    merge_one apply_task task_state lost lookup insert delete text_beq sort_by insert_by text_ltb
    int_beq
startup_succeeds = refl

startup_recovers_example :
    (result : ReconcileResult) × (reconcile stored tasks ≡ ok result)
    × ((j : Text) (c : Container)
        → (get (reconcile_at_startup new_registry live (ok (stored, tasks))).0 live j ≡ ok c)
          ↔ (Listed c result.containers × (c.id ≡ j)))
    × IsConsistent (reconcile_at_startup new_registry live (ok (stored, tasks))).0
startup_recovers_example = startup_recovers stored tasks startup_succeeds

startup_logs :
    (reconcile_at_startup new_registry live (ok (stored, tasks))).1
    ≡ record {
      container_id = bytes "a";
      status = dockerdless.Domain.Model.ContainerState.running;
      event_topic = bytes "/tasks/start";
      docker_action = start;
    }
      ∷ record {
        container_id = bytes "b";
        status = dockerdless.Domain.Model.ContainerState.exited;
        event_topic = bytes "/tasks/exit";
        docker_action = die;
      }
      ∷ []
unfolding reconcile_at_startup save_all recovery state_topic lookup_docker_action new_registry save
    store context_error name_taken drop_previous_name default_image reconcile index_metadata
    index_tasks task_identity merge_all merge_one apply_task task_state lost lookup insert delete
    text_beq sort_by insert_by text_ltb int_beq
startup_logs = refl
