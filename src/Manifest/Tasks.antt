-- ===== src/Manifest/Tasks.antt =====
-- The task records of validation.rs: a leaf has an operation, an invocation and an exit policy, a
-- composite has steps only.
use nixfied.Prelude.{Bool, true, false, not, ◌||◌, Option, none, some, Text, err, ◌>>◌, ensure}
use nixfied.Manifest.Types.{
  Map, TaskKind, leaf, composite, TaskDefaultOutput, summary, task_output, ExitPolicy, TaskSpec,
}
use nixfied.Manifest.Errors.{
  unsupported_value, as_text, as_output, fixed, Check, is_empty, require_non_empty,
}
use nixfied.Manifest.Ids.{require_step_safe_id, require_keys}
use nixfied.Manifest.Units.{is_some, check_each}

unfoldable pub check_operation : Text → Option Text → Check
unfolding require_non_empty
check_operation id none =
    err (unsupported_value "tasks.operationId" "an operation id on a leaf task" (as_text id))
check_operation id (some operation) = require_non_empty "tasks.operationId" operation

unfoldable pub check_exit_policy : Text → Option ExitPolicy → Check
unfolding is_empty
check_exit_policy id none =
    err (unsupported_value "tasks.exitPolicy" "an exit policy on a leaf task" (as_text id))
check_exit_policy id (some policy) =
    ensure
      (unsupported_value "tasks.exitPolicy.successCodes" "at least one success code" (fixed "[]"))
      (not (is_empty policy.success_codes.items))

unfoldable pub validate_leaf : Text → TaskSpec → Check
unfolding check_operation check_exit_policy is_some is_empty
validate_leaf id task =
    check_operation id task.operation_id
    >> (ensure (unsupported_value "tasks.invocation" "an invocation on a leaf task" (as_text id))
          (is_some task.invocation)
        >> (check_exit_policy id task.exit_policy
            >> ensure (unsupported_value "tasks.steps" "no steps on a leaf task" (as_text id))
                (is_empty task.steps)))

unfoldable pub is_summary : TaskDefaultOutput → Bool
is_summary summary = true
is_summary task_output = false

unfoldable pub has_leaf_fields : TaskSpec → Bool
unfolding is_some is_empty
has_leaf_fields task =
    is_some task.operation_id
    || is_some task.invocation
    || is_some task.exit_policy
    || not (is_empty task.requires.items)
    || not (is_empty task.artifact_refs)
    || not (is_empty task.log_refs)
    || not (is_empty task.summary_refs)

unfoldable pub validate_composite : Text → TaskSpec → Check
unfolding has_leaf_fields is_summary is_empty require_keys
validate_composite id task =
    ensure (unsupported_value "tasks.steps" "at least one step on a composite task" (as_text id))
      (not (is_empty task.steps))
    >> (ensure
          (unsupported_value "tasks.defaultOutput" "summary on a composite task"
            (as_output id task.default_output))
          (is_summary task.default_output)
        >> (ensure
              (unsupported_value "tasks"
                "a composite carries only steps (leaves own invocation, requires, exitPolicy, refs)"
                (as_text id))
              (not (has_leaf_fields task))
            >> require_keys (require_step_safe_id "tasks.steps") task.steps))

unfoldable pub validate_kind : TaskKind → Text → TaskSpec → Check
unfolding validate_leaf validate_composite
validate_kind leaf id task = validate_leaf id task
validate_kind composite id task = validate_composite id task

unfoldable pub validate_task : Text × TaskSpec → Check
unfolding validate_kind
validate_task entry = validate_kind entry.1.kind entry.0 entry.1

unfoldable pub validate_tasks : Map TaskSpec → Check
unfolding validate_task check_each
validate_tasks tasks = check_each validate_task tasks
