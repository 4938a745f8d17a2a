-- ===== src/Lower/Tasks.antt =====
-- `lower_task` and `lower_composite` of lower.rs.
use nixfied.Prelude.{
  Bool, true, false, none, some, List, [], ◌∷◌, Text, map, Result, ok, ◌>>=◌, lookup, set_extend,
  if◌then◌else◌,
}
use nixfied.Manifest.Types.{Map, leaf, composite, ClosureSpec, SecretDescriptor, StepSpec, TaskSpec}
use nixfied.Template.Parse.{Scope, task_owner}
use nixfied.Execution.Types.{
  ServiceAddressing, endpointless, endpoints, ExecService, ExecTask, ExecStep, ExecComposite,
  ExecutableTask, leaf_task, composite_task,
}
use nixfied.Lower.Errors.{LowerError}
use nixfied.Lower.Resolve.{resolve}
use nixfied.Lower.Services.{expect}

-- `service.primary_endpoint().is_some()`
unfoldable pub has_primary_endpoint : ServiceAddressing → Bool
has_primary_endpoint (endpointless ready health) = false
has_primary_endpoint (endpoints set) = true

unfoldable pub is_addressable : Map ExecService → Text → Bool
unfolding has_primary_endpoint
is_addressable services id = elim (lookup id services) [
  | none ↦ false
  | some service ↦ has_primary_endpoint service.addressing
]

unfoldable pub primary_has_endpoint : Map ExecService → List Text → Bool
unfolding is_addressable
primary_has_endpoint services [] = false
primary_has_endpoint services (id ∷ ids) = is_addressable services id

unfoldable pub addressable_ids : Map ExecService → List Text → List Text
unfolding is_addressable
addressable_ids services [] = []
addressable_ids services (id ∷ ids) =
    let rest = addressable_ids services ids in
    if is_addressable services id then id ∷ rest else rest

unfoldable pub task_scope : Text → List Text → Map ExecService → Scope
unfolding primary_has_endpoint addressable_ids
task_scope task_id requires services = record {
  owner = task_owner task_id;
  has_primary = primary_has_endpoint services requires;
  own_endpoints = [];
  services = set_extend [] (addressable_ids services requires);
}

unfoldable pub lower_step : Text × StepSpec → ExecStep
lower_step entry = record {
  name = entry.0;
  task = entry.1.task;
  depends_on = entry.1.depends_on.items;
}

unfoldable pub lower_composite : Text → Map StepSpec → ExecComposite
unfolding lower_step
lower_composite task_id steps = record { task_id = task_id; steps = map lower_step steps }

unfoldable pub lower_leaf :
    Text
    → TaskSpec
    → Map ClosureSpec
    → Map SecretDescriptor
    → Map ExecService
    → Result LowerError ExecTask
unfolding expect resolve task_scope
lower_leaf task_id task closures secrets services = do
  invocation ← expect "validated leaf has an invocation" task.invocation
  exit_policy ← expect "validated leaf has an exit policy" task.exit_policy
  operation_id ← expect "validated leaf has an operation id" task.operation_id
  exec ← resolve closures secrets invocation (task_scope task_id task.requires.items services)
  ok (record {
    timeout = invocation.timeout_ms;
    task_id = task_id;
    exec = exec.0;
    requires = task.requires.items;
    success_codes = exit_policy.success_codes.items;
  })

unfoldable pub lower_task :
    Text
    → TaskSpec
    → Map ClosureSpec
    → Map SecretDescriptor
    → Map ExecService
    → Result LowerError ExecutableTask
unfolding lower_leaf lower_composite
lower_task task_id task closures secrets services = elim task.kind [
  | composite ↦ ok (composite_task (lower_composite task_id task.steps))
  | leaf ↦ do exec ← lower_leaf task_id task closures secrets services; ok (leaf_task exec)
]
