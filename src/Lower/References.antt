-- ===== src/Lower/References.antt =====
-- `prove_references` of lower.rs and `invocations` of execution/mod.rs: every name that the manifest
-- refers to is declared, and the operation ids differ.
use Prim.Native.String.{String}
use nixfied.Prelude.{
  Bool, true, false, Option, none, some, List, [], ◌∷◌, ◌++◌, Text, text_eq, contains, set_insert,
  set_extend, map, Result, ok, err, ◌>>=◌, ◌>>◌, ensure, lookup,
}
use nixfied.Manifest.Types.{
  Map, ClosureSpec, InvocationSpec, Lifecycle, PrepareSpec, ServiceSpec, StepSpec, TaskSpec,
  Codebase, Manifest,
}
use nixfied.Manifest.Units.{is_some, option_list, service_probes}
use nixfied.Lower.Errors.{LowerError, undeclared, closure_system, duplicate_operation_id}

abbrev pub Proof : Type 0
Proof = Result LowerError (Unit {0})

unfoldable pub contains_key {ℓ} : {V : Type ℓ} → Map V → Text → Bool
unfolding is_some
contains_key m k = is_some (lookup k m)

-- A check of each element, in order; the rest is not reached after an error.
unfoldable pub prove_each {ℓ} : {A : Type ℓ} → (A → Proof) → List A → Proof
prove_each check [] = ok tt
prove_each check (x ∷ xs) = check x >> prove_each check xs

-- The invocations of a service: its start, the ready probes, the health probes.
unfoldable pub service_invocations : ServiceSpec → List InvocationSpec
unfolding service_probes
service_invocations service = service.lifecycle.start.invocation ∷ service_probes service

unfoldable pub all_service_invocations : Map ServiceSpec → List InvocationSpec
unfolding service_invocations
all_service_invocations [] = []
all_service_invocations ((name, service) ∷ rest) =
    service_invocations service ++ all_service_invocations rest

unfoldable pub task_invocations : Map TaskSpec → List InvocationSpec
unfolding option_list
task_invocations [] = []
task_invocations ((id, task) ∷ rest) = option_list task.invocation ++ task_invocations rest

unfoldable pub invocations : Manifest → List InvocationSpec
unfolding all_service_invocations task_invocations
invocations manifest = all_service_invocations manifest.services ++ task_invocations manifest.tasks

unfoldable pub lifecycle_op_ids : Lifecycle → List Text
lifecycle_op_ids l =
    l.start.operation_id ∷ l.ready.operation_id ∷ l.health.operation_id ∷ l.stop.operation_id
    ∷ l.clean.operation_id ∷ []

-- The operation ids in the order in which they are inserted.
unfoldable pub service_op_ids : Map ServiceSpec → List Text
unfolding lifecycle_op_ids
service_op_ids [] = []
service_op_ids ((name, service) ∷ rest) = lifecycle_op_ids service.lifecycle ++ service_op_ids rest

unfoldable pub task_op_ids : Map TaskSpec → List Text
unfolding option_list
task_op_ids [] = []
task_op_ids ((id, task) ∷ rest) = option_list task.operation_id ++ task_op_ids rest

-- `if !declared_operations.insert(operation_id)`; the set after the loop goes on.
unfoldable pub declare_all : List Text → List Text → Result LowerError (List Text)
declare_all [] declared = ok declared
declare_all (id ∷ ids) declared = elim (contains declared id) [
  | true ↦ err (duplicate_operation_id id)
  | false ↦ declare_all ids (set_insert id declared)
]

unfoldable pub check_codebase : List Text → InvocationSpec → Proof
check_codebase ids invocation =
    ensure (undeclared "invocation.codebaseId" invocation.codebase_id)
      (contains ids invocation.codebase_id)

unfoldable pub check_closure : Text → Text × ClosureSpec → Proof
check_closure system entry =
    ensure (closure_system entry.0 entry.1.target_system system)
      (text_eq entry.1.target_system system)

-- A name that must be a key of a map.
unfoldable pub check_key {ℓ} : {V : Type ℓ} → String → Map V → Text → Proof
unfolding contains_key
check_key field m k = ensure (undeclared field k) (contains_key m k)

unfoldable pub check_prepare : Map TaskSpec → Option PrepareSpec → Proof
unfolding check_key
check_prepare tasks none = ok tt
check_prepare tasks (some prepare) = check_key "service.prepare.task" tasks prepare.task

unfoldable pub check_service : Map ServiceSpec → Map TaskSpec → Text × ServiceSpec → Proof
unfolding check_key check_prepare
check_service services tasks entry =
    prove_each (check_key "service.connectsTo" services) entry.1.connects_to.items
    >> check_prepare tasks entry.1.lifecycle.prepare

unfoldable pub check_step : Map TaskSpec → Map StepSpec → Text × StepSpec → Proof
unfolding check_key
check_step tasks steps entry =
    check_key "task.steps.task" tasks entry.1.task
    >> prove_each (check_key "task.steps.dependsOn" steps) entry.1.depends_on.items

unfoldable pub check_task : Map ServiceSpec → Map TaskSpec → Text × TaskSpec → Proof
unfolding check_key check_step
check_task services tasks entry =
    prove_each (check_key "task.requires" services) entry.1.requires.items
    >> prove_each (check_step tasks entry.1.steps) entry.1.steps

unfoldable pub check_tools : Map ClosureSpec → InvocationSpec → Proof
unfolding check_key
check_tools closures invocation =
    prove_each (check_key "invocation.tools" closures) invocation.tools.items

unfoldable pub prove_references : Manifest → Proof
unfolding prove_each check_codebase check_closure declare_all service_op_ids task_op_ids
    check_service check_task check_tools invocations
prove_references m = do
  prove_each (check_codebase (set_extend [] (map (λ (c : Codebase). c.codebase_id) m.codebases)))
      (invocations m)
  prove_each (check_closure m.target.closure_system) m.closures
  declared ← declare_all (service_op_ids m.services) []
  all_declared ← declare_all (task_op_ids m.tasks) declared
  prove_each (check_service m.services m.tasks) m.services
  prove_each (check_task m.services m.tasks) m.tasks
  prove_each (check_tools m.closures) (invocations m)
