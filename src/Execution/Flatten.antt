-- ===== src/Execution/Flatten.antt =====
-- `flatten` of plan.rs: a task's leaves with their step paths, in dependency order.
use nixfied.Prelude.{
  ℕ, zero, suc, ◌-◌, true, false, none, some, List, [], ◌∷◌, ◌++◌, Text, codes, map, Result, ok,
  err, ◌>>=◌, length, take, drop, lookup, contains, set_extend,
}
use nixfied.Execution.Types.{ExecTask, ExecStep, leaf_task, composite_task, Program}
use nixfied.Execution.Schedule.{schedule}

-- All have the code `ManifestAdmission`, but for a panic of an indexing and an end of fuel.
pub data PlanError : Type 0 where
  task_missing : Text → PlanError
  task_cycle : List Text → PlanError
  step_cycle : Text → List Text → PlanError
  service_cycle : PlanError
  graph_cycle : Text → List Text → PlanError
  no_window : ℕ → PlanError
  over_capacity : ℕ → ℕ → ℕ → PlanError
  index_panic : Text → PlanError
  out_of_fuel : PlanError

pub record PlanNode : Type 0 where
  pub node_id : Text
  pub task : ExecTask

pub record FlatNode : Type 0 where
  pub step_path : Text
  pub leaf : ExecTask
  pub depends_on : List Text

abbrev pub Ranges : Type 0
Ranges = List (Text × (ℕ × ℕ))

-- The steps' subtrees one after the other, with the range of nodes of each.
unfoldable pub emit_steps :
    (Text → Text → List FlatNode → Result PlanError (List FlatNode))
    → Text
    → List ExecStep
    → List FlatNode
    → Ranges
    → Result PlanError (List FlatNode × Ranges)
emit_steps call path [] out ranges = ok (out, ranges)
emit_steps call path (step ∷ steps) out ranges = do
  out' ← call step.task (path ++ codes "." ++ step.name) out
  emit_steps call path steps out' ((step.name, (length out, length out')) ∷ ranges)

-- `out[start..end]`
unfoldable pub node_slice : List FlatNode → ℕ → ℕ → List FlatNode
node_slice out start end = take (end - start) (drop start out)

unfoldable pub dependency_paths :
    List FlatNode → Ranges → List Text → List Text → Result PlanError (List Text)
unfolding node_slice
dependency_paths out ranges [] paths = ok paths
dependency_paths out ranges (dependency ∷ rest) paths = elim (lookup dependency ranges) [
  | none ↦ err (index_panic dependency)
  | some r ↦
      dependency_paths out ranges rest
        (set_extend paths (map (λ (n : FlatNode). n.step_path) (node_slice out r.0 r.1)))
]

-- `for node in &mut out[start..end]`
unfoldable pub extend_nodes : List FlatNode → ℕ → ℕ → List Text → List FlatNode
unfolding node_slice
extend_nodes out start end paths =
    take start out
    ++ (map (λ (n : FlatNode). record n { depends_on = set_extend n.depends_on paths })
          (node_slice out start end)
        ++ drop end out)

-- One step's subtree waits for the subtrees of its siblings.
unfoldable pub apply_step : Ranges → ExecStep → List FlatNode → Result PlanError (List FlatNode)
unfolding dependency_paths extend_nodes
apply_step ranges step out = do
  paths ← dependency_paths out ranges step.depends_on []
  elim paths [
    | [] ↦ ok out
    | p ∷ ps ↦ elim (lookup step.name ranges) [
      | none ↦ err (index_panic step.name)
      | some r ↦ ok (extend_nodes out r.0 r.1 (p ∷ ps))
    ]
  ]

unfoldable pub apply_dependencies :
    Ranges → List ExecStep → List FlatNode → Result PlanError (List FlatNode)
unfolding apply_step
apply_dependencies ranges [] out = ok out
apply_dependencies ranges (step ∷ steps) out = do
  out' ← apply_step ranges step out
  apply_dependencies ranges steps out'

-- `emit`; the fuel bounds the depth of task references.
unfoldable pub emit :
    ℕ → Program → List Text → Text → Text → List FlatNode → Result PlanError (List FlatNode)
unfolding emit_steps apply_dependencies
emit zero program visiting task path out = err out_of_fuel
emit (suc fuel) program visiting task path out = elim (lookup task program.tasks) [
  | none ↦ err (task_missing task)
  | some (leaf_task leaf) ↦
      ok (out ++ record { step_path = path; leaf = leaf; depends_on = [] } ∷ [])
  | some (composite_task composite) ↦ elim (contains visiting task) [
    | true ↦ err (task_cycle (visiting ++ task ∷ []))
    | false ↦ do
      emitted ← emit_steps (emit fuel program (visiting ++ task ∷ [])) path composite.steps out []
      apply_dependencies emitted.1 composite.steps emitted.0
  ]
]

-- Every composite on the path is a new task, so one round more than there are tasks is enough.
unfoldable pub emit_all : Program → Text → Result PlanError (List FlatNode)
unfolding emit
emit_all program root = emit (suc (suc (length program.tasks))) program [] root root []

unfoldable pub plan_node : FlatNode → Result PlanError PlanNode
plan_node node = ok (record { node_id = node.step_path; task = node.leaf })

unfoldable pub flat_key : FlatNode → Text
flat_key node = node.step_path

unfoldable pub flat_dependencies : FlatNode → List Text
flat_dependencies node = node.depends_on

unfoldable pub steps_stuck : Text → List FlatNode → PlanError
steps_stuck root remaining = step_cycle root (map (λ (n : FlatNode). n.step_path) remaining)

unfoldable pub flatten : Program → Text → Result PlanError (List PlanNode)
unfolding emit_all plan_node flat_key flat_dependencies steps_stuck schedule
flatten program root = do
  flat ← emit_all program root
  schedule flat_key flat_dependencies plan_node (steps_stuck root) out_of_fuel (length flat) [] flat
      []
