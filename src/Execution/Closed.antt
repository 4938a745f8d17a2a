-- ===== src/Execution/Closed.antt =====
-- Programs all of whose names are declared, which is what the lowering makes, and the planner's
-- errors that the source returns.
use nixfied.Prelude.{◌≡◌, List, Text, map, Mem, IsKey, some}
use nixfied.Execution.Types.{
  ExecService, ExecTask, ExecStep, ExecComposite, leaf_task, composite_task, Program,
}
use nixfied.Execution.Flatten.{PlanError, index_panic, out_of_fuel}

-- An error of the planner that is neither a panic nor an end of fuel.
abbrev pub IsPlanRefusal : PlanError → Type 0
IsPlanRefusal (index_panic k) = ⊥
IsPlanRefusal out_of_fuel = ⊥
IsPlanRefusal _ = Unit

abbrev pub step_names : List ExecStep → List Text
step_names steps = map (λ (s : ExecStep). s.name) steps

pub record IsClosed (program : Program) : Type 0 where
  pub connects :
      (id : Text) (s : ExecService) (target : Text)
      → Mem (id, s) program.services
      → Mem target s.connects_to
      → IsKey program.services target
  pub prepares :
      (id : Text) (s : ExecService) (task : Text)
      → Mem (id, s) program.services
      → s.prepare ≡ some task
      → IsKey program.tasks task
  pub requires :
      (id : Text) (leaf : ExecTask) (service : Text)
      → Mem (id, leaf_task leaf) program.tasks
      → Mem service leaf.requires
      → IsKey program.services service
  pub steps :
      (id : Text) (composite : ExecComposite) (step : ExecStep)
      → Mem (id, composite_task composite) program.tasks
      → Mem step composite.steps
      → IsKey program.tasks step.task
  pub siblings :
      (id : Text) (composite : ExecComposite) (step : ExecStep) (dependency : Text)
      → Mem (id, composite_task composite) program.tasks
      → Mem step composite.steps
      → Mem dependency step.depends_on
      → Mem dependency (step_names composite.steps)
