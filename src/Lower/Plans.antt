-- ===== src/Lower/Plans.antt =====
-- The planner on a program that the lowering accepts.
use nixfied.Prelude.{ℕ, ◌≡◌, some, Text, ok, >>=-ok, >>-ok, length, Mem}
use nixfied.Manifest.Types.{Manifest}
use nixfied.Execution.Types.{Program, PortWindow, task_ids}
use nixfied.Execution.Plan.{LogicalPlan, logical_plan, window_at, capacity, demand}
use nixfied.Execution.Admit.{prove_graph, prove_capacity}
use nixfied.Execution.Admitted.{prove_capacity-fits}
use nixfied.Execution.Capacity.{task_ids-IsKey}
use nixfied.Execution.Planned.{logical_plan-total}
use nixfied.Lower.Errors.{of_plan}
use nixfied.Lower.References.{prove_references}
use nixfied.Lower.Program.{lower_program, lower}
use nixfied.Lower.Total.{of_plan-ok, lower-IsClosed}

-- In a program that the lowering accepts, every task has a logical plan, and the window of every slot
-- passes the capacity check for it: of what is planned after admission, neither the task's flattening
-- nor the order of its services nor the number of ports can fail.
pub lower-plans :
    (m : Manifest) (program : Program) (task : Text) (slot : ℕ) (window : PortWindow)
    → lower m ≡ ok program
    → Mem task (task_ids program)
    → window_at slot program.slot_windows ≡ some window
    → (plan : LogicalPlan) × (logical_plan program task ≡ ok plan)
      × (capacity window slot (demand plan.services) (length plan.services) ≡ ok tt)
unfolding lower
lower-plans m program task slot window h t w =
    let closed = lower-IsClosed m program h in
    let (r, h1) = >>-ok (prove_references m) _ h in
    let (p, e1, h2) = >>=-ok (lower_program m) _ h1 in
    let (facts, e2, h3) = >>=-ok (of_plan (prove_graph p)) _ h2 in
    let (checked, last) = >>-ok (of_plan (prove_capacity p facts)) _ h3 in
    let same : p ≡ program = cc in
    let graph : prove_graph program ≡ ok facts = rw same at (of_plan-ok (prove_graph p) e2) in
    let room : prove_capacity program facts ≡ ok tt =
      rw same at (of_plan-ok (prove_capacity p facts) checked) in
    let (plan, planned) =
      logical_plan-total program closed facts task graph (task_ids-IsKey program task t) in
    (plan, planned, prove_capacity-fits program facts task slot window plan graph room t w planned)
