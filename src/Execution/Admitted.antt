-- ===== src/Execution/Admitted.antt =====
-- An admitted program fits: what the planner asks of a slot's window was checked at admission.

use nixfied.Prelude.{
  lookup-Mem, ℕ, ◌≡◌, sym, ap, ◌∙◌, inl, inr, some, List, [], ◌∷◌, Text, Result, ok, err, >>=-ok,
  >>-ok, length, lookup, Mem, arith, Bool-cases, Option-cases, ◌==◌, ==_iff,
}
use nixfied.Execution.Types.{Program, PortWindow, task_ids}
use nixfied.Execution.Flatten.{PlanError, index_panic, PlanNode, flatten}
use nixfied.Execution.Graph.{Edges, Bases, direct_requirements, service_edges, close_union}
use nixfied.Execution.Plan.{LogicalPlan, capacity, logical_plan, window_at, demand}
use nixfied.Execution.Admit.{
  Demands, GraphFacts, try_map, task_base, task_union, task_demand, endpoint_count, check_tasks,
  check_slots, prove_graph, prove_capacity, prove_service_cycles,
}
use nixfied.Execution.Startup.{logical_plan-StartsInOrder}
use nixfied.Execution.Bases.{
  mem-try_map, task_base-AreBases, prepare_bases-AreBases, service_edges_unique,
}
use nixfied.Execution.Demand.{weights, weights-Perm, endpoint_count-weights, Visits-demand}

check_tasks-fits :
    (demands : Demands) (slot : ℕ) (window : PortWindow) (tasks : List Text) (task : Text)
    → check_tasks demands slot window tasks ≡ ok tt
    → Mem task tasks
    → (d : ℕ × ℕ) × Mem (task, d) demands × (capacity window slot d.0 d.1 ≡ ok tt)
unfolding check_tasks
check_tasks-fits demands slot window [] task h m = absurd m
check_tasks-fits demands slot window (t ∷ tasks) task h m = elim (Option-cases (lookup t demands)) [
  | inl e ↦ absurd (none_left (rw (check_tasks, e) at h))
  | inr (d, e) ↦
      let (f, g) = >>-ok _ (check_tasks demands slot window tasks) (rw (check_tasks, e) at h) in
      elim m [
        | inl u ↦ rw u (d, lookup-Mem t demands e, f)
        | inr n ↦ check_tasks-fits demands slot window tasks task g n
      ]
]
  where
    none_left : ◌≡◌ {A = Result PlanError (Unit {0})} (err (index_panic t)) (ok tt) → ⊥
    none_left e = cc

check_slots-tasks :
    (demands : Demands) (tasks : List Text) (slots : List (ℕ × PortWindow)) (slot : ℕ)
    {window : PortWindow}
    → check_slots demands tasks slots ≡ ok tt
    → window_at slot slots ≡ some window
    → check_tasks demands slot window tasks ≡ ok tt
unfolding check_slots window_at
check_slots-tasks demands tasks [] slot h w = cc
check_slots-tasks demands tasks ((s, v) ∷ slots) slot {window} h w =
    let (f, g) = >>-ok (check_tasks demands s v tasks) (check_slots demands tasks slots) h in
    elim (Bool-cases (s == slot)) [
      | inl t ↦
          let here : some v ≡ some window = rw (window_at, t) at w in
          let same : v ≡ window = cc in rw (sym ((==_iff s slot).0 t), sym same) f
      | inr n ↦ check_slots-tasks demands tasks slots slot g (rw (window_at, n) at w)
    ]

-- What the admission of a program computed for a task: its leaves, their services and their count.
admitted_demand :
    (program : Program) (bases : Bases) (edges : Edges) (required : List (Text × List Text))
    (demands : Demands) (task : Text) (d : ℕ × ℕ)
    → try_map (task_base program) program.tasks ≡ ok bases
    → try_map (task_union edges) bases ≡ ok required
    → try_map (task_demand program) required ≡ ok demands
    → Mem (task, d) demands
    → (nodes : List PlanNode) × (services : List Text) × (flatten program task ≡ ok nodes)
      × (close_union (direct_requirements nodes) edges ≡ ok services)
      × (d.0 ≡ weights program services)
unfolding task_union task_demand
admitted_demand program bases edges required demands task d h1 h2 h3 m =
    let (services, e1, m1) = mem-try_map (task_demand program) required task d h3 m in
    let (base, e2, m2) = mem-try_map (task_union edges) bases task services h2 m1 in
    let (nodes, e3, same) = task_base-AreBases program h1 task base m2 in
    let (n, e4, last) = >>=-ok (endpoint_count program services) _ e1 in
    let pair : ◌≡◌ {A = ℕ × ℕ} (n, length services) d = cc in
    let counted : n ≡ d.0 = ap (λ t. t.0) pair in
    (
      nodes,
      services,
      e3,
      rw (sym same) at e2,
      sym counted ∙ endpoint_count-weights program services e4,
    )

capacity-demand :
    (window : PortWindow) (slot a b c d : ℕ)
    → capacity window slot a b ≡ ok tt
    → a ≡ c
    → capacity window slot c d ≡ ok tt
unfolding capacity
capacity-demand window slot a b c d h e = ground arith

close_union_unique :
    (n m : List PlanNode) (e f : Edges) {r s : List Text}
    → n ≡ m
    → e ≡ f
    → close_union (direct_requirements n) e ≡ ok r
    → close_union (direct_requirements m) f ≡ ok s
    → r ≡ s
close_union_unique n m e f a b h k = cc

-- In an admitted program the planner never refuses a slot for its capacity: for every task, the
-- window of every slot passes the capacity check of the task's logical plan.
pub prove_capacity-fits :
    (program : Program) (facts : GraphFacts) (task : Text) (slot : ℕ) (window : PortWindow)
    (plan : LogicalPlan)
    → prove_graph program ≡ ok facts
    → prove_capacity program facts ≡ ok tt
    → Mem task (task_ids program)
    → window_at slot program.slot_windows ≡ some window
    → logical_plan program task ≡ ok plan
    → capacity window slot (demand plan.services) (length plan.services) ≡ ok tt
unfolding prove_graph prove_capacity
prove_capacity-fits program facts task slot window plan g c m w h =
    let (bases, e1, g1) = >>=-ok (try_map (task_base program) program.tasks) _ g in
    let (edges, e2, g2) = >>=-ok (service_edges program bases) _ g1 in
    let (proved, g3) = >>-ok (prove_service_cycles edges) _ g2 in
    let (required, e3, last) = >>=-ok (try_map (task_union edges) bases) _ g3 in
    let (demands, e4, c1) = >>=-ok (try_map (task_demand program) facts.required) _ c in
    let (d, n, fits) =
      check_tasks-fits demands slot window (task_ids program) task
        (check_slots-tasks demands (task_ids program) program.slot_windows slot c1 w) m in
    let same : ◌≡◌ {A = GraphFacts} (record { required = required }) facts = cc in
    let e5 : try_map (task_demand program) required ≡ ok demands =
      rw (ap (λ (f : GraphFacts). f.required) (sym same)) at e4 in
    let (nodes, services, flat, united, counted) =
      admitted_demand program bases edges required demands task d e1 e3 e5 n in
    let (leaves, o) = logical_plan-StartsInOrder program task plan h in
    let sound =
      prepare_bases-AreBases program program.services [] (λ t b k. absurd k) o.from_bases in
    let one_graph : edges ≡ o.edges =
      service_edges_unique program bases o.bases (task_base-AreBases program e1) sound e2
        o.from_services in
    let one_task : nodes ≡ plan.nodes = cc in
    let one_union : services ≡ o.required =
      close_union_unique nodes plan.nodes edges o.edges one_task one_graph united o.united in
    let asked : demand plan.services ≡ weights program o.order =
      Visits-demand program o.edges o.order plan.services o.started in
    let total : d.0 ≡ demand plan.services =
      counted
      ∙ ap (weights program) one_union
      ∙ sym (weights-Perm program o.each_once)
      ∙ sym asked in
    capacity-demand window slot d.0 d.1 (demand plan.services) (length plan.services) fits total
