-- ===== src/Execution/Startup.antt =====
-- The order in which a plan starts its services and runs its nodes.
use mathlib.Core.List.{Perm}
use nixfied.Prelude.{◌≡◌, sym, List, [], Text, ok, >>=-ok, length}
use nixfied.Execution.Types.{Program}
use nixfied.Execution.Schedule.{schedule}
use nixfied.Execution.Order.{IsOrdered, Visits, schedule-Schedules}
use nixfied.Execution.Flatten.{
  out_of_fuel, PlanNode, FlatNode, emit_all, plan_node, flat_key, flat_dependencies, steps_stuck,
  flatten,
}
use nixfied.Execution.Graph.{Edges, Bases, direct_requirements, service_edges, close_union}
use nixfied.Execution.Closure.{IsClosure, close_union-IsClosure}
use nixfied.Execution.Plan.{
  LogicalPlan, prepare_bases, edge_targets, service_key, services_stuck, visit_service,
  logical_plan,
}

-- The nodes of a flattened task are its emitted leaves, each once and each after every leaf that
-- its step has to wait for.
pub flatten-IsOrdered :
    (program : Program) (root : Text) (nodes : List PlanNode)
    → flatten program root ≡ ok nodes
    → (flat order : List FlatNode) × (emit_all program root ≡ ok flat)
      × Perm order flat
      × IsOrdered flat_key flat_dependencies plan_node (steps_stuck root) out_of_fuel [] order
      × Visits flat_key flat_dependencies plan_node (steps_stuck root) out_of_fuel order nodes
unfolding flatten
flatten-IsOrdered program root nodes h =
    let (flat, e, run) = >>=-ok (emit_all program root) _ h in
    let (order, bs, perm, ordered, visits, same) =
      schedule-Schedules flat_key flat_dependencies plan_node (steps_stuck root) out_of_fuel
        (length flat) [] [] flat [] (λ z m. m) run in
    (flat, order, e, perm, ordered, rw same visits)

-- The services of a plan: each is started after all services that it connects to or that its
-- prepare task requires.
pub record StartsInOrder (program : Program) (task : Text) (plan : LogicalPlan) : Type 0 where
  pub edges : Edges
  pub required : List Text
  pub order : List Text
  pub bases : Bases
  pub from_bases : prepare_bases program program.services [] ≡ ok bases
  pub from_services : service_edges program bases ≡ ok edges
  pub united : close_union (direct_requirements plan.nodes) edges ≡ ok required
  pub closure : IsClosure edges (direct_requirements plan.nodes) required
  pub each_once : Perm order required
  pub ordered :
      IsOrdered service_key
        (edge_targets edges)
        (visit_service program)
        services_stuck
        out_of_fuel
        []
        order
  pub started :
      Visits service_key
        (edge_targets edges)
        (visit_service program)
        services_stuck
        out_of_fuel
        order
        plan.services

-- A logical plan starts exactly the services of the least union that holds what its nodes require
-- and is closed under the service graph, each once, and each after all that it depends on.
pub logical_plan-StartsInOrder :
    (program : Program) (task : Text) (plan : LogicalPlan)
    → logical_plan program task ≡ ok plan
    → (flatten program task ≡ ok plan.nodes) × StartsInOrder program task plan
unfolding logical_plan
logical_plan-StartsInOrder program task plan h =
    let (nodes, e1, h1) = >>=-ok (flatten program task) _ h in
    let (bases, e2, h2) = >>=-ok (prepare_bases program program.services []) _ h1 in
    let (edges, e3, h3) = >>=-ok (service_edges program bases) _ h2 in
    let (required, e4, h4) = >>=-ok (close_union (direct_requirements nodes) edges) _ h3 in
    let (services, e5, h5) =
      >>=-ok
        (schedule service_key (edge_targets edges) (visit_service program) services_stuck
          out_of_fuel (length required) [] required [])
        _ h4 in
    let (order, bs, perm, ordered, visits, same) =
      schedule-Schedules service_key (edge_targets edges) (visit_service program) services_stuck
        out_of_fuel (length required) [] [] required [] (λ z m. m) e5 in
    let whole : ◌≡◌ {A = LogicalPlan}
        (record { services = services; nodes = nodes; slot_windows = program.slot_windows }) plan =
      cc in
    rw (sym whole) (
      e1,
      record {
        edges = edges;
        required = required;
        order = order;
        bases = bases;
        from_bases = e2;
        from_services = e3;
        united = e4;
        closure = close_union-IsClosure (direct_requirements nodes) edges required e4;
        each_once = perm;
        ordered = ordered;
        started = rw same visits;
      },
    )
