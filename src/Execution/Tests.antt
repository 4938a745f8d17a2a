-- ===== src/Execution/Tests.antt =====
-- A program with two services and a composite task: its plan, and the witnesses.
use nixfied.Prelude.{
  ◌≢◌, ◌⊎◌, IsKey, length, err, ℕ, pos, ◌≡◌, ◌≤◌, refl, Option, none, some, List, [], ◌∷◌, Text,
  codes, map, Mem, lookup, text_eq, contains, set_insert, set_extend, map_insert, ok, arith, all,
  any, text_lt, inl, inr, Bool-cases,
}
use mathlib.Core.List.{Perm}
use nixfied.Manifest.Types.{null, term, process_group}
use nixfied.Template.Parse.{text}
use nixfied.Execution.Types.{
  OpMeta, ResolvedInvocation, ProbePolicy, endpoints, ExecService, ExecTask, ExecComposite,
  leaf_task, composite_task, Program, task_ids, window_capacity, endpoint_ids,
}
use nixfied.Execution.Schedule.{take_first}
use nixfied.Execution.Flatten.{
  out_of_fuel, graph_cycle, PlanNode, FlatNode, emit_all, plan_node, flat_key, flat_dependencies,
  steps_stuck, flatten,
}
use nixfied.Execution.Graph.{
  Edges, EdgeKind, connects_to, prepare_requires, close_union, service_edges, direct_requirements,
}
use nixfied.Execution.Order.{IsOrdered, Visits}
use nixfied.Execution.Closure.{IsClosure}
use nixfied.Execution.Worklist.{close_union-total, IsGraph}
use nixfied.Execution.Plan.{
  RunPlan, ServiceBinding, LogicalPlan, logical_plan, window_at, bind_slot, capacity, demand,
}
use nixfied.Execution.Binding.{IsBound, bind_slot-ports}
use nixfied.Execution.Search.{Walk}
use nixfied.Execution.Cycles.{IsCyclic, prove_service_cycles-cases}
use nixfied.Execution.Admit.{
  Trail, render_edge, GraphFacts, prove_graph, prove_capacity, prove_service_cycles,
}
use nixfied.Execution.Admitted.{prove_capacity-fits}
use nixfied.Execution.Startup.{flatten-IsOrdered, StartsInOrder, logical_plan-StartsInOrder}

abbrev invocation : ResolvedInvocation
invocation = record {
  executable = codes "/bin/run";
  args = (text (codes "go") ∷ []) ∷ [];
  env = [];
  cwd = codes "/";
  stdin = null;
  tool_roots = [];
}

abbrev meta : OpMeta
meta = record {
  operation_id = codes "op";
  terminal_success = codes "yes";
  terminal_failure = codes "no";
}

abbrev policy : ProbePolicy
policy = record { label = codes "p"; timeout = 1000; retry_interval = 100; max_attempts = 3 }

-- A service of this name with one endpoint, which connects to the given services.
abbrev service : Text → Text → List Text → ExecService
service name endpoint targets = record {
  name = name;
  prepare = none;
  start = record { meta = meta; exec = invocation };
  ready = record { meta = meta; policy = policy };
  health = record { meta = meta; policy = policy };
  stop = record { meta = meta; signal = term; timeout = 1000 };
  clean = record { meta = meta };
  addressing = endpoints (record {
    primary = endpoint;
    entries =
        (endpoint, record { host = codes "127.0.0.1"; ready = invocation; health = invocation })
        ∷ [];
  });
  connects_to = targets;
  containment = process_group;
}

abbrev leaf : Text → List Text → ExecTask
leaf id requires = record {
  timeout = none;
  task_id = id;
  exec = invocation;
  requires = requires;
  success_codes = pos 0 ∷ [];
}

abbrev db : ExecService
db = service (codes "db") (codes "sql") []

abbrev api : ExecService
api = service (codes "api") (codes "http") (codes "db" ∷ [])

abbrev build : ExecTask
build = leaf (codes "build") []

abbrev check : ExecTask
check = leaf (codes "check") (codes "api" ∷ [])

-- The step `first` comes last in the declaration, and `then` waits for it.
abbrev ci : ExecComposite
ci = record {
  task_id = codes "ci";
  steps =
      record { name = codes "then"; task = codes "check"; depends_on = codes "first" ∷ [] }
      ∷ record { name = codes "first"; task = codes "build"; depends_on = [] }
      ∷ [];
}

abbrev program : Program
program = record {
  services = (codes "api", api) ∷ (codes "db", db) ∷ [];
  tasks =
      (codes "build", leaf_task build)
      ∷ (codes "check", leaf_task check)
      ∷ (codes "ci", composite_task ci)
      ∷ [];
  slot_windows = (0, record { start = 21000; end = 21003 }) ∷ [];
}

abbrev ci_nodes : List PlanNode
ci_nodes =
    record { node_id = codes "ci.first"; task = build }
    ∷ record { node_id = codes "ci.then"; task = check }
    ∷ []

flatten_ci : flatten program (codes "ci") ≡ ok ci_nodes
unfolding flatten text_eq contains set_insert set_extend lookup any take_first all
flatten_ci = refl

abbrev ci_plan : LogicalPlan
ci_plan = record {
  services = (db, []) ∷ (api, []) ∷ [];
  nodes = ci_nodes;
  slot_windows = program.slot_windows;
}

logical_plan_ci : logical_plan program (codes "ci") ≡ ok ci_plan
unfolding flatten logical_plan text_eq contains set_insert set_extend lookup any take_first all
    service_edges close_union direct_requirements text_lt
logical_plan_ci = refl

abbrev ci_run : RunPlan
ci_run = record {
  services =
      record { service = db; prepare_nodes = []; endpoint_ports = (codes "sql", 21001) ∷ [] }
      ∷ record { service = api; prepare_nodes = []; endpoint_ports = (codes "http", 21000) ∷ [] }
      ∷ [];
  nodes = ci_nodes;
}

bind_slot_ci : bind_slot ci_plan 0 ≡ ok ci_run
unfolding bind_slot text_eq map_insert lookup window_capacity endpoint_ids text_lt
bind_slot_ci = refl

ci_window : window_at 0 program.slot_windows ≡ some (record { start = 21000; end = 21003 })
unfolding window_at
ci_window = refl

bind_slot-ports_example :
    ((b : ServiceBinding) (e : Text) (p : ℕ) → IsBound ci_run b e p → (21000 ≤ p) × (p ≤ 21003))
    × ((b c : ServiceBinding) (e f : Text) (p : ℕ)
        → IsBound ci_run b e p
        → IsBound ci_run c f p
        → (b.service.name ≡ c.service.name) × (e ≡ f))
bind_slot-ports_example =
    bind_slot-ports ci_plan 0 (record { start = 21000; end = 21003 }) ci_run ci_window (omega arith)
      (omega arith) bind_slot_ci

abbrev edges : Edges
edges = (codes "api", (codes "db", connects_to) ∷ []) ∷ (codes "db", []) ∷ []

db-IsKey : IsKey edges (codes "db")
unfolding lookup text_eq
db-IsKey = ([], refl)

edges-IsGraph : IsGraph edges
unfolding lookup
edges-IsGraph id targets h t m = elim (Bool-cases (text_eq (codes "api") id)) [
  | inl e ↦ only_db targets (rw (lookup, e) at h) m
  | inr e ↦ elim (Bool-cases (text_eq (codes "db") id)) [
    | inl f ↦ no_target targets (rw (lookup, e, f) at h) m
    | inr f ↦ absurd (no_entry (rw (lookup, e, f) at h))
  ]
]
  where
    only_db :
        (ts : List (Text × EdgeKind))
        → some ((codes "db", connects_to) ∷ []) ≡ some ts
        → Mem t (map (λ e. e.0) ts)
        → IsKey edges t
    only_db ts k m =
        let same : ts ≡ (codes "db", connects_to) ∷ [] = cc in
        elim (rw same at m) [ inl e ↦ rw e db-IsKey | inr n ↦ absurd n ]

    no_target :
        (ts : List (Text × EdgeKind))
        → some [] ≡ some ts
        → Mem t (map (λ e. e.0) ts)
        → IsKey edges t
    no_target ts k m = let same : ts ≡ [] = cc in absurd (rw same at m)

    no_entry : ◌≡◌ {A = Option (List (Text × EdgeKind))} none (some targets) → ⊥
    no_entry k = cc

base-IsKey : (id : Text) → Mem id (codes "api" ∷ []) → IsKey edges id
unfolding lookup text_eq
base-IsKey id (inl e) = rw e ((codes "db", connects_to) ∷ [], refl)
base-IsKey id (inr m) = absurd m

close_union-total_example :
    (result : List Text) × (close_union (codes "api" ∷ []) edges ≡ ok result)
    × IsClosure edges (codes "api" ∷ []) result
close_union-total_example = close_union-total (codes "api" ∷ []) edges edges-IsGraph base-IsKey

flatten-IsOrdered_example :
    (flat order : List FlatNode) × (emit_all program (codes "ci") ≡ ok flat)
    × Perm order flat
    × IsOrdered flat_key flat_dependencies plan_node (steps_stuck (codes "ci")) out_of_fuel [] order
    × Visits flat_key flat_dependencies plan_node
        (steps_stuck (codes "ci"))
        out_of_fuel
        order
        ci_nodes
flatten-IsOrdered_example = flatten-IsOrdered program (codes "ci") ci_nodes flatten_ci

logical_plan-StartsInOrder_example :
    (flatten program (codes "ci") ≡ ok ci_nodes) × StartsInOrder program (codes "ci") ci_plan
logical_plan-StartsInOrder_example =
    logical_plan-StartsInOrder program (codes "ci") ci_plan logical_plan_ci

abbrev ci_facts : GraphFacts
ci_facts = record {
  required =
      (codes "build", [])
      ∷ (codes "check", codes "api" ∷ codes "db" ∷ [])
      ∷ (codes "ci", codes "api" ∷ codes "db" ∷ [])
      ∷ [];
}

prove_graph_ci : prove_graph program ≡ ok ci_facts
unfolding prove_graph flatten lookup text_eq take_first all contains any set_extend service_edges
    close_union direct_requirements text_lt
prove_graph_ci = refl

prove_capacity_ci : prove_capacity program ci_facts ≡ ok tt
unfolding prove_capacity lookup text_eq task_ids window_capacity endpoint_ids
prove_capacity_ci = refl

-- `api` and `db` with an edge back from `db` have a cycle.
abbrev back_edges : Edges
back_edges =
    (codes "api", (codes "db", connects_to) ∷ [])
    ∷ (codes "db", (codes "api", prepare_requires) ∷ [])
    ∷ []

service_cycle_found :
    prove_service_cycles back_edges
    ≡ err (
        graph_cycle
          (codes "api")
          (codes " -[connectsTo]-> db" ∷ codes " -[prepare requires]-> api" ∷ []))
unfolding prove_service_cycles lookup text_eq contains any
service_cycle_found = refl

ci-task : Mem (codes "ci") (task_ids program)
unfolding task_ids
ci-task = inr (inr (inl refl))

prove_capacity-fits_example :
    capacity
      (record { start = 21000; end = 21003 })
      0
      (demand ci_plan.services)
      (length ci_plan.services)
    ≡ ok tt
prove_capacity-fits_example =
    prove_capacity-fits program ci_facts (codes "ci") 0 (record { start = 21000; end = 21003 })
      ci_plan prove_graph_ci prove_capacity_ci ci-task ci_window logical_plan_ci

prove_service_cycles-cases_example :
    ((prove_service_cycles edges ≡ ok tt)
      × ((origin : Text) → Mem origin (codes "api" ∷ codes "db" ∷ []) → ¬ IsCyclic edges origin))
    ⊎ ((origin : Text) × (cycle : Trail) × (prove_service_cycles edges
          ≡ err (graph_cycle origin (map render_edge cycle)))
        × Mem origin (codes "api" ∷ codes "db" ∷ [])
        × (cycle ≢ [])
        × Walk edges origin cycle origin
        × IsCyclic edges origin)
prove_service_cycles-cases_example = prove_service_cycles-cases edges edges-IsGraph
