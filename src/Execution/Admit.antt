-- ===== src/Execution/Admit.antt =====
-- What plan.rs proves of a program at admission: the service graph has no cycle, and every slot's
-- window can host what every task needs.
use nixfied.Prelude.{
  ℕ, zero, suc, ◌+◌, true, false, Option, none, some, List, [], ◌∷◌, ◌++◌, Text, codes, map, Result,
  ok, err, ◌>>=◌, ◌>>◌, length, lookup, contains, text_eq, set_insert,
}
use nixfied.Execution.Types.{ExecutableTask, Program, PortWindow, endpoint_ids, task_ids}
use nixfied.Execution.Flatten.{PlanError, graph_cycle, index_panic, out_of_fuel, flatten}
use nixfied.Execution.Graph.{
  EdgeKind, connects_to, prepare_requires, Edges, direct_requirements, service_edges, close_union,
}
use nixfied.Execution.Plan.{capacity}

abbrev pub Trail : Type 0
Trail = List (Text × EdgeKind)

-- The loop over a service's targets: the cycle that it finds, and the services seen so far.
unfoldable pub visit_targets :
    (Text → Trail → List Text → Result PlanError (Option Trail × List Text))
    → Text
    → Trail
    → Trail
    → List Text
    → Result PlanError (Option Trail × List Text)
visit_targets call start [] trail seen = ok (none, seen)
visit_targets call start ((target, kind) ∷ rest) trail seen = elim (text_eq target start) [
  | true ↦ ok (some (trail ++ (target, kind) ∷ []), seen)
  | false ↦ elim (contains seen target) [
    | true ↦ visit_targets call start rest trail seen
    | false ↦ do
      found ← call target (trail ++ (target, kind) ∷ []) (set_insert target seen)
      elim found.0 [
        | some cycle ↦ ok (some cycle, found.1)
        | none ↦ visit_targets call start rest trail found.1
      ]
  ]
]

-- `visit`; its depth is bounded by the services, each of which is entered once.
unfoldable pub visit :
    ℕ → Edges → Text → Text → Trail → List Text → Result PlanError (Option Trail × List Text)
unfolding visit_targets
visit zero edges start current trail seen = err out_of_fuel
visit (suc fuel) edges start current trail seen = elim (lookup current edges) [
  | none ↦ err (index_panic current)
  | some targets ↦ visit_targets (visit fuel edges start) start targets trail seen
]

unfoldable pub kind_name : EdgeKind → Text
kind_name connects_to = codes "connectsTo"
kind_name prepare_requires = codes "prepare requires"

unfoldable pub render_edge : Text × EdgeKind → Text
unfolding kind_name
render_edge edge = codes " -[" ++ (kind_name edge.1 ++ (codes "]-> " ++ edge.0))

unfoldable pub cycles_from : Edges → List Text → Result PlanError (Unit {0})
unfolding visit render_edge
cycles_from edges [] = ok tt
cycles_from edges (start ∷ rest) = do
  found ← visit (suc (suc (length edges))) edges start start [] []
  elim found.0 [
    | some cycle ↦ err (graph_cycle start (map render_edge cycle))
    | none ↦ cycles_from edges rest
  ]

unfoldable pub prove_service_cycles : Edges → Result PlanError (Unit {0})
unfolding cycles_from
prove_service_cycles edges = cycles_from edges (map (λ e. e.0) edges)

pub record GraphFacts : Type 0 where
  pub required : List (Text × List Text)

-- `map` and `collect` over the entries of a map; the first error ends it.
unfoldable pub try_map :
    {A B : Type 0}
    → (Text → A → Result PlanError B)
    → List (Text × A)
    → Result PlanError (List (Text × B))
try_map f [] = ok []
try_map f ((key, a) ∷ rest) = do b ← f key a; more ← try_map f rest; ok ((key, b) ∷ more)

unfoldable pub task_base : Program → Text → ExecutableTask → Result PlanError (List Text)
task_base program task body = do nodes ← flatten program task; ok (direct_requirements nodes)

unfoldable pub task_union : Edges → Text → List Text → Result PlanError (List Text)
task_union edges task base = close_union base edges

unfoldable pub prove_graph : Program → Result PlanError GraphFacts
unfolding try_map task_base prove_service_cycles task_union
prove_graph program = do
  bases ← try_map (task_base program) program.tasks
  edges ← service_edges program bases
  prove_service_cycles edges
  required ← try_map (task_union edges) bases
  ok (record { required = required })

-- The endpoints of the services, which are `program.services[id]`.
unfoldable pub endpoint_count : Program → List Text → Result PlanError ℕ
endpoint_count program [] = ok 0
endpoint_count program (id ∷ ids) = elim (lookup id program.services) [
  | none ↦ err (index_panic id)
  | some service ↦ do more ← endpoint_count program ids; ok (length (endpoint_ids service) + more)
]

abbrev pub Demands : Type 0
Demands = List (Text × (ℕ × ℕ))

unfoldable pub task_demand : Program → Text → List Text → Result PlanError (ℕ × ℕ)
unfolding endpoint_count
task_demand program task services = do
  endpoints ← endpoint_count program services
  ok (endpoints, length services)

-- The inner loop, over the tasks.
unfoldable pub check_tasks : Demands → ℕ → PortWindow → List Text → Result PlanError (Unit {0})
unfolding capacity
check_tasks demands slot window [] = ok tt
check_tasks demands slot window (task ∷ tasks) = elim (lookup task demands) [
  | none ↦ err (index_panic task)
  | some d ↦ capacity window slot d.0 d.1 >> check_tasks demands slot window tasks
]

unfoldable pub check_slots :
    Demands → List Text → List (ℕ × PortWindow) → Result PlanError (Unit {0})
unfolding check_tasks
check_slots demands tasks [] = ok tt
check_slots demands tasks ((slot, window) ∷ rest) =
    check_tasks demands slot window tasks >> check_slots demands tasks rest

unfoldable pub prove_capacity : Program → GraphFacts → Result PlanError (Unit {0})
unfolding try_map task_demand check_slots
prove_capacity program facts = do
  demands ← try_map (task_demand program) facts.required
  check_slots demands (task_ids program) program.slot_windows
