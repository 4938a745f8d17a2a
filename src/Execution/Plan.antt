-- ===== src/Execution/Plan.antt =====
-- The run plan of plan.rs: the services that a task needs, dependency first, with their ports.
use nixfied.Prelude.{
  ℕ, ◌+◌, Option, none, some, List, [], ◌∷◌, Text, map, Result, ok, err, ◌>>=◌, ◌>>◌, length,
  lookup, text_eq, map_insert, if◌then◌else◌, ltb, ◌==◌, ensure, not,
}
use nixfied.Execution.Types.{ExecService, Program, PortWindow, window_capacity, endpoint_ids}
use nixfied.Execution.Schedule.{schedule}
use nixfied.Execution.Flatten.{
  out_of_fuel, PlanError, service_cycle, no_window, over_capacity, index_panic, PlanNode, flatten,
}
use nixfied.Execution.Graph.{Edges, Bases, direct_requirements, service_edges, close_union}

abbrev pub Ports : Type 0
Ports = List (Text × ℕ)

pub record ServiceBinding : Type 0 where
  pub service : ExecService
  pub prepare_nodes : List PlanNode
  pub endpoint_ports : Ports

pub record RunPlan : Type 0 where
  pub services : List ServiceBinding
  pub nodes : List PlanNode

pub record LogicalPlan : Type 0 where
  pub services : List (ExecService × List PlanNode)
  pub nodes : List PlanNode
  pub slot_windows : List (ℕ × PortWindow)

-- `capacity`: the window must host the endpoints.
unfoldable pub capacity : PortWindow → ℕ → ℕ → ℕ → Result PlanError (Unit {0})
capacity window slot endpoints services =
    ensure (over_capacity slot endpoints services) (not (ltb (window_capacity window) endpoints))

-- The requirements of every service's prepare task, each task flattened once.
unfoldable pub prepare_bases : Program → List (Text × ExecService) → Bases → Result PlanError Bases
prepare_bases program [] bases = ok bases
prepare_bases program ((id, service) ∷ rest) bases = elim service.prepare [
  | none ↦ prepare_bases program rest bases
  | some prepare ↦ elim (lookup prepare bases) [
    | some base ↦ prepare_bases program rest bases
    | none ↦ do
      nodes ← flatten program prepare
      prepare_bases program rest (map_insert prepare (direct_requirements nodes) bases)
  ]
]

-- The targets of an id; the key of an id is itself.
unfoldable pub edge_targets : Edges → Text → List Text
edge_targets edges id = elim (lookup id edges) [ none ↦ [] | some targets ↦ map (λ t. t.0) targets ]

unfoldable pub service_key : Text → Text
service_key id = id

unfoldable pub services_stuck : List Text → PlanError
services_stuck remaining = service_cycle

unfoldable pub prepare_nodes_of : Program → Option Text → Result PlanError (List PlanNode)
prepare_nodes_of program none = ok []
prepare_nodes_of program (some prepare) = flatten program prepare

-- A service that becomes ready, with the nodes of its prepare task.
unfoldable pub visit_service : Program → Text → Result PlanError (ExecService × List PlanNode)
unfolding prepare_nodes_of
visit_service program id = elim (lookup id program.services) [
  | none ↦ err (index_panic id)
  | some service ↦ do nodes ← prepare_nodes_of program service.prepare; ok (service, nodes)
]

unfoldable pub logical_plan : Program → Text → Result PlanError LogicalPlan
unfolding prepare_bases visit_service services_stuck service_key edge_targets schedule
logical_plan program task = do
  nodes ← flatten program task
  bases ← prepare_bases program program.services []
  edges ← service_edges program bases
  required ← close_union (direct_requirements nodes) edges
  services ←
      schedule service_key (edge_targets edges) (visit_service program) services_stuck out_of_fuel
        (length required) [] required []
  ok (record { services = services; nodes = nodes; slot_windows = program.slot_windows })

-- `slot_windows.get(&slot)`
unfoldable pub window_at : ℕ → List (ℕ × PortWindow) → Option PortWindow
window_at slot [] = none
window_at slot ((s, w) ∷ rest) = if s == slot then some w else window_at slot rest

unfoldable pub demand : List (ExecService × List PlanNode) → ℕ
demand [] = 0
demand ((service, nodes) ∷ rest) = length (endpoint_ids service) + demand rest

-- The services under their names, in the order of the names.
unfoldable pub canonical_from :
    List (ExecService × List PlanNode) → List (Text × ExecService) → List (Text × ExecService)
canonical_from [] m = m
canonical_from ((service, nodes) ∷ rest) m = canonical_from rest (map_insert service.name service m)

-- `u16::saturating_add(1)`
unfoldable pub saturating_suc : ℕ → ℕ
saturating_suc c = if ltb c 65535 then c + 1 else c

unfoldable pub endpoint_ports_from : ℕ → List Text → Ports × ℕ
unfolding saturating_suc
endpoint_ports_from cursor [] = ([], cursor)
endpoint_ports_from cursor (endpoint ∷ rest) =
    let (ports, next) = endpoint_ports_from (saturating_suc cursor) rest in
    ((endpoint, cursor) ∷ ports, next)

unfoldable pub allocate : ℕ → List (Text × ExecService) → List (Text × Ports)
unfolding endpoint_ports_from
allocate cursor [] = []
allocate cursor ((id, service) ∷ rest) =
    let (ports, next) = endpoint_ports_from cursor (endpoint_ids service) in
    (id, ports) ∷ allocate next rest

-- `addresses.remove`, which takes the entry of a name away.
unfoldable pub remove_key : Text → List (Text × Ports) → List (Text × Ports)
remove_key k [] = []
remove_key k ((j, ports) ∷ rest) = if text_eq j k then rest else (j, ports) ∷ remove_key k rest

unfoldable pub bind_services :
    List (ExecService × List PlanNode)
    → List (Text × Ports)
    → Result PlanError (List ServiceBinding)
unfolding remove_key
bind_services [] addresses = ok []
bind_services ((service, nodes) ∷ rest) addresses = elim (lookup service.name addresses) [
  | none ↦ err (index_panic service.name)
  | some ports ↦ do
    bindings ← bind_services rest (remove_key service.name addresses)
    ok (record { service = service; prepare_nodes = nodes; endpoint_ports = ports } ∷ bindings)
]

unfoldable pub bind_window : LogicalPlan → ℕ → PortWindow → Result PlanError RunPlan
unfolding capacity demand canonical_from allocate bind_services
bind_window logical slot window = do
  capacity window slot (demand logical.services) (length logical.services)
  services ←
      bind_services logical.services (allocate window.start (canonical_from logical.services []))
  ok (record { services = services; nodes = logical.nodes })

unfoldable pub bind_slot : LogicalPlan → ℕ → Result PlanError RunPlan
unfolding window_at bind_window
bind_slot logical slot = elim (window_at slot logical.slot_windows) [
  | none ↦ err (no_window slot)
  | some window ↦ bind_window logical slot window
]

-- `plan_program`
unfoldable pub plan_program : Program → Text → ℕ → Result PlanError RunPlan
unfolding logical_plan bind_slot
plan_program program task slot = do logical ← logical_plan program task; bind_slot logical slot
