-- ===== src/Execution/Graph.antt =====
-- The service graph of plan.rs: its edges, the union that a task needs, and the cycle search.
use nixfied.Prelude.{
  ℕ, zero, suc, ◌+◌, Option, none, some, List, [], ◌∷◌, ◌++◌, Text, map, Result, ok, err, ◌>>=◌,
  length, lookup, contains, set_insert, set_extend, if◌then◌else◌,
}
use nixfied.Execution.Types.{ExecService, Program}
use nixfied.Execution.Flatten.{PlanError, index_panic, out_of_fuel, PlanNode}

pub data EdgeKind : Type 0 where
  connects_to prepare_requires : EdgeKind

abbrev pub Edges : Type 0
Edges = List (Text × List (Text × EdgeKind))

abbrev pub Bases : Type 0
Bases = List (Text × List Text)

unfoldable pub requirements_from : List PlanNode → List Text → List Text
requirements_from [] set = set
requirements_from (node ∷ nodes) set = requirements_from nodes (set_extend set node.task.requires)

unfoldable pub direct_requirements : List PlanNode → List Text
unfolding requirements_from
direct_requirements nodes = requirements_from nodes []

unfoldable pub prepare_edges : Bases → Option Text → Result PlanError (List (Text × EdgeKind))
prepare_edges bases none = ok []
prepare_edges bases (some prepare) = elim (lookup prepare bases) [
  | none ↦ err (index_panic prepare)
  | some base ↦ ok (map (λ id. (id, prepare_requires)) base)
]

unfoldable pub edges_of : Bases → List (Text × ExecService) → Result PlanError Edges
unfolding prepare_edges
edges_of bases [] = ok []
edges_of bases ((id, service) ∷ rest) = do
  prepared ← prepare_edges bases service.prepare
  edges ← edges_of bases rest
  ok ((id, map (λ target. (target, connects_to)) service.connects_to ++ prepared) ∷ edges)

unfoldable pub service_edges : Program → Bases → Result PlanError Edges
unfolding edges_of
service_edges program bases = edges_of bases program.services

-- The targets that the union lacks are inserted and become pending.
unfoldable pub insert_targets :
    List (Text × EdgeKind) → List Text → List Text → List Text × List Text
insert_targets [] union pending = (union, pending)
insert_targets ((target, kind) ∷ rest) union pending =
    if contains union target
    then insert_targets rest union pending
    else insert_targets rest (set_insert target union) (target ∷ pending)

-- The worklist of `close_union`. The pending ids are a stack, its top first.
unfoldable pub close_loop : ℕ → Edges → List Text → List Text → Result PlanError (List Text)
unfolding insert_targets
close_loop fuel edges union [] = ok union
close_loop zero edges union (id ∷ pending) = err out_of_fuel
close_loop (suc fuel) edges union (id ∷ pending) = elim (lookup id edges) [
  | none ↦ err (index_panic id)
  | some targets ↦
      let next = insert_targets targets union pending in close_loop fuel edges next.0 next.1
]

unfoldable pub reverse_onto : List Text → List Text → List Text
reverse_onto [] ys = ys
reverse_onto (x ∷ xs) ys = reverse_onto xs (x ∷ ys)

-- Each round takes one pending id, and only a key of the graph becomes pending again.
unfoldable pub close_union : List Text → Edges → Result PlanError (List Text)
unfolding close_loop reverse_onto
close_union base edges = close_loop (length edges + length base) edges base (reverse_onto base [])
