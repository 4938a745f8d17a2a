-- ===== src/Execution/Capacity.antt =====
-- The capacity proof of plan.rs is total on a program whose names are declared.
use nixfied.Prelude.{
  ℕ, ◌≡◌, refl, sym, ap, inl, inr, Bool, not, List, [], ◌∷◌, Text, map, ok, >>=-ok, >>-ok, Errs,
  Errs-ok, Errs-bind, Errs-then, Errs-ensure, lookup, lookup-Mem, Mem-keys, Mem, IsKey, Mem-IsKey,
  mem-append, ltb, Option-cases, Bool-cases,
}
use nixfied.Execution.Types.{
  ExecutableTask, Program, PortWindow, window_capacity, is_leaf, ids_where, task_ids,
}
use nixfied.Execution.Flatten.{over_capacity}
use nixfied.Execution.Graph.{Edges, Bases, edges_of, service_edges}
use nixfied.Execution.Plan.{capacity, edge_targets}
use nixfied.Execution.Closure.{Reaches, start, along}
use nixfied.Execution.Worklist.{IsGraph}
use nixfied.Execution.Closure.{close_union-IsClosure}
use nixfied.Execution.Bases.{mem-try_map}
use nixfied.Execution.Admit.{
  Demands, GraphFacts, try_map, task_base, task_union, endpoint_count, task_demand, check_tasks,
  check_slots, prove_service_cycles, prove_graph, prove_capacity,
}
use nixfied.Execution.Closed.{IsPlanRefusal, IsClosed}
use nixfied.Execution.Admission.{
  try_map-Errs, try_map-IsKey, edges_of-IsKey, edges_of-services, base_services,
  service_edges-IsGraph,
}

-- What a base of services leads to in a graph are services.
pub Reaches-IsKey :
    (edges : Edges) (base : List Text) {id : Text}
    → IsGraph edges
    → ((i : Text) → Mem i base → IsKey edges i)
    → Reaches edges base id
    → IsKey edges id
unfolding edge_targets
Reaches-IsKey edges base {id} g k (start m) = k id m
Reaches-IsKey edges base {id = target} g k (along {id} r m) =
    elim (Option-cases (lookup id edges)) [
      | inl e ↦ absurd (rw (edge_targets, e) at m)
      | inr (targets, e) ↦ g id targets e target (rw (edge_targets, e) at m)
    ]

endpoint_count-Errs :
    (program : Program) (ids : List Text)
    → ((id : Text) → Mem id ids → IsKey program.services id)
    → Errs IsPlanRefusal (endpoint_count program ids)
unfolding endpoint_count
endpoint_count-Errs program [] k = Errs-ok IsPlanRefusal 0
endpoint_count-Errs program (id ∷ ids) k =
    let (service, e) = k id (inl refl) in
    rw (endpoint_count, e)
      (Errs-bind IsPlanRefusal (endpoint_count program ids) _
        (endpoint_count-Errs program ids (λ i m. k i (inr m))) (λ more h. Errs-ok IsPlanRefusal _))

check_tasks-Errs :
    (demands : Demands) (slot : ℕ) (window : PortWindow) (tasks : List Text)
    → ((task : Text) → Mem task tasks → IsKey demands task)
    → Errs IsPlanRefusal (check_tasks demands slot window tasks)
unfolding check_tasks capacity
check_tasks-Errs demands slot window [] k = Errs-ok IsPlanRefusal tt
check_tasks-Errs demands slot window (task ∷ tasks) k =
    let (d, e) = k task (inl refl) in
    rw (check_tasks, e)
      (Errs-then IsPlanRefusal (capacity window slot d.0 d.1) _
        (Errs-ensure IsPlanRefusal (over_capacity slot d.0 d.1)
          (not (ltb (window_capacity window) d.0)) (λ h. tt))
        (λ h. check_tasks-Errs demands slot window tasks (λ t m. k t (inr m))))

check_slots-Errs :
    (demands : Demands) (tasks : List Text) (slots : List (ℕ × PortWindow))
    → ((task : Text) → Mem task tasks → IsKey demands task)
    → Errs IsPlanRefusal (check_slots demands tasks slots)
unfolding check_slots
check_slots-Errs demands tasks [] k = Errs-ok IsPlanRefusal tt
check_slots-Errs demands tasks ((slot, window) ∷ slots) k =
    Errs-then IsPlanRefusal (check_tasks demands slot window tasks) _
      (check_tasks-Errs demands slot window tasks k) (λ h. check_slots-Errs demands tasks slots k)

ids_where-Mem :
    (test : ExecutableTask → Bool) (tasks : List (Text × ExecutableTask)) (id : Text)
    → Mem id (ids_where test tasks)
    → Mem id (map (λ e. e.0) tasks)
unfolding ids_where
ids_where-Mem test [] id m = absurd m
ids_where-Mem test ((i, t) ∷ tasks) id m = elim (Bool-cases (test t)) [
  | inl e ↦ elim (rw (ids_where, e) at m) [
    | inl f ↦ inl f
    | inr n ↦ inr (ids_where-Mem test tasks id n)
  ]
  | inr e ↦ inr (ids_where-Mem test tasks id (rw (ids_where, e) at m))
]

pub task_ids-IsKey :
    (program : Program) (id : Text) → Mem id (task_ids program) → IsKey program.tasks id
unfolding task_ids
task_ids-IsKey program id m =
    Mem-IsKey id program.tasks (elim (mem-append id (ids_where is_leaf program.tasks) _ m) [
      | inl a ↦ ids_where-Mem is_leaf program.tasks id a
      | inr b ↦ ids_where-Mem (λ t. not (is_leaf t)) program.tasks id b
    ])

-- In a program whose names are declared and whose graph is proved, the capacity check fails only for
-- a window that is too small: no indexing fails.
pub prove_capacity-Errs :
    (program : Program) (facts : GraphFacts)
    → IsClosed program
    → prove_graph program ≡ ok facts
    → Errs IsPlanRefusal (prove_capacity program facts)
unfolding prove_graph prove_capacity service_edges task_union task_demand
prove_capacity-Errs program facts c g =
    let (bases, e1, g1) = >>=-ok (try_map (task_base program) program.tasks) _ g in
    let (edges, e2, g2) = >>=-ok (edges_of bases program.services) _ g1 in
    let (proved, g3) = >>-ok (prove_service_cycles edges) _ g2 in
    let (required, e3, last) = >>=-ok (try_map (task_union edges) bases) _ g3 in
    let whole : ◌≡◌ {A = GraphFacts} (record { required = required }) facts = cc in
    let same : required ≡ facts.required = ap (λ (f : GraphFacts). f.required) whole in
    Errs-bind IsPlanRefusal (try_map (task_demand program) facts.required) _
      (try_map-Errs (task_demand program) facts.required (λ task services m.
        Errs-bind IsPlanRefusal (endpoint_count program services) _
          (endpoint_count-Errs program services
            (union_services bases edges required e1 e2 e3 task services (rw (sym same) at m)))
          (λ n h. Errs-ok IsPlanRefusal _)))
      (λ demands h. check_slots-Errs demands (task_ids program) program.slot_windows (λ task m.
        let key : IsKey required task = try_map-IsKey (task_union edges) bases task e3 (
          try_map-IsKey (task_base program) program.tasks task e1
            (task_ids-IsKey program task m)) in
        try_map-IsKey (task_demand program) facts.required task h (rw same at key)))
  where
    union_services :
        (bases : Bases) (edges : Edges) (required : List (Text × List Text))
        → try_map (task_base program) program.tasks ≡ ok bases
        → edges_of bases program.services ≡ ok edges
        → try_map (task_union edges) bases ≡ ok required
        → (task : Text) (services : List Text) → Mem (task, services) required
        → (id : Text) → Mem id services
        → IsKey program.services id
    union_services bases edges required e1 e2 e3 task services m id k =
        let (base, e, n) = mem-try_map (task_union edges) bases task services e3 m in
        let closure = close_union-IsClosure base edges services e in
        let (targets, l) =
          Reaches-IsKey edges base (service_edges-IsGraph program c e1 e2)
            (λ i j.
              edges_of-IsKey bases program.services i e2
                (base_services program c task base e1 n i j))
            (closure.least id k) in
        let (s, prepared, found, f, shape) =
          edges_of-services bases program.services id targets e2 (lookup-Mem id edges l) in
        Mem-IsKey id program.services (Mem-keys id s program.services found)
