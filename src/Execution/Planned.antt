-- ===== src/Execution/Planned.antt =====
-- The planner on a program that admission passed: every task has a logical plan.
use nixfied.Prelude.{
  ◌≡◌, refl, sym, ap, ◌∙◌, inl, inr, Option, none, some, List, [], ◌∷◌, ◌++◌, Text, map, ok, >>=-ok,
  >>-ok, length, lookup, lookup-Mem, map_insert, map_insert-IsKey, IsKey-map_insert, IsKey,
  Mem-IsKey, Mem-keys, Mem, arith, Option-cases,
}
use nixfied.Execution.Types.{ExecService, Program}
use nixfied.Execution.Flatten.{PlanNode, flatten}
use nixfied.Execution.Graph.{
  EdgeKind, connects_to, prepare_requires, Edges, Bases, direct_requirements, prepare_edges,
  edges_of, service_edges, close_union,
}
use nixfied.Execution.Plan.{
  LogicalPlan, prepare_bases, prepare_nodes_of, visit_service, logical_plan,
}
use nixfied.Execution.Admit.{try_map, task_base, prove_service_cycles, GraphFacts, prove_graph}
use nixfied.Execution.Closed.{IsClosed}
use nixfied.Execution.Worklist.{close_union-total}
use nixfied.Execution.Bases.{task_base-AreBases, prepare_bases-AreBases, service_edges_unique}
use nixfied.Execution.Admission.{
  try_map-IsKey, edges_of-IsKey, edges_of-services, base_services, service_edges-IsGraph,
}
use nixfied.Execution.Capacity.{Reaches-IsKey}
use nixfied.Execution.Cycles.{prove_service_cycles-Barrier}
use nixfied.Execution.Scheduled.{schedule-total}

-- Every task that a service prepares with can be flattened.
abbrev Prepares : Program → List (Text × ExecService) → Type 0
Prepares program services =
    (id : Text) (s : ExecService) (task : Text)
    → Mem (id, s) services
    → s.prepare ≡ some task
    → (nodes : List PlanNode) × (flatten program task ≡ ok nodes)

-- The table has every task that a service prepares with.
abbrev Covers : Bases → List (Text × ExecService) → Type 0
Covers bases services =
    (id : Text) (s : ExecService) (task : Text)
    → Mem (id, s) services
    → s.prepare ≡ some task
    → IsKey bases task

Covers-cons :
    (bases : Bases) (id : Text) (service : ExecService) (rest : List (Text × ExecService))
    → ((task : Text) → service.prepare ≡ some task → IsKey bases task)
    → Covers bases rest
    → Covers bases ((id, service) ∷ rest)
Covers-cons bases id service rest own others i s task (inl e) p =
    let same : service ≡ s = sym (ap (λ (q : Text × ExecService). q.1) e) in
    own task (ap (λ (x : ExecService). x.prepare) same ∙ p)
Covers-cons bases id service rest own others i s task (inr m) p = others i s task m p

prepare_bases-total :
    (program : Program) (services : List (Text × ExecService)) (bases : Bases)
    → Prepares program services
    → (result : Bases) × (prepare_bases program services bases ≡ ok result)
      × ((k : Text) → IsKey bases k → IsKey result k)
      × Covers result services
unfolding prepare_bases
prepare_bases-total program [] bases p = (bases, refl, (λ k h. h), (λ id s task m e. absurd m))
prepare_bases-total program ((id, service) ∷ rest) bases p =
    let later = λ (i : Text) (s : ExecService) (t : Text) (m : Mem (i, s) rest). p i s t (inr m) in
    elim (Option-cases service.prepare) [
      | inl e ↦
          let (result, h, keeps, covers) = prepare_bases-total program rest bases later in
          (
            result,
            rw (prepare_bases, e) h,
            keeps,
            Covers-cons result id service rest (λ t f. cc) covers,
          )
      | inr (prepare, e) ↦ elim (Option-cases (lookup prepare bases)) [
        | inr (base, f) ↦
            let (result, h, keeps, covers) = prepare_bases-total program rest bases later in
            (
              result,
              rw (prepare_bases, e, f) h,
              keeps,
              Covers-cons result id service rest
                  (λ t g. own result prepare t e g (keeps prepare (base, f))) covers,
            )
        | inl f ↦
            let (nodes, flat) = p id service prepare (inl refl) e in
            let wider = map_insert prepare (direct_requirements nodes) bases in
            let (result, h, keeps, covers) = prepare_bases-total program rest wider later in
            (
              result,
              rw (prepare_bases, e, f, flat) h,
              (λ k m. keeps k (IsKey-map_insert k prepare (direct_requirements nodes) bases m)),
              Covers-cons result id service rest
                  (λ t g.
                    own result prepare t e g
                      (keeps prepare (map_insert-IsKey prepare (direct_requirements nodes) bases)))
                  covers,
            )
      ]
    ]
  where
    own :
        (result : Bases) (prepare t : Text)
        → service.prepare ≡ some prepare
        → service.prepare ≡ some t
        → IsKey result prepare
        → IsKey result t
    own result prepare t e g k = let same : prepare ≡ t = cc in rw same at k

prepare_edges-total :
    (bases : Bases) (prepare : Option Text)
    → ((task : Text) → prepare ≡ some task → IsKey bases task)
    → (prepared : List (Text × EdgeKind)) × (prepare_edges bases prepare ≡ ok prepared)
unfolding prepare_edges
prepare_edges-total bases none k = ([], refl)
prepare_edges-total bases (some task) k =
    let (base, e) = k task refl in
    (map (λ id. (id, prepare_requires)) base, rw (prepare_edges, e) refl)

edges_of-total :
    (bases : Bases) (services : List (Text × ExecService))
    → Covers bases services
    → (edges : Edges) × (edges_of bases services ≡ ok edges)
unfolding edges_of
edges_of-total bases [] c = ([], refl)
edges_of-total bases ((id, service) ∷ rest) c =
    let (prepared, e) =
      prepare_edges-total bases service.prepare (λ task f. c id service task (inl refl) f) in
    let (edges, h) = edges_of-total bases rest (λ i s t m f. c i s t (inr m) f) in
    (
      (id, map (λ target. (target, connects_to)) service.connects_to ++ prepared) ∷ edges,
      rw (edges_of, e, h) refl,
    )

module _ (program : Program) (c : IsClosed program) where
  flatten-total :
      {bases : Bases} (task : Text)
      → try_map (task_base program) program.tasks ≡ ok bases
      → IsKey program.tasks task
      → (base : List Text) × (nodes : List PlanNode) × Mem (task, base) bases
        × (flatten program task ≡ ok nodes)
        × (direct_requirements nodes ≡ base)
  flatten-total {bases} task h k =
      let (base, l) = try_map-IsKey (task_base program) program.tasks task h k in
      let m = lookup-Mem task bases l in
      let (nodes, flat, same) = task_base-AreBases program h task base m in
      (base, nodes, m, flat, same)

  visit_service-total :
      (id : Text)
      → Prepares program program.services
      → IsKey program.services id
      → (r : ExecService × List PlanNode) × (visit_service program id ≡ ok r)
  unfolding visit_service prepare_nodes_of
  visit_service-total id p (service, l) = elim (Option-cases service.prepare) [
    | inl e ↦ ((service, []), rw (visit_service, l, e) refl)
    | inr (task, e) ↦
        let (nodes, flat) = p id service task (lookup-Mem id program.services l) e in
        ((service, nodes), rw (visit_service, l, e, flat) refl)
  ]

  -- In a program whose names are declared and whose graph admission has proved, every task has a
  -- logical plan: no service waits without end, no indexing fails and no fuel ends.
  pub logical_plan-total :
      (facts : GraphFacts) (task : Text)
      → prove_graph program ≡ ok facts
      → IsKey program.tasks task
      → (plan : LogicalPlan) × (logical_plan program task ≡ ok plan)
  unfolding prove_graph logical_plan service_edges
  logical_plan-total facts task g k =
      let (bases, e1, g1) = >>=-ok (try_map (task_base program) program.tasks) _ g in
      let (edges, e2, g2) = >>=-ok (edges_of bases program.services) _ g1 in
      let (proved, g3) = >>-ok (prove_service_cycles edges) _ g2 in
      let graph = service_edges-IsGraph program c e1 e2 in
      let (base, nodes, m, flat, same) = flatten-total task e1 k in
      let prepares : Prepares program program.services = λ id s t n e.
        let (b, ns, l, f, r) = flatten-total t e1 (c.prepares id s t n e) in (ns, f) in
      let (table, p, keeps, covers) = prepare_bases-total program program.services [] prepares in
      let (again, q) = edges_of-total table program.services covers in
      let one : again ≡ edges =
        service_edges_unique program table bases
          (prepare_bases-AreBases program program.services [] (λ t b n. absurd n) p)
          (task_base-AreBases program e1) q e2 in
      let based = λ (i : Text) (j : Mem i base).
        edges_of-IsKey bases program.services i e2 (base_services program c task base e1 m i j) in
      let (required, united, closure) = close_union-total base edges graph based in
      let keyed = λ (id : Text) (n : Mem id required).
        Reaches-IsKey edges base graph based (closure.least id n) in
      let (services, run) =
        schedule-total program edges required closure.closed
          (λ id n. prove_service_cycles-Barrier edges id graph proved (keyed id n))
          (λ id n. visit_service-total id prepares (known bases edges id e2 (keyed id n)))
          (length required) [] required [] (omega arith) (λ id n. inr n) (λ id n. n) in
      let united' : close_union (direct_requirements nodes) edges ≡ ok required = rw same united in
      let q' : edges_of table program.services ≡ ok edges = rw one at q in
      (
        record { services = services; nodes = nodes; slot_windows = program.slot_windows },
        rw (flat, p, q', united', run) refl,
      )
    where
      known :
          (bases : Bases) (edges : Edges) (id : Text)
          → edges_of bases program.services ≡ ok edges
          → IsKey edges id
          → IsKey program.services id
      known bases edges id e (targets, l) =
          let (s, prepared, found, f, shape) =
            edges_of-services bases program.services id targets e (lookup-Mem id edges l) in
          Mem-IsKey id program.services (Mem-keys id s program.services found)
