-- ===== src/Execution/Cycles.antt =====
-- The cycle search of plan.rs finds a cycle exactly where there is one.
use nixfied.Prelude.{
  suc, ◌≡◌, ◌≢◌, ◌⊎◌, refl, ◌∙◌, inl, inr, Option, List, [], ◌∷◌, Text, map, Result, ok, err,
  length, Mem, IsKey, Mem-IsKey, IsKey-Mem, missing-le, arith,
}
use nixfied.Execution.Flatten.{PlanError, graph_cycle}
use nixfied.Execution.Graph.{Edges}
use nixfied.Execution.Plan.{edge_targets}
use nixfied.Execution.Admit.{Trail, visit, render_edge, cycles_from, prove_service_cycles}
use nixfied.Execution.Closure.{Reaches}
use nixfied.Execution.Worklist.{IsGraph}
use nixfied.Execution.Acyclic.{visit-Answers}
use nixfied.Execution.Search.{Walk, here, Walk-Reaches, Explored, visit-Finds, Explored-Reaches}

-- The origin leads back to itself.
abbrev pub IsCyclic : Edges → Text → Type 0
IsCyclic edges origin = Reaches edges (edge_targets edges origin) origin

-- A closed set of services that the origin leads to, without the origin.
abbrev pub Barrier : Edges → Text → Type 0
Barrier edges origin =
    (seen : List Text) × Explored edges origin seen (edge_targets edges origin)
    × ((z : Text) → Mem z seen → Explored edges origin seen (edge_targets edges z))

abbrev pub Searched : Edges → List Text → Result PlanError (Unit {0}) → Type 0
Searched edges starts r =
    ((r ≡ ok tt) × ((origin : Text) → Mem origin starts → Barrier edges origin))
    ⊎ ((origin : Text) × (cycle : Trail) × (r ≡ err (graph_cycle origin (map render_edge cycle)))
        × Mem origin starts
        × (cycle ≢ [])
        × Walk edges origin cycle origin)

cycles_from-Searched :
    (edges : Edges) (starts : List Text)
    → IsGraph edges
    → ((s : Text) → Mem s starts → IsKey edges s)
    → Searched edges starts (cycles_from edges starts)
unfolding cycles_from
cycles_from-Searched edges [] g k = inl (refl, (λ o m. absurd m))
cycles_from-Searched edges (origin ∷ rest) g k =
    let (found, h, less) =
      visit-Answers edges (suc (suc (length edges))) origin origin [] [] g (k origin (inl refl))
        (omega (arith, missing-le edges [])) in
    by_found found h (cycles_from-Searched edges rest g (λ z m. k z (inr m)))
  where
    barrier :
        (seen : List Text)
        → ((z : Text) → Mem z seen → Mem z [] ⊎ Explored edges origin seen (edge_targets edges z))
        → Explored edges origin seen (edge_targets edges origin)
        → Barrier edges origin
    barrier seen new x = (seen, x, (λ z m. elim (new z m) [ inl k ↦ absurd k | inr y ↦ y ]))

    later :
        cycles_from edges (origin ∷ rest) ≡ cycles_from edges rest
        → Barrier edges origin
        → Searched edges rest (cycles_from edges rest)
        → Searched edges (origin ∷ rest) (cycles_from edges (origin ∷ rest))
    later run b (inl (e, all_barriers)) = inl (run ∙ e, barriers)
      where
        barriers : (o : Text) → Mem o (origin ∷ rest) → Barrier edges o
        barriers o (inl same) = rw same b
        barriers o (inr m) = all_barriers o m
    later run b (inr (o, cycle, e, m, full, walk)) = inr (o, cycle, run ∙ e, inr m, full, walk)

    by_found :
        (found : Option Trail × List Text)
        → visit (suc (suc (length edges))) edges origin origin [] [] ≡ ok found
        → Searched edges rest (cycles_from edges rest)
        → Searched edges (origin ∷ rest) (cycles_from edges (origin ∷ rest))
    by_found found h others =
        elim (visit-Finds edges origin (suc (suc (length edges))) origin [] [] found
          (here refl refl) h) [
            | inr (cycle, s, full, walk) ↦
                inr (origin, cycle, rw (cycles_from, h, s) refl, inl refl, full, walk)
            | inl (s, (keeps, new), x) ↦
                later (rw (cycles_from, h, s) refl) (barrier found.1 new x) others
          ]

pub prove_service_cycles-Barrier :
    (edges : Edges) (origin : Text)
    → IsGraph edges
    → prove_service_cycles edges ≡ ok tt
    → IsKey edges origin
    → Barrier edges origin
unfolding prove_service_cycles
prove_service_cycles-Barrier edges origin g h key =
    elim (cycles_from-Searched edges (map (λ e. e.0) edges) g (λ s m. Mem-IsKey s edges m)) [
      | inl (e, barriers) ↦ barriers origin (IsKey-Mem origin edges key)
      | inr (o, cycle, e, m, full, walk) ↦ cc
    ]

-- In a graph whose edges lead to services of the graph, the cycle search accepts the graph exactly
-- if no service leads back to itself. Otherwise the error names a service with the edges of a trail
-- that follows the graph from that service to itself. The search ends and no indexing fails.
pub prove_service_cycles-cases :
    (edges : Edges)
    → IsGraph edges
    → ((prove_service_cycles edges ≡ ok tt)
        × ((origin : Text) → Mem origin (map (λ e. e.0) edges) → ¬ IsCyclic edges origin))
      ⊎ ((origin : Text) × (cycle : Trail) × (prove_service_cycles edges
            ≡ err (graph_cycle origin (map render_edge cycle)))
          × Mem origin (map (λ e. e.0) edges)
          × (cycle ≢ [])
          × Walk edges origin cycle origin
          × IsCyclic edges origin)
unfolding prove_service_cycles
prove_service_cycles-cases edges g =
    elim (cycles_from-Searched edges (map (λ e. e.0) edges) g (λ s m. Mem-IsKey s edges m)) [
      | inl (e, barriers) ↦ inl (
        e,
        (λ origin m r.
            let (seen, x, c) = barriers origin m in
            (Explored-Reaches edges origin seen origin x c r).0 refl),
      )
      | inr (origin, cycle, e, m, full, walk) ↦
          inr (origin, cycle, e, m, full, walk, cyclic origin cycle full walk)
    ]
  where
    cyclic :
        (origin : Text) (cycle : Trail)
        → cycle ≢ []
        → Walk edges origin cycle origin
        → IsCyclic edges origin
    cyclic origin cycle full walk = elim (Walk-Reaches edges origin walk) [
      | inl (e, t) ↦ absurd (full t)
      | inr r ↦ r
    ]
