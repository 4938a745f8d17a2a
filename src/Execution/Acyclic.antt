-- ===== src/Execution/Acyclic.antt =====
-- The cycle search of plan.rs ends within its fuel in a graph whose edges lead to services.
use nixfied.Prelude.{
  ℕ, zero, suc, ◌≤◌, ◌<◌, ◌≡◌, ◌⊎◌, refl, inl, inr, Option, none, some, List, [], ◌∷◌, ◌++◌, Text,
  map, Result, ok, Errs, Errs-ok, Errs-of, Errs-bind, length, text_eq, contains, set_insert, Mem,
  IsKey, Mem-IsKey, missing, missing-le, missing-set_insert-lt, arith, Bool-cases,
}
use nixfied.Execution.Flatten.{PlanError}
use nixfied.Execution.Graph.{EdgeKind, Edges}
use nixfied.Execution.Admit.{Trail, visit_targets, visit, cycles_from, prove_service_cycles}
use nixfied.Execution.Worklist.{IsGraph}
use nixfied.Execution.Closed.{IsPlanRefusal}

-- The search gives an answer, and the services seen after it are no fewer.
abbrev pub Answers : Edges → List Text → Result PlanError (Option Trail × List Text) → Type 0
Answers edges seen r =
    (found : Option Trail × List Text) × (r ≡ ok found)
    × (missing edges found.1 ≤ missing edges seen)

Answers-Errs :
    (edges : Edges) (seen : List Text) (r : Result PlanError (Option Trail × List Text))
    → Answers edges seen r
    → Errs IsPlanRefusal r
Answers-Errs edges seen r (found, e, le) = rw e (Errs-ok IsPlanRefusal found)

trail_cases : (t : Option Trail) → (t ≡ none) ⊎ ((c : Trail) × (t ≡ some c))
trail_cases none = inl refl
trail_cases (some c) = inr (c, refl)

visit_targets-Answers :
    (edges : Edges) (bound : ℕ)
    (call : Text → Trail → List Text → Result PlanError (Option Trail × List Text)) (start : Text)
    (targets : List (Text × EdgeKind)) (trail : Trail) (seen : List Text)
    → ((t : Text) (tr : Trail) (s : List Text)
        → IsKey edges t
        → missing edges s < bound
        → Answers edges s (call t tr s))
    → ((t : Text) → Mem t (map (λ e. e.0) targets) → IsKey edges t)
    → missing edges seen ≤ bound
    → Answers edges seen (visit_targets call start targets trail seen)
unfolding visit_targets
visit_targets-Answers edges bound call start [] trail seen c k f = ((none, seen), refl, omega arith)
visit_targets-Answers edges bound call start ((target, kind) ∷ rest) trail seen c k f =
    elim (Bool-cases (text_eq target start)) [
      | inl t ↦
          ((some (trail ++ (target, kind) ∷ []), seen), rw (visit_targets, t) refl, omega arith)
      | inr n ↦ elim (Bool-cases (contains seen target)) [
        | inl t ↦
            let (found, e, le) =
              visit_targets-Answers edges bound call start rest trail seen c (λ z m. k z (inr m))
                f in
            (found, rw (visit_targets, n, t) e, le)
        | inr u ↦
            let less = missing-set_insert-lt edges target seen (k target (inl refl)) u in
            let (found, e, le) =
              c target (trail ++ (target, kind) ∷ []) (set_insert target seen) (k target (inl refl))
                (omega (arith, less, f)) in
            elim (trail_cases found.0) [
              | inr (cycle, s) ↦ (
                (some cycle, found.1),
                rw (visit_targets, n, u, e, s) refl,
                omega (arith, le, less),
              )
              | inl s ↦
                  let (last, e', le') =
                    visit_targets-Answers edges bound call start rest trail found.1 c
                      (λ z m. k z (inr m)) (omega (arith, le, less, f)) in
                  (last, rw (visit_targets, n, u, e, s) e', omega (arith, le, le', less))
            ]
      ]
    ]

pub visit-Answers :
    (edges : Edges) (fuel : ℕ) (start current : Text) (trail : Trail) (seen : List Text)
    → IsGraph edges
    → IsKey edges current
    → missing edges seen < fuel
    → Answers edges seen (visit fuel edges start current trail seen)
unfolding visit
visit-Answers edges zero start current trail seen g k f = absurd (omega (arith, f))
visit-Answers edges (suc fuel) start current trail seen g (targets, e) f =
    let (found, r, le) =
      visit_targets-Answers edges fuel (visit fuel edges start) start targets trail seen
        (λ t tr s key less. visit-Answers edges fuel start t tr s g key less) (g current targets e)
        (omega (arith, f)) in
    (found, rw (visit, e) r, le)

cycles_from-Errs :
    (edges : Edges) (starts : List Text)
    → IsGraph edges
    → ((s : Text) → Mem s starts → IsKey edges s)
    → Errs IsPlanRefusal (cycles_from edges starts)
unfolding cycles_from
cycles_from-Errs edges [] g k = Errs-ok IsPlanRefusal tt
cycles_from-Errs edges (start ∷ rest) g k =
    Errs-bind IsPlanRefusal (visit (suc (suc (length edges))) edges start start [] []) _
      (Answers-Errs edges [] _ (
        visit-Answers edges (suc (suc (length edges))) start start [] [] g (k start (inl refl))
          (omega (arith, missing-le edges []))))
      (λ found h. elim (trail_cases found.0) [
        | inr (cycle, s) ↦ rw s (Errs-of IsPlanRefusal _ tt)
        | inl s ↦ rw s (cycles_from-Errs edges rest g (λ z m. k z (inr m)))
      ])

-- In a graph whose edges lead to services of the graph, the cycle search neither runs out of fuel
-- nor fails an indexing: it accepts the graph or names a cycle.
pub prove_service_cycles-Errs :
    (edges : Edges) → IsGraph edges → Errs IsPlanRefusal (prove_service_cycles edges)
unfolding prove_service_cycles
prove_service_cycles-Errs edges g =
    cycles_from-Errs edges (map (λ e. e.0) edges) g (λ s m. Mem-IsKey s edges m)
