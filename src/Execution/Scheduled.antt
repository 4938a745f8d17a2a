-- ===== src/Execution/Scheduled.antt =====
-- The loop over services starts all of them where the graph has no cycle.
use nixfied.Prelude.{
  ℕ, zero, suc, ◌≤◌, ◌≡◌, ◌⊎◌, refl, ◌∙◌, inl, inr, Bool, false, some, List, [], ◌∷◌, ◌++◌, Text,
  ok, length, contains, Mem-contains, set_insert, set_insert_mem, Mem, arith, Option-cases,
}
use nixfied.Execution.Types.{ExecService, Program}
use nixfied.Execution.Schedule.{take_first, is_ready, schedule}
use nixfied.Execution.Order.{take_first-cons, take_first-true}
use nixfied.Execution.Leaves.{take_first-Mem}
use nixfied.Execution.Flatten.{PlanNode, out_of_fuel}
use nixfied.Execution.Graph.{Edges}
use nixfied.Execution.Plan.{edge_targets, service_key, services_stuck, visit_service}
use nixfied.Execution.Cycles.{Barrier}
use nixfied.Execution.Progress.{no_standstill, take_first-none, all-false}

Mem-take_first :
    {A : Type 0} (test : A → Bool) (xs : List A) {y : A} {rest : List A} (z : A)
    → take_first test xs ≡ some (y, rest)
    → Mem z xs
    → (z ≡ y) ⊎ Mem z rest
Mem-take_first test [] z h m = absurd m
Mem-take_first test (x ∷ xs) z h m = elim (take_first-cons test x xs h) [
  | inl (t, e, f) ↦ elim m [ inl same ↦ inl (same ∙ e) | inr k ↦ inr (rw f at k) ]
  | inr (r, e, f) ↦ elim m [
    | inl same ↦ inr (rw f (inl same))
    | inr k ↦ elim (Mem-take_first test xs z e k) [
      | inl same ↦ inl same
      | inr l ↦ inr (rw f (inr l))
    ]
  ]
]

module _ (program : Program) (edges : Edges) (required : List Text)
    (closed : (id t : Text) → Mem id required → Mem t (edge_targets edges id) → Mem t required)
    (barriers : (id : Text) → Mem id required → Barrier edges id)
    (visits : (id : Text)
      → Mem id required
      → (r : ExecService × List PlanNode) × (visit_service program id ≡ ok r)) where
  pub schedule-total :
      (fuel : ℕ) (placed remaining : List Text) (out : List (ExecService × List PlanNode))
      → length remaining ≤ fuel
      → ((id : Text) → Mem id required → Mem id placed ⊎ Mem id remaining)
      → ((id : Text) → Mem id remaining → Mem id required)
      → (result : List (ExecService × List PlanNode)) × (schedule service_key
            (edge_targets edges)
            (visit_service program)
            services_stuck
            out_of_fuel
            fuel
            placed
            remaining
            out
          ≡ ok result)
  unfolding schedule service_key is_ready
  schedule-total fuel placed [] out le split inside = (out, refl)
  schedule-total zero placed (x ∷ xs) out le split inside = absurd (omega (arith, le))
  schedule-total (suc fuel) placed (x ∷ xs) out le split inside =
      let test =
        is_ready service_key (edge_targets edges) (visit_service program) services_stuck out_of_fuel
          placed in
      elim (Option-cases (take_first test (x ∷ xs))) [
        | inl n ↦ absurd (
            no_standstill edges (x ∷ xs) (waits (take_first-none test (x ∷ xs) n))
              (λ y m. barriers y (inside y m)) x (inl refl))
        | inr ((y, rest), n) ↦
            let (ready, perm, size) = take_first-true test (x ∷ xs) n in
            let (r, v) = visits y (inside y (take_first-Mem test (x ∷ xs) y n (inl refl))) in
            let (result, run) =
              schedule-total fuel (set_insert y placed) rest (out ++ r ∷ [])
                (omega (arith, size, le))
                (placed_or y rest (λ z k. Mem-take_first test (x ∷ xs) z n k))
                (λ z m. inside z (take_first-Mem test (x ∷ xs) z n (inr m))) in
            (result, rw (schedule, n, v) run)
      ]
    where
      waits :
          ((y : Text)
            → Mem y (x ∷ xs)
            → is_ready service_key
                (edge_targets edges)
                (visit_service program)
                services_stuck
                out_of_fuel
                placed
                y
              ≡ false)
          → (y : Text) → Mem y (x ∷ xs)
          → (t : Text) × Mem t (edge_targets edges y) × Mem t (x ∷ xs)
      waits f y m =
          let (t, k, absent) =
            all-false (λ dep. contains placed dep) (edge_targets edges y) (f y m) in
          elim (split t (closed y t (inside y m) k)) [
            | inl p ↦ let there = Mem-contains placed t p in cc
            | inr l ↦ (t, k, l)
          ]

      placed_or :
          (y : Text) (rest : List Text)
          → ((z : Text) → Mem z (x ∷ xs) → (z ≡ y) ⊎ Mem z rest)
          → (z : Text) → Mem z required
          → Mem z (set_insert y placed) ⊎ Mem z rest
      placed_or y rest f z m = elim (split z m) [
        | inl p ↦ inl (set_insert_mem z y placed (inr p))
        | inr k ↦ elim (f z k) [ inl e ↦ inl (set_insert_mem z y placed (inl e)) | inr l ↦ inr l ]
      ]
