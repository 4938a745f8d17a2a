-- ===== src/Execution/Demand.antt =====
-- The endpoints of a set of services, counted at admission and when a plan is bound.
use mathlib.Core.List.{Perm, foldr}
use mathlib.Core.List.Perm
use native.Mathlib.Nat.{ℕ_set}
use nixfied.Prelude.{
  ℕ, ◌+◌, ◌≡◌, refl, sym, ap, ◌∙◌, inl, inr, none, some, List, [], ◌∷◌, Text, ok, err, >>=-ok,
  length, lookup, arith, Option-cases,
}
use nixfied.Execution.Types.{ExecService, Program, endpoint_ids}
use nixfied.Execution.Flatten.{out_of_fuel, index_panic, PlanNode}
use nixfied.Execution.Graph.{Edges}
use nixfied.Execution.Order.{Visits}
use nixfied.Execution.Plan.{
  edge_targets, service_key, services_stuck, visit_service, prepare_nodes_of, demand,
}
use nixfied.Execution.Admit.{endpoint_count}

-- The endpoints that the services of these ids have.
weight : Program → Text → ℕ
weight program id = elim (lookup id program.services) [
  | none ↦ 0
  | some service ↦ length (endpoint_ids service)
]

pub weights : Program → List Text → ℕ
weights program ids = foldr (λ id n. weight program id + n) 0 ids

pub weights-Perm :
    (program : Program) {ids others : List Text}
    → Perm ids others
    → weights program ids ≡ weights program others
unfolding weights
weights-Perm program p =
    Perm.foldr-eq ℕ_set (λ (id : Text) (n : ℕ). weight program id + n) (λ a b n. omega arith) p 0

pub endpoint_count-weights :
    (program : Program) (ids : List Text) {n : ℕ}
    → endpoint_count program ids ≡ ok n
    → n ≡ weights program ids
unfolding endpoint_count weights weight
endpoint_count-weights program [] h = cc
endpoint_count-weights program (id ∷ ids) {n} h = elim (Option-cases (lookup id program.services)) [
  | inl e ↦ absurd (none_left (rw (endpoint_count, e) at h))
  | inr (service, e) ↦
      let (m, f, last) = >>=-ok (endpoint_count program ids) _ (rw (endpoint_count, e) at h) in
      let same : length (endpoint_ids service) + m ≡ n = cc in
      let others = endpoint_count-weights program ids f in
      rw (weight, e) (sym same ∙ ap (λ k. length (endpoint_ids service) + k) others)
]
  where
    none_left : {k : ℕ} → err (index_panic id) ≡ ok k → ⊥
    none_left e = cc

pub Visits-demand :
    (program : Program) (edges : Edges) (order : List Text)
    (services : List (ExecService × List PlanNode))
    → Visits service_key
        (edge_targets edges)
        (visit_service program)
        services_stuck
        out_of_fuel
        order
        services
    → demand services ≡ weights program order
unfolding demand weights weight visit_service
Visits-demand program edges [] services v = rw v refl
Visits-demand program edges (id ∷ order) services (b, rest, e, f, v) =
    elim (Option-cases (lookup id program.services)) [
      | inl g ↦ absurd (none_left (rw (visit_service, g) at f))
      | inr (service, g) ↦
          let (nodes, k, last) =
            >>=-ok (prepare_nodes_of program service.prepare) _ (rw (visit_service, g) at f) in
          let same : b ≡ (service, nodes) = cc in
          rw (weight, e, g, same)
            (ap (λ n. length (endpoint_ids service) + n) (Visits-demand program edges order rest v))
    ]
  where
    none_left : {r : ExecService × List PlanNode} → err (index_panic id) ≡ ok r → ⊥
    none_left e = cc
