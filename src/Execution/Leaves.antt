-- ===== src/Execution/Leaves.antt =====
-- The nodes that plan.rs flattens a task to are leaves of the program.
use nixfied.Prelude.{
  ℕ, zero, suc, ◌-◌, ◌≡◌, ◌⊎◌, refl, sym, ap, ◌∙◌, inl, inr, Bool, Option, some, List, [], ◌∷◌,
  ◌++◌, Text, codes, map, Result, ok, err, >>=-ok, Result-cases, length, take, drop, lookup,
  contains, set_extend, mem-set_extend, Mem, lookup-Mem, mem-take, mem-drop, mem-append, mem-map,
  Bool-cases, Option-cases,
}
use nixfied.Execution.Types.{ExecTask, ExecStep, leaf_task, Program}
use nixfied.Execution.Schedule.{take_first, is_ready, schedule}
use nixfied.Execution.Flatten.{
  out_of_fuel, PlanError, index_panic, PlanNode, FlatNode, Ranges, emit_steps, node_slice,
  dependency_paths, extend_nodes, apply_step, apply_dependencies, emit, emit_all, plan_node,
  flat_key, flat_dependencies, steps_stuck, flatten,
}
use nixfied.Execution.Graph.{requirements_from, direct_requirements}
use nixfied.Execution.Emission.{EmitCall, paths_cases, entry_cases}

mem-requirements_from :
    (z : Text) (nodes : List PlanNode) (set : List Text)
    → Mem z (requirements_from nodes set)
    → Mem z set ⊎ ((n : PlanNode) × Mem n nodes × Mem z n.task.requires)
unfolding requirements_from
mem-requirements_from z [] set m = inl m
mem-requirements_from z (node ∷ nodes) set m =
    elim (mem-requirements_from z nodes (set_extend set node.task.requires) m) [
      | inr (n, k, r) ↦ inr (n, inr k, r)
      | inl n ↦ elim (mem-set_extend z node.task.requires set n) [
        | inl o ↦ inl o
        | inr r ↦ inr (node, inl refl, r)
      ]
    ]

pub take_first-Mem :
    {A : Type 0} (test : A → Bool) (xs : List A) {t : A × List A} (y : A)
    → take_first test xs ≡ some t
    → (y ≡ t.0) ⊎ Mem y t.1
    → Mem y xs
unfolding take_first
take_first-Mem test [] y h m = cc
take_first-Mem {A} test (x ∷ xs) {t} y h m = elim (Bool-cases (test x)) [
  | inl e ↦
      let same : ◌≡◌ {A = Option (A × List A)} (some (x, xs)) (some t) = rw (take_first, e) at h in
      let one : ◌≡◌ {A = A × List A} (x, xs) t = cc in
      rw (ap (λ (p : A × List A). p.0) one, ap (λ (p : A × List A). p.1) one) m
  | inr e ↦ elim (Option-cases (take_first test xs)) [
    | inl n ↦ cc (rw (take_first, e, n) at h)
    | inr (u, f) ↦
        let same : ◌≡◌ {A = Option (A × List A)} (some (u.0, x ∷ u.1)) (some t) =
          rw (take_first, e, f) at h in
        let one : ◌≡◌ {A = A × List A} (u.0, x ∷ u.1) t = cc in
        elim m [
          | inl k ↦
              inr (take_first-Mem test xs y f (inl (k ∙ sym (ap (λ (p : A × List A). p.0) one))))
          | inr k ↦ elim (rw (sym (ap (λ (p : A × List A). p.1) one)) at k) [
            | inl i ↦ inl i
            | inr i ↦ inr (take_first-Mem test xs y f (inr i))
          ]
        ]
  ]
]

-- What holds of every result of a visit holds of every element of the schedule.
schedule-Mem :
    {A B E : Type 0} (key : A → Text) (depends_on : A → List Text) (visit : A → Result E B)
    (stuck : List A → E) (spent : E) (P : A → Type 0) (Q : B → Type 0)
    → ((x : A) (b : B) → P x → visit x ≡ ok b → Q b)
    → (fuel : ℕ) (placed : List Text) (remaining : List A) (out : List B) {result : List B}
    → ((x : A) → Mem x remaining → P x)
    → ((b : B) → Mem b out → Q b)
    → schedule key depends_on visit stuck spent fuel placed remaining out ≡ ok result
    → (b : B) → Mem b result
    → Q b
unfolding schedule
schedule-Mem key depends_on visit stuck spent P Q step fuel placed [] out {result} p q h =
    let same : out ≡ result = cc in rw same at q
schedule-Mem key depends_on visit stuck spent P Q step zero placed (x ∷ xs) out p q h = cc
schedule-Mem {A} {B} {E} key depends_on visit stuck spent P Q step (suc fuel) placed (x ∷ xs) out p
      q h =
    elim (Option-cases (take_first (is_ready key depends_on visit stuck spent placed) (x ∷ xs))) [
      | inl n ↦ cc (rw (schedule, n) at h)
      | inr (t, f) ↦ elim (Result-cases (visit t.0)) [
        | inl (e, n) ↦ cc (rw (schedule, f, n) at h)
        | inr (b, n) ↦
            let here = λ (y : A) (m : (y ≡ t.0) ⊎ Mem y t.1).
              p y (
                take_first-Mem (is_ready key depends_on visit stuck spent placed) (x ∷ xs) y f m) in
            schedule-Mem key depends_on visit stuck spent P Q step fuel _ t.1 (out ++ b ∷ [])
              (λ y m. here y (inr m)) (pushed b (step t.0 b (here t.0 (inl refl)) n))
              (rw (schedule, f, n) at h)
      ]
    ]
  where
    pushed : (b : B) → Q b → (c : B) → Mem c (out ++ b ∷ []) → Q c
    pushed b r c m = elim (mem-append c out (b ∷ []) m) [
      | inl k ↦ q c k
      | inr (inl e) ↦ rw e r
      | inr (inr k) ↦ absurd k
    ]

module _ (program : Program) where
  abbrev IsLeaf : ExecTask → Type 0
  IsLeaf leaf = (id : Text) × Mem (id, leaf_task leaf) program.tasks

  abbrev AreLeaves : List FlatNode → Type 0
  AreLeaves out = (n : FlatNode) → Mem n out → IsLeaf n.leaf

  extend_nodes-AreLeaves :
      (out : List FlatNode) (start end : ℕ) (paths : List Text)
      → AreLeaves out
      → AreLeaves (extend_nodes out start end paths)
  unfolding extend_nodes node_slice
  extend_nodes-AreLeaves out start end paths k n m = elim (mem-append n (take start out) _ m) [
    | inl a ↦ k n (mem-take n start out a)
    | inr r ↦ elim (mem-append n (map extended (node_slice out start end)) (drop end out) r) [
      | inr c ↦ k n (mem-drop n end out c)
      | inl b ↦
          let (x, o, e) = mem-map extended n (node_slice out start end) b in
          let same : x.leaf ≡ n.leaf = sym (ap (λ (y : FlatNode). y.leaf) e) in
          let leaf = k x (mem-drop x start out (mem-take x (end - start) (drop start out) o)) in
          rw same at leaf
    ]
  ]
    where
      extended : FlatNode → FlatNode
      extended y = record y { depends_on = set_extend y.depends_on paths }

  apply_step-AreLeaves :
      (ranges : Ranges) (step : ExecStep) (out : List FlatNode) {result : List FlatNode}
      → AreLeaves out
      → apply_step ranges step out ≡ ok result
      → AreLeaves result
  unfolding apply_step
  apply_step-AreLeaves ranges step out {result} k h =
      let (paths, e, h1) = >>=-ok (dependency_paths out ranges step.depends_on []) _ h in
      elim (paths_cases paths) [
        | inl f ↦ let r = rw f at h1 in let same : out ≡ result = cc in rw same at k
        | inr (p, ps, f) ↦ elim (Option-cases (lookup step.name ranges)) [
          | inl n ↦ absurd (none_left (rw (f, n) at h1))
          | inr (r, n) ↦
              let last = rw (f, n) at h1 in
              let same : extend_nodes out r.0 r.1 (p ∷ ps) ≡ result = cc in
              let leaves = extend_nodes-AreLeaves out r.0 r.1 (p ∷ ps) k in rw same at leaves
        ]
      ]
    where
      none_left :
          ◌≡◌ {A = Result PlanError (List FlatNode)} (err (index_panic step.name)) (ok result) → ⊥
      none_left e = cc

  apply_dependencies-AreLeaves :
      (ranges : Ranges) (steps : List ExecStep) (out : List FlatNode) {result : List FlatNode}
      → AreLeaves out
      → apply_dependencies ranges steps out ≡ ok result
      → AreLeaves result
  unfolding apply_dependencies
  apply_dependencies-AreLeaves ranges [] out {result} k h =
      let same : out ≡ result = cc in rw same at k
  apply_dependencies-AreLeaves ranges (step ∷ steps) out k h =
      let (out', e, h1) = >>=-ok (apply_step ranges step out) _ h in
      apply_dependencies-AreLeaves ranges steps out' (apply_step-AreLeaves ranges step out k e) h1

  emit_steps-AreLeaves :
      (call : EmitCall) (path : Text) (steps : List ExecStep) (out : List FlatNode)
      (ranges : Ranges) {result : List FlatNode × Ranges}
      → ((t p : Text) (o r : List FlatNode) → AreLeaves o → call t p o ≡ ok r → AreLeaves r)
      → AreLeaves out
      → emit_steps call path steps out ranges ≡ ok result
      → AreLeaves result.0
  unfolding emit_steps
  emit_steps-AreLeaves call path [] out ranges {result} c k h =
      let same : out ≡ result.0 = cc in rw same at k
  emit_steps-AreLeaves call path (step ∷ steps) out ranges c k h =
      let (out', e, h1) = >>=-ok (call step.task (path ++ codes "." ++ step.name) out) _ h in
      emit_steps-AreLeaves call path steps out' ((step.name, (length out, length out')) ∷ ranges) c
        (c step.task (path ++ codes "." ++ step.name) out out' k e) h1

  emit-AreLeaves :
      (fuel : ℕ) (visiting : List Text) (task path : Text) (out result : List FlatNode)
      → AreLeaves out
      → emit fuel program visiting task path out ≡ ok result
      → AreLeaves result
  unfolding emit
  emit-AreLeaves zero visiting task path out result k h = cc
  emit-AreLeaves (suc fuel) visiting task path out result k h =
      elim (entry_cases (lookup task program.tasks)) [
        | inl e ↦ cc (rw (emit, e) at h)
        | inr (inl (l, e)) ↦
            let r = rw (emit, e) at h in
            let same : out ++ record { step_path = path; leaf = l; depends_on = [] } ∷ [] ≡ result =
              cc in
            let all_leaves = pushed l (lookup-Mem task program.tasks e) in rw same at all_leaves
        | inr (inr (composite, e)) ↦ elim (Bool-cases (contains visiting task)) [
          | inl t ↦ cc (rw (emit, e, t) at h)
          | inr n ↦
              let (emitted, f, h1) =
                >>=-ok
                  (emit_steps (emit fuel program (visiting ++ task ∷ [])) path composite.steps out
                    [])
                  _ (rw (emit, e, n) at h) in
              apply_dependencies-AreLeaves emitted.1 composite.steps emitted.0
                (emit_steps-AreLeaves (emit fuel program (visiting ++ task ∷ [])) path
                  composite.steps out []
                  (λ t p o r. emit-AreLeaves fuel (visiting ++ task ∷ []) t p o r) k f)
                h1
        ]
      ]
    where
      pushed :
          (l : ExecTask)
          → Mem (task, leaf_task l) program.tasks
          → AreLeaves (out ++ record { step_path = path; leaf = l; depends_on = [] } ∷ [])
      pushed l m n o = elim (mem-append n out _ o) [
        | inl a ↦ k n a
        | inr (inl b) ↦
            let same : l ≡ n.leaf = sym (ap (λ (y : FlatNode). y.leaf) b) in (task, rw same at m)
        | inr (inr b) ↦ absurd b
      ]

  node_leaf : (x : FlatNode) (n : PlanNode) → IsLeaf x.leaf → plan_node x ≡ ok n → IsLeaf n.task
  unfolding plan_node
  node_leaf x n (id, m) e =
      let one : ◌≡◌ {A = PlanNode} (record { node_id = x.step_path; task = x.leaf }) n = cc in
      let same : x.leaf ≡ n.task = ap (λ (p : PlanNode). p.task) one in (id, rw same at m)

  -- What the nodes of a task require is what some leaf of the program requires.
  pub direct_requirements-IsLeaf :
      (root : Text) (nodes : List PlanNode) (service : Text)
      → flatten program root ≡ ok nodes
      → Mem service (direct_requirements nodes)
      → (leaf : ExecTask) × IsLeaf leaf × Mem service leaf.requires
  unfolding direct_requirements emit_all flatten
  direct_requirements-IsLeaf root nodes service h m =
      let (flat, e, run) = >>=-ok (emit_all program root) _ h in
      let leaves =
        emit-AreLeaves (suc (suc (length program.tasks))) [] root root [] flat (λ n k. absurd k)
          e in
      let all_nodes =
        schedule-Mem flat_key flat_dependencies plan_node (steps_stuck root) out_of_fuel
          (λ x. IsLeaf x.leaf) (λ n. IsLeaf n.task) node_leaf (length flat) [] flat [] leaves
          (λ n k. absurd k) run in
      elim (mem-requirements_from service nodes [] m) [
        | inl k ↦ absurd k
        | inr (n, k, r) ↦ (n.task, all_nodes n k, r)
      ]
