-- ===== src/Execution/Emission.antt =====
-- `flatten` of plan.rs on a program whose names are declared: its fuel is enough, no indexing fails,
-- and its nodes are leaves of the program.
use nixfied.Prelude.{
  ℕ, zero, suc, ◌<◌, ◌≤◌, ◌≡◌, ◌⊎◌, refl, ap, inl, inr, true, Option, none, some, List, [], ◌∷◌,
  ◌++◌, Text, codes, Result, ok, >>=-ok, Errs, Errs-ok, Errs-of, Errs-bind, length, lookup,
  contains, Mem, IsKey, IsKey-head, IsKey-cons, lookup-Mem, missing, missing-lt_of_new, missing-le,
  contains-Mem, Mem-contains, arith, Bool-cases, Option-cases,
}
use nixfied.Execution.Types.{
  ExecTask, ExecStep, ExecComposite, ExecutableTask, leaf_task, composite_task, Program,
}
use nixfied.Execution.Schedule.{take_first, is_ready, schedule}
use nixfied.Execution.Flatten.{
  out_of_fuel, PlanError, PlanNode, FlatNode, Ranges, emit_steps, dependency_paths, apply_step,
  apply_dependencies, emit, emit_all, plan_node, flat_key, flat_dependencies, steps_stuck, flatten,
}
use nixfied.Execution.Order.{take_first-true}
use nixfied.Execution.Closed.{IsPlanRefusal, step_names, IsClosed}

abbrev pub EmitCall : Type 0
EmitCall = Text → Text → List FlatNode → Result PlanError (List FlatNode)

emit_steps-Errs :
    (call : EmitCall) (path : Text) (steps : List ExecStep) (out : List FlatNode) (ranges : Ranges)
    → ((task p : Text) (o : List FlatNode) → Errs IsPlanRefusal (call task p o))
    → Errs IsPlanRefusal (emit_steps call path steps out ranges)
unfolding emit_steps
emit_steps-Errs call path [] out ranges h = Errs-ok IsPlanRefusal _
emit_steps-Errs call path (step ∷ steps) out ranges h =
    Errs-bind IsPlanRefusal (call step.task (path ++ codes "." ++ step.name) out) _
      (h step.task (path ++ codes "." ++ step.name) out)
      (λ out' e.
        emit_steps-Errs call path steps out' ((step.name, (length out, length out')) ∷ ranges) h)

-- Every step has its range.
emit_steps-IsKey :
    (call : EmitCall) (path : Text) (steps : List ExecStep) (out : List FlatNode) (ranges : Ranges)
    {result : List FlatNode × Ranges} (name : Text)
    → emit_steps call path steps out ranges ≡ ok result
    → Mem name (step_names steps) ⊎ IsKey ranges name
    → IsKey result.1 name
unfolding emit_steps
emit_steps-IsKey call path [] out ranges name h (inl m) = absurd m
emit_steps-IsKey call path [] out ranges {result} name h (inr k) =
    let same : ranges ≡ result.1 = cc in rw same at k
emit_steps-IsKey call path (step ∷ steps) out ranges {result} name h m =
    let (out', e, h1) = >>=-ok (call step.task (path ++ codes "." ++ step.name) out) _ h in
    let range : ℕ × ℕ = (length out, length out') in
    emit_steps-IsKey call path steps out' ((step.name, range) ∷ ranges) name h1 (elim m [
      | inl (inl e) ↦ inr (IsKey-head name step.name range ranges e)
      | inl (inr n) ↦ inl n
      | inr k ↦ inr (IsKey-cons name step.name range ranges k)
    ])

dependency_paths-Errs :
    (out : List FlatNode) (ranges : Ranges) (deps paths : List Text)
    → ((d : Text) → Mem d deps → IsKey ranges d)
    → Errs IsPlanRefusal (dependency_paths out ranges deps paths)
unfolding dependency_paths
dependency_paths-Errs out ranges [] paths k = Errs-ok IsPlanRefusal paths
dependency_paths-Errs out ranges (d ∷ deps) paths k =
    let (r, e) = k d (inl refl) in
    rw (dependency_paths, e) (dependency_paths-Errs out ranges deps _ (λ z m. k z (inr m)))

pub paths_cases : (ps : List Text) → (ps ≡ []) ⊎ ((p : Text) × (qs : List Text) × (ps ≡ p ∷ qs))
paths_cases [] = inl refl
paths_cases (p ∷ ps) = inr (p, ps, refl)

-- The names of a step are in the ranges.
abbrev IsRanged : Ranges → ExecStep → Type 0
IsRanged ranges step =
    IsKey ranges step.name × ((d : Text) → Mem d step.depends_on → IsKey ranges d)

apply_step-Errs :
    (ranges : Ranges) (step : ExecStep) (out : List FlatNode)
    → IsRanged ranges step
    → Errs IsPlanRefusal (apply_step ranges step out)
unfolding apply_step
apply_step-Errs ranges step out ((r, e), k) =
    Errs-bind IsPlanRefusal (dependency_paths out ranges step.depends_on []) _
      (dependency_paths-Errs out ranges step.depends_on [] k)
      (λ paths h. elim (paths_cases paths) [
        | inl f ↦ rw f (Errs-ok IsPlanRefusal out)
        | inr (p, ps, f) ↦ rw (f, e) (Errs-ok IsPlanRefusal _)
      ])

apply_dependencies-Errs :
    (ranges : Ranges) (steps : List ExecStep) (out : List FlatNode)
    → ((step : ExecStep) → Mem step steps → IsRanged ranges step)
    → Errs IsPlanRefusal (apply_dependencies ranges steps out)
unfolding apply_dependencies
apply_dependencies-Errs ranges [] out k = Errs-ok IsPlanRefusal out
apply_dependencies-Errs ranges (step ∷ steps) out k =
    Errs-bind IsPlanRefusal (apply_step ranges step out) _
      (apply_step-Errs ranges step out (k step (inl refl)))
      (λ out' e. apply_dependencies-Errs ranges steps out' (λ s m. k s (inr m)))

mem-step_names :
    (step : ExecStep) (steps : List ExecStep) → Mem step steps → Mem step.name (step_names steps)
mem-step_names step [] m = absurd m
mem-step_names step (s ∷ steps) (inl e) = inl (ap (λ (t : ExecStep). t.name) e)
mem-step_names step (s ∷ steps) (inr m) = inr (mem-step_names step steps m)

pub entry_cases :
    (e : Option ExecutableTask)
    → (e ≡ none)
      ⊎ ((l : ExecTask) × (e ≡ some (leaf_task l)))
      ⊎ ((c : ExecComposite) × (e ≡ some (composite_task c)))
entry_cases none = inl refl
entry_cases (some (leaf_task l)) = inr (inl (l, refl))
entry_cases (some (composite_task c)) = inr (inr (c, refl))

contains-snoc :
    (k task : Text) (visiting : List Text)
    → contains visiting k ≡ true
    → contains (visiting ++ task ∷ []) k ≡ true
contains-snoc k task visiting h =
    Mem-contains (visiting ++ task ∷ []) k (there visiting (contains-Mem visiting k h))
  where
    there : (xs : List Text) → Mem k xs → Mem k (xs ++ task ∷ [])
    there [] m = absurd m
    there (x ∷ xs) (inl e) = inl e
    there (x ∷ xs) (inr m) = inr (there xs m)

contains_last : (task : Text) (visiting : List Text) → contains (visiting ++ task ∷ []) task ≡ true
contains_last task visiting = Mem-contains (visiting ++ task ∷ []) task (last visiting)
  where
    last : (xs : List Text) → Mem task (xs ++ task ∷ [])
    last [] = inl refl
    last (x ∷ xs) = inr (last xs)

pub emit-Errs :
    (fuel : ℕ) (program : Program) (visiting : List Text) (task path : Text) (out : List FlatNode)
    → IsClosed program
    → missing program.tasks visiting < fuel
    → Errs IsPlanRefusal (emit fuel program visiting task path out)
unfolding emit
emit-Errs zero program visiting task path out c f = absurd (omega (arith, f))
emit-Errs (suc fuel) program visiting task path out c f =
    elim (entry_cases (lookup task program.tasks)) [
      | inl e ↦ rw (emit, e) (Errs-of IsPlanRefusal _ tt)
      | inr (inl (l, e)) ↦ rw (emit, e) (Errs-ok IsPlanRefusal _)
      | inr (inr (composite, e)) ↦ elim (Bool-cases (contains visiting task)) [
        | inl t ↦ rw (emit, e, t) (Errs-of IsPlanRefusal _ tt)
        | inr n ↦
            let less =
              missing-lt_of_new program.tasks task visiting (visiting ++ task ∷ [])
                (λ k h. contains-snoc k task visiting h) (composite_task composite, e) n
                (contains_last task visiting) in
            rw (emit, e, n)
              (Errs-bind IsPlanRefusal
                (emit_steps (emit fuel program (visiting ++ task ∷ [])) path composite.steps out [])
                _
                (emit_steps-Errs (emit fuel program (visiting ++ task ∷ [])) path composite.steps
                  out []
                  (λ t p o.
                    emit-Errs fuel program (visiting ++ task ∷ []) t p o c
                      (omega (arith, f, less))))
                (λ emitted h.
                  apply_dependencies-Errs emitted.1 composite.steps emitted.0
                    (ranged composite e emitted h)))
      ]
    ]
  where
    ranged :
        (composite : ExecComposite)
        → lookup task program.tasks ≡ some (composite_task composite)
        → (emitted : List FlatNode × Ranges)
        → emit_steps (emit fuel program (visiting ++ task ∷ [])) path composite.steps out []
          ≡ ok emitted
        → (step : ExecStep) → Mem step composite.steps
        → IsRanged emitted.1 step
    ranged composite e emitted h step m =
        let keyed = λ (name : Text) (k : Mem name (step_names composite.steps)).
          emit_steps-IsKey (emit fuel program (visiting ++ task ∷ [])) path composite.steps out []
            name h (inl k) in
        (
          keyed step.name (mem-step_names step composite.steps m),
          (λ d k. keyed d (c.siblings task composite step d (lookup-Mem task program.tasks e) m k)),
        )

plan_node-schedule-Errs :
    (root : Text) (fuel : ℕ) (placed : List Text) (remaining : List FlatNode) (out : List PlanNode)
    → length remaining ≤ fuel
    → Errs IsPlanRefusal (
        schedule flat_key flat_dependencies plan_node
          (steps_stuck root)
          out_of_fuel
          fuel
          placed
          remaining
          out)
unfolding schedule plan_node steps_stuck
plan_node-schedule-Errs root fuel placed [] out le = Errs-ok IsPlanRefusal out
plan_node-schedule-Errs root zero placed (x ∷ xs) out le = absurd (omega (arith, le))
plan_node-schedule-Errs root (suc fuel) placed (x ∷ xs) out le =
    let test =
      is_ready flat_key flat_dependencies plan_node (steps_stuck root) out_of_fuel placed in
    elim (Option-cases (take_first test (x ∷ xs))) [
      | inl n ↦ rw (schedule, n) (Errs-of IsPlanRefusal _ tt)
      | inr ((y, rest), n) ↦
          let (ready, perm, size) = take_first-true test (x ∷ xs) n in
          rw (schedule, n) (plan_node-schedule-Errs root fuel _ rest _ (omega (arith, size, le)))
    ]

-- In a program whose names are declared, the flattening of a task fails only with an error that
-- the source returns: its fuel is enough and no indexing fails.
pub flatten-Errs :
    (program : Program) (root : Text) → IsClosed program → Errs IsPlanRefusal (flatten program root)
unfolding flatten emit_all
flatten-Errs program root c =
    Errs-bind IsPlanRefusal (emit (suc (suc (length program.tasks))) program [] root root []) _
      (emit-Errs (suc (suc (length program.tasks))) program [] root root [] c
        (omega (arith, missing-le program.tasks [])))
      (λ flat h. plan_node-schedule-Errs root (length flat) [] flat [] (omega arith))
