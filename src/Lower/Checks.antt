-- ===== src/Lower/Checks.antt =====
-- What `prove_references` of lower.rs fails with: an error that it returns.
use Prim.Native.String.{String}
use nixfied.Prelude.{
  inl, inr, Option, none, some, List, [], ◌∷◌, Text, contains, set_insert, set_extend, map, Errs,
  Errs-ok, Errs-of, Errs-bind, Errs-then, Errs-ensure, Bool-cases,
}
use nixfied.Manifest.Types.{Map, PrepareSpec, TaskSpec, Codebase, Manifest}
use nixfied.Lower.Errors.{undeclared, closure_system}
use nixfied.Lower.Refusals.{IsRefusal}
use nixfied.Lower.References.{
  Proof, contains_key, prove_each, invocations, service_op_ids, task_op_ids, declare_all,
  check_codebase, check_closure, check_key, check_prepare, check_service, check_step, check_task,
  check_tools, prove_references,
}

prove_each-Errs :
    {A : Type 0} (check : A → Proof) (xs : List A)
    → ((x : A) → Errs IsRefusal (check x))
    → Errs IsRefusal (prove_each check xs)
unfolding prove_each
prove_each-Errs check [] h = Errs-ok IsRefusal tt
prove_each-Errs check (x ∷ xs) h =
    Errs-then IsRefusal (check x) _ (h x) (λ e. prove_each-Errs check xs h)

declare_all-Errs : (ids declared : List Text) → Errs IsRefusal (declare_all ids declared)
unfolding declare_all
declare_all-Errs [] declared = Errs-ok IsRefusal declared
declare_all-Errs (id ∷ ids) declared = elim (Bool-cases (contains declared id)) [
  | inl t ↦ rw (declare_all, t) (Errs-of IsRefusal _ tt)
  | inr f ↦ rw (declare_all, f) (declare_all-Errs ids (set_insert id declared))
]

check_key-Errs :
    {V : Type 0} (field : String) (m : Map V) (k : Text) → Errs IsRefusal (check_key field m k)
unfolding check_key
check_key-Errs field m k = Errs-ensure IsRefusal (undeclared field k) (contains_key m k) (λ h. tt)

check_prepare-Errs :
    (tasks : Map TaskSpec) (p : Option PrepareSpec) → Errs IsRefusal (check_prepare tasks p)
unfolding check_prepare
check_prepare-Errs tasks none = Errs-ok IsRefusal tt
check_prepare-Errs tasks (some p) = check_key-Errs "service.prepare.task" tasks p.task

pub prove_references-Errs : (m : Manifest) → Errs IsRefusal (prove_references m)
unfolding prove_references check_codebase check_closure check_service check_task check_step
    check_tools
prove_references-Errs m =
    Errs-then IsRefusal
      (prove_each
        (check_codebase (set_extend [] (map (λ (c : Codebase). c.codebase_id) m.codebases)))
        (invocations m))
      _
      (prove_each-Errs _ (invocations m)
        (λ i. Errs-ensure IsRefusal (undeclared "invocation.codebaseId" i.codebase_id) _ (λ h. tt)))
      (λ h1.
        Errs-then IsRefusal (prove_each (check_closure m.target.closure_system) m.closures) _
          (prove_each-Errs _ m.closures (λ c.
            Errs-ensure IsRefusal (closure_system c.0 c.1.target_system m.target.closure_system) _
              (λ h. tt)))
          (λ h2.
            Errs-bind IsRefusal (declare_all (service_op_ids m.services) []) _
              (declare_all-Errs (service_op_ids m.services) [])
              (λ d1 h3.
                Errs-bind IsRefusal (declare_all (task_op_ids m.tasks) d1) _
                  (declare_all-Errs (task_op_ids m.tasks) d1)
                  (λ d2 h4.
                    Errs-then IsRefusal (prove_each (check_service m.services m.tasks) m.services) _
                      (prove_each-Errs _ m.services (λ s.
                        Errs-then IsRefusal
                          (prove_each (check_key "service.connectsTo" m.services)
                            s.1.connects_to.items)
                          _
                          (prove_each-Errs _ s.1.connects_to.items
                            (λ t. check_key-Errs "service.connectsTo" m.services t))
                          (λ e. check_prepare-Errs m.tasks s.1.lifecycle.prepare)))
                      (λ h5.
                        Errs-then IsRefusal (prove_each (check_task m.services m.tasks) m.tasks) _
                          (prove_each-Errs _ m.tasks (λ t.
                            Errs-then IsRefusal
                              (prove_each (check_key "task.requires" m.services) t.1.requires.items)
                              _
                              (prove_each-Errs _ t.1.requires.items
                                (λ s. check_key-Errs "task.requires" m.services s))
                              (λ e. prove_each-Errs _ t.1.steps (λ s.
                                Errs-then IsRefusal (check_key "task.steps.task" m.tasks s.1.task) _
                                  (check_key-Errs "task.steps.task" m.tasks s.1.task)
                                  (λ f.
                                    prove_each-Errs _ s.1.depends_on.items
                                      (λ n. check_key-Errs "task.steps.dependsOn" t.1.steps n))))))
                          (λ h6. prove_each-Errs _ (invocations m) (λ i.
                            prove_each-Errs _ i.tools.items
                              (λ t. check_key-Errs "invocation.tools" m.closures t))))))))
