-- ===== src/Lower/Declared.antt =====
-- What `prove_references` of lower.rs leaves behind: the names that are declared.
use Prim.Native.String.{String}
use nixfied.Prelude.{
  ◌≡◌, inl, inr, true, Option, none, some, List, [], ◌∷◌, Text, text_eq, contains, set_extend, map,
  ok, >>-ok, >>=-ok, ensure-ok, lookup, Mem, Option-cases, IsKey,
}
use nixfied.Manifest.Types.{
  Map, ClosureSpec, InvocationSpec, PrepareSpec, ServiceSpec, StepSpec, TaskSpec, Codebase,
  Manifest,
}
use nixfied.Manifest.Units.{is_some}
use nixfied.Lower.Errors.{undeclared}
use nixfied.Lower.References.{
  Proof, contains_key, prove_each, invocations, service_op_ids, task_op_ids, declare_all,
  check_codebase, check_closure, check_key, check_prepare, check_service, check_step, check_task,
  check_tools, prove_references,
}

prove_each-Mem :
    {A : Type 0} (check : A → Proof) (xs : List A) (x : A)
    → prove_each check xs ≡ ok tt
    → Mem x xs
    → check x ≡ ok tt
unfolding prove_each
prove_each-Mem check [] x h m = absurd m
prove_each-Mem check (y ∷ ys) x h m =
    let (f, g) = >>-ok (check y) (prove_each check ys) h in
    elim m [ inl e ↦ rw e f | inr n ↦ prove_each-Mem check ys x g n ]

check_key-IsKey :
    {V : Type 0} (field : String) (m : Map V) (k : Text) → check_key field m k ≡ ok tt → IsKey m k
unfolding check_key contains_key is_some
check_key-IsKey field m k h = elim (Option-cases (lookup k m)) [
  | inl e ↦
      let t = ensure-ok (undeclared field k) (is_some (lookup k m)) h in cc (rw (e, is_some) at t)
  | inr found ↦ found
]

-- The task that a service prepares with is declared.
abbrev pub PreparesWith : Map TaskSpec → Option PrepareSpec → Type 0
PreparesWith tasks none = Unit
PreparesWith tasks (some prepare) = IsKey tasks prepare.task

check_prepare-IsKey :
    (tasks : Map TaskSpec) (prepare : Option PrepareSpec)
    → check_prepare tasks prepare ≡ ok tt
    → PreparesWith tasks prepare
unfolding check_prepare
check_prepare-IsKey tasks none h = tt
check_prepare-IsKey tasks (some prepare) h =
    check_key-IsKey "service.prepare.task" tasks prepare.task h

-- Every name that the manifest's services and tasks refer to is declared.
pub record AreDeclared (m : Manifest) : Type 0 where
  pub connects :
      (name : Text) (s : ServiceSpec) (target : Text)
      → Mem (name, s) m.services
      → Mem target s.connects_to.items
      → IsKey m.services target
  pub prepares :
      (name : Text) (s : ServiceSpec)
      → Mem (name, s) m.services
      → PreparesWith m.tasks s.lifecycle.prepare
  pub requires :
      (id : Text) (t : TaskSpec) (service : Text)
      → Mem (id, t) m.tasks
      → Mem service t.requires.items
      → IsKey m.services service
  pub steps :
      (id : Text) (t : TaskSpec) (name : Text) (step : StepSpec)
      → Mem (id, t) m.tasks
      → Mem (name, step) t.steps
      → IsKey m.tasks step.task
  pub siblings :
      (id : Text) (t : TaskSpec) (name : Text) (step : StepSpec) (dependency : Text)
      → Mem (id, t) m.tasks
      → Mem (name, step) t.steps
      → Mem dependency step.depends_on.items
      → IsKey t.steps dependency
  pub tools :
      (invocation : InvocationSpec) (tool : Text)
      → Mem invocation (invocations m)
      → Mem tool invocation.tools.items
      → IsKey m.closures tool
  pub codebases :
      (invocation : InvocationSpec)
      → Mem invocation (invocations m)
      → contains
          (set_extend [] (map (λ (c : Codebase). c.codebase_id) m.codebases))
          invocation.codebase_id
        ≡ true
  pub systems :
      (id : Text) (c : ClosureSpec)
      → Mem (id, c) m.closures
      → text_eq c.target_system m.target.closure_system ≡ true

-- A manifest that the proof of references accepts refers to declared names only: services in
-- `connectsTo` and `requires`, tasks in `prepare` and in steps, sibling steps in `dependsOn`, tools and
-- codebases of invocations; and every closure is for the target's system.
pub prove_references-AreDeclared : (m : Manifest) → prove_references m ≡ ok tt → AreDeclared m
unfolding prove_references check_service check_task check_step check_tools check_codebase
    check_closure
prove_references-AreDeclared m h =
    let (h1, r1) =
      >>-ok
        (prove_each
          (check_codebase (set_extend [] (map (λ (c : Codebase). c.codebase_id) m.codebases)))
          (invocations m))
        _ h in
    let (h2, r2) = >>-ok (prove_each (check_closure m.target.closure_system) m.closures) _ r1 in
    let (d1, h3, r3) = >>=-ok (declare_all (service_op_ids m.services) []) _ r2 in
    let (d2, h4, r4) = >>=-ok (declare_all (task_op_ids m.tasks) d1) _ r3 in
    let (h5, r5) = >>-ok (prove_each (check_service m.services m.tasks) m.services) _ r4 in
    let (h6, h7) = >>-ok (prove_each (check_task m.services m.tasks) m.tasks) _ r5 in
    record {
      connects = λ name s target n k. check_key-IsKey "service.connectsTo" m.services target (
          prove_each-Mem (check_key "service.connectsTo" m.services) s.connects_to.items target
            (>>-ok _ _
              (prove_each-Mem (check_service m.services m.tasks) m.services (name, s) h5 n)).0
            k);
      prepares = λ name s n.
          check_prepare-IsKey m.tasks s.lifecycle.prepare
            (>>-ok (prove_each (check_key "service.connectsTo" m.services) s.connects_to.items) _
              (prove_each-Mem (check_service m.services m.tasks) m.services (name, s) h5 n)).1;
      requires = λ id t service n k. check_key-IsKey "task.requires" m.services service (
          prove_each-Mem (check_key "task.requires" m.services) t.requires.items service
            (of_task id t n h6).0 k);
      steps = λ id t name step n k.
          check_key-IsKey "task.steps.task" m.tasks step.task (of_step id t name step n k h6).0;
      siblings = λ id t name step dependency n k d.
          check_key-IsKey "task.steps.dependsOn" t.steps dependency (
            prove_each-Mem (check_key "task.steps.dependsOn" t.steps) step.depends_on.items
              dependency (of_step id t name step n k h6).1 d);
      tools = λ invocation tool n k. check_key-IsKey "invocation.tools" m.closures tool (
          prove_each-Mem (check_key "invocation.tools" m.closures) invocation.tools.items tool
            (prove_each-Mem (check_tools m.closures) (invocations m) invocation h7 n) k);
      codebases = λ invocation n.
          ensure-ok (undeclared "invocation.codebaseId" invocation.codebase_id) _ (
            prove_each-Mem
              (check_codebase (set_extend [] (map (λ (c : Codebase). c.codebase_id) m.codebases)))
              (invocations m) invocation h1 n);
      systems = λ id c n.
          ensure-ok _ _
            (prove_each-Mem (check_closure m.target.closure_system) m.closures (id, c) h2 n);
    }
  where
    of_task :
        (id : Text) (t : TaskSpec)
        → Mem (id, t) m.tasks
        → prove_each (check_task m.services m.tasks) m.tasks ≡ ok tt
        → (prove_each (check_key "task.requires" m.services) t.requires.items ≡ ok tt)
          × (prove_each (check_step m.tasks t.steps) t.steps ≡ ok tt)
    of_task id t n h6 =
        >>-ok _ _ (prove_each-Mem (check_task m.services m.tasks) m.tasks (id, t) h6 n)

    of_step :
        (id : Text) (t : TaskSpec) (name : Text) (step : StepSpec)
        → Mem (id, t) m.tasks
        → Mem (name, step) t.steps
        → prove_each (check_task m.services m.tasks) m.tasks ≡ ok tt
        → (check_key "task.steps.task" m.tasks step.task ≡ ok tt)
          × (prove_each (check_key "task.steps.dependsOn" t.steps) step.depends_on.items ≡ ok tt)
    of_step id t name step n k h6 =
        >>-ok _ _
          (prove_each-Mem (check_step m.tasks t.steps) t.steps (name, step) (of_task id t n h6).1 k)
