-- ===== src/Lower/Kept.antt =====
-- What the structural map of lower.rs keeps of the services and tasks of a manifest.
use nixfied.Prelude.{
  ◌≡◌, ◌⊎◌, refl, sym, ap, ◌∙◌, inl, inr, [], ◌∷◌, Text, map, Result, ok, >>=-ok, >>-ok, Mem, keys,
  any,
}
use mathlib.Core.Option
use nixfied.Manifest.Types.{
  Map, TaskKind, leaf, composite, ClosureSpec, SecretDescriptor, PrepareSpec, ServiceSpec, TaskSpec,
}
use nixfied.Manifest.Errors.{is_empty}
use nixfied.Execution.Types.{
  ExecService, ExecTask, ExecComposite, ExecutableTask, leaf_task, composite_task,
}
use nixfied.Lower.Errors.{LowerError}
use nixfied.Lower.Resolve.{resolve}
use nixfied.Lower.Services.{
  is_listener, expect, addressable, service_scope, check_listener, lower_addressing, lower_service,
}
use nixfied.Lower.Tasks.{lower_leaf, lower_step, lower_composite, lower_task, task_scope}
use nixfied.Lower.Program.{lower_services, lower_tasks}

-- What a lowered service keeps of its spec.
pub lower_service-kept :
    (name : Text) (spec : ServiceSpec) (services : Map ServiceSpec) (closures : Map ClosureSpec)
    (secrets : Map SecretDescriptor) {s : ExecService}
    → lower_service name spec services closures secrets ≡ ok s
    → (s.connects_to ≡ spec.connects_to.items)
      × (s.prepare ≡ Option.map (λ (p : PrepareSpec). p.task) spec.lifecycle.prepare)
unfolding lower_service
lower_service-kept name spec services closures secrets {s} h =
    let (targets, e1, h1) = >>=-ok (addressable services spec.connects_to.items) _ h in
    let (start, e2, h2) =
      >>=-ok
        (resolve closures secrets spec.lifecycle.start.invocation (service_scope name spec targets))
        _ h1 in
    let (checked, h3) =
      >>-ok
        (check_listener name start.1 (is_empty spec.endpoints) (any is_listener start.2.effects)) _
        h2 in
    let (addressing, e4, h4) =
      >>=-ok (lower_addressing closures secrets (service_scope name spec targets) spec) _ h3 in
    (kept h4, prepared h4)
  where
    kept :
        {t u : ExecService}
        → ◌≡◌ {A = Result LowerError ExecService} (ok t) (ok u)
        → u.connects_to ≡ t.connects_to
    kept {t} {u} e = let same : t ≡ u = cc in rw same refl

    prepared :
        {t u : ExecService}
        → ◌≡◌ {A = Result LowerError ExecService} (ok t) (ok u)
        → u.prepare ≡ t.prepare
    prepared {t} {u} e = let same : t ≡ u = cc in rw same refl

pub lower_services-spec :
    (all_services specs : Map ServiceSpec) (closures : Map ClosureSpec)
    (secrets : Map SecretDescriptor) {services : Map ExecService} (id : Text) (s : ExecService)
    → lower_services all_services specs closures secrets ≡ ok services
    → Mem (id, s) services
    → (spec : ServiceSpec) × Mem (id, spec) specs
      × (lower_service id spec all_services closures secrets ≡ ok s)
unfolding lower_services
lower_services-spec all_services [] closures secrets {services} id s h m =
    let same : services ≡ [] = cc in absurd (rw same at m)
lower_services-spec all_services ((name, spec) ∷ rest) closures secrets {services} id s h m =
    let (lowered, e1, h1) = >>=-ok (lower_service name spec all_services closures secrets) _ h in
    let (more, e2, last) = >>=-ok (lower_services all_services rest closures secrets) _ h1 in
    let same : services ≡ (name, lowered) ∷ more = cc in
    elim (rw same at m) [
      | inl e ↦
          let first : name ≡ id = sym (ap (λ (p : Text × ExecService). p.0) e) in
          let second : lowered ≡ s = sym (ap (λ (p : Text × ExecService). p.1) e) in
          (spec, inl (ap (λ i. (i, spec)) (sym first)), rw (first, second) at e1)
      | inr n ↦
          let (sp, k, f) = lower_services-spec all_services rest closures secrets id s e2 n in
          (sp, inr k, f)
    ]

pub keys-lower_services :
    (all_services specs : Map ServiceSpec) (closures : Map ClosureSpec)
    (secrets : Map SecretDescriptor) {services : Map ExecService}
    → lower_services all_services specs closures secrets ≡ ok services
    → keys services ≡ keys specs
unfolding lower_services
keys-lower_services all_services [] closures secrets {services} h =
    let same : [] ≡ services = cc in rw (sym same) refl
keys-lower_services all_services ((name, spec) ∷ rest) closures secrets {services} h =
    let (lowered, e1, h1) = >>=-ok (lower_service name spec all_services closures secrets) _ h in
    let (more, e2, last) = >>=-ok (lower_services all_services rest closures secrets) _ h1 in
    let same : (name, lowered) ∷ more ≡ services = cc in
    sym (ap keys same)
    ∙ ap (λ ks. name ∷ ks) (keys-lower_services all_services rest closures secrets e2)

pub lower_tasks-spec :
    (specs : Map TaskSpec) (closures : Map ClosureSpec) (secrets : Map SecretDescriptor)
    (services : Map ExecService) {tasks : Map ExecutableTask} (id : Text) (t : ExecutableTask)
    → lower_tasks specs closures secrets services ≡ ok tasks
    → Mem (id, t) tasks
    → (spec : TaskSpec) × Mem (id, spec) specs
      × (lower_task id spec closures secrets services ≡ ok t)
unfolding lower_tasks
lower_tasks-spec [] closures secrets services {tasks} id t h m =
    let same : tasks ≡ [] = cc in absurd (rw same at m)
lower_tasks-spec ((name, spec) ∷ rest) closures secrets services {tasks} id t h m =
    let (lowered, e1, h1) = >>=-ok (lower_task name spec closures secrets services) _ h in
    let (more, e2, last) = >>=-ok (lower_tasks rest closures secrets services) _ h1 in
    let same : tasks ≡ (name, lowered) ∷ more = cc in
    elim (rw same at m) [
      | inl e ↦
          let first : name ≡ id = sym (ap (λ (p : Text × ExecutableTask). p.0) e) in
          let second : lowered ≡ t = sym (ap (λ (p : Text × ExecutableTask). p.1) e) in
          (spec, inl (ap (λ i. (i, spec)) (sym first)), rw (first, second) at e1)
      | inr n ↦
          let (sp, k, f) = lower_tasks-spec rest closures secrets services id t e2 n in
          (sp, inr k, f)
    ]

pub keys-lower_tasks :
    (specs : Map TaskSpec) (closures : Map ClosureSpec) (secrets : Map SecretDescriptor)
    (services : Map ExecService) {tasks : Map ExecutableTask}
    → lower_tasks specs closures secrets services ≡ ok tasks
    → keys tasks ≡ keys specs
unfolding lower_tasks
keys-lower_tasks [] closures secrets services {tasks} h =
    let same : [] ≡ tasks = cc in rw (sym same) refl
keys-lower_tasks ((name, spec) ∷ rest) closures secrets services {tasks} h =
    let (lowered, e1, h1) = >>=-ok (lower_task name spec closures secrets services) _ h in
    let (more, e2, last) = >>=-ok (lower_tasks rest closures secrets services) _ h1 in
    let same : (name, lowered) ∷ more ≡ tasks = cc in
    sym (ap keys same) ∙ ap (λ ks. name ∷ ks) (keys-lower_tasks rest closures secrets services e2)

-- What a lowered task keeps of its spec: a leaf its services, a composite its steps.
pub kind_cases : (k : TaskKind) → (k ≡ leaf) ⊎ (k ≡ composite)
kind_cases leaf = inl refl
kind_cases composite = inr refl

pub lower_task-leaf :
    (id : Text) (spec : TaskSpec) (closures : Map ClosureSpec) (secrets : Map SecretDescriptor)
    (services : Map ExecService) (l : ExecTask)
    → lower_task id spec closures secrets services ≡ ok (leaf_task l)
    → l.requires ≡ spec.requires.items
unfolding lower_task lower_leaf
lower_task-leaf id spec closures secrets services l h = elim (kind_cases spec.kind) [
  | inr e ↦ cc (rw (lower_task, e) at h)
  | inl e ↦
      let (exec, e1, last) =
        >>=-ok (lower_leaf id spec closures secrets services) _ (rw (lower_task, e) at h) in
      let (invocation, f1, r1) =
        >>=-ok (expect "validated leaf has an invocation" spec.invocation) _ e1 in
      let (policy, f2, r2) =
        >>=-ok (expect "validated leaf has an exit policy" spec.exit_policy) _ r1 in
      let (operation, f3, r3) =
        >>=-ok (expect "validated leaf has an operation id" spec.operation_id) _ r2 in
      let (run, f4, r4) =
        >>=-ok (resolve closures secrets invocation (task_scope id spec.requires.items services)) _
          r3 in
      let same : exec ≡ l = cc in sym (ap (λ (t : ExecTask). t.requires) same) ∙ requires_of r4
]
  where
    requires_of :
        {t u : ExecTask}
        → ◌≡◌ {A = Result LowerError ExecTask} (ok t) (ok u)
        → u.requires ≡ t.requires
    requires_of {t} {u} e = let same : t ≡ u = cc in rw same refl

pub lower_task-composite :
    (id : Text) (spec : TaskSpec) (closures : Map ClosureSpec) (secrets : Map SecretDescriptor)
    (services : Map ExecService) (composite' : ExecComposite)
    → lower_task id spec closures secrets services ≡ ok (composite_task composite')
    → composite'.steps ≡ map lower_step spec.steps
unfolding lower_task lower_composite
lower_task-composite id spec closures secrets services body h = elim (kind_cases spec.kind) [
  | inl e ↦
      let (exec, e1, last) =
        >>=-ok (lower_leaf id spec closures secrets services) _ (rw (lower_task, e) at h) in
      cc
  | inr e ↦
      let made = rw (lower_task, e) at h in
      let same : ◌≡◌ {A = ExecComposite}
          (record { task_id = id; steps = map lower_step spec.steps }) body =
        cc in
      sym (ap (λ (c : ExecComposite). c.steps) same)
]
