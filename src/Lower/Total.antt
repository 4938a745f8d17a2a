-- ===== src/Lower/Total.antt =====
-- `lower` of lower.rs as a whole: what a lowered program has, and what a lowering can fail with.
use nixfied.Prelude.{
  ◌≡◌, ◌⊎◌, sym, ap, ◌∙◌, inl, inr, Option, none, some, [], ◌∷◌, Text, map, Result, ok, err, >>=-ok,
  >>-ok, Errs, Errs-ok, Errs-bind, Errs-then, Result-cases, Mem, IsKey, IsKey-keys, IsKey-Mem,
  mem-map,
}
use mathlib.Core.Option
use nixfied.Manifest.Types.{Map, PrepareSpec, StepSpec, TaskSpec, Manifest}
use nixfied.Manifest.Validate.{validate}
use nixfied.Execution.Types.{
  ExecService, ExecStep, ExecutableTask, leaf_task, composite_task, Program,
}
use nixfied.Execution.Admit.{prove_graph, prove_capacity}
use nixfied.Execution.Closed.{step_names, IsClosed}
use nixfied.Execution.Admission.{prove_graph-Errs}
use nixfied.Execution.Capacity.{prove_capacity-Errs}
use nixfied.Lower.Errors.{LowerError, of_plan}
use nixfied.Lower.References.{prove_references}
use nixfied.Lower.Tasks.{lower_step}
use nixfied.Lower.Program.{lower_services, lower_tasks, lower_windows, lower_program, lower}
use nixfied.Lower.Declared.{PreparesWith, AreDeclared, prove_references-AreDeclared}
use nixfied.Lower.Checks.{prove_references-Errs}
use nixfied.Lower.Refusals.{IsRefusal, of_plan-Errs}
use nixfied.Lower.Totality.{IsMap, lower_program-Errs}
use nixfied.Lower.Kept.{
  lower_service-kept, lower_services-spec, keys-lower_services, lower_tasks-spec, keys-lower_tasks,
  lower_task-leaf, lower_task-composite,
}

prepared_task :
    (tasks : Map TaskSpec) (prepare : Option PrepareSpec) (task : Text)
    → PreparesWith tasks prepare
    → Option.map (λ (p : PrepareSpec). p.task) prepare ≡ some task
    → IsKey tasks task
prepared_task tasks none task k e = cc
prepared_task tasks (some prepare) task k e = let same : prepare.task ≡ task = cc in rw same at k

-- The structural map of a manifest whose references are proved gives a program all of whose names are
-- declared.
pub lower_program-IsClosed :
    (m : Manifest) (program : Program)
    → prove_references m ≡ ok tt
    → lower_program m ≡ ok program
    → IsClosed program
unfolding lower_program lower_step
lower_program-IsClosed m program r h =
    let d = prove_references-AreDeclared m r in
    let (services, e1, h1) =
      >>=-ok (lower_services m.services m.services m.closures m.secrets) _ h in
    let (tasks, e2, h2) = >>=-ok (lower_tasks m.tasks m.closures m.secrets services) _ h1 in
    let (windows, e3, last) = >>=-ok (lower_windows m.placement.slot_placements []) _ h2 in
    let whole : ◌≡◌ {A = Program}
        (record { services = services; tasks = tasks; slot_windows = windows }) program =
      cc in
    let closed = of_parts d services tasks windows e1 e2 in rw whole at closed
  where
    names_kept :
        (steps : Map StepSpec) (name : Text)
        → Mem name (map (λ e. e.0) steps)
        → Mem name (step_names (map lower_step steps))
    names_kept [] name k = absurd k
    names_kept (entry ∷ steps) name (inl e) = inl e
    names_kept (entry ∷ steps) name (inr k) = inr (names_kept steps name k)

    of_parts :
        AreDeclared m
        → (services : Map ExecService) (tasks : Map ExecutableTask) (windows : _)
        → lower_services m.services m.services m.closures m.secrets ≡ ok services
        → lower_tasks m.tasks m.closures m.secrets services ≡ ok tasks
        → IsClosed (record { services = services; tasks = tasks; slot_windows = windows })
    of_parts d services tasks windows e1 e2 = record {
      connects = λ id s target n k.
          let (spec, o, f) =
            lower_services-spec m.services m.services m.closures m.secrets id s e1 n in
          let (connects, prepare) = lower_service-kept id spec m.services m.closures m.secrets f in
          IsKey-keys target m.services services
            (keys-lower_services m.services m.services m.closures m.secrets e1)
            (d.connects id spec target o (rw connects at k));
      prepares = λ id s task n e.
          let (spec, o, f) =
            lower_services-spec m.services m.services m.closures m.secrets id s e1 n in
          let (connects, prepare) = lower_service-kept id spec m.services m.closures m.secrets f in
          IsKey-keys task m.tasks tasks (keys-lower_tasks m.tasks m.closures m.secrets services e2)
            (prepared_task m.tasks spec.lifecycle.prepare task (d.prepares id spec o)
              (sym prepare ∙ e));
      requires = λ id l service n k.
          let (spec, o, f) =
            lower_tasks-spec m.tasks m.closures m.secrets services id (leaf_task l) e2 n in
          let same = lower_task-leaf id spec m.closures m.secrets services l f in
          IsKey-keys service m.services services
            (keys-lower_services m.services m.services m.closures m.secrets e1)
            (d.requires id spec service o (rw same at k));
      steps = λ id c step n k.
          let (spec, o, f) =
            lower_tasks-spec m.tasks m.closures m.secrets services id (composite_task c) e2 n in
          let shape = lower_task-composite id spec m.closures m.secrets services c f in
          let (entry, i, e) = mem-map lower_step step spec.steps (rw shape at k) in
          let same : entry.1.task ≡ step.task = sym (ap (λ (s : ExecStep). s.task) e) in
          let key : IsKey m.tasks entry.1.task = d.steps id spec entry.0 entry.1 o i in
          IsKey-keys step.task m.tasks tasks
            (keys-lower_tasks m.tasks m.closures m.secrets services e2) (rw same at key);
      siblings = λ id c step dependency n k w.
          let (spec, o, f) =
            lower_tasks-spec m.tasks m.closures m.secrets services id (composite_task c) e2 n in
          let shape = lower_task-composite id spec m.closures m.secrets services c f in
          let (entry, i, e) = mem-map lower_step step spec.steps (rw shape at k) in
          let same : step.depends_on ≡ entry.1.depends_on.items =
            ap (λ (s : ExecStep). s.depends_on) e in
          let key = d.siblings id spec entry.0 entry.1 dependency o i (rw same at w) in
          let there = names_kept spec.steps dependency (IsKey-Mem dependency spec.steps key) in
          rw shape there;
    }

-- A lowered program declares every name that it refers to: the services of `connects_to` and
-- `requires`, the tasks of `prepare` and of steps, and the sibling steps of `depends_on`.
pub lower-IsClosed : (m : Manifest) (program : Program) → lower m ≡ ok program → IsClosed program
unfolding lower
lower-IsClosed m program h =
    let (r, h1) = >>-ok (prove_references m) _ h in
    let (p, e1, h2) = >>=-ok (lower_program m) _ h1 in
    let (facts, e2, h3) = >>=-ok (of_plan (prove_graph p)) _ h2 in
    let (checked, last) = >>-ok (of_plan (prove_capacity p facts)) _ h3 in
    let same : p ≡ program = cc in
    let closed : IsClosed p = lower_program-IsClosed m p r e1 in rw same at closed

pub of_plan-ok : {A : Type 0} (r : _) {a : A} → of_plan r ≡ ok a → r ≡ ok a
unfolding of_plan
of_plan-ok (err e) h = cc
of_plan-ok (ok b) h = cc

lower-Errs :
    (abi : Text) (m : Manifest)
    → validate abi m ≡ ok tt
    → IsMap m.placement.slot_placements
    → Errs IsRefusal (lower m)
unfolding lower
lower-Errs abi m v unique =
    Errs-then IsRefusal (prove_references m) _ (prove_references-Errs m) (λ r.
      Errs-bind IsRefusal (lower_program m) _ (lower_program-Errs abi m v unique r) (λ program h1.
        let c = lower_program-IsClosed m program r h1 in
        Errs-bind IsRefusal (of_plan (prove_graph program)) _
          (of_plan-Errs (prove_graph program) (prove_graph-Errs program c))
          (λ facts h2.
            Errs-then IsRefusal (of_plan (prove_capacity program facts)) _
              (of_plan-Errs (prove_capacity program facts)
                (prove_capacity-Errs program facts c (of_plan-ok (prove_graph program) h2)))
              (λ h3. Errs-ok IsRefusal program))))

-- A program all of whose names are declared, or an error that the source returns.
abbrev pub Lowers : Result LowerError Program → Type 0
Lowers r =
    ((program : Program) × (r ≡ ok program) × IsClosed program)
    ⊎ ((e : LowerError) × (r ≡ err e) × IsRefusal e)

-- On a manifest that validation accepts, and whose slot placements are a map, the lowering is total:
-- it gives a program that declares every name that it refers to, or an error that the source
-- returns. No `expect` and no indexing fails, and the fuel of the tokenizer, of the flattening, of the
-- cycle search and of the service union is enough.
pub lower-cases :
    (abi : Text) (m : Manifest)
    → validate abi m ≡ ok tt
    → IsMap m.placement.slot_placements
    → Lowers (lower m)
lower-cases abi m v unique = elim (Result-cases (lower m)) [
  | inl (e, h) ↦ inr (e, h, lower-Errs abi m v unique e h)
  | inr (program, h) ↦ inl (program, h, lower-IsClosed m program h)
]
