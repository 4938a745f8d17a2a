-- ===== src/Lower/Errors.antt =====
-- The errors of lower.rs, all of which have the code `ManifestAdmission`, but for `panic`: an
-- `expect` or an indexing that fails. Messages are constructors with the values that they show.
use Prim.Native.String.{String}
use nixfied.Prelude.{Text, Result, ok, err}
use nixfied.Template.Parse.{Owner, TemplateError}
use nixfied.Execution.Flatten.{PlanError}

pub data LowerError : Type 0 where
  undeclared : String → Text → LowerError
  closure_system : Text → Text → Text → LowerError
  duplicate_operation_id : Text → LowerError
  unresolvable : Owner → Text → LowerError
  declares_path : Owner → LowerError
  executable_differs : Owner → Text → Text → LowerError
  unconfined_cwd : Owner → LowerError
  listener_required listener_refused : Text → Text → LowerError
  template_refused : TemplateError → LowerError
  plan_refused : PlanError → LowerError
  panic : String → LowerError

unfoldable pub of_template {ℓ} : {A : Type ℓ} → Result TemplateError A → Result LowerError A
of_template (err e) = err (template_refused e)
of_template (ok a) = ok a

unfoldable pub of_plan {ℓ} : {A : Type ℓ} → Result PlanError A → Result LowerError A
of_plan (err e) = err (plan_refused e)
of_plan (ok a) = ok a
