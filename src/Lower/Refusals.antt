-- ===== src/Lower/Refusals.antt =====
-- What a lowering can fail with: the errors that the source returns, and none of its panics.
use nixfied.Prelude.{
  ◌≡◌, ◌≢◌, ◌⊎◌, refl, inl, inr, true, false, not, none, some, List, [], ◌∷◌, Text, codes, text_eq,
  Result, ok, err, Errs, Errs-ok, Errs-of, Errs-bind, Errs-guard, lookup, map, Option-cases,
}
use nixfied.Manifest.Types.{Map, ClosureSpec, InvocationSpec, SecretDescriptor}
use nixfied.Template.Parse.{
  Scope, Owner, TemplateError, tokens_diverge, no_endpoint, no_service, undeclared_endpoint,
  secret_not_allowed, undeclared_secret, malformed_placeholder, parse,
}
use nixfied.Template.Scoped.{parse-IsScoped}
use nixfied.Execution.Flatten.{PlanError}
use nixfied.Execution.Closed.{IsPlanRefusal}
use nixfied.Lower.Errors.{
  LowerError, declares_path, executable_differs, template_refused, plan_refused, panic, of_template,
  of_plan,
}
use nixfied.Lower.Paths.{relative_cwd}
use nixfied.Lower.References.{contains_key}
use nixfied.Lower.Resolve.{
  Selected, select_closure, resolve_tools, selected_or, parse_args, parse_env, resolve_cwd,
  resolve_run, resolve,
}

abbrev pub IsRefusal : LowerError → Type 0
IsRefusal (panic message) = ⊥
IsRefusal (template_refused tokens_diverge) = ⊥
IsRefusal (plan_refused e) = IsPlanRefusal e
IsRefusal _ = Unit

pub of_plan-Errs :
    {A : Type 0} (r : Result PlanError A) → Errs IsPlanRefusal r → Errs IsRefusal (of_plan r)
unfolding of_plan
of_plan-Errs (err e) h = Errs-of IsRefusal _ (h e refl)
of_plan-Errs (ok a) h = Errs-ok IsRefusal a

of_template-Errs :
    {A : Type 0} (r : Result TemplateError A)
    → r ≢ err tokens_diverge
    → Errs IsRefusal (of_template r)
unfolding of_template
of_template-Errs (err (no_endpoint i p)) h = Errs-of IsRefusal _ tt
of_template-Errs (err (no_service i p)) h = Errs-of IsRefusal _ tt
of_template-Errs (err (undeclared_endpoint o i)) h = Errs-of IsRefusal _ tt
of_template-Errs (err secret_not_allowed) h = Errs-of IsRefusal _ tt
of_template-Errs (err (undeclared_secret i)) h = Errs-of IsRefusal _ tt
of_template-Errs (err (malformed_placeholder o k)) h = Errs-of IsRefusal _ tt
of_template-Errs (err tokens_diverge) h = absurd (h refl)
of_template-Errs (ok a) h = Errs-ok IsRefusal a

module _ (scope : Scope) (secrets : Map SecretDescriptor) where
  parse_args-Errs : (texts : List Text) → Errs IsRefusal (parse_args scope secrets texts)
  unfolding parse_args
  parse_args-Errs [] = Errs-ok IsRefusal _
  parse_args-Errs (text ∷ texts) =
      Errs-bind IsRefusal (of_template (parse scope (map (λ e. e.0) secrets) false text)) _
        (of_template-Errs _ (parse-IsScoped scope (map (λ e. e.0) secrets) false text).0)
        (λ pieces h.
          Errs-bind IsRefusal (parse_args scope secrets texts) _ (parse_args-Errs texts)
            (λ more k. Errs-ok IsRefusal _))

  parse_env-Errs : (entries : Map Text) → Errs IsRefusal (parse_env scope secrets entries)
  unfolding parse_env
  parse_env-Errs [] = Errs-ok IsRefusal _
  parse_env-Errs ((key, value) ∷ entries) =
      Errs-bind IsRefusal (of_template (parse scope (map (λ e. e.0) secrets) true value)) _
        (of_template-Errs _ (parse-IsScoped scope (map (λ e. e.0) secrets) true value).0)
        (λ pieces h.
          Errs-bind IsRefusal (parse_env scope secrets entries) _ (parse_env-Errs entries)
            (λ more k. Errs-ok IsRefusal _))

resolve_tools-Errs :
    (closures : Map ClosureSpec) (program : Text) (tools : List Text) (selected : Selected)
    → Errs IsRefusal (resolve_tools closures program tools selected)
unfolding resolve_tools
resolve_tools-Errs closures program [] selected = Errs-ok IsRefusal _
resolve_tools-Errs closures program (tool ∷ tools) selected =
    elim (Option-cases (lookup tool closures)) [
      | inl e ↦ rw (resolve_tools, e) (Errs-of IsRefusal _ tt)
      | inr (closure, e) ↦
          rw (resolve_tools, e)
            (Errs-bind IsRefusal
              (resolve_tools closures program tools (select_closure program tool closure selected))
              _ (resolve_tools-Errs closures program tools _) (λ rest h. Errs-ok IsRefusal _))
    ]

selected_or-Errs :
    (owner : Owner) (program : Text) (s : Selected) → Errs IsRefusal (selected_or owner program s)
unfolding selected_or
selected_or-Errs owner program none = Errs-of IsRefusal _ tt
selected_or-Errs owner program (some chosen) = Errs-ok IsRefusal _

resolve_cwd-Errs : (owner : Owner) (cwd : Text) → Errs IsRefusal (resolve_cwd owner cwd)
unfolding resolve_cwd
resolve_cwd-Errs owner cwd = elim (Option-cases (relative_cwd cwd)) [
  | inl e ↦ rw (resolve_cwd, e) (Errs-of IsRefusal _ tt)
  | inr (c, e) ↦ rw (resolve_cwd, e) (Errs-ok IsRefusal _)
]

module _ (closures : Map ClosureSpec) (secrets : Map SecretDescriptor) (invocation : InvocationSpec)
    (scope : Scope) where
  resolve_run-Errs :
      (program : Text) (args : List Text)
      → Errs IsRefusal (resolve_run closures secrets invocation scope program args)
  unfolding resolve_run
  resolve_run-Errs program args =
      Errs-guard IsRefusal (declares_path scope.owner)
        (not (contains_key invocation.env (codes "PATH"))) _ tt
        (λ h1.
          Errs-bind IsRefusal (resolve_tools closures program invocation.tools.items none) _
            (resolve_tools-Errs closures program invocation.tools.items none)
            (λ tools h2.
              Errs-bind IsRefusal (selected_or scope.owner program tools.1) _
                (selected_or-Errs scope.owner program tools.1)
                (λ chosen h3.
                  Errs-guard IsRefusal
                    (executable_differs scope.owner invocation.executable chosen.1.executable)
                    (text_eq chosen.1.executable invocation.executable) _ tt
                    (λ h4.
                      Errs-bind IsRefusal (parse_args scope secrets args) _
                        (parse_args-Errs scope secrets args)
                        (λ parsed h5.
                          Errs-bind IsRefusal (parse_env scope secrets invocation.env) _
                            (parse_env-Errs scope secrets invocation.env)
                            (λ env h6.
                              Errs-bind IsRefusal (resolve_cwd scope.owner invocation.cwd) _
                                (resolve_cwd-Errs scope.owner invocation.cwd)
                                (λ cwd h7. Errs-ok IsRefusal _)))))))

  pub resolve-Errs : Errs IsRefusal (resolve closures secrets invocation scope)
  unfolding resolve
  resolve-Errs = elim (run_cases invocation.run) [
    | inl e ↦ rw e (Errs-of IsRefusal _ tt)
    | inr (program, args, e) ↦ rw e (resolve_run-Errs program args)
  ]
    where
      run_cases : (run : List Text) → (run ≡ []) ⊎ ((p : Text) × (ps : List Text) × (run ≡ p ∷ ps))
      run_cases [] = inl refl
      run_cases (p ∷ ps) = inr (p, ps, refl)
