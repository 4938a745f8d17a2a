-- ===== src/Manifest/Units.antt =====
-- The closures, the invocations and the services of validation.rs.
use nixfied.Prelude.{
  Bool, true, false, not, ◌&&◌, ◌||◌, Option, none, some, List, [], ◌∷◌, ◌++◌, Text, text_eq, ok,
  err, ◌>>◌, ensure, any, lookup, if◌then◌else◌, map,
}
use nixfied.Manifest.Types.{
  Map, ClosureSpec, InvocationSpec, StdinPolicy, null, inherit, TerminalSemantics, Lifecycle,
  Endpoint, ServiceSpec, TaskSpec,
}
use nixfied.Manifest.Errors.{
  unsupported_value, as_text, as_pair, fixed, Check, is_empty, require_non_empty,
}
use nixfied.Manifest.Ids.{require_path_safe_id}

unfoldable pub is_some {ℓ} : {A : Type ℓ} → Option A → Bool
is_some none = false
is_some (some a) = true

-- A check of each element, in order.
unfoldable pub check_each {ℓ} : {A : Type ℓ} → (A → Check) → List A → Check
check_each check [] = ok tt
check_each check (x ∷ xs) = let rest = check_each check xs in check x >> rest

-- `run.is_empty()`, then `run[0]`.
unfoldable pub check_run : List Text → Check
unfolding require_non_empty
check_run [] = err (unsupported_value "invocation.run" "a non-empty argv" (fixed "[]"))
check_run (program ∷ args) = require_non_empty "invocation.run[0]" program

unfoldable pub validate_invocation : InvocationSpec → Check
unfolding check_run require_non_empty is_empty
validate_invocation invocation =
    check_run invocation.run
    >> (require_non_empty "invocation.executable" invocation.executable
        >> (require_non_empty "invocation.cwd" invocation.cwd
            >> ensure
                (unsupported_value "invocation.tools" "at least one tool closure" (fixed "[]"))
                (not (is_empty invocation.tools.items))))

unfoldable pub is_null : StdinPolicy → Bool
is_null null = true
is_null inherit = false

unfoldable pub validate_probe : InvocationSpec → Check
unfolding validate_invocation is_null is_some
validate_probe invocation =
    validate_invocation invocation
    >> ensure
        (unsupported_value "services.probe" "null stdin and no invocation-level timeoutMs"
          (fixed "invalid probe execution policy"))
        (not (not (is_null invocation.stdin) || is_some invocation.timeout_ms))

unfoldable pub option_list {ℓ} : {A : Type ℓ} → Option A → List A
option_list none = []
option_list (some a) = a ∷ []

unfoldable pub service_probes : ServiceSpec → List InvocationSpec
unfolding option_list
service_probes service =
    option_list service.lifecycle.ready.probe
    ++ (map (λ e. e.1.ready_probe) service.endpoints
        ++ (option_list service.lifecycle.health.probe
            ++ map (λ e. e.1.health_probe) service.endpoints))

unfoldable pub validate_task_invocation : Text × TaskSpec → Check
unfolding validate_invocation
validate_task_invocation entry = elim entry.1.invocation [
  | none ↦ ok tt
  | some invocation ↦ validate_invocation invocation
]

unfoldable pub validate_service_invocations : Text × ServiceSpec → Check
unfolding validate_invocation service_probes check_each
validate_service_invocations entry =
    validate_invocation entry.1.lifecycle.start.invocation
    >> check_each validate_probe (service_probes entry.1)

unfoldable pub validate_invocations : Map TaskSpec → Map ServiceSpec → Check
unfolding check_each
validate_invocations tasks services =
    check_each validate_task_invocation tasks >> check_each validate_service_invocations services

unfoldable pub validate_closure : Text × ClosureSpec → Check
unfolding require_non_empty
validate_closure entry =
    require_non_empty "closures.executable" entry.1.executable
    >> require_non_empty "closures.storePath" entry.1.store_path

unfoldable pub validate_closures : Map ClosureSpec → Check
unfolding check_each is_empty
validate_closures closures =
    ensure (unsupported_value "closures" "at least one closure" (fixed "{}"))
      (not (is_empty closures))
    >> check_each validate_closure closures

unfoldable pub validate_endpoint : Text → ServiceSpec → Text × Endpoint → Check
unfolding require_path_safe_id
validate_endpoint name service entry =
    require_path_safe_id "services.endpoints.endpointId" entry.1.endpoint_id
    >> (ensure
          (unsupported_value "services.endpoints" "map key equal to endpointId"
            (as_pair entry.0 entry.1.endpoint_id))
          (text_eq entry.1.endpoint_id entry.0)
        >> ensure
            (unsupported_value "services.endpoints"
              "endpointId distinct from every connectsTo serviceId" (as_pair name entry.0))
            (not (any (λ target. text_eq target entry.0) service.connects_to.items)))

-- The primary endpoint is one of the declared endpoints.
unfoldable pub check_primary : Text → Map Endpoint → Option Text → Check
unfolding is_some
check_primary name endpoints none =
    err (unsupported_value "services.primaryEndpoint" "a declared endpoint id" (as_text name))
check_primary name endpoints (some primary) =
    ensure
      (unsupported_value "services.primaryEndpoint" "a declared endpoint id" (as_pair name primary))
      (is_some (lookup primary endpoints))

unfoldable pub validate_service_endpoints : Text → ServiceSpec → Check
unfolding validate_endpoint check_primary check_each is_empty is_some
validate_service_endpoints name service =
    if is_empty service.endpoints
    then ensure
        (unsupported_value "services.primaryEndpoint"
          "no primary endpoint on an endpoint-less service" (as_text name))
        (not (is_some service.primary_endpoint))
    else check_each (validate_endpoint name service) service.endpoints
      >> check_primary name service.endpoints service.primary_endpoint

unfoldable pub lifecycle_ops : Lifecycle → List (Text × TerminalSemantics)
lifecycle_ops l =
    (l.start.operation_id, l.start.terminal)
    ∷ (l.ready.operation_id, l.ready.terminal)
    ∷ (l.health.operation_id, l.health.terminal)
    ∷ (l.stop.operation_id, l.stop.terminal)
    ∷ (l.clean.operation_id, l.clean.terminal)
    ∷ []

unfoldable pub validate_operation : Text × TerminalSemantics → Check
unfolding require_non_empty
validate_operation op =
    require_non_empty "lifecycle.operationId" op.0
    >> (require_non_empty "lifecycle.terminal.success" op.1.success
        >> require_non_empty "lifecycle.terminal.failure" op.1.failure)

unfoldable pub bool_ne : Bool → Bool → Bool
bool_ne true b = not b
bool_ne false b = b

unfoldable pub validate_service_lifecycle : ServiceSpec → Check
unfolding validate_operation lifecycle_ops bool_ne check_each is_empty is_some
validate_service_lifecycle service =
    ensure
      (unsupported_value "services.lifecycle.probe"
        "scalar probes exactly for endpoint-less services" (fixed "incoherent probe attachments"))
      (not (
        bool_ne (is_some service.lifecycle.ready.probe) (is_empty service.endpoints)
        || bool_ne (is_some service.lifecycle.health.probe) (is_empty service.endpoints)))
    >> check_each validate_operation (lifecycle_ops service.lifecycle)

unfoldable pub validate_service : Text × ServiceSpec → Check
unfolding validate_service_endpoints validate_service_lifecycle
validate_service entry =
    validate_service_endpoints entry.0 entry.1 >> validate_service_lifecycle entry.1

unfoldable pub validate_services : Map ServiceSpec → Map TaskSpec → Check
unfolding validate_service check_each is_empty
validate_services services tasks =
    ensure (unsupported_value "services" "at least one service or task" (fixed "{}"))
      (not (is_empty services && is_empty tasks))
    >> check_each validate_service services
