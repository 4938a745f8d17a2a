-- ===== src/Lower/Services.antt =====
-- `lower_service` of lower.rs. An `expect` on what validation proved is a `panic` where it fails.
use Prim.Native.String.{String}
use nixfied.Prelude.{
  Bool, true, false, not, ◌&&◌, Option, none, some, List, [], ◌∷◌, Text, codes, map, Result, ok,
  err, ◌>>=◌, ◌>>◌, ensure, lookup, any, map_insert, set_extend, if◌then◌else◌,
}
use mathlib.Core.Option
use nixfied.Manifest.Types.{
  Map, ClosureEffect, network_listener, ClosureSpec, InvocationSpec, SecretDescriptor,
  TerminalSemantics, ProbePolicy, StopSpec, PrepareSpec, Endpoint, ServiceSpec,
}
use nixfied.Manifest.Errors.{is_empty}
use nixfied.Manifest.Ids.{is_path_safe_id}
use nixfied.Manifest.Units.{is_some}
use nixfied.Template.Parse.{Scope, service_owner}
use nixfied.Execution.Types as Exec
use nixfied.Execution.Types.{
  OpMeta, StopOp, EndpointPlan, EndpointSet, ServiceAddressing, endpointless, endpoints,
  ExecService, ResolvedInvocation,
}
use nixfied.Lower.Errors.{LowerError, listener_required, listener_refused, panic}
use nixfied.Lower.References.{contains_key}
use nixfied.Lower.Resolve.{resolve}

unfoldable pub is_listener : ClosureEffect → Bool
is_listener network_listener = true
is_listener _ = false

unfoldable pub op_meta : Text → TerminalSemantics → OpMeta
op_meta operation_id terminal = record {
  operation_id = operation_id;
  terminal_success = terminal.success;
  terminal_failure = terminal.failure;
}

unfoldable pub lower_policy : Text → ProbePolicy → Exec.ProbePolicy
lower_policy label policy = record {
  label = label;
  timeout = policy.timeout_ms;
  retry_interval = policy.retry_interval_ms;
  max_attempts = policy.max_attempts;
}

unfoldable pub lower_stop : StopSpec → StopOp
unfolding op_meta
lower_stop stop = record {
  meta = op_meta stop.operation_id stop.terminal;
  signal = stop.signal;
  timeout = stop.timeout_ms;
}

-- `Option::expect`
unfoldable pub expect {ℓ} : {A : Type ℓ} → String → Option A → Result LowerError A
expect message none = err (panic message)
expect message (some a) = ok a

-- `EndpointId::parse`
unfoldable pub parse_endpoint_id : Text → Option Text
unfolding is_path_safe_id
parse_endpoint_id value = if is_path_safe_id value then some value else none

-- `EndpointSet::new`
unfoldable pub new_endpoint_set : Text → Map EndpointPlan → Option EndpointSet
unfolding contains_key
new_endpoint_set primary entries =
    if contains_key entries primary
    then some (record { primary = primary; entries = entries })
    else none

-- The services among the targets that have endpoints.
unfoldable pub addressable : Map ServiceSpec → List Text → Result LowerError (List Text)
unfolding expect is_empty
addressable services [] = ok []
addressable services (id ∷ ids) = do
  target ← expect "connectsTo names a service" (lookup id services)
  rest ← addressable services ids
  ok (if is_empty target.endpoints then rest else id ∷ rest)

unfoldable pub service_scope : Text → ServiceSpec → List Text → Scope
unfolding is_some
service_scope name service targets = record {
  owner = service_owner name;
  has_primary = is_some service.primary_endpoint;
  own_endpoints = map (λ e. e.0) service.endpoints;
  services = set_extend [] targets;
}

-- A start closure listens exactly if the service has endpoints.
unfoldable pub check_listener : Text → Text → Bool → Bool → Result LowerError (Unit {0})
check_listener name closure_id endpoint_less listens =
    ensure (listener_required name closure_id) (not (not endpoint_less && not listens))
    >> ensure (listener_refused name closure_id) (not (endpoint_less && listens))

module _ (closures : Map ClosureSpec) (secrets : Map SecretDescriptor) (scope : Scope) where
  unfoldable pub resolve_probe : InvocationSpec → Result LowerError ResolvedInvocation
  unfolding resolve
  resolve_probe probe = do r ← resolve closures secrets probe scope; ok r.0

  unfoldable pub ready_probes : Map Endpoint → Result LowerError (List ResolvedInvocation)
  unfolding resolve_probe
  ready_probes [] = ok []
  ready_probes ((id, endpoint) ∷ rest) = do
    ready ← resolve_probe endpoint.ready_probe
    more ← ready_probes rest
    ok (ready ∷ more)

  -- `endpoints.iter().zip(ready_probes)`
  unfoldable pub endpoint_plans :
      Map Endpoint
      → List ResolvedInvocation
      → Map EndpointPlan
      → Result LowerError (Map EndpointPlan)
  unfolding resolve_probe expect parse_endpoint_id
  endpoint_plans [] readies entries = ok entries
  endpoint_plans ((id, endpoint) ∷ rest) [] entries = ok entries
  endpoint_plans ((id, endpoint) ∷ rest) (ready ∷ readies) entries = do
    key ← expect "validated endpoint id" (parse_endpoint_id id)
    health ← resolve_probe endpoint.health_probe
    endpoint_plans rest readies
        (map_insert key (record { host = endpoint.host; ready = ready; health = health }) entries)

  unfoldable pub lower_endpoints : ServiceSpec → Result LowerError ServiceAddressing
  unfolding ready_probes endpoint_plans expect parse_endpoint_id new_endpoint_set
  lower_endpoints service = do
    readies ← ready_probes service.endpoints
    entries ← endpoint_plans service.endpoints readies []
    name ← expect "validated primary" service.primary_endpoint
    primary ← expect "validated endpoint id" (parse_endpoint_id name)
    set ← expect "validated primary member" (new_endpoint_set primary entries)
    ok (endpoints set)

  unfoldable pub lower_endpointless : ServiceSpec → Result LowerError ServiceAddressing
  unfolding resolve_probe expect
  lower_endpointless service = do
    ready_probe ← expect "validated scalar probe" service.lifecycle.ready.probe
    ready ← resolve_probe ready_probe
    health_probe ← expect "validated scalar probe" service.lifecycle.health.probe
    health ← resolve_probe health_probe
    ok (endpointless ready health)

  unfoldable pub lower_addressing : ServiceSpec → Result LowerError ServiceAddressing
  unfolding lower_endpoints lower_endpointless is_empty
  lower_addressing service = elim (is_empty service.endpoints) [
    | true ↦ lower_endpointless service
    | false ↦ lower_endpoints service
  ]

unfoldable pub lower_service :
    Text
    → ServiceSpec
    → Map ServiceSpec
    → Map ClosureSpec
    → Map SecretDescriptor
    → Result LowerError ExecService
unfolding addressable service_scope resolve check_listener is_listener lower_addressing op_meta
    lower_policy lower_stop is_empty
lower_service name service all_services closures secrets = do
  targets ← addressable all_services service.connects_to.items
  start ←
      resolve closures secrets service.lifecycle.start.invocation
        (service_scope name service targets)
  check_listener name start.1 (is_empty service.endpoints) (any is_listener start.2.effects)
  addressing ← lower_addressing closures secrets (service_scope name service targets) service
  ok (record {
    name = name;
    prepare = Option.map (λ (p : PrepareSpec). p.task) service.lifecycle.prepare;
    start = record {
      meta = op_meta service.lifecycle.start.operation_id service.lifecycle.start.terminal;
      exec = start.0;
    };
    ready = record {
      meta = op_meta service.lifecycle.ready.operation_id service.lifecycle.ready.terminal;
      policy = lower_policy (codes "ready") service.lifecycle.ready.policy;
    };
    health = record {
      meta = op_meta service.lifecycle.health.operation_id service.lifecycle.health.terminal;
      policy = lower_policy (codes "health") service.lifecycle.health.policy;
    };
    stop = lower_stop service.lifecycle.stop;
    clean = record {
      meta = op_meta service.lifecycle.clean.operation_id service.lifecycle.clean.terminal;
    };
    addressing = addressing;
    connects_to = service.connects_to.items;
    containment = service.containment;
  })
