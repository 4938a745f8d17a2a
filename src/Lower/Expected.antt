-- ===== src/Lower/Expected.antt =====
-- The `expect`s of lower.rs on services and tasks: they never fail on what validation accepted.
use Prim.Native.String.{String}
use nixfied.Prelude.{
  suc, ◌≡◌, ◌⊎◌, refl, sym, ap, inl, inr, Bool, true, not, ◌&&◌, Option, none, some, List, [], ◌∷◌,
  Text, ok, >>=-ok, Errs, Errs-ok, Errs-bind, Errs-then, Errs-guard, Errs-ensure, lookup, Mem,
  IsKey, IsKey-head, IsKey-cons, IsKey-map_insert, map_insert-IsKey, lookup-cases, length, arith,
  Bool-cases, any,
}
use nixfied.Manifest.Types.{
  Map, TaskKind, leaf, composite, ClosureSpec, InvocationSpec, SecretDescriptor, Endpoint,
  ServiceSpec, TaskSpec,
}
use nixfied.Manifest.Errors.{is_empty}
use nixfied.Manifest.Ids.{is_path_safe_id}
use nixfied.Manifest.Units.{is_some, validate_service}
use nixfied.Manifest.Tasks.{validate_task}
use nixfied.Template.Parse.{Scope}
use nixfied.Execution.Types.{EndpointPlan, ExecService, ResolvedInvocation}
use nixfied.Lower.Errors.{listener_required, listener_refused}
use nixfied.Lower.References.{contains_key}
use nixfied.Lower.Resolve.{resolve}
use nixfied.Lower.Services.{
  is_listener, expect, parse_endpoint_id, new_endpoint_set, addressable, service_scope,
  check_listener, resolve_probe, ready_probes, endpoint_plans, lower_endpoints, lower_endpointless,
  lower_addressing, lower_service,
}
use nixfied.Lower.Tasks.{task_scope, lower_leaf, lower_task}
use nixfied.Lower.Validated.{
  IsAddressed, HasProbes, HasLeafParts, validate_service-IsAddressed, validate_service-HasProbes,
  validate_task-HasLeafParts,
}
use nixfied.Lower.Refusals.{IsRefusal, resolve-Errs}

pub expect-Errs :
    {A : Type 0} (message : String) (x : Option A) {a : A}
    → x ≡ some a
    → Errs IsRefusal (expect message x)
unfolding expect
expect-Errs message none h = cc
expect-Errs message (some b) h = Errs-ok IsRefusal b

expect-some :
    {A : Type 0} (message : String) (x : Option A) {a : A} → expect message x ≡ ok a → x ≡ some a
unfolding expect
expect-some message none h = cc
expect-some message (some b) h = cc

addressable-Errs :
    (services : Map ServiceSpec) (ids : List Text)
    → ((id : Text) → Mem id ids → IsKey services id)
    → Errs IsRefusal (addressable services ids)
unfolding addressable
addressable-Errs services [] k = Errs-ok IsRefusal []
addressable-Errs services (id ∷ ids) k =
    let (target, e) = k id (inl refl) in
    Errs-bind IsRefusal (expect "connectsTo names a service" (lookup id services)) _
      (expect-Errs "connectsTo names a service" (lookup id services) e)
      (λ t h.
        Errs-bind IsRefusal (addressable services ids) _
          (addressable-Errs services ids (λ j n. k j (inr n))) (λ rest g. Errs-ok IsRefusal _))

check_listener-Errs :
    (name closure : Text) (a b : Bool) → Errs IsRefusal (check_listener name closure a b)
unfolding check_listener
check_listener-Errs name closure a b =
    Errs-guard IsRefusal (listener_required name closure) (not (not a && not b)) _ tt
      (λ h. Errs-ensure IsRefusal (listener_refused name closure) _ (λ g. tt))

parse_endpoint_id-some : (id : Text) → is_path_safe_id id ≡ true → parse_endpoint_id id ≡ some id
unfolding parse_endpoint_id
parse_endpoint_id-some id h = rw h refl

new_endpoint_set-some :
    (primary : Text) (entries : Map EndpointPlan)
    → IsKey entries primary
    → (s : _) × (new_endpoint_set primary entries ≡ some s)
unfolding new_endpoint_set contains_key is_some
new_endpoint_set-some primary entries (v, e) = (
  record { primary = primary; entries = entries },
  rw (new_endpoint_set, contains_key, e, is_some) refl,
)

module _ (closures : Map ClosureSpec) (secrets : Map SecretDescriptor) (scope : Scope) where
  resolve_probe-Errs :
      (probe : InvocationSpec) → Errs IsRefusal (resolve_probe closures secrets scope probe)
  unfolding resolve_probe
  resolve_probe-Errs probe =
      Errs-bind IsRefusal (resolve closures secrets probe scope) _
        (resolve-Errs closures secrets probe scope) (λ r h. Errs-ok IsRefusal _)

  ready_probes-Errs :
      (entries : Map Endpoint) → Errs IsRefusal (ready_probes closures secrets scope entries)
  unfolding ready_probes
  ready_probes-Errs [] = Errs-ok IsRefusal []
  ready_probes-Errs ((id, endpoint) ∷ rest) =
      Errs-bind IsRefusal (resolve_probe closures secrets scope endpoint.ready_probe) _
        (resolve_probe-Errs endpoint.ready_probe)
        (λ r h.
          Errs-bind IsRefusal (ready_probes closures secrets scope rest) _ (ready_probes-Errs rest)
            (λ more g. Errs-ok IsRefusal _))

  -- One probe for each endpoint.
  length-ready_probes :
      (entries : Map Endpoint) {readies : List ResolvedInvocation}
      → ready_probes closures secrets scope entries ≡ ok readies
      → length readies ≡ length entries
  unfolding ready_probes
  length-ready_probes [] {readies} h = let same : [] ≡ readies = cc in rw (sym same) refl
  length-ready_probes ((id, endpoint) ∷ rest) {readies} h =
      let (r, e, h1) = >>=-ok (resolve_probe closures secrets scope endpoint.ready_probe) _ h in
      let (more, f, last) = >>=-ok (ready_probes closures secrets scope rest) _ h1 in
      let same : r ∷ more ≡ readies = cc in rw (sym same) (ap suc (length-ready_probes rest f))

  endpoint_plans-Errs :
      (service : Map Endpoint) (readies : List ResolvedInvocation) (entries : Map EndpointPlan)
      → ((id : Text) → IsKey service id → is_path_safe_id id ≡ true)
      → Errs IsRefusal (endpoint_plans closures secrets scope service readies entries)
  unfolding endpoint_plans
  endpoint_plans-Errs [] readies entries k = Errs-ok IsRefusal entries
  endpoint_plans-Errs ((id, endpoint) ∷ rest) [] entries k = Errs-ok IsRefusal entries
  endpoint_plans-Errs ((id, endpoint) ∷ rest) (ready ∷ readies) entries k =
      Errs-bind IsRefusal (expect "validated endpoint id" (parse_endpoint_id id)) _
        (expect-Errs "validated endpoint id" (parse_endpoint_id id)
          (parse_endpoint_id-some id (k id (IsKey-head id id endpoint rest refl))))
        (λ key h.
          Errs-bind IsRefusal (resolve_probe closures secrets scope endpoint.health_probe) _
            (resolve_probe-Errs endpoint.health_probe)
            (λ health g.
              endpoint_plans-Errs rest readies _ (λ j m. k j (IsKey-cons j id endpoint rest m))))

  -- Every endpoint has a plan.
  endpoint_plans-IsKey :
      (service : Map Endpoint) (readies : List ResolvedInvocation) (entries : Map EndpointPlan)
      {result : Map EndpointPlan} (key : Text)
      → ((id : Text) → IsKey service id → is_path_safe_id id ≡ true)
      → length readies ≡ length service
      → IsKey service key ⊎ IsKey entries key
      → endpoint_plans closures secrets scope service readies entries ≡ ok result
      → IsKey result key
  unfolding endpoint_plans lookup
  endpoint_plans-IsKey [] readies entries {result} key k l (inl (v, e)) h = cc
  endpoint_plans-IsKey [] readies entries {result} key k l (inr m) h =
      let same : entries ≡ result = cc in rw same at m
  endpoint_plans-IsKey ((id, endpoint) ∷ rest) [] entries key k l m h = absurd (omega (arith, l))
  endpoint_plans-IsKey ((id, endpoint) ∷ rest) (ready ∷ readies) entries key k l m h =
      let (name, e, h1) = >>=-ok (expect "validated endpoint id" (parse_endpoint_id id)) _ h in
      let (health, f, h2) =
        >>=-ok (resolve_probe closures secrets scope endpoint.health_probe) _ h1 in
      let safe = parse_endpoint_id-some id (k id (IsKey-head id id endpoint rest refl)) in
      let found = expect-some "validated endpoint id" (parse_endpoint_id id) e in
      let same : id ≡ name = cc in
      endpoint_plans-IsKey rest readies _ key (λ j n. k j (IsKey-cons j id endpoint rest n))
        (omega (arith, l))
        (elim m [
          | inl (v, n) ↦ elim (lookup-cases key id endpoint rest n) [
            | inl p ↦ inr (rw (sym p.0, same) (map_insert-IsKey name _ entries))
            | inr n' ↦ inl (v, n')
          ]
          | inr n ↦ inr (IsKey-map_insert key name _ entries n)
        ])
        h2

  lower_endpoints-Errs :
      (service : ServiceSpec)
      → IsAddressed service
      → Errs IsRefusal (lower_endpoints closures secrets scope service)
  unfolding lower_endpoints
  lower_endpoints-Errs service a =
      Errs-bind IsRefusal (ready_probes closures secrets scope service.endpoints) _
        (ready_probes-Errs service.endpoints)
        (λ readies h1.
          Errs-bind IsRefusal (endpoint_plans closures secrets scope service.endpoints readies []) _
            (endpoint_plans-Errs service.endpoints readies [] a.safe)
            (λ entries h2.
              Errs-bind IsRefusal (expect "validated primary" service.primary_endpoint) _
                (expect-Errs "validated primary" service.primary_endpoint a.declared)
                (λ name h3.
                  let declared = expect-some "validated primary" service.primary_endpoint h3 in
                  let given = a.declared in
                  let same : a.primary ≡ name = cc in
                  let key : IsKey service.endpoints name = rw same at a.is_key in
                  let parsed = parse_endpoint_id-some name (a.safe name key) in
                  Errs-bind IsRefusal (expect "validated endpoint id" (parse_endpoint_id name)) _
                    (expect-Errs "validated endpoint id" (parse_endpoint_id name) parsed)
                    (λ primary h4.
                      let kept = expect-some "validated endpoint id" (parse_endpoint_id name) h4 in
                      let one : name ≡ primary = cc in
                      let planned =
                        endpoint_plans-IsKey service.endpoints readies [] primary a.safe
                          (length-ready_probes service.endpoints h1) (inl (rw one at key)) h2 in
                      let (set, made) = new_endpoint_set-some primary entries planned in
                      Errs-bind IsRefusal
                        (expect "validated primary member" (new_endpoint_set primary entries)) _
                        (expect-Errs "validated primary member" (new_endpoint_set primary entries)
                          made)
                        (λ s h5. Errs-ok IsRefusal _)))))

  lower_endpointless-Errs :
      (service : ServiceSpec)
      → HasProbes service
      → Errs IsRefusal (lower_endpointless closures secrets scope service)
  unfolding lower_endpointless
  lower_endpointless-Errs service p =
      Errs-bind IsRefusal (expect "validated scalar probe" service.lifecycle.ready.probe) _
        (expect-Errs "validated scalar probe" service.lifecycle.ready.probe p.has_ready)
        (λ r h1.
          Errs-bind IsRefusal (resolve_probe closures secrets scope r) _ (resolve_probe-Errs r)
            (λ ready h2.
              Errs-bind IsRefusal (expect "validated scalar probe" service.lifecycle.health.probe) _
                (expect-Errs "validated scalar probe" service.lifecycle.health.probe p.has_health)
                (λ q h3.
                  Errs-bind IsRefusal (resolve_probe closures secrets scope q) _
                    (resolve_probe-Errs q) (λ health h4. Errs-ok IsRefusal _))))

  lower_addressing-Errs :
      (name : Text) (service : ServiceSpec)
      → validate_service (name, service) ≡ ok tt
      → Errs IsRefusal (lower_addressing closures secrets scope service)
  unfolding lower_addressing
  lower_addressing-Errs name service v = elim (Bool-cases (is_empty service.endpoints)) [
    | inl t ↦
        rw (lower_addressing, t)
          (lower_endpointless-Errs service (validate_service-HasProbes name service v t))
    | inr f ↦
        rw (lower_addressing, f)
          (lower_endpoints-Errs service (validate_service-IsAddressed name service v f))
  ]

pub lower_service-Errs :
    (name : Text) (service : ServiceSpec) (services : Map ServiceSpec) (closures : Map ClosureSpec)
    (secrets : Map SecretDescriptor)
    → validate_service (name, service) ≡ ok tt
    → ((id : Text) → Mem id service.connects_to.items → IsKey services id)
    → Errs IsRefusal (lower_service name service services closures secrets)
unfolding lower_service
lower_service-Errs name service services closures secrets v k =
    Errs-bind IsRefusal (addressable services service.connects_to.items) _
      (addressable-Errs services service.connects_to.items k)
      (λ targets h1.
        Errs-bind IsRefusal
          (resolve closures secrets service.lifecycle.start.invocation
            (service_scope name service targets))
          _
          (resolve-Errs closures secrets service.lifecycle.start.invocation
            (service_scope name service targets))
          (λ start h2.
            Errs-then IsRefusal
              (check_listener name start.1 (is_empty service.endpoints)
                (any is_listener start.2.effects))
              _
              (check_listener-Errs name start.1 (is_empty service.endpoints)
                (any is_listener start.2.effects))
              (λ h3.
                Errs-bind IsRefusal
                  (lower_addressing closures secrets (service_scope name service targets) service) _
                  (lower_addressing-Errs closures secrets (service_scope name service targets) name
                    service v)
                  (λ addressing h4. Errs-ok IsRefusal _))))

lower_leaf-Errs :
    (id : Text) (task : TaskSpec) (closures : Map ClosureSpec) (secrets : Map SecretDescriptor)
    (services : Map ExecService)
    → HasLeafParts task
    → Errs IsRefusal (lower_leaf id task closures secrets services)
unfolding lower_leaf
lower_leaf-Errs id task closures secrets services p =
    Errs-bind IsRefusal (expect "validated leaf has an invocation" task.invocation) _
      (expect-Errs "validated leaf has an invocation" task.invocation p.has_invocation)
      (λ invocation h1.
        Errs-bind IsRefusal (expect "validated leaf has an exit policy" task.exit_policy) _
          (expect-Errs "validated leaf has an exit policy" task.exit_policy p.has_exit_policy)
          (λ policy h2.
            Errs-bind IsRefusal (expect "validated leaf has an operation id" task.operation_id) _
              (expect-Errs "validated leaf has an operation id" task.operation_id
                p.has_operation_id)
              (λ operation h3.
                Errs-bind IsRefusal
                  (resolve closures secrets invocation (task_scope id task.requires.items services))
                  _
                  (resolve-Errs closures secrets invocation
                    (task_scope id task.requires.items services))
                  (λ exec h4. Errs-ok IsRefusal _))))

pub lower_task-Errs :
    (id : Text) (task : TaskSpec) (closures : Map ClosureSpec) (secrets : Map SecretDescriptor)
    (services : Map ExecService)
    → validate_task (id, task) ≡ ok tt
    → Errs IsRefusal (lower_task id task closures secrets services)
unfolding lower_task
lower_task-Errs id task closures secrets services v = elim (kind_cases task.kind) [
  | inl e ↦
      rw (lower_task, e)
        (Errs-bind IsRefusal (lower_leaf id task closures secrets services) _
          (lower_leaf-Errs id task closures secrets services
            (validate_task-HasLeafParts id task v e))
          (λ exec h. Errs-ok IsRefusal _))
  | inr e ↦ rw (lower_task, e) (Errs-ok IsRefusal _)
]
  where
    kind_cases : (k : TaskKind) → (k ≡ leaf) ⊎ (k ≡ composite)
    kind_cases leaf = inl refl
    kind_cases composite = inr refl
