-- ===== src/Lower/Validated.antt =====
-- What the checks of validation.rs leave behind for the lowering, and the rules for checks in order.
use nixfied.Prelude.{
  ◌≡◌, refl, inl, inr, true, false, not, ◌||◌, Option, none, some, List, [], ◌∷◌, Text, text_eq,
  text_eq→≡, ok, >>-ok, ensure-ok, lookup, Mem, Option-cases, IsKey, lookup-Mem,
}
use nixfied.Manifest.Types.{
  Map, leaf, Endpoint, ServiceSpec, InvocationSpec, TaskSpec, ExitPolicy, Manifest,
}
use nixfied.Manifest.Errors.{Check, is_empty}
use nixfied.Manifest.Ids.{is_path_safe_id, require_path_safe_id}
use nixfied.Manifest.Placements.{validate_slot_policy, validate_slot_placements}
use nixfied.Manifest.Units.{
  is_some, check_each, validate_endpoint, check_primary, validate_service_endpoints, bool_ne,
  validate_service_lifecycle, validate_service, validate_services, validate_invocations,
  validate_closures,
}
use nixfied.Manifest.Tasks.{
  check_operation, check_exit_policy, validate_leaf, validate_kind, validate_task, validate_tasks,
}
use nixfied.Manifest.Validate.{
  validate, validate_exact_identities, validate_required_strings, validate_unit_ids,
  validate_codebases, validate_environments,
}

pub check_each-Mem :
    {A : Type 0} (check : A → Check) (xs : List A) (x : A)
    → check_each check xs ≡ ok tt
    → Mem x xs
    → check x ≡ ok tt
unfolding check_each
check_each-Mem check [] x h m = absurd m
check_each-Mem check (y ∷ ys) x h m =
    let (f, g) = >>-ok (check y) (check_each check ys) h in
    elim m [ inl e ↦ rw e f | inr n ↦ check_each-Mem check ys x g n ]

-- The parts of a validated manifest that the lowering relies on.
pub record IsChecked (m : Manifest) : Type 0 where
  pub services :
      (name : Text) (s : ServiceSpec)
      → Mem (name, s) m.services
      → validate_service (name, s) ≡ ok tt
  pub tasks : (id : Text) (t : TaskSpec) → Mem (id, t) m.tasks → validate_task (id, t) ≡ ok tt
  pub placements : validate_slot_placements m.slot_policy m.placement.slot_placements ≡ ok tt

pub validate-IsChecked : (abi : Text) (m : Manifest) → validate abi m ≡ ok tt → IsChecked m
unfolding validate validate_services validate_tasks
validate-IsChecked abi m h =
    let (h1, r1) = >>-ok (validate_exact_identities abi m) _ h in
    let (h2, r2) = >>-ok (validate_required_strings m) _ r1 in
    let (h3, r3) = >>-ok (validate_unit_ids m) _ r2 in
    let (h4, r4) = >>-ok (validate_codebases m.codebases) _ r3 in
    let (h5, r5) = >>-ok (validate_environments m.environments) _ r4 in
    let (h6, r6) = >>-ok (validate_slot_policy m.slot_policy) _ r5 in
    let (h7, r7) =
      >>-ok (validate_slot_placements m.slot_policy m.placement.slot_placements) _ r6 in
    let (h8, r8) = >>-ok (validate_invocations m.tasks m.services) _ r7 in
    let (h9, r9) = >>-ok (validate_closures m.closures) _ r8 in
    let (h10, h11) = >>-ok (validate_services m.services m.tasks) _ r9 in
    record {
      services =
          λ name s k. check_each-Mem validate_service m.services (name, s) (>>-ok _ _ h10).1 k;
      tasks = λ id t k. check_each-Mem validate_task m.tasks (id, t) h11 k;
      placements = h7;
    }

-- A service with endpoints has a primary one among them, and all their ids are path-safe.
pub record IsAddressed (service : ServiceSpec) : Type 0 where
  pub primary : Text
  pub declared : service.primary_endpoint ≡ some primary
  pub is_key : IsKey service.endpoints primary
  pub safe : (id : Text) → IsKey service.endpoints id → is_path_safe_id id ≡ true

-- A service without endpoints has both scalar probes.
pub record HasProbes (service : ServiceSpec) : Type 0 where
  pub ready : InvocationSpec
  pub health : InvocationSpec
  pub has_ready : service.lifecycle.ready.probe ≡ some ready
  pub has_health : service.lifecycle.health.probe ≡ some health

check_primary-IsKey :
    (name : Text) (entries : Map Endpoint) (primary : Option Text)
    → check_primary name entries primary ≡ ok tt
    → (p : Text) × (primary ≡ some p) × IsKey entries p
unfolding check_primary
check_primary-IsKey name entries none h = cc
check_primary-IsKey name entries (some p) h =
    let t = ensure-ok _ (is_some (lookup p entries)) h in
    elim (Option-cases (lookup p entries)) [
      | inl e ↦ cc (rw (e, is_some) at t)
      | inr (v, e) ↦ (p, refl, (v, e))
    ]

validate_endpoint-safe :
    (name : Text) (s : ServiceSpec) (id : Text) (endpoint : Endpoint)
    → validate_endpoint name s (id, endpoint) ≡ ok tt
    → is_path_safe_id id ≡ true
unfolding validate_endpoint require_path_safe_id
validate_endpoint-safe name s id endpoint h =
    let (f, g) = >>-ok _ _ h in
    let (same, r) = >>-ok _ _ g in
    let safe = ensure-ok _ (is_path_safe_id endpoint.endpoint_id) f in
    let e =
      text_eq→≡ endpoint.endpoint_id id (ensure-ok _ (text_eq endpoint.endpoint_id id) same) in
    rw e at safe

pub validate_service-IsAddressed :
    (name : Text) (s : ServiceSpec)
    → validate_service (name, s) ≡ ok tt
    → is_empty s.endpoints ≡ false
    → IsAddressed s
unfolding validate_service is_some bool_ne
validate_service-IsAddressed name s h e =
    let (f, g) = >>-ok (validate_service_endpoints name s) _ h in
    let (each, primary) =
      >>-ok (check_each (validate_endpoint name s) s.endpoints) _
        (rw (validate_service_endpoints, e) at f) in
    let (p, declared, key) = check_primary-IsKey name s.endpoints s.primary_endpoint primary in
    record {
      primary = p;
      declared = declared;
      is_key = key;
      safe = λ id k. validate_endpoint-safe name s id k.0 (
          check_each-Mem (validate_endpoint name s) s.endpoints (id, k.0) each
            (lookup-Mem id s.endpoints k.1));
    }

pub validate_service-HasProbes :
    (name : Text) (s : ServiceSpec)
    → validate_service (name, s) ≡ ok tt
    → is_empty s.endpoints ≡ true
    → HasProbes s
unfolding validate_service is_some bool_ne
validate_service-HasProbes name s h e =
    let (f, g) = >>-ok (validate_service_endpoints name s) _ h in
    let (probes, r) = >>-ok _ _ (rw (validate_service_lifecycle, e) at g) in
    let t = ensure-ok _ _ probes in
    let (ready, has_ready, health, has_health) =
      both s.lifecycle.ready.probe s.lifecycle.health.probe t in
    record { ready = ready; health = health; has_ready = has_ready; has_health = has_health }
  where
    both :
        (p q : Option InvocationSpec)
        → not (bool_ne (is_some p) true || bool_ne (is_some q) true) ≡ true
        → (a : InvocationSpec) × (p ≡ some a) × (b : InvocationSpec) × (q ≡ some b)
    both none q t = cc
    both (some a) none t = cc
    both (some a) (some b) t = (a, refl, b, refl)

-- A leaf has an invocation, an exit policy and an operation id.
pub record HasLeafParts (task : TaskSpec) : Type 0 where
  pub invocation : InvocationSpec
  pub exit_policy : ExitPolicy
  pub operation_id : Text
  pub has_invocation : task.invocation ≡ some invocation
  pub has_exit_policy : task.exit_policy ≡ some exit_policy
  pub has_operation_id : task.operation_id ≡ some operation_id

is_some-true : {A : Type 0} (x : Option A) → is_some x ≡ true → (a : A) × (x ≡ some a)
unfolding is_some
is_some-true none h = cc
is_some-true (some a) h = (a, refl)

pub validate_task-HasLeafParts :
    (id : Text) (t : TaskSpec) → validate_task (id, t) ≡ ok tt → t.kind ≡ leaf → HasLeafParts t
unfolding validate_task validate_kind validate_leaf check_operation check_exit_policy
validate_task-HasLeafParts id t h k =
    let l = rw k at h in
    let (op, r1) = >>-ok (check_operation id t.operation_id) _ l in
    let (inv, r2) = >>-ok _ _ r1 in
    let (exit, r3) = >>-ok (check_exit_policy id t.exit_policy) _ r2 in
    let (i, has_i) = is_some-true t.invocation (ensure-ok _ (is_some t.invocation) inv) in
    let (o, has_o) = operation_of t.operation_id op in
    let (x, has_x) = policy_of t.exit_policy exit in
    record {
      invocation = i;
      exit_policy = x;
      operation_id = o;
      has_invocation = has_i;
      has_exit_policy = has_x;
      has_operation_id = has_o;
    }
  where
    operation_of : (x : Option Text) → check_operation id x ≡ ok tt → (a : Text) × (x ≡ some a)
    operation_of none h = cc
    operation_of (some a) h = (a, refl)

    policy_of :
        (x : Option ExitPolicy) → check_exit_policy id x ≡ ok tt → (a : ExitPolicy) × (x ≡ some a)
    policy_of none h = cc
    policy_of (some a) h = (a, refl)
