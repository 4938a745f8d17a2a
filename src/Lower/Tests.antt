-- ===== src/Lower/Tests.antt =====
-- A manifest with one service and one task, lowered, and the witnesses.
use nixfied.Prelude.{
  map_insert, arith, Mem, length, inr, Text, List, if◌then◌else◌, pos, ◌≡◌, refl, ap, inl, inr,
  true, false, none, some, [], ◌∷◌, ◌++◌, Text, codes, text_eq, text_lt, contains, set_insert,
  set_extend, lookup, find_text, starts_with, slice, any, all, ok,
}
use nixfied.Manifest.Types.{
  Manifest, SlotPlacement, ClosureSpec, InvocationSpec, null, ServiceSpec, TaskSpec, leaf,
  network_listener, executable, persistent, allow, live_workspace, term, process_group, summary,
  TerminalSemantics, ProbePolicy,
}
use nixfied.Manifest.Distinct.{AllDistinct}
use nixfied.Manifest.Validate.{
  validate_exact_identities, validate_required_strings, validate_unit_ids, validate_codebases,
  validate_environments, is_dev, validate,
}
use nixfied.Manifest.Ids.{
  require_path_safe_id, require_step_safe_id, is_alphanumeric, is_path_char, is_path_safe_id,
  is_step_char, is_step_safe_id, require_keys,
}
use nixfied.Manifest.Placements.{
  validate_slot_policy, validate_slot_placements, check_neighbours, collect_windows, decimal_from,
  insert_window, slots_from, slots_of, sort_windows, texts_eq, to_decimal,
  validate_candidate_port_window,
}
use nixfied.Manifest.Units.{
  validate_invocations, validate_task_invocation, validate_service_invocations, validate_probe,
  bool_ne, check_each, check_primary, check_run, is_null, is_some, lifecycle_ops, option_list,
  service_probes, validate_closure, validate_closures, validate_endpoint, validate_invocation,
  validate_operation, validate_service, validate_service_endpoints, validate_service_lifecycle,
  validate_services,
}
use nixfied.Manifest.Errors.{expect_string, is_empty, require_non_empty}
use nixfied.Manifest.Tasks.{
  check_exit_policy, check_operation, has_leaf_fields, is_summary, validate_composite,
  validate_kind, validate_leaf, validate_task, validate_tasks,
}
use nixfied.Template.Parse.{Scope, task_owner, text, parse}
use nixfied.Template.Tokens.{tokenize}
use nixfied.Lower.Paths.{file_name, join_segments, parent_or_default, split_segments, is_trivial}
use nixfied.Lower.Resolve.{resolve}
use nixfied.Lower.Resolved.{IsResolved, resolve-IsResolved}
use nixfied.Lower.References.{prove_references, service_op_ids, task_op_ids}
use nixfied.Lower.Program.{lower}
use nixfied.Execution.Types.{
  ResolvedInvocation, OpMeta, ProbePolicy as LoweredPolicy, ExecService, ExecutableTask, leaf_task,
  endpoints, Program, task_ids, window_capacity, endpoint_ids,
}
use nixfied.Execution.Schedule.{take_first}
use nixfied.Execution.Flatten.{flatten}
use nixfied.Execution.Graph.{service_edges, close_union, direct_requirements}
use nixfied.Execution.Admit.{prove_graph, prove_capacity}
use nixfied.Execution.Plan.{LogicalPlan, logical_plan, window_at, capacity, demand}
use nixfied.Lower.Plans.{lower-plans}
use nixfied.Lower.Parents.{spelled-parts}
use nixfied.Lower.Declared.{AreDeclared, prove_references-AreDeclared}
use nixfied.Lower.Operations.{prove_references-AllDistinct}
use nixfied.Lower.Totality.{IsMap}
use nixfied.Lower.Total.{Lowers, lower-cases}

abbrev sh : ClosureSpec
sh = record {
  kind = executable;
  store_path = codes "/s";
  executable = codes "/s/bin/sh";
  target_system = codes "sys";
  requires_executable = true;
  effects = network_listener ∷ [];
}

abbrev run_sh : InvocationSpec
run_sh = record {
  tools = record { items = codes "sh" ∷ [] };
  run = codes "sh" ∷ codes "a" ∷ [];
  executable = codes "/s/bin/sh";
  env = [];
  codebase_id = codes "main";
  cwd = codes ".";
  stdin = null;
  timeout_ms = none;
}

abbrev ends : TerminalSemantics
ends = record { success = codes "yes"; failure = codes "no" }

abbrev policy : ProbePolicy
policy = record { timeout_ms = 9; retry_interval_ms = 3; max_attempts = 2 }

abbrev db : ServiceSpec
db = record {
  lifecycle = record {
    prepare = some (record { task = codes "t" });
    start = record { operation_id = codes "db.start"; invocation = run_sh; terminal = ends };
    ready = record {
      operation_id = codes "db.ready";
      policy = policy;
      probe = none;
      terminal = ends;
    };
    health = record {
      operation_id = codes "db.health";
      policy = policy;
      probe = none;
      terminal = ends;
    };
    stop = record {
      operation_id = codes "db.stop";
      signal = term;
      timeout_ms = 9;
      terminal = ends;
    };
    clean = record { operation_id = codes "db.clean"; terminal = ends };
  };
  endpoints =
      (
        codes "sql",
        record {
          endpoint_id = codes "sql";
          host = codes "h";
          ready_probe = run_sh;
          health_probe = run_sh;
        },
      )
      ∷ [];
  primary_endpoint = some (codes "sql");
  connects_to = record { items = [] };
  state_refs = [];
  log_refs = [];
  containment = process_group;
}

abbrev task : TaskSpec
task = record {
  kind = leaf;
  default_output = summary;
  operation_id = some (codes "t.run");
  invocation = some run_sh;
  requires = record { items = [] };
  exit_policy = some (record { success_codes = record { items = pos 0 ∷ [] } });
  steps = [];
  artifact_refs = [];
  log_refs = [];
  summary_refs = [];
}

abbrev user : TaskSpec
user = record task {
  operation_id = some (codes "u.run");
  requires = record { items = codes "db" ∷ [] };
}

abbrev placement : SlotPlacement
placement = record { slot = 0; candidate_ports = record { start = 7; end = 8 } }

abbrev manifest : Manifest
manifest = record {
  manifest_version = 1;
  toolchain_id = codes "nixfied-toolchain:1";
  runtime_abi = codes "abi";
  generator = record { name = codes "g"; version = codes "1"; emitter = codes "nix" };
  project = record { project_id = codes "p"; name = codes "P" };
  target = record {
    system = codes "sys";
    os = codes "linux";
    arch = codes "x";
    closure_system = codes "sys";
  };
  codebases =
      record {
        codebase_id = codes "main";
        logical_root = codes "r";
        source_mode = live_workspace;
        source_identity = codes "i";
        source_policy = record { dirty_policy = allow; admission_fingerprint_policy = codes "f" };
      }
      ∷ [];
  secrets = [];
  environments = record { items = codes "dev" ∷ [] };
  slot_policy = record { min = 0; default = 0; max = 0 };
  placement = record { slot_placements = (codes "0", placement) ∷ [] };
  state = record { marker_identity = codes "m"; persistence = persistent };
  closures = (codes "sh", sh) ∷ [];
  services = (codes "db", db) ∷ [];
  tasks = (codes "t", task) ∷ (codes "u", user) ∷ [];
}

manifest_passes : validate (codes "abi") manifest ≡ ok tt
unfolding validate text_eq text_lt all any lookup set_insert set_extend validate_exact_identities
    validate_required_strings validate_unit_ids require_path_safe_id require_step_safe_id
    validate_codebases validate_environments validate_slot_policy validate_slot_placements
    validate_invocations validate_task_invocation validate_service_invocations validate_probe
    expect_string is_empty require_non_empty is_alphanumeric is_path_char is_path_safe_id
    is_step_char is_step_safe_id require_keys check_neighbours collect_windows decimal_from
    insert_window slots_from slots_of sort_windows texts_eq to_decimal
    validate_candidate_port_window check_exit_policy check_operation has_leaf_fields is_summary
    validate_composite validate_kind validate_leaf validate_task validate_tasks bool_ne check_each
    check_primary check_run is_null is_some lifecycle_ops option_list service_probes
    validate_closure validate_closures validate_endpoint validate_invocation validate_operation
    validate_service validate_service_endpoints validate_service_lifecycle validate_services is_dev
manifest_passes = refl

references_pass : prove_references manifest ≡ ok tt
unfolding prove_references contains any set_extend text_eq text_lt lookup
references_pass = refl

placements-IsMap : IsMap manifest.placement.slot_placements
unfolding lookup text_eq
placements-IsMap k v (inl e) =
    let key : k ≡ codes "0" = ap (λ (p : Text × SlotPlacement). p.0) e in
    let value : v ≡ placement = ap (λ (p : Text × SlotPlacement). p.1) e in rw (key, value) refl
placements-IsMap k v (inr m) = absurd m

lower-cases_example : Lowers (lower manifest)
lower-cases_example = lower-cases (codes "abi") manifest manifest_passes placements-IsMap

prove_references-AllDistinct_example :
    AllDistinct (service_op_ids manifest.services ++ task_op_ids manifest.tasks)
prove_references-AllDistinct_example = prove_references-AllDistinct manifest references_pass

prove_references-AreDeclared_example : AreDeclared manifest
prove_references-AreDeclared_example = prove_references-AreDeclared manifest references_pass

abbrev scope : Scope
scope = record {
  owner = task_owner (codes "t");
  has_primary = false;
  own_endpoints = [];
  services = [];
}

abbrev resolved : ResolvedInvocation × Text × ClosureSpec
resolved = (
  record {
    executable = codes "/s/bin/sh";
    args = (text (codes "a") ∷ []) ∷ [];
    env = [];
    cwd = codes ".";
    stdin = null;
    tool_roots = codes "/s/bin" ∷ [];
  },
  codes "sh",
  sh,
)

run_sh_resolves : resolve manifest.closures manifest.secrets run_sh scope ≡ ok resolved
unfolding resolve lookup text_eq parse tokenize find_text starts_with any slice
run_sh_resolves = refl

resolve-IsResolved_example : IsResolved manifest.closures manifest.secrets run_sh scope resolved
resolve-IsResolved_example =
    resolve-IsResolved manifest.closures manifest.secrets run_sh scope resolved run_sh_resolves

-- Segments that count for nothing are not part of a parent directory.
parent_of_doubled_slash : parent_or_default (codes "/s/bin//sh") ≡ codes "/s/bin"
unfolding parent_or_default split_segments is_trivial text_eq
parent_of_doubled_slash = refl

parent_of_dot : parent_or_default (codes "/s/./sh") ≡ codes "/s"
unfolding parent_or_default split_segments is_trivial text_eq
parent_of_dot = refl

parent_of_top : parent_or_default (codes "/sh/") ≡ codes "/"
unfolding parent_or_default split_segments is_trivial text_eq
parent_of_top = refl

parent_of_here : parent_or_default (codes "./sh") ≡ codes "."
unfolding parent_or_default split_segments is_trivial text_eq
parent_of_here = refl

abbrev op : Text → OpMeta
op id = record { operation_id = id; terminal_success = codes "yes"; terminal_failure = codes "no" }

abbrev lowered_policy : Text → LoweredPolicy
lowered_policy label = record { label = label; timeout = 9; retry_interval = 3; max_attempts = 2 }

abbrev lowered_db : ExecService
lowered_db = record {
  name = codes "db";
  prepare = some (codes "t");
  start = record { meta = op (codes "db.start"); exec = resolved.0 };
  ready = record { meta = op (codes "db.ready"); policy = lowered_policy (codes "ready") };
  health = record { meta = op (codes "db.health"); policy = lowered_policy (codes "health") };
  stop = record { meta = op (codes "db.stop"); signal = term; timeout = 9 };
  clean = record { meta = op (codes "db.clean") };
  addressing = endpoints (record {
    primary = codes "sql";
    entries =
        (codes "sql", record { host = codes "h"; ready = resolved.0; health = resolved.0 }) ∷ [];
  });
  connects_to = [];
  containment = process_group;
}

abbrev lowered_task : Text → List Text → ExecutableTask
lowered_task id requires = leaf_task (record {
  timeout = none;
  task_id = id;
  exec = resolved.0;
  requires = requires;
  success_codes = pos 0 ∷ [];
})

abbrev lowered : Program
lowered = record {
  services = (codes "db", lowered_db) ∷ [];
  tasks =
      (codes "t", lowered_task (codes "t") [])
      ∷ (codes "u", lowered_task (codes "u") (codes "db" ∷ []))
      ∷ [];
  slot_windows = (0, record { start = 7; end = 8 }) ∷ [];
}

manifest_lowers : lower manifest ≡ ok lowered
unfolding lower map_insert prove_references contains any all set_insert set_extend text_eq text_lt
    lookup parse tokenize find_text starts_with slice is_empty is_path_safe_id prove_graph
    prove_capacity flatten service_edges close_union direct_requirements take_first task_ids
    window_capacity endpoint_ids parent_or_default split_segments is_trivial
manifest_lowers = refl

u-task : Mem (codes "u") (task_ids lowered)
unfolding task_ids
u-task = inr (inl refl)

slot_window : window_at 0 lowered.slot_windows ≡ some (record { start = 7; end = 8 })
unfolding window_at
slot_window = refl

lower-plans_example :
    (plan : LogicalPlan) × (logical_plan lowered (codes "u") ≡ ok plan)
    × (capacity (record { start = 7; end = 8 }) 0 (demand plan.services) (length plan.services)
        ≡ ok tt)
lower-plans_example =
    lower-plans manifest lowered (codes "u") 0 (record { start = 7; end = 8 }) manifest_lowers
      u-task slot_window

spelled-parts_example :
    (parent_or_default (codes "/s/./bin//sh/.") ≡ codes "/s/./bin")
    × (file_name (codes "/s/./bin//sh/.")
        ≡ (if text_eq (codes "sh") (codes "..") then none else some (codes "sh")))
unfolding join_segments
spelled-parts_example =
    spelled-parts (codes "s" ∷ codes "." ∷ codes "bin" ∷ []) ([] ∷ []) (codes "sh") (codes "." ∷ [])
      (omega arith) ((λ e. cc), (λ e. cc)) (inl refl, tt) (inr refl, tt) (λ e. cc) (λ e. cc)
