-- ===== src/Execution/Types.antt =====
-- runtime/crates/nixfied-runtime/src/execution/types.rs: the executor's input. A `Duration` is a
-- number of milliseconds, a `Template` its pieces, a map its entries in key order.
use nixfied.Prelude.{
  ℕ, ℤ, ◌+◌, ◌-◌, ◌&&◌, Option, none, some, List, [], Text, ltb, leb, map, if◌then◌else◌, Bool,
  true, false, not, ◌++◌, ◌∷◌,
}
use nixfied.Manifest.Types.{Map, ContainmentRequirement, StdinPolicy, StopSignal}
use nixfied.Template.Parse.{Piece}

pub record PortWindow : Type 0 where
  pub start : ℕ
  pub end : ℕ

-- `PortWindow::new`
unfoldable pub new_window : ℕ → ℕ → Option PortWindow
new_window start end =
    if ltb 0 start && leb start end then some (record { start = start; end = end }) else none

-- `end - start` does not wrap in a window that `new_window` built.
unfoldable pub window_capacity : PortWindow → ℕ
window_capacity w = (w.end - w.start) + 1

pub record OpMeta : Type 0 where
  pub operation_id : Text
  pub terminal_success : Text
  pub terminal_failure : Text

pub record ResolvedInvocation : Type 0 where
  pub executable : Text
  pub args : List (List Piece)
  pub env : Map (List Piece)
  pub cwd : Text
  pub stdin : StdinPolicy
  pub tool_roots : List Text

pub record ProbePolicy : Type 0 where
  pub label : Text
  pub timeout : ℕ
  pub retry_interval : ℕ
  pub max_attempts : ℕ

pub record StartOp : Type 0 where
  pub meta : OpMeta
  pub exec : ResolvedInvocation

pub record ReadyOp : Type 0 where
  pub meta : OpMeta
  pub policy : ProbePolicy

pub record HealthOp : Type 0 where
  pub meta : OpMeta
  pub policy : ProbePolicy

pub record StopOp : Type 0 where
  pub meta : OpMeta
  pub signal : StopSignal
  pub timeout : ℕ

pub record CleanOp : Type 0 where
  pub meta : OpMeta

pub record EndpointPlan : Type 0 where
  pub host : Text
  pub ready : ResolvedInvocation
  pub health : ResolvedInvocation

pub record EndpointSet : Type 0 where
  pub primary : Text
  pub entries : Map EndpointPlan

pub data ServiceAddressing : Type 0 where
  endpointless : ResolvedInvocation → ResolvedInvocation → ServiceAddressing
  endpoints : EndpointSet → ServiceAddressing

pub record ExecService : Type 0 where
  pub name : Text
  pub prepare : Option Text
  pub start : StartOp
  pub ready : ReadyOp
  pub health : HealthOp
  pub stop : StopOp
  pub clean : CleanOp
  pub addressing : ServiceAddressing
  pub connects_to : List Text
  pub containment : ContainmentRequirement

pub record ExecTask : Type 0 where
  pub timeout : Option ℕ
  pub task_id : Text
  pub exec : ResolvedInvocation
  pub requires : List Text
  pub success_codes : List ℤ

pub record ExecStep : Type 0 where
  pub name : Text
  pub task : Text
  pub depends_on : List Text

pub record ExecComposite : Type 0 where
  pub task_id : Text
  pub steps : List ExecStep

pub data ExecutableTask : Type 0 where
  leaf_task : ExecTask → ExecutableTask
  composite_task : ExecComposite → ExecutableTask

pub record Program : Type 0 where
  pub services : Map ExecService
  pub tasks : Map ExecutableTask
  pub slot_windows : List (ℕ × PortWindow)

-- The endpoint ids of `ExecService::endpoints`, in order.
unfoldable pub addressing_ids : ServiceAddressing → List Text
addressing_ids (endpointless ready health) = []
addressing_ids (endpoints set) = map (λ e. e.0) set.entries

unfoldable pub endpoint_ids : ExecService → List Text
unfolding addressing_ids
endpoint_ids service = addressing_ids service.addressing

unfoldable pub is_leaf : ExecutableTask → Bool
is_leaf (leaf_task leaf) = true
is_leaf (composite_task composite) = false

-- The ids of the tasks of one kind.
unfoldable pub ids_where : (ExecutableTask → Bool) → Map ExecutableTask → List Text
ids_where test [] = []
ids_where test ((id, task) ∷ rest) =
    let more = ids_where test rest in if test task then id ∷ more else more

-- `Program::task_ids`: the leaves, then the composites.
unfoldable pub task_ids : Program → List Text
unfolding is_leaf ids_where
task_ids program = ids_where is_leaf program.tasks ++ ids_where (λ t. not (is_leaf t)) program.tasks
