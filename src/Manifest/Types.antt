-- ===== src/Manifest/Types.antt =====
-- runtime/crates/nixfied-manifest/src/generated/types.rs: the manifest as decoded. Texts are byte
-- lists, a `BTreeMap` is its list of entries in key order, an unsigned number is a natural one, and
-- the identifier newtypes of ids.rs are texts.
use nixfied.Prelude.{ℕ, ℤ, Bool, Option, List, Text}
use nixfied.Manifest.UniqueVec.{UniqueVec}

abbrev pub Map {ℓ} : Type ℓ → Type ℓ
Map V = List (Text × V)

pub data ClosureKind : Type 0 where
  executable helper : ClosureKind

pub data ClosureEffect : Type 0 where
  process network_listener source_read file_write : ClosureEffect

pub data StdinPolicy : Type 0 where
  null inherit : StdinPolicy

pub data TaskKind : Type 0 where
  leaf composite : TaskKind

pub data TaskDefaultOutput : Type 0 where
  summary task_output : TaskDefaultOutput

pub data SecretSourceKind : Type 0 where
  env_var file : SecretSourceKind

pub data ContainmentRequirement : Type 0 where
  process_group process_tree : ContainmentRequirement

pub data SourceMode : Type 0 where
  snapshot flake_input live_workspace : SourceMode

pub data DirtyPolicy : Type 0 where
  allow warn reject : DirtyPolicy

pub data PersistencePolicy : Type 0 where
  run_scoped persistent : PersistencePolicy

pub data StopSignal : Type 0 where
  term int quit hup : StopSignal

pub record Generator : Type 0 where
  pub name : Text
  pub version : Text
  pub emitter : Text

pub record Project : Type 0 where
  pub project_id : Text
  pub name : Text

pub record Target : Type 0 where
  pub system : Text
  pub os : Text
  pub arch : Text
  pub closure_system : Text

pub record SourcePolicy : Type 0 where
  pub dirty_policy : DirtyPolicy
  pub admission_fingerprint_policy : Text

pub record Codebase : Type 0 where
  pub codebase_id : Text
  pub logical_root : Text
  pub source_mode : SourceMode
  pub source_identity : Text
  pub source_policy : SourcePolicy

pub record StatePolicy : Type 0 where
  pub marker_identity : Text
  pub persistence : PersistencePolicy

pub record SecretSource : Type 0 where
  pub kind : SecretSourceKind
  pub env_var : Option Text
  pub path : Option Text

pub record SecretDescriptor : Type 0 where
  pub secret_id : Text
  pub source : SecretSource

pub record SlotPolicy : Type 0 where
  pub min : ℕ
  pub default : ℕ
  pub max : ℕ

pub record CandidatePortWindow : Type 0 where
  pub start : ℕ
  pub end : ℕ

pub record SlotPlacement : Type 0 where
  pub slot : ℕ
  pub candidate_ports : CandidatePortWindow

pub record Placement : Type 0 where
  pub slot_placements : Map SlotPlacement

pub record ClosureSpec : Type 0 where
  pub kind : ClosureKind
  pub store_path : Text
  pub executable : Text
  pub target_system : Text
  pub requires_executable : Bool
  pub effects : List ClosureEffect

pub record InvocationSpec : Type 0 where
  pub tools : UniqueVec Text
  pub run : List Text
  pub executable : Text
  pub env : Map Text
  pub codebase_id : Text
  pub cwd : Text
  pub stdin : StdinPolicy
  pub timeout_ms : Option ℕ

pub record TerminalSemantics : Type 0 where
  pub success : Text
  pub failure : Text

pub record ProbePolicy : Type 0 where
  pub timeout_ms : ℕ
  pub retry_interval_ms : ℕ
  pub max_attempts : ℕ

pub record PrepareSpec : Type 0 where
  pub task : Text

pub record StartSpec : Type 0 where
  pub operation_id : Text
  pub invocation : InvocationSpec
  pub terminal : TerminalSemantics

pub record ReadySpec : Type 0 where
  pub operation_id : Text
  pub policy : ProbePolicy
  pub probe : Option InvocationSpec
  pub terminal : TerminalSemantics

pub record HealthSpec : Type 0 where
  pub operation_id : Text
  pub policy : ProbePolicy
  pub probe : Option InvocationSpec
  pub terminal : TerminalSemantics

pub record StopSpec : Type 0 where
  pub operation_id : Text
  pub signal : StopSignal
  pub timeout_ms : ℕ
  pub terminal : TerminalSemantics

pub record CleanSpec : Type 0 where
  pub operation_id : Text
  pub terminal : TerminalSemantics

pub record Lifecycle : Type 0 where
  pub prepare : Option PrepareSpec
  pub start : StartSpec
  pub ready : ReadySpec
  pub health : HealthSpec
  pub stop : StopSpec
  pub clean : CleanSpec

-- The address of a `LoopbackHost`, which is checked where it is decoded.
pub record Endpoint : Type 0 where
  pub endpoint_id : Text
  pub host : Text
  pub ready_probe : InvocationSpec
  pub health_probe : InvocationSpec

pub record ServiceSpec : Type 0 where
  pub lifecycle : Lifecycle
  pub endpoints : Map Endpoint
  pub primary_endpoint : Option Text
  pub connects_to : UniqueVec Text
  pub state_refs : List Text
  pub log_refs : List Text
  pub containment : ContainmentRequirement

pub record ExitPolicy : Type 0 where
  pub success_codes : UniqueVec ℤ

pub record StepSpec : Type 0 where
  pub task : Text
  pub depends_on : UniqueVec Text

pub record TaskSpec : Type 0 where
  pub kind : TaskKind
  pub default_output : TaskDefaultOutput
  pub operation_id : Option Text
  pub invocation : Option InvocationSpec
  pub requires : UniqueVec Text
  pub exit_policy : Option ExitPolicy
  pub steps : Map StepSpec
  pub artifact_refs : List Text
  pub log_refs : List Text
  pub summary_refs : List Text

pub record Manifest : Type 0 where
  pub manifest_version : ℕ
  pub toolchain_id : Text
  pub runtime_abi : Text
  pub generator : Generator
  pub project : Project
  pub target : Target
  pub codebases : List Codebase
  pub secrets : Map SecretDescriptor
  pub environments : UniqueVec Text
  pub slot_policy : SlotPolicy
  pub placement : Placement
  pub state : StatePolicy
  pub closures : Map ClosureSpec
  pub services : Map ServiceSpec
  pub tasks : Map TaskSpec
