-- ===== src/Lower/Program.antt =====
-- `lower` of lower.rs.
use nixfied.Prelude.{ℕ, List, [], ◌∷◌, Result, ok, ◌>>=◌, ◌>>◌, ltb, ◌==◌, if◌then◌else◌}
use nixfied.Manifest.Types.{
  Map, ClosureSpec, SecretDescriptor, SlotPlacement, ServiceSpec, TaskSpec, Manifest,
}
use nixfied.Execution.Types.{PortWindow, new_window, ExecService, ExecutableTask, Program}
use nixfied.Execution.Admit.{prove_graph, prove_capacity}
use nixfied.Lower.Errors.{LowerError, of_plan}
use nixfied.Lower.References.{prove_references}
use nixfied.Lower.Services.{expect, lower_service}
use nixfied.Lower.Tasks.{lower_task}

unfoldable pub lower_services :
    Map ServiceSpec
    → Map ServiceSpec
    → Map ClosureSpec
    → Map SecretDescriptor
    → Result LowerError (Map ExecService)
unfolding lower_service
lower_services all_services [] closures secrets = ok []
lower_services all_services ((name, service) ∷ rest) closures secrets = do
  lowered ← lower_service name service all_services closures secrets
  more ← lower_services all_services rest closures secrets
  ok ((name, lowered) ∷ more)

unfoldable pub lower_tasks :
    Map TaskSpec
    → Map ClosureSpec
    → Map SecretDescriptor
    → Map ExecService
    → Result LowerError (Map ExecutableTask)
unfolding lower_task
lower_tasks [] closures secrets services = ok []
lower_tasks ((id, task) ∷ rest) closures secrets services = do
  lowered ← lower_task id task closures secrets services
  more ← lower_tasks rest closures secrets services
  ok ((id, lowered) ∷ more)

-- `BTreeMap<u32, PortWindow>::insert`
unfoldable pub window_insert : ℕ → PortWindow → List (ℕ × PortWindow) → List (ℕ × PortWindow)
window_insert slot window [] = (slot, window) ∷ []
window_insert slot window ((s, w) ∷ rest) =
    if slot == s
    then (s, window) ∷ rest
    else if ltb slot s
    then (slot, window) ∷ (s, w) ∷ rest
    else (s, w) ∷ window_insert slot window rest

unfoldable pub lower_windows :
    Map SlotPlacement → List (ℕ × PortWindow) → Result LowerError (List (ℕ × PortWindow))
unfolding expect new_window window_insert
lower_windows [] windows = ok windows
lower_windows ((key, placement) ∷ rest) windows = do
  window ←
      expect "validated placement has a nonempty port window"
        (new_window placement.candidate_ports.start placement.candidate_ports.end)
  lower_windows rest (window_insert placement.slot window windows)

-- The structural map, before the graph is proved.
unfoldable pub lower_program : Manifest → Result LowerError Program
unfolding lower_services lower_tasks lower_windows
lower_program m = do
  services ← lower_services m.services m.services m.closures m.secrets
  tasks ← lower_tasks m.tasks m.closures m.secrets services
  windows ← lower_windows m.placement.slot_placements []
  ok (record { services = services; tasks = tasks; slot_windows = windows })

unfoldable pub lower : Manifest → Result LowerError Program
unfolding lower_program prove_references of_plan
lower m = do
  prove_references m
  program ← lower_program m
  facts ← of_plan (prove_graph program)
  of_plan (prove_capacity program facts)
  ok program
