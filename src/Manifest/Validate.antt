-- ===== src/Manifest/Validate.antt =====
-- `validate` of validation.rs: every check in the source's order. The digest behind the runtime's
-- ABI is computed by third-party code, so the ABI is a parameter.
use nixfied.Prelude.{Bool, false, List, [], ◌∷◌, Text, codes, text_eq, err, ◌>>◌, ensure, ◌==◌}
use nixfied.Manifest.UniqueVec.{UniqueVec}
use nixfied.Manifest.Types.{Codebase, Manifest}
use nixfied.Manifest.Errors.{
  manifest_version, toolchain_id, runtime_abi, unsupported_value, expected_one, as_texts, Check,
  require_non_empty, expect_string,
}
use nixfied.Manifest.Ids.{require_path_safe_id, require_step_safe_id, require_keys}
use nixfied.Manifest.Placements.{validate_slot_policy, validate_slot_placements}
use nixfied.Manifest.Units.{validate_invocations, validate_closures, validate_services}
use nixfied.Manifest.Tasks.{validate_tasks}

abbrev pub toolchain : Text
toolchain = codes "nixfied-toolchain:1"

unfoldable pub validate_exact_identities : Text → Manifest → Check
validate_exact_identities abi m =
    ensure (manifest_version 1 m.manifest_version) (m.manifest_version == 1)
    >> (ensure (toolchain_id toolchain m.toolchain_id) (text_eq m.toolchain_id toolchain)
        >> ensure (runtime_abi abi m.runtime_abi) (text_eq m.runtime_abi abi))

unfoldable pub validate_required_strings : Manifest → Check
unfolding require_non_empty
validate_required_strings m =
    require_non_empty "generator.name" m.generator.name
    >> (require_non_empty "generator.version" m.generator.version
        >> (require_non_empty "generator.emitter" m.generator.emitter
            >> (require_non_empty "project.projectId" m.project.project_id
                >> (require_non_empty "project.name" m.project.name
                    >> (require_non_empty "target.system" m.target.system
                        >> (require_non_empty "target.os" m.target.os
                            >> (require_non_empty "target.arch" m.target.arch
                                >> (require_non_empty "target.closureSystem" m.target.closure_system
                                    >> require_non_empty "state.markerIdentity"
                                        m.state.marker_identity))))))))

unfoldable pub validate_unit_ids : Manifest → Check
unfolding require_keys
validate_unit_ids m =
    require_keys (require_path_safe_id "closures") m.closures
    >> (require_keys (require_step_safe_id "services") m.services
        >> require_keys (require_step_safe_id "tasks") m.tasks)

unfoldable pub validate_codebases : List Codebase → Check
unfolding expect_string require_non_empty
validate_codebases (codebase ∷ []) =
    expect_string "codebases[0].codebaseId" "main" codebase.codebase_id
    >> (require_non_empty "codebases[0].logicalRoot" codebase.logical_root
        >> require_non_empty "codebases[0].sourceIdentity" codebase.source_identity)
validate_codebases _ = err (expected_one "codebases")

unfoldable pub is_dev : List Text → Bool
is_dev (e ∷ []) = text_eq e (codes "dev")
is_dev _ = false

unfoldable pub validate_environments : UniqueVec Text → Check
unfolding is_dev
validate_environments environments =
    ensure (unsupported_value "environments" "[\"dev\"]" (as_texts environments.items))
      (is_dev environments.items)

unfoldable pub validate : Text → Manifest → Check
validate abi m =
    validate_exact_identities abi m
    >> (validate_required_strings m
        >> (validate_unit_ids m
            >> (validate_codebases m.codebases
                >> (validate_environments m.environments
                    >> (validate_slot_policy m.slot_policy
                        >> (validate_slot_placements m.slot_policy m.placement.slot_placements
                            >> (validate_invocations m.tasks m.services
                                >> (validate_closures m.closures
                                    >> (validate_services m.services m.tasks
                                        >> validate_tasks m.tasks)))))))))
