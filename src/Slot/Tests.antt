-- ===== src/Slot/Tests.antt =====
-- Slots selected in a manifest with two slots, and the witness.
use nixfied.Prelude.{
  ℕ, ◌+◌, ◌≡◌, ◌⊎◌, refl, none, some, [], ◌∷◌, codes, text_eq, text_lt, set_insert, set_extend,
  lookup, ok, err,
}
use nixfied.Manifest.Types.{SlotPlacement, Manifest, persistent}
use nixfied.Manifest.Placements.{to_decimal, validate_slot_policy, validate_slot_placements}
use nixfied.Manifest.Windows.{IsSlot}
use nixfied.Slot.{outside_range, slot_or_default, select_slot}
use nixfied.Slot.Selected.{IsSelected, IsOutside, select_slot-cases}

abbrev placement : ℕ → ℕ → SlotPlacement
placement slot start = record {
  slot = slot;
  candidate_ports = record { start = start; end = start + 99 };
}

abbrev manifest : Manifest
manifest = record {
  manifest_version = 1;
  toolchain_id = codes "nixfied-toolchain:1";
  runtime_abi = codes "abi";
  generator = record { name = codes "g"; version = codes "1"; emitter = codes "nix" };
  project = record { project_id = codes "p"; name = codes "P" };
  target = record {
    system = codes "x86_64-linux";
    os = codes "linux";
    arch = codes "x86_64";
    closure_system = codes "x86_64-linux";
  };
  codebases = [];
  secrets = [];
  environments = record { items = codes "dev" ∷ [] };
  slot_policy = record { min = 0; default = 1; max = 1 };
  placement = record {
    slot_placements = (codes "0", placement 0 21000) ∷ (codes "1", placement 1 21100) ∷ [];
  };
  state = record { marker_identity = codes "m"; persistence = persistent };
  closures = [];
  services = [];
  tasks = [];
}

select_default :
    select_slot manifest none
    ≡ ok (record { environment = codes "dev"; slot = 1; placement = placement 1 21100 })
unfolding select_slot lookup text_eq to_decimal
select_default = refl

select_beyond : select_slot manifest (some 2) ≡ err (outside_range 2 0 1)
unfolding select_slot lookup text_eq
select_beyond = refl

policy_passes : validate_slot_policy manifest.slot_policy ≡ ok tt
unfolding validate_slot_policy
policy_passes = refl

placements_pass :
    validate_slot_placements manifest.slot_policy manifest.placement.slot_placements ≡ ok tt
unfolding validate_slot_placements text_eq text_lt set_insert set_extend lookup
placements_pass = refl

select_slot-cases_example :
    (((IsSlot manifest.slot_policy (slot_or_default manifest (some 2)))
        × IsSelected manifest (slot_or_default manifest (some 2)) (select_slot manifest (some 2)))
      ⊎ ((IsOutside manifest (slot_or_default manifest (some 2)))
          × (select_slot manifest (some 2)
              ≡ err (outside_range (slot_or_default manifest (some 2)) 0 1))))
    × IsSelected manifest 1 (select_slot manifest none)
select_slot-cases_example = select_slot-cases manifest (some 2) policy_passes placements_pass
