-- ===== src/Slot.antt =====
-- runtime/crates/nixfied-runtime/src/slot.rs: the slot that a command selects. The definition is
-- here, what it relies on in `Selected`.
use nixfied.Prelude.{
  ℕ, Bool, true, false, not, ◌||◌, Option, none, some, Text, codes, Result, ok, err, ◌>>=◌, ◌>>◌,
  ensure, lookup, ltb, ◌==◌,
}
use nixfied.Manifest.Types.{SlotPlacement, Manifest}
use nixfied.Manifest.Placements.{to_decimal}
pub mod Selected
mod Tests

pub record SelectedSlot : Type 0 where
  pub environment : Text
  pub slot : ℕ
  pub placement : SlotPlacement

-- All have the code `ManifestAdmission`.
pub data SlotError : Type 0 where
  outside_range : ℕ → ℕ → ℕ → SlotError
  no_placement : ℕ → SlotError
  slot_mismatch : Text → ℕ → SlotError

-- `requested_slot.unwrap_or(manifest.slot_policy.default)`
unfoldable pub slot_or_default : Manifest → Option ℕ → ℕ
slot_or_default manifest none = manifest.slot_policy.default
slot_or_default manifest (some slot) = slot

unfoldable pub placement_at : Manifest → ℕ → Result SlotError SlotPlacement
placement_at manifest slot = elim (lookup (to_decimal slot) manifest.placement.slot_placements) [
  | none ↦ err (no_placement slot)
  | some placement ↦ ok placement
]

unfoldable pub select_slot : Manifest → Option ℕ → Result SlotError SelectedSlot
unfolding slot_or_default placement_at
select_slot manifest requested =
    let slot = slot_or_default manifest requested in
    ensure (outside_range slot manifest.slot_policy.min manifest.slot_policy.max)
      (not (ltb slot manifest.slot_policy.min || ltb manifest.slot_policy.max slot))
    >> (placement_at manifest slot >>= λ placement.
        ensure (slot_mismatch (to_decimal slot) placement.slot) (placement.slot == slot)
        >> ok (record { environment = codes "dev"; slot = slot; placement = placement }))
