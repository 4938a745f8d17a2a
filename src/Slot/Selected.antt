-- ===== src/Slot/Selected.antt =====
-- Slot selection over a manifest whose slots were validated.
use nixfied.Prelude.{
  inl, inr, ℕ, ◌<◌, ◌≤◌, ◌≡◌, ◌⊎◌, refl, sym, ap, true, false, not, ◌||◌, Option, none, some, codes,
  Result, ok, err, lookup, ltb, ◌==◌, ==_iff, arith,
}
use nixfied.Manifest.Types.{SlotPlacement, Manifest}
use nixfied.Manifest.Placements.{to_decimal, validate_slot_policy, validate_slot_placements}
use nixfied.Manifest.Windows.{IsSlot, validate_slot_placements-HasWindow}
use nixfied.Slot.{
  SelectedSlot, SlotError, outside_range, slot_or_default, placement_at, select_slot,
}

validate_slot_policy-IsSlot :
    (m : Manifest)
    → validate_slot_policy m.slot_policy ≡ ok tt
    → IsSlot m.slot_policy m.slot_policy.default
unfolding validate_slot_policy
validate_slot_policy-IsSlot m h = ground arith

-- The slot's own entry of the manifest's placements, with the window that validation demands.
abbrev pub IsSelected : Manifest → ℕ → Result SlotError SelectedSlot → Type 0
IsSelected m slot result =
    (placement : SlotPlacement) × (result
      ≡ ok (record { environment = codes "dev"; slot = slot; placement = placement }))
    × (lookup (to_decimal slot) m.placement.slot_placements ≡ some placement)
    × (placement.slot ≡ slot)
    × (0 < placement.candidate_ports.start)
    × (placement.candidate_ports.start ≤ placement.candidate_ports.end)

select_slot-inside :
    (m : Manifest) (requested : Option ℕ)
    → validate_slot_placements m.slot_policy m.placement.slot_placements ≡ ok tt
    → IsSlot m.slot_policy (slot_or_default m requested)
    → IsSelected m (slot_or_default m requested) (select_slot m requested)
unfolding select_slot
select_slot-inside m requested h i =
    let slot = slot_or_default m requested in
    let (w, (placement, found, own, low, proper, same)) =
      validate_slot_placements-HasWindow m.slot_policy m.placement.slot_placements slot h i in
    let inside : not (ltb slot m.slot_policy.min || ltb m.slot_policy.max slot) ≡ true =
      ground arith in
    let matches : (placement.slot == slot) ≡ true = (==_iff placement.slot slot).1 own in
    (
      placement,
      rw (select_slot, inside, placement_at, found, matches) refl,
      found,
      own,
      rw (ap (λ (v : ℕ × ℕ). v.0) (sym same)) at low,
      omega (arith, ap (λ (v : ℕ × ℕ). v.0) same, ap (λ (v : ℕ × ℕ). v.1) same, proper),
    )

select_slot-outside :
    (m : Manifest) (requested : Option ℕ)
    → (slot_or_default m requested < m.slot_policy.min)
      ⊎ (m.slot_policy.max < slot_or_default m requested)
    → select_slot m requested
      ≡ err (outside_range (slot_or_default m requested) m.slot_policy.min m.slot_policy.max)
unfolding select_slot
select_slot-outside m requested h =
    let outside : not (
          ltb (slot_or_default m requested) m.slot_policy.min
          || ltb m.slot_policy.max (slot_or_default m requested))
        ≡ false =
      ground arith in
    rw (select_slot, outside) refl

-- The slot lies outside the policy's range.
abbrev pub IsOutside : Manifest → ℕ → Type 0
IsOutside m slot = (slot < m.slot_policy.min) ⊎ (m.slot_policy.max < slot)

IsSlot-cases : (m : Manifest) (slot : ℕ) → IsSlot m.slot_policy slot ⊎ IsOutside m slot
IsSlot-cases m slot = ground arith

-- In a manifest whose slot policy and placements passed validation, a slot in the policy's range is
-- selected, with the placement that the manifest holds under its number, which names that slot and
-- has proper ports, none of them 0; any other slot is refused for its range, never for its placement;
-- and without a request the default slot is selected.
pub select_slot-cases :
    (m : Manifest) (requested : Option ℕ)
    → validate_slot_policy m.slot_policy ≡ ok tt
    → validate_slot_placements m.slot_policy m.placement.slot_placements ≡ ok tt
    → (((IsSlot m.slot_policy (slot_or_default m requested))
          × IsSelected m (slot_or_default m requested) (select_slot m requested))
        ⊎ ((IsOutside m (slot_or_default m requested))
            × (select_slot m requested
                ≡ err (
                    outside_range
                      (slot_or_default m requested)
                      m.slot_policy.min
                      m.slot_policy.max))))
      × IsSelected m m.slot_policy.default (select_slot m none)
unfolding slot_or_default
select_slot-cases m requested h k = (
  (elim (IsSlot-cases m (slot_or_default m requested)) [
    | inl i ↦ inl (i, select_slot-inside m requested k i)
    | inr o ↦ inr (o, select_slot-outside m requested o)
  ]),
  select_slot-inside m none k (validate_slot_policy-IsSlot m h),
)
