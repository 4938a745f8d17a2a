-- ===== src/Manifest/Tests.antt =====
-- Witnesses over small manifests' parts.
use nixfied.Prelude.{
  ℕ, ◌+◌, ◌≡◌, ◌⊎◌, refl, List, [], ◌∷◌, codes, text_eq, text_lt, ok, err, any, arith, lookup,
  set_insert, set_extend, ◌==◌, ==_iff,
}
use nixfied.Manifest.UniqueVec.{duplicate, deserialize}
use nixfied.Manifest.Distinct.{AllDistinct, Repeats, deserialize-cases}
use nixfied.Manifest.Types.{SlotPolicy, SlotPlacement, Map}
use nixfied.Manifest.Placements.{validate_slot_placements}
use nixfied.Manifest.Apart.{IsApart}
use nixfied.Manifest.Windows.{HasWindow, validate_slot_placements-windows}

abbrev policy : SlotPolicy
policy = record { min = 9; default = 9; max = 10 }

-- A placement of this slot with a window of 100 ports.
abbrev placement : ℕ → ℕ → SlotPlacement
placement slot start = record {
  slot = slot;
  candidate_ports = record { start = start; end = start + 99 };
}

abbrev placements : Map SlotPlacement
placements = (codes "10", placement 10 21000) ∷ (codes "9", placement 9 21100) ∷ []

placements_pass : validate_slot_placements policy placements ≡ ok tt
unfolding validate_slot_placements text_eq text_lt set_insert set_extend lookup
placements_pass = refl

validate_slot_placements-windows_example :
    (w : ℕ × ℕ) × (v : ℕ × ℕ) × (HasWindow placements 9 w)
    × (HasWindow placements 10 v)
    × IsApart w v
validate_slot_placements-windows_example =
    validate_slot_placements-windows policy placements 9 10 placements_pass
      (omega arith, omega arith) (omega arith, omega arith) (λ e. omega (arith, e))

abbrev codes_twice : List ℕ
codes_twice = 0 ∷ 3 ∷ 0 ∷ []

deserialize_twice : deserialize (λ a b. a == b) codes_twice ≡ err (duplicate 0)
unfolding deserialize any
deserialize_twice = refl

deserialize-cases_example :
    ((deserialize (λ a b. a == b) codes_twice ≡ ok (record { items = codes_twice }))
      × AllDistinct codes_twice)
    ⊎ ((x : ℕ) × (deserialize (λ a b. a == b) codes_twice ≡ err (duplicate x))
        × Repeats codes_twice x)
deserialize-cases_example = deserialize-cases (λ a b. a == b) ==_iff codes_twice
