-- ===== src/Manifest/Placements.antt =====
-- The slot policy and the slot placements of validation.rs.
use Prim.Native.Nat.{◌/◌, ◌%◌}
use nixfied.Prelude.{
  ℕ, zero, suc, ◌+◌, ◌-◌, Bool, true, false, not, ◌&&◌, ◌||◌, none, some, List, [], ◌∷◌, Text,
  text_eq, Result, ok, err, ◌>>=◌, ◌>>◌, ensure, ltb, leb, ◌==◌, if◌then◌else◌, lookup, set_extend,
  map,
}
use nixfied.Manifest.Types.{SlotPolicy, CandidatePortWindow, SlotPlacement, Map}
use nixfied.Manifest.Errors.{
  ValidationError, unsupported_value, index_panic, as_range, as_number, as_texts, as_window,
  as_windows, Check,
}

unfoldable pub validate_slot_policy : SlotPolicy → Check
validate_slot_policy policy = do
  ensure
      (unsupported_value "slotPolicy" "max >= min" (as_range policy.min policy.default policy.max))
      (not (ltb policy.max policy.min))
  ensure
      (unsupported_value "slotPolicy.default" "within slotPolicy range" (as_number policy.default))
      (not (ltb policy.default policy.min || ltb policy.max policy.default))

unfoldable pub decimal_from : ℕ → ℕ → Text → Text
decimal_from zero n digits = digits
decimal_from (suc fuel) n digits =
    let rest = decimal_from fuel (n / 10) ((48 + n % 10) ∷ digits) in
    if ltb n 10 then (48 + n) ∷ digits else rest

-- `slot.to_string()`
unfoldable pub to_decimal : ℕ → Text
unfolding decimal_from
to_decimal n = decimal_from (suc n) n []

-- `count` slots from `slot` on.
unfoldable pub slots_from : ℕ → ℕ → List ℕ
slots_from zero slot = []
slots_from (suc count) slot = slot ∷ slots_from count (slot + 1)

-- `min..=max`
unfoldable pub slots_of : SlotPolicy → List ℕ
unfolding slots_from
slots_of policy = slots_from ((policy.max + 1) - policy.min) policy.min

unfoldable pub texts_eq : List Text → List Text → Bool
texts_eq [] [] = true
texts_eq (x ∷ xs) (y ∷ ys) = text_eq x y && texts_eq xs ys
texts_eq _ _ = false

unfoldable pub validate_candidate_port_window : CandidatePortWindow → Check
validate_candidate_port_window window =
    ensure
      (unsupported_value "placement.slotPlacements.candidatePorts"
        "ports in 1..65535 with start <= end" (as_window window.start window.end))
      (not ((window.start == 0) || ltb window.end window.start))

abbrev pub Windows : Type 0
Windows = List (ℕ × ℕ)

-- The loop over the slots, which checks each placement and collects its window.
unfoldable pub collect_windows : Map SlotPlacement → List ℕ → Result ValidationError Windows
unfolding validate_candidate_port_window
collect_windows placements [] = ok []
collect_windows placements (slot ∷ slots) =
    let rest = collect_windows placements slots in
    elim (lookup (to_decimal slot) placements) [
      | none ↦ err (index_panic (to_decimal slot))
      | some placement ↦
          ensure
            (unsupported_value "placement.slotPlacements.slot" "map key slot"
              (as_number placement.slot))
            (placement.slot == slot)
          >> (validate_candidate_port_window placement.candidate_ports
              >> (rest >>= λ windows.
                  ok ((placement.candidate_ports.start, placement.candidate_ports.end) ∷ windows)))
    ]

unfoldable pub insert_window : ℕ × ℕ → Windows → Windows
insert_window w [] = w ∷ []
insert_window w (v ∷ vs) = if leb w.0 v.0 then w ∷ v ∷ vs else v ∷ insert_window w vs

-- `sort_unstable_by_key(|(start, _)| *start)`. Windows with one start overlap, in either order.
unfoldable pub sort_windows : Windows → Windows
unfolding insert_window
sort_windows [] = []
sort_windows (w ∷ ws) = insert_window w (sort_windows ws)

-- `windows(2)`: no window starts before the one in front of it ends.
unfoldable pub check_neighbours : Windows → Windows → Check
check_neighbours all_windows [] = ok tt
check_neighbours all_windows (w ∷ []) = ok tt
check_neighbours all_windows (w ∷ v ∷ vs) =
    let rest = check_neighbours all_windows (v ∷ vs) in
    ensure
      (unsupported_value "placement.slotPlacements.candidatePorts" "non-overlapping windows"
        (as_windows all_windows))
      (not (leb v.0 w.1))
    >> rest

unfoldable pub validate_slot_placements : SlotPolicy → Map SlotPlacement → Check
unfolding to_decimal slots_of collect_windows sort_windows check_neighbours texts_eq
validate_slot_placements policy placements =
    let slots = slots_of policy in
    let actual_keys = set_extend [] (map (λ e. e.0) placements) in
    let expected_keys = set_extend [] (map to_decimal slots) in
    ensure
      (unsupported_value "placement.slotPlacements" "exact slotPolicy range" (as_texts actual_keys))
      (texts_eq actual_keys expected_keys)
    >> (collect_windows placements slots >>= λ windows.
        check_neighbours (sort_windows windows) (sort_windows windows))
