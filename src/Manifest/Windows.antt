-- ===== src/Manifest/Windows.antt =====
-- What the placement check gives the planner: each slot of the policy has its own port window.
use nixfied.Prelude.{
  ℕ, zero, suc, ◌+◌, ◌-◌, ◌<◌, ◌≤◌, ◌≡◌, ◌≢◌, ◌⊎◌, refl, sym, ◌∙◌, inl, inr, true, not, ◌||◌, ◌==◌,
  ==_iff, some, List, [], ◌∷◌, Result, ok, err, >>=-ok, >>-ok, ensure-ok, ltb, lookup, arith,
  Option-cases, Mem,
}
use nixfied.Manifest.Types.{SlotPolicy, SlotPlacement, Map}
use nixfied.Manifest.Errors.{ValidationError, index_panic}
use nixfied.Manifest.Placements.{
  Windows, to_decimal, slots_from, slots_of, validate_candidate_port_window, collect_windows,
  sort_windows, validate_slot_placements,
}
use nixfied.Manifest.Apart.{
  IsApart, AllApart, AllProper, IsApart-sym, check_neighbours-AllApart, mem-sort_windows,
  sort_windows-AllApart,
}

-- A slot has a placement of its own number, with a proper window that does not start at 0.
abbrev pub HasWindow : Map SlotPlacement → ℕ → ℕ × ℕ → Type 0
HasWindow placements slot w =
    (placement : SlotPlacement) × (lookup (to_decimal slot) placements ≡ some placement)
    × (placement.slot ≡ slot)
    × (0 < w.0)
    × (w.0 ≤ w.1)
    × ((placement.candidate_ports.start, placement.candidate_ports.end) ≡ w)

abbrev Collected : Map SlotPlacement → List ℕ → Windows → Type 0
Collected placements [] ws = ws ≡ []
Collected placements (slot ∷ slots) ws =
    (w : ℕ × ℕ) × (rest : Windows) × HasWindow placements slot w
    × (ws ≡ w ∷ rest)
    × Collected placements slots rest

collect_windows-Collected :
    (placements : Map SlotPlacement) (slots : List ℕ) (ws : Windows)
    → collect_windows placements slots ≡ ok ws
    → Collected placements slots ws
unfolding collect_windows validate_candidate_port_window
collect_windows-Collected placements [] ws h = cc
collect_windows-Collected placements (slot ∷ slots) ws h =
    elim (Option-cases (lookup (to_decimal slot) placements)) [
      | inl e ↦ absurd (none_case (index_panic (to_decimal slot)) (rw (collect_windows, e) at h))
      | inr (placement, e) ↦
          let (f, h1) = >>-ok _ _ (rw (collect_windows, e) at h) in
          let (g, h2) = >>-ok _ _ h1 in
          let (rest, k, last) = >>=-ok (collect_windows placements slots) _ h2 in
          let same : ws ≡ (placement.candidate_ports.start, placement.candidate_ports.end) ∷ rest =
            cc in
          let proper =
            window_bounds placement.candidate_ports.start placement.candidate_ports.end
              (ensure-ok _ _ g) in
          (
            (placement.candidate_ports.start, placement.candidate_ports.end),
            rest,
            (
              placement,
              e,
              (==_iff placement.slot slot).0 (ensure-ok _ _ f),
              proper.0,
              proper.1,
              refl,
            ),
            same,
            collect_windows-Collected placements slots rest k,
          )
    ]
  where
    none_case : (e : ValidationError) → ◌≡◌ {A = Result ValidationError Windows} (err e) (ok ws) → ⊥
    none_case e h = cc

    window_bounds :
        (start end : ℕ) → not ((start == 0) || ltb end start) ≡ true → (0 < start) × (start ≤ end)
    window_bounds start end h = ground arith

Collected-window :
    (placements : Map SlotPlacement) (slots : List ℕ) (ws : Windows) (s : ℕ)
    → Collected placements slots ws
    → Mem s slots
    → (w : ℕ × ℕ) × (Mem w ws) × (HasWindow placements s w)
Collected-window placements [] ws s c m = absurd m
Collected-window placements (slot ∷ slots) ws s (w, rest, has, same, c) m = rw same (elim m [
  | inl e ↦ (w, inl refl, rw e has)
  | inr n ↦ let (v, k, found) = Collected-window placements slots rest s c n in (v, inr k, found)
])

-- The windows of two slots are apart.
Collected-IsApart :
    (placements : Map SlotPlacement) (slots : List ℕ) (ws : Windows) (s t : ℕ)
    → Collected placements slots ws
    → AllApart ws
    → Mem s slots
    → Mem t slots
    → s ≢ t
    → (w : ℕ × ℕ) × (v : ℕ × ℕ) × (HasWindow placements s w)
      × (HasWindow placements t v)
      × IsApart w v
Collected-IsApart placements [] ws s t c a m n d = absurd m
Collected-IsApart placements (slot ∷ slots) ws s t (w, rest, has, same, c) a m n d =
    let (first, others) = rw same at a in
    elim m [
      | inl e ↦ elim n [
        | inl e' ↦ absurd (d (e ∙ sym e'))
        | inr n' ↦
            let (v, k, found) = Collected-window placements slots rest t c n' in
            (w, v, rw e has, found, first v k)
      ]
      | inr m' ↦ elim n [
        | inl e' ↦
            let (v, k, found) = Collected-window placements slots rest s c m' in
            (v, w, found, rw e' has, IsApart-sym w v (first v k))
        | inr n' ↦ Collected-IsApart placements slots rest s t c others m' n' d
      ]
    ]

Collected-AllProper :
    (placements : Map SlotPlacement) (slots : List ℕ) (ws : Windows)
    → Collected placements slots ws
    → AllProper ws
Collected-AllProper placements [] ws c w m = absurd (rw c at m)
Collected-AllProper placements (slot ∷ slots) ws (u, rest, has, same, c) w m = elim (rw same at m) [
  | inl e ↦ rw e (has.4)
  | inr n ↦ Collected-AllProper placements slots rest c w n
]

mem-slots_from : (count slot s : ℕ) → slot ≤ s → s < slot + count → Mem s (slots_from count slot)
unfolding slots_from
mem-slots_from zero slot s low high = absurd (omega arith)
mem-slots_from (suc count) slot s low high = elim (compare_cases slot s low) [
  | inl e ↦ inl e
  | inr l ↦ inr (mem-slots_from count (slot + 1) s (omega arith) (omega arith))
]
  where
    compare_cases : (a b : ℕ) → a ≤ b → (b ≡ a) ⊎ (a < b)
    compare_cases a b l = ground arith

-- A slot of the policy lies in its range.
abbrev pub IsSlot : SlotPolicy → ℕ → Type 0
IsSlot policy slot = (policy.min ≤ slot) × (slot ≤ policy.max)

-- For two different slots of the policy, placements that pass the check have a placement of each
-- slot's own number, whose port window is not empty and does not hold port 0, and the two windows
-- do not overlap.
pub validate_slot_placements-windows :
    (policy : SlotPolicy) (placements : Map SlotPlacement) (s t : ℕ)
    → validate_slot_placements policy placements ≡ ok tt
    → IsSlot policy s
    → IsSlot policy t
    → s ≢ t
    → (w : ℕ × ℕ) × (v : ℕ × ℕ) × (HasWindow placements s w)
      × (HasWindow placements t v)
      × IsApart w v
unfolding validate_slot_placements slots_of
validate_slot_placements-windows policy placements s t h i j d =
    let (keys, h1) = >>-ok _ _ h in
    let (ws, e, h2) = >>=-ok (collect_windows placements (slots_of policy)) _ h1 in
    let c = collect_windows-Collected placements (slots_of policy) ws e in
    let proper = λ (z : ℕ × ℕ) (m : Mem z (sort_windows ws)).
      Collected-AllProper placements (slots_of policy) ws c z ((mem-sort_windows z ws).0 m) in
    let apart =
      sort_windows-AllApart ws
        (check_neighbours-AllApart (sort_windows ws) (sort_windows ws) proper h2) in
    Collected-IsApart placements (slots_of policy) ws s t c apart
      (mem-slots_from ((policy.max + 1) - policy.min) policy.min s i.0 (omega arith))
      (mem-slots_from ((policy.max + 1) - policy.min) policy.min t j.0 (omega arith)) d

-- One slot's part of the check.
pub validate_slot_placements-HasWindow :
    (policy : SlotPolicy) (placements : Map SlotPlacement) (s : ℕ)
    → validate_slot_placements policy placements ≡ ok tt
    → IsSlot policy s
    → (w : ℕ × ℕ) × HasWindow placements s w
unfolding validate_slot_placements slots_of
validate_slot_placements-HasWindow policy placements s h i =
    let (keys, h1) = >>-ok _ _ h in
    let (ws, e, h2) = >>=-ok (collect_windows placements (slots_of policy)) _ h1 in
    let c = collect_windows-Collected placements (slots_of policy) ws e in
    let (w, m, found) =
      Collected-window placements (slots_of policy) ws s c
        (mem-slots_from ((policy.max + 1) - policy.min) policy.min s i.0 (omega arith)) in
    (w, found)
