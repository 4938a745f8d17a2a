-- ===== src/Lower/Totality.antt =====
-- The structural map of lower.rs has no panic on a manifest that validation and the proof of
-- references accept.
use nixfied.Prelude.{
  ℕ, zero, suc, ◌+◌, ◌-◌, ◌≡◌, ◌<◌, ◌≤◌, refl, ap, inl, inr, true, some, List, [], ◌∷◌, Text,
  text_eq, text_eq→≡, ok, >>-ok, Errs, Errs-ok, Errs-bind, lookup, Mem, IsKey, set_extend,
  mem-set_extend, set_extend_mem, mem-map, map, arith, Mem-keys, Bool-cases, ensure-ok,
}
use nixfied.Manifest.Types.{
  Map, ClosureSpec, SecretDescriptor, SlotPolicy, SlotPlacement, ServiceSpec, TaskSpec, Manifest,
}
use nixfied.Manifest.Placements.{
  to_decimal, slots_from, slots_of, texts_eq, validate_slot_placements,
}
use nixfied.Manifest.Windows.{validate_slot_placements-HasWindow}
use nixfied.Manifest.Units.{validate_service}
use nixfied.Manifest.Tasks.{validate_task}
use nixfied.Manifest.Validate.{validate}
use nixfied.Execution.Types.{PortWindow, new_window, ExecService}
use nixfied.Lower.References.{prove_references}
use nixfied.Lower.Services.{expect, lower_service}
use nixfied.Lower.Tasks.{lower_task}
use nixfied.Lower.Program.{window_insert, lower_services, lower_tasks, lower_windows, lower_program}
use nixfied.Lower.Validated.{validate-IsChecked}
use nixfied.Lower.Declared.{prove_references-AreDeclared}
use nixfied.Lower.Refusals.{IsRefusal}
use nixfied.Lower.Expected.{expect-Errs, lower_service-Errs, lower_task-Errs}

-- A list of entries is a map: a lookup finds every entry.
abbrev pub IsMap : {V : Type 0} → Map V → Type 0
IsMap {V} m = (k : Text) (v : V) → Mem (k, v) m → lookup k m ≡ some v

lower_services-Errs :
    (all_services services : Map ServiceSpec) (closures : Map ClosureSpec)
    (secrets : Map SecretDescriptor)
    → ((name : Text) (s : ServiceSpec)
        → Mem (name, s) services
        → validate_service (name, s) ≡ ok tt)
    → ((name : Text) (s : ServiceSpec) (target : Text)
        → Mem (name, s) services
        → Mem target s.connects_to.items
        → IsKey all_services target)
    → Errs IsRefusal (lower_services all_services services closures secrets)
unfolding lower_services
lower_services-Errs all_services [] closures secrets v k = Errs-ok IsRefusal []
lower_services-Errs all_services ((name, service) ∷ rest) closures secrets v k =
    Errs-bind IsRefusal (lower_service name service all_services closures secrets) _
      (lower_service-Errs name service all_services closures secrets (v name service (inl refl))
        (λ id m. k name service id (inl refl) m))
      (λ lowered h1.
        Errs-bind IsRefusal (lower_services all_services rest closures secrets) _
          (lower_services-Errs all_services rest closures secrets (λ n s m. v n s (inr m))
            (λ n s t m o. k n s t (inr m) o))
          (λ more h2. Errs-ok IsRefusal _))

lower_tasks-Errs :
    (tasks : Map TaskSpec) (closures : Map ClosureSpec) (secrets : Map SecretDescriptor)
    (services : Map ExecService)
    → ((id : Text) (t : TaskSpec) → Mem (id, t) tasks → validate_task (id, t) ≡ ok tt)
    → Errs IsRefusal (lower_tasks tasks closures secrets services)
unfolding lower_tasks
lower_tasks-Errs [] closures secrets services v = Errs-ok IsRefusal []
lower_tasks-Errs ((id, task) ∷ rest) closures secrets services v =
    Errs-bind IsRefusal (lower_task id task closures secrets services) _
      (lower_task-Errs id task closures secrets services (v id task (inl refl)))
      (λ lowered h1.
        Errs-bind IsRefusal (lower_tasks rest closures secrets services) _
          (lower_tasks-Errs rest closures secrets services (λ i t m. v i t (inr m)))
          (λ more h2. Errs-ok IsRefusal _))

-- The window of the placement is nonempty and does not start at 0.
abbrev IsProper : SlotPlacement → Type 0
IsProper p = (0 < p.candidate_ports.start) × (p.candidate_ports.start ≤ p.candidate_ports.end)

new_window-some :
    (start end : ℕ) → 0 < start → start ≤ end → (w : PortWindow) × (new_window start end ≡ some w)
unfolding new_window
new_window-some start end h k = (record { start = start; end = end }, ground arith)

lower_windows-Errs :
    (placements : Map SlotPlacement) (windows : List (ℕ × PortWindow))
    → ((key : Text) (p : SlotPlacement) → Mem (key, p) placements → IsProper p)
    → Errs IsRefusal (lower_windows placements windows)
unfolding lower_windows
lower_windows-Errs [] windows k = Errs-ok IsRefusal windows
lower_windows-Errs ((key, p) ∷ rest) windows k =
    let (a, b) = k key p (inl refl) in
    let (w, made) = new_window-some p.candidate_ports.start p.candidate_ports.end a b in
    Errs-bind IsRefusal
      (expect "validated placement has a nonempty port window"
        (new_window p.candidate_ports.start p.candidate_ports.end))
      _
      (expect-Errs "validated placement has a nonempty port window"
        (new_window p.candidate_ports.start p.candidate_ports.end) made)
      (λ window h.
        lower_windows-Errs rest (window_insert p.slot window windows) (λ i q m. k i q (inr m)))

texts_eq→≡ : (xs ys : List Text) → texts_eq xs ys ≡ true → xs ≡ ys
unfolding texts_eq
texts_eq→≡ [] [] h = refl
texts_eq→≡ [] (y ∷ ys) h = cc
texts_eq→≡ (x ∷ xs) [] h = cc
texts_eq→≡ (x ∷ xs) (y ∷ ys) h = elim (Bool-cases (text_eq x y)) [
  | inl t ↦ let e = text_eq→≡ x y t in let r = texts_eq→≡ xs ys (rw t at h) in cc
  | inr f ↦ cc (rw f at h)
]

slots_from-range :
    (count slot s : ℕ) → Mem s (slots_from count slot) → (slot ≤ s) × (s < slot + count)
unfolding slots_from
slots_from-range zero slot s m = absurd m
slots_from-range (suc count) slot s (inl e) = (omega (arith, e), omega (arith, e))
slots_from-range (suc count) slot s (inr m) =
    let (a, b) = slots_from-range count (slot + 1) s m in (omega (arith, a), omega (arith, b))

-- A key of checked placements is that of a slot, so its placement has a proper window.
checked_placements-IsProper :
    (policy : SlotPolicy) (placements : Map SlotPlacement)
    → validate_slot_placements policy placements ≡ ok tt
    → IsMap placements
    → (key : Text) (p : SlotPlacement) → Mem (key, p) placements
    → IsProper p
unfolding validate_slot_placements slots_of
checked_placements-IsProper policy placements h unique key p m =
    let (keys, h1) = >>-ok _ _ h in
    let same =
      texts_eq→≡ (set_extend [] (map (λ e. e.0) placements))
        (set_extend [] (map to_decimal (slots_of policy))) (ensure-ok _ _ keys) in
    let here =
      set_extend_mem key (map (λ e. e.0) placements) [] (inr (Mem-keys key p placements m)) in
    elim (mem-set_extend key (map to_decimal (slots_of policy)) [] (rw same at here)) [
      | inl n ↦ absurd n
      | inr n ↦
          let (s, k, e) = mem-map to_decimal key (slots_of policy) n in
          let (low, high) = slots_from-range ((policy.max + 1) - policy.min) policy.min s k in
          let (w, has) =
            validate_slot_placements-HasWindow policy placements s h (omega arith, omega arith) in
          let (placement, found, slot, positive, ordered, ports) = has in
          let held : lookup key placements ≡ some p = unique key p m in
          let mine = rw e at held in
          let one : p ≡ placement = cc in
          let starts : placement.candidate_ports.start ≡ w.0 = ap (λ (q : ℕ × ℕ). q.0) ports in
          let ends : placement.candidate_ports.end ≡ w.1 = ap (λ (q : ℕ × ℕ). q.1) ports in
          rw one (rw (starts, ends) (positive, ordered))
    ]

-- On a manifest that validation and the proof of references accept, and whose placements are a map,
-- the structural map of the lowering fails only with an error that it returns: no `expect` fails.
pub lower_program-Errs :
    (abi : Text) (m : Manifest)
    → validate abi m ≡ ok tt
    → IsMap m.placement.slot_placements
    → prove_references m ≡ ok tt
    → Errs IsRefusal (lower_program m)
unfolding lower_program
lower_program-Errs abi m v unique r =
    let c = validate-IsChecked abi m v in
    let d = prove_references-AreDeclared m r in
    Errs-bind IsRefusal (lower_services m.services m.services m.closures m.secrets) _
      (lower_services-Errs m.services m.services m.closures m.secrets c.services d.connects)
      (λ services h1.
        Errs-bind IsRefusal (lower_tasks m.tasks m.closures m.secrets services) _
          (lower_tasks-Errs m.tasks m.closures m.secrets services c.tasks)
          (λ tasks h2.
            Errs-bind IsRefusal (lower_windows m.placement.slot_placements []) _
              (lower_windows-Errs m.placement.slot_placements [] (
                checked_placements-IsProper m.slot_policy m.placement.slot_placements c.placements
                  unique))
              (λ windows h3. Errs-ok IsRefusal _)))
