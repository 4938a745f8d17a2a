-- ===== src/Execution/Ports.antt =====
-- Port allocation: consecutive ports from the start of the window, none of them twice.
use mathlib.Core.Path.{subst, subst₂}
use nixfied.Prelude.{
  ℕ, suc, ◌+◌, ◌<◌, ◌≤◌, ◌≡◌, ◌⊎◌, sym, ◌∙◌, inl, inr, none, some, List, [], ◌∷◌, Text, length,
  lookup, text_eq, text_eq→≡, arith, Bool-cases,
}
use native.Mathlib.Nat.{add-zero}
use nixfied.Execution.Types.{ExecService, endpoint_ids}
use nixfied.Execution.Plan.{Ports, saturating_suc, endpoint_ports_from, allocate}

-- The cursor of the true position: the two differ only beyond the last port.
abbrev pub IsCursor : ℕ → ℕ → Type 0
IsCursor cursor position =
    (position ≤ 65535 → cursor ≡ position) × (65535 < position → cursor ≡ 65535)

saturating_suc-IsCursor :
    (cursor position : ℕ)
    → IsCursor cursor position
    → IsCursor (saturating_suc cursor) (position + 1)
unfolding saturating_suc
saturating_suc-IsCursor cursor position h = ground (arith, h.0, h.1)

-- The ports lie in a range, and name their endpoints.
record IsAllotted (ports : Ports) (low high : ℕ) : Type 0 where
  inside : (e : Text) (p : ℕ) → lookup e ports ≡ some p → (low ≤ p) × (p < high)
  unique : (e f : Text) (p : ℕ) → lookup e ports ≡ some p → lookup f ports ≡ some p → e ≡ f

lookup-cons :
    {V : Type 0} (k j : Text) (v : V) (m : List (Text × V)) {w : V}
    → lookup k ((j, v) ∷ m) ≡ some w
    → ((j ≡ k) × (v ≡ w)) ⊎ (lookup k m ≡ some w)
unfolding lookup
lookup-cons k j v m h = elim (Bool-cases (text_eq j k)) [
  | inl t ↦ inl (text_eq→≡ j k t, ground arith)
  | inr f ↦ inr (ground arith)
]

IsAllotted-cons :
    (endpoint : Text) (ports : Ports) (low high : ℕ)
    → low < high
    → IsAllotted ports (low + 1) high
    → IsAllotted ((endpoint, low) ∷ ports) low high
IsAllotted-cons endpoint ports low high fits h = record {
  inside = λ e p l. elim (lookup-cons e endpoint low ports l) [
    | inl (a, b) ↦ omega arith
    | inr r ↦ omega (arith, h.inside e p r)
  ];
  unique = λ e f p l m. elim (lookup-cons e endpoint low ports l) [
    | inl (a, b) ↦ elim (lookup-cons f endpoint low ports m) [
      | inl (c, d) ↦ sym a ∙ c
      | inr r ↦ absurd (omega (arith, h.inside f p r))
    ]
    | inr q ↦ elim (lookup-cons f endpoint low ports m) [
      | inl (c, d) ↦ absurd (omega (arith, h.inside e p q))
      | inr r ↦ h.unique e f p q r
    ]
  ];
}

IsAllotted-nil : (low high : ℕ) → IsAllotted [] low high
unfolding lookup
IsAllotted-nil low high = record { inside = λ e p l. cc_ports l; unique = λ e f p l m. cc }
  where
    cc_ports : {p : ℕ} → none ≡ some p → (low ≤ p) × (p < high)
    cc_ports l = cc

endpoint_ports_from-IsAllotted :
    (cursor position : ℕ) (ids : List Text)
    → IsCursor cursor position
    → position + length ids ≤ 65536
    → IsAllotted (endpoint_ports_from cursor ids).0 position (position + length ids)
      × IsCursor (endpoint_ports_from cursor ids).1 (position + length ids)
unfolding endpoint_ports_from
endpoint_ports_from-IsAllotted cursor position [] c h =
    (IsAllotted-nil position (position + 0), rw add-zero c)
endpoint_ports_from-IsAllotted cursor position (id ∷ ids) c h =
    let (allotted, last) =
      endpoint_ports_from-IsAllotted (saturating_suc cursor) (position + 1) ids
        (saturating_suc-IsCursor cursor position c) (omega arith) in
    let e : cursor ≡ position = c.0 (omega arith) in
    let shift : (position + 1) + length ids ≡ position + suc (length ids) = omega arith in
    let tail = (endpoint_ports_from (saturating_suc cursor) ids).0 in
    let all : IsAllotted ((id, position) ∷ tail) position (position + 1 + length ids) =
      IsAllotted-cons id tail position (position + 1 + length ids) (omega arith) allotted in
    (
      subst₂ (λ c' high. IsAllotted ((id, c') ∷ tail) position high) (sym e) shift all,
      subst (λ z. IsCursor (endpoint_ports_from (saturating_suc cursor) ids).1 z) shift last,
    )

-- The endpoints of all services.
unfoldable pub total : List (Text × ExecService) → ℕ
total [] = 0
total ((id, service) ∷ rest) = length (endpoint_ids service) + total rest

-- The port of an endpoint of a service.
abbrev pub IsPort : List (Text × Ports) → Text → Text → ℕ → Type 0
IsPort addresses service endpoint port =
    (ports : Ports) × (lookup service addresses ≡ some ports) × (lookup endpoint ports ≡ some port)

pub record IsAllocated (addresses : List (Text × Ports)) (low high : ℕ) : Type 0 where
  pub inside : (s e : Text) (p : ℕ) → IsPort addresses s e p → (low ≤ p) × (p < high)
  pub unique :
      (s t e f : Text) (p : ℕ) → IsPort addresses s e p → IsPort addresses t f p → (s ≡ t) × (e ≡ f)

IsAllocated-cons :
    (id : Text) (ports : Ports) (addresses : List (Text × Ports)) (low mid high : ℕ)
    → low ≤ mid
    → mid ≤ high
    → IsAllotted ports low mid
    → IsAllocated addresses mid high
    → IsAllocated ((id, ports) ∷ addresses) low high
IsAllocated-cons id ports addresses low mid high lm mh h k = record {
  inside = in_range;
  unique = names;
}
  where
    split :
        (s e : Text) (p : ℕ)
        → IsPort ((id, ports) ∷ addresses) s e p
        → ((id ≡ s) × (lookup e ports ≡ some p)) ⊎ IsPort addresses s e p
    split s e p (qs, l, m) = elim (lookup-cons s id ports addresses l) [
      | inl (a, b) ↦ inl (a, rw b m)
      | inr r ↦ inr (qs, r, m)
    ]

    in_range :
        (s e : Text) (p : ℕ) → IsPort ((id, ports) ∷ addresses) s e p → (low ≤ p) × (p < high)
    in_range s e p l = elim (split s e p l) [
      | inl (a, b) ↦ omega (arith, h.inside e p b)
      | inr r ↦ omega (arith, k.inside s e p r)
    ]

    names :
        (s t e f : Text) (p : ℕ)
        → IsPort ((id, ports) ∷ addresses) s e p
        → IsPort ((id, ports) ∷ addresses) t f p
        → (s ≡ t) × (e ≡ f)
    names s t e f p l m = elim (split s e p l) [
      | inl (a, b) ↦ elim (split t f p m) [
        | inl (c, d) ↦ (sym a ∙ c, h.unique e f p b d)
        | inr r ↦ absurd (omega (arith, h.inside e p b, k.inside t f p r))
      ]
      | inr q ↦ elim (split t f p m) [
        | inl (c, d) ↦ absurd (omega (arith, h.inside f p d, k.inside s e p q))
        | inr r ↦ k.unique s t e f p q r
      ]
    ]

IsAllocated-nil : (low high : ℕ) → IsAllocated [] low high
unfolding lookup
IsAllocated-nil low high = record {
  inside = λ s e p l. absurd (none_left l.1);
  unique = λ s t e f p l m. absurd (none_left l.1);
}
  where
    none_left : {ports : Ports} → none ≡ some ports → ⊥
    none_left e = cc

pub allocate-IsAllocated :
    (cursor position : ℕ) (services : List (Text × ExecService))
    → IsCursor cursor position
    → position + total services ≤ 65536
    → IsAllocated (allocate cursor services) position (position + total services)
unfolding allocate total
allocate-IsAllocated cursor position [] c h = IsAllocated-nil position (position + 0)
allocate-IsAllocated cursor position ((id, service) ∷ rest) c h =
    let n = length (endpoint_ids service) in
    let (allotted, last) =
      endpoint_ports_from-IsAllotted cursor position (endpoint_ids service) c (omega arith) in
    let shift : position + n + total rest ≡ position + (n + total rest) = omega arith in
    IsAllocated-cons id _ _ position (position + n) _ (omega arith) (omega arith) allotted (
      subst
        (λ high.
          IsAllocated (allocate (endpoint_ports_from cursor (endpoint_ids service)).1 rest)
            (position + n) high)
        shift
        (allocate-IsAllocated (endpoint_ports_from cursor (endpoint_ids service)).1 (position + n)
          rest last (omega arith)))
