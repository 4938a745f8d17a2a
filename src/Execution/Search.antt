-- ===== src/Execution/Search.antt =====
-- One search of plan.rs for a cycle: it returns a trail back to its origin, or it has explored all
-- that the origin leads to.
use nixfied.Prelude.{
  ℕ, zero, suc, ◌≡◌, ◌≢◌, ◌⊎◌, refl, sym, ap, inl, inr, true, false, Option, none, some, List, [],
  ◌∷◌, ◌++◌, Text, map, Result, ok, >>=-ok, text_eq, text_eq→≡, text_eq_refl, lookup, contains,
  contains-Mem, set_insert, mem-set_insert, set_insert_mem, Mem, Mem-keys, Bool-cases, Option-cases,
}
use nixfied.Execution.Flatten.{PlanError}
use nixfied.Execution.Graph.{EdgeKind, Edges}
use nixfied.Execution.Plan.{edge_targets}
use nixfied.Execution.Admit.{Trail, visit_targets, visit}
use nixfied.Execution.Closure.{Reaches, start, along}

-- A trail that follows edges from the origin to a service.
pub data Walk (edges : Edges) (origin : Text) : Trail → Text → Type 0 where
  here : {id : Text} {trail : Trail} → id ≡ origin → trail ≡ [] → Walk edges origin trail id
  step :
      (id target : Text) (kind : EdgeKind) (trail whole : Trail) (targets : List (Text × EdgeKind))
      → Walk edges origin trail id
      → lookup id edges ≡ some targets
      → Mem (target, kind) targets
      → whole ≡ trail ++ (target, kind) ∷ []
      → Walk edges origin whole target

snoc-ne-nil : (trail : Trail) (edge : Text × EdgeKind) → trail ++ edge ∷ [] ≢ []
snoc-ne-nil [] edge h = cc
snoc-ne-nil (e ∷ trail) edge h = cc

target-Mem :
    (edges : Edges) (id target : Text) (kind : EdgeKind) (targets : List (Text × EdgeKind))
    → lookup id edges ≡ some targets
    → Mem (target, kind) targets
    → Mem target (edge_targets edges id)
unfolding edge_targets
target-Mem edges id target kind targets e m = rw (edge_targets, e) (Mem-keys target kind targets m)

-- A walk that is not empty shows that the origin leads to its end.
pub Walk-Reaches :
    (edges : Edges) (origin : Text) {trail : Trail} {id : Text}
    → Walk edges origin trail id
    → ((id ≡ origin) × (trail ≡ [])) ⊎ Reaches edges (edge_targets edges origin) id
Walk-Reaches edges origin (here e t) = inl (e, t)
Walk-Reaches edges origin (step id target kind trail whole targets w e m same) =
    let there : Mem target (edge_targets edges id) = target-Mem edges id target kind targets e m in
    elim (Walk-Reaches edges origin w) [
      | inl (f, t) ↦ inr (start (rw f at there))
      | inr r ↦ inr (along r there)
    ]

module _ (edges : Edges) (origin : Text) where
  -- None of the targets is the origin, and all were seen.
  abbrev pub Explored : List Text → List Text → Type 0
  Explored seen targets = (t : Text) → Mem t targets → (t ≢ origin) × Mem t seen

  -- What was seen stays seen, and what is new was explored.
  abbrev pub Grows : List Text → List Text → Type 0
  Grows before seen =
      ((z : Text) → Mem z before → Mem z seen)
      × ((z : Text) → Mem z seen → Mem z before ⊎ Explored seen (edge_targets edges z))

  abbrev pub Finds : List Text → List Text → Option Trail × List Text → Type 0
  Finds targets before found =
      ((found.0 ≡ none) × Grows before found.1 × Explored found.1 targets)
      ⊎ ((cycle : Trail) × (found.0 ≡ some cycle) × (cycle ≢ []) × Walk edges origin cycle origin)

  Explored-wider :
      (seen wider : List Text) (targets : List Text)
      → ((z : Text) → Mem z seen → Mem z wider)
      → Explored seen targets
      → Explored wider targets
  Explored-wider seen wider targets w x t m = let (n, k) = x t m in (n, w t k)

  Grows-trans : (a b c : List Text) → Grows a b → Grows b c → Grows a c
  Grows-trans a b c (ab, old) (bc, new) = (
    (λ z m. bc z (ab z m)),
    (λ z m. elim (new z m) [
      | inl k ↦ elim (old z k) [
        | inl j ↦ inl j
        | inr x ↦ inr (Explored-wider b c (edge_targets edges z) bc x)
      ]
      | inr x ↦ inr x
    ]),
  )

  -- A target is inserted, and explored afterwards.
  Grows-insert :
      (target : Text) (before seen : List Text)
      → Grows (set_insert target before) seen
      → Explored seen (edge_targets edges target)
      → Grows before seen
  Grows-insert target before seen (keeps, new) x = (
    (λ z m. keeps z (set_insert_mem z target before (inr m))),
    (λ z m. elim (new z m) [
      | inl k ↦ elim (mem-set_insert z target before k) [
        | inl e ↦ inr (explored z e)
        | inr j ↦ inl j
      ]
      | inr y ↦ inr y
    ]),
  )
    where
      explored : (z : Text) → z ≡ target → Explored seen (edge_targets edges z)
      explored z e = rw e x

  text_eq-false : (t : Text) → text_eq t origin ≡ false → t ≢ origin
  text_eq-false t f e = let same : text_eq t origin ≡ true = rw e (text_eq_refl origin) in cc

  -- One more target, that was seen already or is explored.
  Finds-cons :
      (target : Text) (targets before middle : List Text) (found : Option Trail × List Text)
      → target ≢ origin
      → Mem target middle
      → Grows before middle
      → Finds targets middle found
      → Finds (target ∷ targets) before found
  Finds-cons target targets before middle found n m g (inr c) = inr c
  Finds-cons target targets before middle found n m g (inl (e, h, x)) =
      inl (e, Grows-trans before middle found.1 g h, both)
    where
      both : Explored found.1 (target ∷ targets)
      both t (inl k) = rw k (n, h.0 target m)
      both t (inr k) = x t k

  abbrev pub Calls :
      (Text → Trail → List Text → Result PlanError (Option Trail × List Text)) → Type 0
  Calls call =
      (t : Text) (trail : Trail) (seen : List Text) (found : Option Trail × List Text)
      → Walk edges origin trail t
      → call t trail seen ≡ ok found
      → Finds (edge_targets edges t) seen found

  trail_cases : (t : Option Trail) → (t ≡ none) ⊎ ((c : Trail) × (t ≡ some c))
  trail_cases none = inl refl
  trail_cases (some c) = inr (c, refl)

  closes :
      {cycle : Trail} {target : Text}
      → Walk edges origin cycle target
      → target ≡ origin
      → Walk edges origin cycle origin
  closes w e = rw e at w

  visit_targets-Finds :
      (call : Text → Trail → List Text → Result PlanError (Option Trail × List Text))
      (targets : List (Text × EdgeKind)) (trail : Trail) (seen : List Text)
      {found : Option Trail × List Text}
      → Calls call
      → ((t : Text) (k : EdgeKind)
          → Mem (t, k) targets
          → Walk edges origin (trail ++ (t, k) ∷ []) t)
      → visit_targets call origin targets trail seen ≡ ok found
      → Finds (map (λ t. t.0) targets) seen found
  unfolding visit_targets
  visit_targets-Finds call [] trail seen {found} c w h =
      let same : ◌≡◌ {A = Option Trail × List Text} (none, seen) found = ok_same h in
      inl (
        sym (ap (λ (p : Option Trail × List Text). p.0) same),
        grows (ap (λ (p : Option Trail × List Text). p.1) same),
        (λ t m. absurd m),
      )
    where
      ok_same :
          {a b : Option Trail × List Text}
          → ◌≡◌ {A = Result PlanError (Option Trail × List Text)} (ok a) (ok b)
          → a ≡ b
      ok_same e = cc

      grows : {last : List Text} → seen ≡ last → Grows seen last
      grows e = rw e ((λ z m. m), (λ z m. inl m))
  visit_targets-Finds call ((target, kind) ∷ rest) trail seen {found} c w h =
      elim (Bool-cases (text_eq target origin)) [
        | inl t ↦
            let same : ◌≡◌ {A = Option Trail × List Text}
                (some (trail ++ (target, kind) ∷ []), seen) found =
              cc (rw (visit_targets, t) at h) in
            let walk : Walk edges origin (trail ++ (target, kind) ∷ []) target =
              w target kind (inl refl) in
            inr (
              trail ++ (target, kind) ∷ [],
              sym (ap (λ (p : Option Trail × List Text). p.0) same),
              snoc-ne-nil trail (target, kind),
              closes walk (text_eq→≡ target origin t),
            )
        | inr n ↦ elim (Bool-cases (contains seen target)) [
          | inl t ↦
              Finds-cons target (map (λ t. t.0) rest) seen seen found (text_eq-false target n)
                (contains-Mem seen target t) ((λ z m. m), (λ z m. inl m))
                (visit_targets-Finds call rest trail seen c (λ a k m. w a k (inr m))
                  (rw (visit_targets, n, t) at h))
          | inr u ↦
              let (inner, e, h1) =
                >>=-ok (call target (trail ++ (target, kind) ∷ []) (set_insert target seen)) _
                  (rw (visit_targets, n, u) at h) in
              let ends =
                c target (trail ++ (target, kind) ∷ []) (set_insert target seen) inner
                  (w target kind (inl refl)) e in
              elim ends [
                | inr (cycle, s, full, walk) ↦
                    let same : ◌≡◌ {A = Option Trail × List Text} (some cycle, inner.1) found =
                      cc (rw s at h1) in
                    inr (cycle, sym (ap (λ (p : Option Trail × List Text). p.0) same), full, walk)
                | inl (s, g, x) ↦
                    Finds-cons target (map (λ t. t.0) rest) seen inner.1 found
                      (text_eq-false target n)
                      (g.0 target (set_insert_mem target target seen (inl refl)))
                      (Grows-insert target seen inner.1 g x)
                      (visit_targets-Finds call rest trail inner.1 c (λ a k m. w a k (inr m))
                        (rw s at h1))
              ]
        ]
      ]

  pub visit-Finds : (fuel : ℕ) → Calls (visit fuel edges origin)
  unfolding visit edge_targets
  visit-Finds zero t trail seen found w h = cc
  visit-Finds (suc fuel) t trail seen found w h = elim (Option-cases (lookup t edges)) [
    | inl e ↦ cc (rw (visit, e) at h)
    | inr (targets, e) ↦
        let finds =
          visit_targets-Finds (visit fuel edges origin) targets trail seen (visit-Finds fuel)
            (λ a k m. step t a k trail (trail ++ (a, k) ∷ []) targets w e m refl)
            (rw (visit, e) at h) in
        let same : map (λ t. t.0) targets ≡ edge_targets edges t = sym (targets_of e) in
        rw same at finds
  ]
    where
      targets_of :
          {targets : List (Text × EdgeKind)}
          → lookup t edges ≡ some targets
          → edge_targets edges t ≡ map (λ t. t.0) targets
      targets_of e = rw (edge_targets, e) refl

  -- What was explored from the origin holds all that the origin leads to, and not the origin.
  pub Explored-Reaches :
      (seen : List Text) (id : Text)
      → Explored seen (edge_targets edges origin)
      → ((z : Text) → Mem z seen → Explored seen (edge_targets edges z))
      → Reaches edges (edge_targets edges origin) id
      → (id ≢ origin) × Mem id seen
  Explored-Reaches seen id x c (start m) = x id m
  Explored-Reaches seen id x c (along {id = j} r m) =
      let (n, k) = Explored-Reaches seen j x c r in c j k id m
