-- ===== src/Readiness/Completed.antt =====
-- What a completed round of readiness.rs is evidence of.
use nixfied.Prelude.{
  ◌≡◌, ◌⊎◌, refl, sym, ap, ◌∙◌, inl, inr, Bool, true, false, Option, none, some, List, [], ◌∷◌,
  Text, text_eq, text_eq→≡, Result, ok, err, map, Bool-cases, Option-cases,
}
use nixfied.Manifest.Types.{Map}
use nixfied.Manifest.Errors.{is_empty}
use nixfied.Manifest.Units.{is_some}
use nixfied.Manifest.Placements.{texts_eq}
use nixfied.Readiness.Round.{
  RoundError, mismatched_round, CheckingRound, endpointless, endpoints, CompletedRound,
  remove_probe, pair_probes, matches, complete_endpoints, complete_scalar, complete,
}

-- The witnesses of the set in order, each with the probe of its endpoint.
abbrev pub Paired : {W : Type 0} → Map W → Map Text → List (W × Text) → Type 0
Paired [] [] pairs = pairs ≡ []
Paired ((i, w) ∷ ws) ((j, p) ∷ ps) pairs =
    (rest : List _) × (i ≡ j) × (pairs ≡ (w, p) ∷ rest) × Paired ws ps rest
Paired _ _ pairs = ⊥

remove_first :
    (i j p : Text) (probes : Map Text)
    → text_eq j i ≡ true
    → remove_probe i ((j, p) ∷ probes) ≡ some (p, probes)
unfolding remove_probe
remove_first i j p probes t = rw t refl

module _ {W : Type 0} (eq : W → W → Bool) (decides : (a b : W) → (eq a b ≡ true) → a ≡ b) where
  matches→≡ : (ws vs : Map W) → matches eq ws vs ≡ true → ws ≡ vs
  unfolding matches
  matches→≡ [] [] h = refl
  matches→≡ [] (v ∷ vs) h = cc
  matches→≡ (w ∷ ws) [] h = cc
  matches→≡ ((i, w) ∷ ws) ((j, v) ∷ vs) h = elim (Bool-cases (text_eq i j)) [
    | inr n ↦ cc (rw n at h)
    | inl t ↦ elim (Bool-cases (eq w v)) [
      | inr n ↦ cc (rw (t, n) at h)
      | inl s ↦
          let rest = matches→≡ ws vs (rw (t, s) at h) in
          let id = text_eq→≡ i j t in let same = decides w v s in rw (id, same, rest) refl
    ]
  ]

  pair_probes-Paired :
      (set : Map W) (probes : Map Text)
      → texts_eq (map (λ e. e.0) probes) (map (λ e. e.0) set) ≡ true
      → (pairs : List (W × Text)) × (pair_probes set probes ≡ ok pairs) × Paired set probes pairs
  unfolding pair_probes remove_probe texts_eq
  pair_probes-Paired [] [] h = ([], refl, refl)
  pair_probes-Paired [] (p ∷ probes) h = cc
  pair_probes-Paired (e ∷ set) [] h = cc
  pair_probes-Paired ((i, w) ∷ set) ((j, p) ∷ probes) h = elim (Bool-cases (text_eq j i)) [
    | inr n ↦ cc (rw n at h)
    | inl t ↦
        let (pairs, e, k) = pair_probes-Paired set probes (rw t at h) in
        let removed = remove_first i j p probes t in
        ((w, p) ∷ pairs, rw (pair_probes, removed, e) refl, (pairs, sym (text_eq→≡ j i t), refl, k))
  ]

  -- The round had witnesses, they are those of the final set, and every endpoint and nothing else has
  -- its probe.
  abbrev pub IsEndpointRound :
      CheckingRound W → Option (Map W) → Result RoundError (CompletedRound W) → Type 0
  IsEndpointRound round final_set r =
      (set : Map W) × (pairs : List (W × Text)) × (round.initial ≡ some set)
      × (final_set ≡ some set)
      × (is_empty set ≡ false)
      × (round.probes.scalar ≡ none)
      × Paired set round.probes.by_endpoint pairs
      × (r ≡ ok (record { phase = round.phase; evidence = endpoints pairs }))

  -- The round had no witnesses before or after, and its one probe is the scalar one.
  abbrev pub IsScalarRound :
      CheckingRound W → Option (Map W) → Result RoundError (CompletedRound W) → Type 0
  IsScalarRound round final_set r =
      (probe : Text) × (round.initial ≡ none)
      × (final_set ≡ none)
      × (round.probes.scalar ≡ some probe)
      × (round.probes.by_endpoint ≡ [])
      × (r ≡ ok (record { phase = round.phase; evidence = endpointless probe }))

  complete_endpoints-cases :
      (round : CheckingRound W) (initial set : Map W)
      → ((initial ≡ set)
          × (is_empty set ≡ false)
          × (round.probes.scalar ≡ none)
          × ((pairs : List (W × Text)) × Paired set round.probes.by_endpoint pairs
              × (complete_endpoints eq round initial set
                  ≡ ok (record { phase = round.phase; evidence = endpoints pairs }))))
        ⊎ (complete_endpoints eq round initial set ≡ err mismatched_round)
  unfolding complete_endpoints is_some
  complete_endpoints-cases round initial set = elim (Bool-cases (is_empty initial)) [
    | inl t ↦ inr (rw t refl)
    | inr n ↦ elim (Bool-cases (matches eq initial set)) [
      | inr m ↦ inr (rw (n, m) refl)
      | inl m ↦
          elim (Bool-cases
            (texts_eq (map (λ e. e.0) round.probes.by_endpoint) (map (λ e. e.0) set))) [
              | inr k ↦ inr (rw (n, m, k) refl)
              | inl k ↦ elim (Option-cases round.probes.scalar) [
                | inr (p, s) ↦ inr (rw (n, m, k, s) refl)
                | inl s ↦
                    let same = matches→≡ initial set m in
                    let (pairs, e, paired) = pair_probes-Paired set round.probes.by_endpoint k in
                    inl (same, rw same at n, s, (pairs, paired, rw (n, m, k, s, e) refl))
              ]
            ]
    ]
  ]

  complete_scalar-cases :
      (round : CheckingRound W)
      → ((probe : Text) × (round.probes.scalar ≡ some probe)
          × (round.probes.by_endpoint ≡ [])
          × (complete_scalar eq round
              ≡ ok (record { phase = round.phase; evidence = endpointless probe })))
        ⊎ (complete_scalar eq round ≡ err mismatched_round)
  unfolding complete_scalar
  complete_scalar-cases round = elim (Option-cases round.probes.scalar) [
    | inl s ↦ inr (rw s refl)
    | inr (p, s) ↦ elim (list_cases round.probes.by_endpoint) [
      | inl e ↦ inl (p, s, e, rw (s, e, is_empty) refl)
      | inr e ↦ inr (rw (s, e) refl)
    ]
  ]
    where
      list_cases : (m : Map Text) → (m ≡ []) ⊎ (is_empty m ≡ false)
      list_cases [] = inl refl
      list_cases (e ∷ m) = inr refl

  -- For witnesses whose equality test is sound: completing a round gives evidence only where the
  -- witnesses did not change. For a round with witnesses it is all of them in order, each with the
  -- probe of its endpoint, and there is no other probe; for one without, it is the one scalar probe.
  -- Any other round is refused as mismatched: no `expect` fails.
  pub complete-cases :
      (round : CheckingRound W) (final_set : Option (Map W))
      → IsEndpointRound round final_set (complete eq round final_set)
        ⊎ IsScalarRound round final_set (complete eq round final_set)
        ⊎ (complete eq round final_set ≡ err mismatched_round)
  unfolding complete
  complete-cases round final_set = elim (Option-cases round.initial) [
    | inl i ↦ elim (Option-cases final_set) [
      | inr (set, f) ↦ inr (inr (rw (complete, i, f) refl))
      | inl f ↦ elim (complete_scalar-cases round) [
        | inr e ↦ inr (inr (rw (complete, i, f, e) refl))
        | inl (p, s, k, e) ↦ inr (inl (p, i, f, s, k, rw (complete, i, f, e) refl))
      ]
    ]
    | inr (initial, i) ↦ elim (Option-cases final_set) [
      | inl f ↦ inr (inr (rw (complete, i, f) refl))
      | inr (set, f) ↦ elim (complete_endpoints-cases round initial set) [
        | inr e ↦ inr (inr (rw (complete, i, f, e) refl))
        | inl (same, n, s, (pairs, paired, e)) ↦
            inl (set, pairs, i ∙ ap some same, f, n, s, paired, rw (complete, i, f, e) refl)
      ]
    ]
  ]
