-- ===== src/Readiness/Tests.antt =====
-- A round over two endpoints, with numbers for witnesses, and the witness of the theorem.
use nixfied.Prelude.{
  ℕ, ◌≡◌, ◌⊎◌, refl, some, [], ◌∷◌, codes, text_eq, text_lt, map_insert, lookup, ok, err, ◌==◌,
  ==_iff,
}
use nixfied.Manifest.Types.{Map}
use nixfied.Readiness.Round.{
  ready, duplicate_credit, mismatched_round, CheckingRound, endpoints, begin, record_probe,
  complete,
}
use nixfied.Readiness.Completed.{IsEndpointRound, IsScalarRound, complete-cases}

abbrev set : Map ℕ
set = (codes "http", 1) ∷ (codes "sql", 2) ∷ []

-- The probes are recorded in another order than that of the set.
abbrev round : CheckingRound ℕ
round =
    (record_probe (some (codes "http")) (codes "p2")
      (record_probe (some (codes "sql")) (codes "p1") (begin ready (some set))).1).1

completes :
    complete (λ a b. a == b) round (some set)
    ≡ ok (record { phase = ready; evidence = endpoints ((1, codes "p2") ∷ (2, codes "p1") ∷ []) })
unfolding complete record_probe begin text_eq text_lt map_insert
completes = refl

refuses_duplicate : (record_probe (some (codes "sql")) (codes "p3") round).0 ≡ err duplicate_credit
unfolding record_probe begin text_eq text_lt map_insert lookup
refuses_duplicate = refl

refuses_missing_probe :
    complete (λ a b. a == b) (begin ready (some set)) (some set) ≡ err mismatched_round
unfolding complete begin text_eq
refuses_missing_probe = refl

complete-cases_example :
    IsEndpointRound
      (λ a b. a == b)
      (λ a b h. (==_iff a b).0 h)
      round
      (some set)
      (complete (λ a b. a == b) round (some set))
    ⊎ IsScalarRound
        (λ a b. a == b)
        (λ a b h. (==_iff a b).0 h)
        round
        (some set)
        (complete (λ a b. a == b) round (some set))
    ⊎ (complete (λ a b. a == b) round (some set) ≡ err mismatched_round)
complete-cases_example = complete-cases (λ a b. a == b) (λ a b h. (==_iff a b).0 h) round (some set)
