-- ===== src/Execution/Schedule.antt =====
-- The dependency-first loop that plan.rs runs twice, over flattened nodes and over services: the
-- first ready element is removed, visited and placed, until none remains. It runs on fuel, the
-- number of elements; without fuel it returns an error apart from the loop's own.
use nixfied.Prelude.{
  ℕ, zero, suc, Bool, Option, none, some, List, [], ◌∷◌, ◌++◌, Text, Result, ok, err, if◌then◌else◌,
  contains, set_insert, all,
}

-- `position` and `remove`: the first element that passes the test, and the others in order.
unfoldable pub take_first {ℓ} : {A : Type ℓ} → (A → Bool) → List A → Option (A × List A)
take_first test [] = none
take_first test (x ∷ xs) =
    if test x
    then some (x, xs)
    else elim (take_first test xs) [ none ↦ none | some t ↦ some (t.0, x ∷ t.1) ]

module _ {A B E : Type 0} (key : A → Text) (depends_on : A → List Text) (visit : A → Result E B)
    (stuck : List A → E) (spent : E) where
  -- `depends_on.iter().all(|dep| placed.contains(dep))`
  unfoldable pub is_ready : List Text → A → Bool
  is_ready placed x = all (λ dep. contains placed dep) (depends_on x)

  -- The result of one visit goes on with the rest.
  unfoldable pub schedule : ℕ → List Text → List A → List B → Result E (List B)
  unfolding is_ready
  schedule fuel placed [] out = ok out
  schedule zero placed (x ∷ xs) out = err spent
  schedule (suc fuel) placed (x ∷ xs) out = elim (take_first (is_ready placed) (x ∷ xs)) [
    | none ↦ err (stuck (x ∷ xs))
    | some t ↦ elim (visit t.0) [
      | err e ↦ err e
      | ok b ↦ schedule fuel (set_insert (key t.0) placed) t.1 (out ++ b ∷ [])
    ]
  ]
