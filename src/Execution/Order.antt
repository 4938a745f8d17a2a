-- ===== src/Execution/Order.antt =====
-- The dependency-first loop returns an order: each element after all that it depends on.
use mathlib.Core.List.{Perm, append-nil, append_assoc}
use mathlib.Core.List.Perm
use nixfied.Prelude.{
  ℕ, zero, suc, ◌≡◌, refl, sym, ◌∙◌, ◌⊎◌, inl, inr, Bool, true, Option, none, some, List, [], ◌∷◌,
  ◌++◌, Text, Result, ok, err, contains, contains-Mem, set_insert, mem-set_insert, all, Mem, length,
  arith, Bool-cases, Option-cases,
}
use nixfied.Execution.Schedule.{take_first, is_ready, schedule}

all-Mem :
    {A : Type 0} (p : A → Bool) (xs : List A) → all p xs ≡ true → (x : A) → Mem x xs → p x ≡ true
unfolding all
all-Mem p [] h x m = absurd m
all-Mem p (y ∷ ys) h x (inl e) = rw e (ground arith)
all-Mem p (y ∷ ys) h x (inr m) = all-Mem p ys (ground arith) x m

-- The first element passes and is taken, or one is taken from the others.
pub take_first-cons :
    {A : Type 0} (test : A → Bool) (y : A) (ys : List A) {x : A} {rest : List A}
    → take_first test (y ∷ ys) ≡ some (x, rest)
    → ((test y ≡ true) × (y ≡ x) × (ys ≡ rest))
      ⊎ ((r : List A) × (take_first test ys ≡ some (x, r)) × (rest ≡ y ∷ r))
unfolding take_first
take_first-cons test y ys {x} {rest} h = elim (Bool-cases (test y)) [
  | inl t ↦ inl (t, ground arith, ground arith)
  | inr f ↦ elim (Option-cases (take_first test ys)) [
    | inl e ↦ ground arith
    | inr ((z, r), e) ↦ inr (r, ground arith, ground arith)
  ]
]

pub take_first-true :
    {A : Type 0} (test : A → Bool) (xs : List A) {x : A} {rest : List A}
    → take_first test xs ≡ some (x, rest)
    → (test x ≡ true) × Perm (x ∷ rest) xs × (length xs ≡ suc (length rest))
unfolding take_first
take_first-true test [] h = cc
take_first-true {A} test (y ∷ ys) {x} {rest} h = elim (take_first-cons test y ys h) [
  | inl (t, e, f) ↦ rw (sym e, sym f) (t, Perm.refl (y ∷ ys), refl)
  | inr (r, e, f) ↦
      let (t, p, n) = take_first-true test ys e in
      rw f (t, Perm.trans (Perm.swap y x r) (Perm.cons y p), omega arith)
]

module _ {A B E : Type 0} (key : A → Text) (depends_on : A → List Text) (visit : A → Result E B)
    (stuck : List A → E) (spent : E) where
  -- Each element depends only on what was placed before it.
  abbrev pub IsOrdered : List Text → List A → Type 0
  IsOrdered placed [] = Unit
  IsOrdered placed (x ∷ xs) =
      ((dep : Text) → Mem dep (depends_on x) → Mem dep placed) × IsOrdered (key x ∷ placed) xs

  -- The results of the visits, in order.
  abbrev pub Visits : List A → List B → Type 0
  Visits [] bs = bs ≡ []
  Visits (x ∷ xs) bs =
      (b : B) × (rest : List B) × (bs ≡ b ∷ rest) × (visit x ≡ ok b) × Visits xs rest

  abbrev pub Schedules : List Text → List A → List B → List B → Type 0
  Schedules placed remaining out result =
      (xs : List A) × (bs : List B) × Perm xs remaining
      × IsOrdered placed xs
      × Visits xs bs
      × (result ≡ out ++ bs)

  is_ready-placed :
      (placed seen : List Text) (x : A)
      → ((z : Text) → Mem z placed → Mem z seen)
      → is_ready key depends_on visit stuck spent placed x ≡ true
      → (dep : Text) → Mem dep (depends_on x)
      → Mem dep seen
  unfolding is_ready
  is_ready-placed placed seen x same h dep m =
      same dep (contains-Mem placed dep (all-Mem (λ d. contains placed d) (depends_on x) h dep m))

  schedule_step :
      (fuel : ℕ) (placed : List Text) (x : A) (xs : List A) (out : List B) {result : List B}
      → schedule key depends_on visit stuck spent (suc fuel) placed (x ∷ xs) out ≡ ok result
      → (y : A) × (rest : List A) × (b : B) × (take_first
            (is_ready key depends_on visit stuck spent placed)
            (x ∷ xs)
          ≡ some (y, rest))
        × (visit y ≡ ok b)
        × (schedule key depends_on visit stuck spent fuel
              (set_insert (key y) placed)
              rest
              (out ++ b ∷ [])
            ≡ ok result)
  unfolding schedule
  schedule_step fuel placed x xs out {result} h =
      by_first (take_first (is_ready key depends_on visit stuck spent placed) (x ∷ xs)) refl
    where
      by_visit :
          (y : A) (rest : List A) (v : Result E B)
          → take_first (is_ready key depends_on visit stuck spent placed) (x ∷ xs) ≡ some (y, rest)
          → visit y ≡ v
          → (y : A) × (rest : List A) × (b : B) × (take_first
                (is_ready key depends_on visit stuck spent placed)
                (x ∷ xs)
              ≡ some (y, rest))
            × (visit y ≡ ok b)
            × (schedule key depends_on visit stuck spent fuel
                  (set_insert (key y) placed)
                  rest
                  (out ++ b ∷ [])
                ≡ ok result)
      by_visit y rest (ok b) e f = (y, rest, b, e, f, rw (schedule, e, f) at h)
      by_visit y rest (err b) e f = cc (rw (schedule, e, f) at h)

      by_first :
          (o : Option (A × List A))
          → take_first (is_ready key depends_on visit stuck spent placed) (x ∷ xs) ≡ o
          → (y : A) × (rest : List A) × (b : B) × (take_first
                (is_ready key depends_on visit stuck spent placed)
                (x ∷ xs)
              ≡ some (y, rest))
            × (visit y ≡ ok b)
            × (schedule key depends_on visit stuck spent fuel
                  (set_insert (key y) placed)
                  rest
                  (out ++ b ∷ [])
                ≡ ok result)
      by_first none e = cc (rw (schedule, e) at h)
      by_first (some (y, rest)) e = by_visit y rest (visit y) e refl

  -- A successful loop has visited every element once, each after all that it depends on.
  pub schedule-Schedules :
      (fuel : ℕ) (placed seen : List Text) (remaining : List A) (out : List B) {result : List B}
      → ((z : Text) → Mem z placed → Mem z seen)
      → schedule key depends_on visit stuck spent fuel placed remaining out ≡ ok result
      → Schedules seen remaining out result
  unfolding schedule
  schedule-Schedules fuel placed seen [] out {result} same h =
      let e : out ≡ result = cc in ([], [], Perm.refl [], tt, refl, sym e ∙ sym (append-nil out))
  schedule-Schedules zero placed seen (x ∷ xs) out same h = cc
  schedule-Schedules (suc fuel) placed seen (x ∷ xs) out same h =
      let (y, rest, b, taken, visited, run) = schedule_step fuel placed x xs out h in
      let (test, perm, size) =
        take_first-true (is_ready key depends_on visit stuck spent placed) (x ∷ xs) taken in
      let (ys, bs, p, ordered, visits, e) =
        schedule-Schedules fuel (set_insert (key y) placed) (key y ∷ seen) rest (out ++ b ∷ [])
          (wider y) run in
      (
        y ∷ ys,
        b ∷ bs,
        Perm.trans (Perm.cons y p) perm,
        (is_ready-placed placed seen y same test, ordered),
        (b, bs, refl, visited, visits),
        e ∙ append_assoc out (b ∷ []) bs,
      )
    where
      wider : (y : A) (z : Text) → Mem z (set_insert (key y) placed) → (z ≡ key y) ⊎ Mem z seen
      wider y z m = elim (mem-set_insert z (key y) placed m) [
        | inl e ↦ inl e
        | inr n ↦ inr (same z n)
      ]
