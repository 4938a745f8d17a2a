-- ===== src/Execution/Progress.antt =====
-- The dependency-first loop over services never gets stuck on a graph without a cycle.
use nixfied.Prelude.{
  ℕ, zero, suc, ◌≤◌, ◌<◌, ◌≡◌, ◌≢◌, refl, sym, inl, inr, Bool, true, false, not, ◌&&◌, none, List,
  [], ◌∷◌, Text, length, text_eq, text_eq→≡, text_eq_refl, contains, contains-Mem, Mem-contains,
  all, Mem, arith, Bool-cases, Option-cases, if◌then◌else◌,
}
use nixfied.Execution.Schedule.{take_first}
use nixfied.Execution.Graph.{Edges}
use nixfied.Execution.Plan.{edge_targets}
use nixfied.Execution.Cycles.{Barrier}

keep : (Text → Bool) → List Text → List Text
keep p [] = []
keep p (x ∷ xs) = if p x then x ∷ keep p xs else keep p xs

mem-keep : (p : Text → Bool) (xs : List Text) (z : Text) → Mem z xs → p z ≡ true → Mem z (keep p xs)
unfolding keep
mem-keep p [] z m h = m
mem-keep p (x ∷ xs) z (inl e) h = let here : p x ≡ true = rw (sym e) h in rw here (inl e)
mem-keep p (x ∷ xs) z (inr m) h = elim (Bool-cases (p x)) [
  | inl t ↦ rw t (inr (mem-keep p xs z m h))
  | inr f ↦ rw f (mem-keep p xs z m h)
]

keep-mem :
    (p : Text → Bool) (xs : List Text) (z : Text) → Mem z (keep p xs) → Mem z xs × (p z ≡ true)
unfolding keep
keep-mem p [] z m = absurd m
keep-mem p (x ∷ xs) z m = elim (Bool-cases (p x)) [
  | inl t ↦ elim (rw (keep, t) at m) [
    | inl e ↦ (inl e, rw e t)
    | inr n ↦ let (k, h) = keep-mem p xs z n in (inr k, h)
  ]
  | inr f ↦ let (k, h) = keep-mem p xs z (rw (keep, f) at m) in (inr k, h)
]

length-keep_le : (p : Text → Bool) (xs : List Text) → length (keep p xs) ≤ length xs
unfolding keep
length-keep_le p [] = omega arith
length-keep_le p (x ∷ xs) = ground (arith, length-keep_le p xs)

length-keep_lt :
    (p : Text → Bool) (xs : List Text) (z : Text)
    → Mem z xs
    → p z ≡ false
    → length (keep p xs) < length xs
unfolding keep
length-keep_lt p [] z m h = absurd m
length-keep_lt p (x ∷ xs) z (inl e) h =
    let here : p x ≡ false = rw (sym e) h in rw here (omega (arith, length-keep_le p xs))
length-keep_lt p (x ∷ xs) z (inr m) h = ground (arith, length-keep_lt p xs z m h)

-- Where every remaining service waits for a remaining one, and each has a barrier, the barriers
-- shrink without end.
module _ (edges : Edges) (remaining : List Text)
    (waits : (x : Text)
      → Mem x remaining
      → (t : Text) × Mem t (edge_targets edges x) × Mem t remaining)
    (barriers : (x : Text) → Mem x remaining → Barrier edges x) where
  descend :
      (n : ℕ) (c : List Text) (x : Text)
      → length c ≤ n
      → Mem x remaining
      → ((t : Text) → Mem t (edge_targets edges x) → Mem t c)
      → ((z : Text) → Mem z c → (t : Text) → Mem t (edge_targets edges z) → Mem t c)
      → ⊥
  descend zero [] x le m enters closed = let (t, e, r) = waits x m in enters t e
  descend zero (y ∷ c) x le m enters closed = absurd (omega (arith, le))
  descend (suc n) c x le m enters closed =
      let (t, e, r) = waits x m in
      let (seen, first, inside) = barriers t r in
      let inner = λ (z : Text). contains seen z && not (text_eq z t) in
      let out : inner t ≡ false = ground (arith, text_eq_refl t) in
      let less = length-keep_lt inner c t (enters t e) out in
      descend n (keep inner c) t (omega (arith, less, le)) r
        (λ u k. mem-keep inner c u (closed t (enters t e) u k) (passes seen t u (first u k)))
        (λ z k u l.
          let (old, h) = keep-mem inner c z k in
          let there = contains-Mem seen z (first_of (contains seen z) (not (text_eq z t)) h) in
          mem-keep inner c u (closed z old u l) (passes seen t u (inside z there u l)))
    where
      first_of : (a b : Bool) → a && b ≡ true → a ≡ true
      first_of true b h = refl
      first_of false b h = cc

      passes :
          (seen : List Text) (t u : Text)
          → (u ≢ t) × Mem u seen
          → contains seen u && not (text_eq u t) ≡ true
      passes seen t u (n, k) = elim (Bool-cases (text_eq u t)) [
        | inl same ↦ absurd (n (text_eq→≡ u t same))
        | inr f ↦ rw (Mem-contains seen u k, f) refl
      ]

  pub no_standstill : (x : Text) → Mem x remaining → ⊥
  no_standstill x m =
      let (seen, first, inside) = barriers x m in
      descend (length seen) seen x (omega arith) m (λ t k. (first t k).1)
        (λ z k t l. (inside z k t l).1)

pub take_first-none :
    {A : Type 0} (test : A → Bool) (xs : List A)
    → take_first test xs ≡ none
    → (x : A) → Mem x xs
    → test x ≡ false
unfolding take_first
take_first-none test [] h x m = absurd m
take_first-none test (y ∷ ys) h x m = elim (Bool-cases (test y)) [
  | inl t ↦ cc (rw (take_first, t) at h)
  | inr f ↦ elim (Option-cases (take_first test ys)) [
    | inr (r, e) ↦ cc (rw (take_first, f, e) at h)
    | inl e ↦ elim m [ inl same ↦ rw same f | inr k ↦ take_first-none test ys e x k ]
  ]
]

pub all-false :
    {A : Type 0} (p : A → Bool) (xs : List A)
    → all p xs ≡ false
    → (x : A) × Mem x xs × (p x ≡ false)
unfolding all
all-false p [] h = cc
all-false p (x ∷ xs) h = elim (Bool-cases (p x)) [
  | inr f ↦ (x, inl refl, f)
  | inl t ↦ let (y, m, f) = all-false p xs (ground arith) in (y, inr m, f)
]
