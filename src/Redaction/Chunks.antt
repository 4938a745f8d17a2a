-- ===== src/Redaction/Chunks.antt =====
-- Redaction by chunks: what `redact_available` emits cannot be changed by what follows.
use nixfied.Prelude.{
  ℕ, zero, suc, ◌<◌, ◌≤◌, ◌≡◌, sym, ap, ltb, true, false, ◌&&◌, List, [], ◌∷◌, ◌++◌, Text, length,
  drop, starts_with, starts_with-length, starts_with-append, starts_with-longer, Bool-cases, All,
  arith, some, any-false, find_congr, inl, inr,
}
use nixfied.Redaction.Redactor.{
  Redactor, first_match, scan, is_undecided, undecided_start, redact_available,
}
use nixfied.Redaction.Spec.{Redacts}
use nixfied.Redaction.Scan.{IsRedactor, IsSettled, scan-Scans}

undecided_start-le : (r : Redactor) (input : Text) → undecided_start r input ≤ length input
unfolding undecided_start
undecided_start-le r [] = omega arith
undecided_start-le r (b ∷ rest) = ground (arith, undecided_start-le r rest)

-- Before the first undecided start every rest is decided.
before-undecided_start :
    (r : Redactor) (input : Text) (k : ℕ)
    → k < undecided_start r input
    → is_undecided r (drop k input) ≡ false
unfolding undecided_start
before-undecided_start r [] k h = absurd (omega arith)
before-undecided_start r (b ∷ rest) zero h = ground arith
before-undecided_start r (b ∷ rest) (suc k) h = before-undecided_start r rest k (ground arith)

-- A pattern that the rest is no proper prefix of matches the same, whatever follows.
decided-starts_with :
    (rest more p : Text)
    → (ltb (length rest) (length p) && starts_with p rest) ≡ false
    → starts_with (rest ++ more) p ≡ starts_with rest p
decided-starts_with rest more p h = elim (Bool-cases (ltb (length rest) (length p))) [
  | inl long ↦ too_long long
  | inr short ↦ starts_with-append rest p more (ground arith)
]
  where
    too_long :
        ltb (length rest) (length p) ≡ true → starts_with (rest ++ more) p ≡ starts_with rest p
    too_long long = ground (arith, starts_with-length rest p, starts_with-longer rest p more)

decided_patterns :
    (rest more : Text) (ps : List Text)
    → All (λ p. (ltb (length rest) (length p) && starts_with p rest) ≡ false) ps
    → All (λ p. starts_with (rest ++ more) p ≡ starts_with rest p) ps
decided_patterns rest more [] h = tt
decided_patterns rest more (p ∷ ps) h =
    (decided-starts_with rest more p h.0, decided_patterns rest more ps h.1)

first_match-decided :
    (r : Redactor) (rest more : Text)
    → is_undecided r rest ≡ false
    → first_match r (rest ++ more) ≡ first_match r rest
unfolding first_match is_undecided
first_match-decided r rest more h =
    find_congr (λ p. starts_with (rest ++ more) p) (λ p. starts_with rest p) r.patterns
      (decided_patterns rest more r.patterns (any-false _ r.patterns h))

undecided_start-IsSettled :
    (r : Redactor) (input more : Text) → IsSettled r input more (undecided_start r input)
undecided_start-IsSettled r input more k h =
    first_match-decided r (drop k input) more (before-undecided_start r input k h)

-- What is emitted is the front of every redaction of the pending bytes with their continuation.
pub redact_available-Redacts :
    (r : Redactor) (pending : Text)
    → IsRedactor r
    → (emitted : Text) × (rest : Text) × (redact_available r pending ≡ some (emitted, rest))
      × ((more result : Text)
          → Redacts r.patterns (rest ++ more) result
          → Redacts r.patterns (pending ++ more) (emitted ++ result))
unfolding redact_available
redact_available-Redacts r pending valid =
    let limit = undecided_start r pending in
    let fits = undecided_start-le r pending in
    let (emitted, k, s, low, scanned) =
      scan-Scans r valid pending [] limit fits (undecided_start-IsSettled r pending []) in
    (emitted, drop k pending, rw s, λ more result t. whatever_follows s more result t)
  where
    whatever_follows :
        {emitted : Text} {k : ℕ}
        → scan r pending (undecided_start r pending) ≡ some (emitted, k)
        → (more result : Text) → Redacts r.patterns (drop k pending ++ more) result
        → Redacts r.patterns (pending ++ more) (emitted ++ result)
    whatever_follows {emitted} {k} s more result t =
        let (emitted', k', s', low, scanned) =
          scan-Scans r valid pending more (undecided_start r pending) (undecided_start-le r pending)
            (undecided_start-IsSettled r pending more) in
        let same_text : emitted' ≡ emitted = cc (s, s') in
        let same_end : k' ≡ k = cc (s, s') in
        rw (ap (λ z. z ++ result) same_text) at (scanned.extends result (rw (sym same_end) at t))
