-- ===== src/Redaction/Scan.antt =====
-- The scan ends on its fuel, and writes what the specification asks of the part that it consumes.
use mathlib.Core.List.{append-nil, append_assoc}
use nixfied.Prelude.{
  ℕ, zero, suc, ◌+◌, ◌-◌, ◌<◌, ◌≤◌, ◌≡◌, refl, ap, ◌∙◌, ltb, ltb→lt, true, false, [], ◌∷◌, ◌++◌,
  Text, length, drop, take, drop-add, drop-append, drop-length, length-drop, starts_with-length,
  Bool-cases, Option-cases, arith, if◌then◌else◌, some, none, Option, inl, inr,
}
use nixfied.Redaction.Redactor.{
  Redactor, first_match, replacement, scan_loop, scan, is_empty, redact_bytes,
}
use nixfied.Redaction.Spec.{IsLongest, Redacts, hit, miss, done, AllNonempty}
use nixfied.Redaction.Order.{IsDescending, first_match-IsLongest, first_match-NoMatch}

-- What `from_secrets` establishes when no secret is empty.
pub record IsRedactor (r : Redactor) : Type 0 where
  pub descending : IsDescending r.patterns
  pub nonempty : AllNonempty r.patterns

-- What follows the input does not change the match at any position below the limit.
abbrev pub IsSettled : Redactor → Text → Text → ℕ → Type 0
IsSettled r input more limit =
    (k : ℕ) → k < limit → first_match r (drop k input ++ more) ≡ first_match r (drop k input)

-- From `consumed` on: the bytes written are those of every redaction of input and continuation.
pub record Scanned (r : Redactor) (input more : Text) (consumed : ℕ) (written : Text) (k : ℕ)
    : Type 0 where
  pub inside : k ≤ length input
  pub extends :
      (result : Text)
      → Redacts r.patterns (drop k input ++ more) result
      → Redacts r.patterns (drop consumed input ++ more) (written ++ result)

module _ (r : Redactor) (valid : IsRedactor r) (input : Text) where
  replacement_bounds :
      (c : ℕ)
      → c < length input
      → (c < c + (replacement (first_match r (drop c input)) (drop c input)).1)
        × (c + (replacement (first_match r (drop c input)) (drop c input)).1 ≤ length input)
  unfolding replacement
  replacement_bounds c h = elim (Option-cases (first_match r (drop c input))) [
    | inl e ↦ rw e (omega arith)
    | inr (p, e) ↦ rw e (pattern p (first_match-IsLongest r (drop c input) valid.descending e))
  ]
    where
      pattern :
          (p : Text)
          → IsLongest r.patterns (drop c input) p
          → (c < c + length p) × (c + length p ≤ length input)
      pattern p l = omega (
        arith,
        valid.nonempty p l.is_secret,
        starts_with-length (drop c input) p l.stands,
        length-drop c input,
      )

-- One round of the loop extends every redaction of what it leaves.
replacement-extends :
    (r : Redactor) (d more result : Text) (o : Option Text)
    → IsDescending r.patterns
    → 0 < length d
    → first_match r d ≡ o
    → first_match r (d ++ more) ≡ o
    → Redacts r.patterns (drop (replacement o d).1 d ++ more) result
    → Redacts r.patterns (d ++ more) ((replacement o d).0 ++ result)
unfolding replacement
replacement-extends r d more result (some p) desc pos here e t =
    let l = first_match-IsLongest r d desc here in
    let m = first_match-IsLongest r (d ++ more) desc e in
    hit p m (rw (drop-append (length p) d more (starts_with-length d p l.stands)) t) refl
replacement-extends r [] more result none desc pos here e t = absurd (omega arith)
replacement-extends r (b ∷ d) more result none desc pos here e t =
    miss b (first_match-NoMatch r (b ∷ d ++ more) e) t

module _ (r : Redactor) (valid : IsRedactor r) (input more : Text) (limit : ℕ)
    (fits : limit ≤ length input) (settled : IsSettled r input more limit) where
  abbrev ScansFrom : ℕ → ℕ → Text → Type 0
  ScansFrom fuel c out =
      (written : Text) × (k : ℕ) × (scan_loop fuel r input limit out c ≡ some (out ++ written, k))
      × (limit ≤ k)
      × Scanned r input more c written k

  scan_loop_stop :
      (fuel c : ℕ) (out : Text)
      → ltb c limit ≡ false
      → c ≤ length input
      → ScansFrom (suc fuel) c out
  unfolding scan_loop
  scan_loop_stop fuel c out stop h =
      ([], c, rw (stop, append-nil), ground arith, record { inside = h; extends = λ result t. t })

  scan_loop_step :
      (fuel c : ℕ) (out : Text)
      → ltb c limit ≡ true
      → ScansFrom fuel
          (c + (replacement (first_match r (drop c input)) (drop c input)).1)
          (out ++ (replacement (first_match r (drop c input)) (drop c input)).0)
      → ScansFrom (suc fuel) c out
  unfolding scan_loop
  scan_loop_step fuel c out go (written, k, e, low, s) =
      let d : Text = drop c input in
      let o : Option Text = first_match r d in
      let piece : Text = (replacement o d).0 in
      let n : ℕ = (replacement o d).1 in
      (
        piece ++ written,
        k,
        rw (go, if◌then◌else◌, e, append_assoc),
        low,
        record {
          inside = s.inside;
          extends = λ result t. rw append_assoc (
              replacement-extends r d more (written ++ result) o valid.descending
                (omega (arith, length-drop c input, ltb→lt c limit go, fits)) refl
                (settled c (ltb→lt c limit go)) (rw (drop-add c n input) at (s.extends result t)));
        },
      )

  scan_loop-Scans :
      (fuel c : ℕ) (out : Text) → limit - c < fuel → c ≤ length input → ScansFrom fuel c out
  scan_loop-Scans zero c out h b = absurd (omega arith)
  scan_loop-Scans (suc fuel) c out h b = elim (Bool-cases (ltb c limit)) [
    | inl go ↦
        let bounds = replacement_bounds r valid input c (omega (arith, ltb→lt c limit go, fits)) in
        scan_loop_step fuel c out go
          (scan_loop-Scans fuel _ _ (omega (arith, ltb→lt c limit go, bounds.0)) bounds.1)
    | inr stop ↦ scan_loop_stop fuel c out stop b
  ]

is_empty-patterns : (r : Redactor) → is_empty r ≡ true → r.patterns ≡ []
unfolding is_empty
is_empty-patterns r h = ground arith

Redacts-take :
    (n : ℕ) (input more result : Text)
    → n ≤ length input
    → Redacts [] (drop n input ++ more) result
    → Redacts [] (input ++ more) (take n input ++ result)
Redacts-take zero input more result h t = t
Redacts-take (suc n) [] more result h t = absurd (omega arith)
Redacts-take (suc n) (b ∷ input) more result h t =
    miss b (λ q m. absurd m) (Redacts-take n input more result (omega arith) t)

module _ (r : Redactor) (valid : IsRedactor r) (input more : Text) (limit : ℕ)
    (fits : limit ≤ length input) (settled : IsSettled r input more limit) where
  abbrev Scans : Type 0
  Scans =
      (written : Text) × (k : ℕ) × (scan r input limit ≡ some (written, k))
      × (limit ≤ k)
      × Scanned r input more 0 written k

  -- The scan ends within its fuel, and consumes at least the bytes below the limit.
  pub scan-Scans : Scans
  unfolding scan
  scan-Scans = elim (Bool-cases (is_empty r)) [
    | inl e ↦
        let n = is_empty-patterns r e in
        (
          take limit input,
          limit,
          rw e,
          omega arith,
          record {
            inside = fits;
            extends = λ result t. rw n (Redacts-take limit input more result fits (rw n at t));
          },
        )
    | inr e ↦
        let (written, k, s, low, scanned) =
          scan_loop-Scans r valid input more limit fits settled (suc limit) 0 [] (omega arith)
            (omega arith) in
        (written, k, rw (e, if◌then◌else◌) s, low, scanned)
  ]

take_all : (r : Redactor) (input : Text) → IsSettled r input [] (length input)
take_all r input k h = rw append-nil

-- The whole-buffer redaction always returns, and returns what the specification asks: every
-- longest secret replaced by the token, every other byte kept.
pub redact_bytes-Redacts :
    (r : Redactor) (input : Text)
    → IsRedactor r
    → (out : Text) × (redact_bytes r input ≡ some out) × Redacts r.patterns input out
unfolding redact_bytes
redact_bytes-Redacts r input valid =
    let (written, k, s, low, scanned) =
      scan-Scans r valid input [] (length input) (omega arith) (take_all r input) in
    let end : k ≡ length input = omega (arith, scanned.inside) in
    let rest : drop k input ++ [] ≡ [] =
      append-nil (drop k input) ∙ ap (λ (n : ℕ). drop n input) end ∙ drop-length input in
    let t = scanned.extends [] (rw rest done) in (written, rw s, rw (append-nil, append-nil) at t)
