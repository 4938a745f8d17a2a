-- ===== src/Redaction/Redactor.antt =====
-- `Redactor` of redaction.rs: patterns in length order, and the scan that replaces them.
-- `while consumed < start_limit` runs on fuel `start_limit + 1`; `none` means that it ran out.
use nixfied.Prelude.{
  ℕ, zero, suc, ◌+◌, Bool, true, false, ◌&&◌, Option, none, some, List, [], ◌∷◌, ◌++◌, Text, codes,
  text_eq, starts_with, length, take, drop, any, find, ltb, leb, if◌then◌else◌,
}
use mathlib.Core.Option

abbrev pub redaction_token : Text
redaction_token = codes "[REDACTED]"

pub record Redactor : Type 0 where
  pub patterns : List Text

-- Stable insertion in descending order of length.
unfoldable pub insert_by_length : Text → List Text → List Text
insert_by_length p [] = p ∷ []
insert_by_length p (q ∷ qs) =
    if leb (length q) (length p) then p ∷ q ∷ qs else q ∷ insert_by_length p qs

-- `sort_by_key(|pattern| Reverse(pattern.len()))`
unfoldable pub sort_by_length : List Text → List Text
sort_by_length [] = []
sort_by_length (p ∷ ps) = insert_by_length p (sort_by_length ps)

unfoldable pub dedup_from : Text → List Text → List Text
dedup_from p [] = p ∷ []
dedup_from p (q ∷ qs) = elim (text_eq p q) [ true ↦ dedup_from p qs | false ↦ p ∷ dedup_from q qs ]

-- `Vec::dedup`: of a run of equal elements the first is kept.
unfoldable pub dedup : List Text → List Text
unfolding dedup_from
dedup [] = []
dedup (p ∷ ps) = dedup_from p ps

unfoldable pub from_secrets : List Text → Redactor
unfolding dedup sort_by_length insert_by_length
from_secrets values = record { patterns = dedup (sort_by_length values) }

unfoldable pub is_empty : Redactor → Bool
is_empty r = elim r.patterns [ [] ↦ true | _ ↦ false ]

-- The first pattern that the rest of the input starts with.
unfoldable pub first_match : Redactor → Text → Option Text
first_match r rest = find (λ p. starts_with rest p) r.patterns

-- One round of the loop: what is written, and how many bytes are consumed.
unfoldable pub replacement : Option Text → Text → Text × ℕ
replacement (some p) rest = (redaction_token, length p)
replacement none rest = (take 1 rest, 1)

unfoldable pub scan_loop : ℕ → Redactor → Text → ℕ → Text → ℕ → Option (Text × ℕ)
unfolding first_match replacement
scan_loop zero r input limit out consumed = none
scan_loop (suc fuel) r input limit out consumed =
    let (piece, n) = replacement (first_match r (drop consumed input)) (drop consumed input) in
    let rest = scan_loop fuel r input limit (out ++ piece) (consumed + n) in
    if ltb consumed limit then rest else some (out, consumed)

unfoldable pub scan : Redactor → Text → ℕ → Option (Text × ℕ)
unfolding scan_loop is_empty
scan r input start_limit =
    if is_empty r
    then some (take start_limit input, start_limit)
    else scan_loop (suc start_limit) r input start_limit [] 0

unfoldable pub redact_bytes : Redactor → Text → Option Text
unfolding scan
redact_bytes r input = Option.map (λ o. o.0) (scan r input (length input))

-- The rest of the input is a proper prefix of some pattern.
unfoldable pub is_undecided : Redactor → Text → Bool
is_undecided r rest = any (λ p. ltb (length rest) (length p) && starts_with p rest) r.patterns

-- The first start whose rest is undecided, and the end of the input if there is none.
unfoldable pub undecided_start : Redactor → Text → ℕ
unfolding is_undecided
undecided_start r [] = 0
undecided_start r (b ∷ rest) = if is_undecided r (b ∷ rest) then 0 else suc (undecided_start r rest)

-- What is written, and what stays pending.
unfoldable pub redact_available : Redactor → Text → Option (Text × Text)
unfolding scan undecided_start
redact_available r pending =
    Option.map (λ o. (o.0, drop o.1 pending)) (scan r pending (undecided_start r pending))
