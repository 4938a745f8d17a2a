-- ===== src/Redaction/Tests.antt =====
-- The redactor and the capture loop on two secrets, one a prefix of the other, cut into chunks.
use nixfied.Prelude.{
  ◌<◌, ◌≡◌, ◌≢◌, refl, inl, inr, true, false, List, [], ◌∷◌, ◌++◌, Text, codes, Mem, text_eq, any,
  starts_with, find, length, some, arith,
}
use nixfied.Redaction.Redactor.{from_secrets, redact_bytes, redact_available}
use nixfied.Redaction.Spec.{Redacts}
use nixfied.Redaction.Relay.{
  Round, ready, bytes, written, redact_stream, capture_start, relayed, relay_diverged, eof,
  incomplete, write_failed,
}
use nixfied.Redaction.Streams.{input_of}
use nixfied.Redaction.Guarantees.{redact_stream_complete, redact_stream_prefix, redact_bytes_lem}

abbrev secrets : List Text
secrets = codes "abc" ∷ codes "abcde" ∷ codes "abc" ∷ []

secrets_nonempty : (q : Text) → Mem q secrets → 0 < length q
secrets_nonempty q (inl e) = ground arith
secrets_nonempty q (inr (inl e)) = ground arith
secrets_nonempty q (inr (inr (inl e))) = ground arith
secrets_nonempty q (inr (inr (inr m))) = absurd m

abbrev round_of : Text → Round
round_of chunk = record {
  before = record { deadlines = []; disconnected = false };
  before_now = 0;
  wait_now = 0;
  polled = ready;
  after = record { deadlines = []; disconnected = false };
  after_now = 0;
  read = bytes chunk;
  write = written;
}

-- The secret is split over three reads.
abbrev rounds : List Round
rounds =
    round_of (codes "xab") ∷ round_of (codes "cd") ∷ round_of (codes "eyabc") ∷ round_of [] ∷ []

-- A deadline arrives behind the second poll, and has passed.
abbrev cut_rounds : List Round
cut_rounds =
    round_of (codes "xab")
    ∷ record (round_of (codes "c")) {
      after = record { deadlines = 5 ∷ []; disconnected = false };
      after_now = 7;
    }
    ∷ []

redacts_split_secret :
    redact_stream (from_secrets secrets) rounds written true
    ≡ (relayed eof, codes "x[REDACTED]y[REDACTED]")
unfolding redact_stream from_secrets redact_available redact_bytes text_eq any starts_with find
redacts_split_secret = refl

keeps_back_undecided :
    redact_stream (from_secrets secrets) cut_rounds written true ≡ (relayed incomplete, codes "x")
unfolding redact_stream from_secrets redact_available redact_bytes text_eq any starts_with find
keeps_back_undecided = refl

redact_bytes_lem_example :
    let input = codes "abcdabcde" in
    (out : Text) × (redact_bytes (from_secrets secrets) input ≡ some out)
    × Redacts secrets input out
    × ((other : Text) → Redacts secrets input other → other ≡ out)
redact_bytes_lem_example = redact_bytes_lem secrets secrets_nonempty (codes "abcdabcde")

redact_stream_complete_example :
    let r = from_secrets secrets in
    let result = redact_stream r rounds written true in
    (result.0 ≢ relay_diverged)
    × (result.0 ≡ relayed eof → redact_bytes r (input_of r capture_start rounds) ≡ some result.1)
redact_stream_complete_example = redact_stream_complete secrets secrets_nonempty rounds written true

redact_stream_prefix_example :
    let r = from_secrets secrets in
    let input = input_of r capture_start cut_rounds in
    let result = redact_stream r cut_rounds (write_failed 3) true in
    ((tail : Text) × (redact_bytes r input ≡ some (result.1 ++ tail)))
    × (result.0 ≡ relayed incomplete
        → (more : Text)
        → (tail : Text) × (redact_bytes r (input ++ more) ≡ some (result.1 ++ tail)))
redact_stream_prefix_example =
    redact_stream_prefix secrets secrets_nonempty cut_rounds (write_failed 3) true
