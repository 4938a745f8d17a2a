-- ===== src/Redaction/Guarantees.antt =====
-- What the capture of one stream guarantees of its log file, for the redactor that `from_secrets`
-- builds.
use mathlib.Core.List.{append-nil}
use nixfied.Prelude.{
  ◌<◌, ◌≡◌, ◌≢◌, refl, ap, ◌∙◌, Bool, true, false, List, [], ◌++◌, Text, Mem, length, drop,
  Bool-cases, some, arith, inl, inr,
}
use nixfied.Redaction.Redactor.{Redactor, from_secrets, redact_bytes}
use nixfied.Redaction.Spec.{Redacts, done, Redacts-unique, Redacts-congr}
use nixfied.Redaction.Order.{from_secrets_lem}
use nixfied.Redaction.Scan.{IsRedactor, redact_bytes-Redacts}
use nixfied.Redaction.Relay.{
  Round, Write, written, write_failed, Capture, Relay, running, completed, failed, diverged,
  Completion, eof, incomplete, relay_loop, settle, final_write, flushed, is_pending, redact_stream,
  capture_start, Outcome, relayed, relay_diverged,
}
use nixfied.Redaction.Streams.{
  input_of, IsFront, IsSafe, Tracks, front-IsSafe, relay_loop-Tracks, cut-append,
}

pub from_secrets-IsRedactor :
    (values : List Text)
    → ((q : Text) → Mem q values → 0 < length q)
    → IsRedactor (from_secrets values)
from_secrets-IsRedactor values h = record {
  descending = (from_secrets_lem values).1;
  nonempty = λ q m. h q (((from_secrets_lem values).0 q).0 m);
}

module _ (r : Redactor) (valid : IsRedactor r) where
  -- A text and a redaction of it in the sense of the specification determine `redact_bytes`.
  redact_bytes_of :
      (input out : Text) → Redacts r.patterns input out → redact_bytes r input ≡ some out
  redact_bytes_of input out t =
      let (o, e, u) = redact_bytes-Redacts r input valid in
      e ∙ ap some (Redacts-unique valid.nonempty u t refl)

  -- The log file holds the front of the redaction of the input.
  abbrev IsPrefix : Text → Text → Type 0
  IsPrefix input file = (tail : Text) × (redact_bytes r input ≡ some (file ++ tail))

  -- What holds of the outcome and the file.
  record Settles (input : Text) (result : Outcome × Text) : Type 0 where
    ends : result.0 ≢ relay_diverged
    whole : result.0 ≡ relayed eof → redact_bytes r input ≡ some result.1
    prefix : IsPrefix input result.1
    cut : result.0 ≡ relayed incomplete → (more : Text) → IsPrefix (input ++ more) result.1

  IsSafe-prefix : (input file : Text) → IsSafe r input file → IsPrefix input file
  IsSafe-prefix input file safe =
      let (tail, t) = safe [] in (tail, redact_bytes_of input (file ++ tail) (rw append-nil at t))

  flushed-Settles :
      (input file : Text) (flush_ok : Bool) (completion : Completion)
      → (completion ≡ eof → redact_bytes r input ≡ some file)
      → IsPrefix input file
      → (completion ≡ incomplete → (more : Text) → IsPrefix (input ++ more) file)
      → Settles input (flushed flush_ok completion file)
  unfolding flushed
  flushed-Settles input file true completion h safe cut = record {
    ends = λ e. cc;
    whole = λ e. h (ground arith);
    prefix = safe;
    cut = λ e. cut (ground arith);
  }
  flushed-Settles input file false completion h safe cut = record {
    ends = λ e. cc;
    whole = λ e. cc;
    prefix = safe;
    cut = λ e. cc;
  }

  final_write-Settles :
      (input : Text) (w : Write) (flush_ok : Bool) (c : Capture)
      → IsFront r input c.pending c.file
      → Settles input (final_write w flush_ok c (redact_bytes r c.pending))
  unfolding final_write
  final_write-Settles input w flush_ok c h =
      let (out, e, t) = redact_bytes-Redacts r c.pending valid in
      let whole = rw append-nil at (h [] out (rw append-nil t)) in
      rw e (by_write w out (redact_bytes_of input (c.file ++ out) whole))
    where
      by_write :
          (w : Write) (out : Text)
          → redact_bytes r input ≡ some (c.file ++ out)
          → Settles input (final_write w flush_ok c (some out))
      by_write written out e =
          flushed-Settles input (c.file ++ out) flush_ok eof (λ _. e) ([], rw append-nil e)
            (λ b. cc)
      by_write (write_failed n) out e = record {
        ends = λ b. cc;
        whole = λ b. cc;
        prefix = (drop n out ++ [], rw (cut-append n c.file out [], append-nil) e);
        cut = λ b. cc;
      }

  settle-Settles :
      (input : Text) (w : Write) (flush_ok : Bool) (s : Relay)
      → Tracks r input s
      → Settles input (settle r w flush_ok s)
  unfolding settle
  settle-Settles input w flush_ok (running c) h = record {
    ends = λ e. cc;
    whole = λ e. cc;
    prefix = IsSafe-prefix input c.file (front-IsSafe r valid input c.pending c.file h);
    cut = λ e. cc;
  }
  settle-Settles input w flush_ok (failed e file) h = record {
    ends = λ b. cc;
    whole = λ b. cc;
    prefix = IsSafe-prefix input file h;
    cut = λ b. cc;
  }
  settle-Settles input w flush_ok diverged h = absurd h
  settle-Settles input w flush_ok (completed incomplete c) h =
      let safe = front-IsSafe r valid input c.pending c.file h in
      flushed-Settles input c.file flush_ok incomplete (λ e. cc) (IsSafe-prefix input c.file safe)
        λ _ more.
          ((safe more).0, redact_bytes_of (input ++ more) (c.file ++ (safe more).0) (safe more).1)
  settle-Settles input w flush_ok (completed eof c) h = elim (Bool-cases (is_pending c.pending)) [
    | inl e ↦ rw e (final_write-Settles input w flush_ok c h)
    | inr e ↦ rw e (nothing_pending (ground arith))
  ]
    where
      nothing_pending : c.pending ≡ [] → Settles input (flushed flush_ok eof c.file)
      nothing_pending e =
          let t : Redacts r.patterns (c.pending ++ []) [] = rw (e, append-nil) done in
          let u : Redacts r.patterns (input ++ []) (c.file ++ []) = h [] [] t in
          let whole = redact_bytes_of input c.file (rw (append-nil, append-nil) at u) in
          flushed-Settles input c.file flush_ok eof (λ _. whole) ([], rw append-nil whole) (λ b. cc)

  redact_stream-Settles :
      (rounds : List Round) (w : Write) (flush_ok : Bool)
      → Settles (input_of r capture_start rounds) (redact_stream r rounds w flush_ok)
  unfolding redact_stream
  redact_stream-Settles rounds w flush_ok =
      settle-Settles (input_of r capture_start rounds) w flush_ok
        (relay_loop r capture_start rounds)
        (relay_loop-Tracks r valid [] capture_start rounds (λ more result t. t))

-- Whatever the rounds, a capture that reports the end of its stream has left in the log file the
-- whole-buffer redaction of all bytes that it read, although it redacted them by chunks; and no
-- round lets a scan run past its fuel. No secret may be empty.
pub redact_stream_complete :
    (values : List Text)
    → ((q : Text) → Mem q values → 0 < length q)
    → (rounds : List Round) (w : Write) (flush_ok : Bool)
    → let r = from_secrets values in
      let result = redact_stream r rounds w flush_ok in
      (result.0 ≢ relay_diverged)
      × (result.0 ≡ relayed eof → redact_bytes r (input_of r capture_start rounds) ≡ some result.1)
redact_stream_complete values h rounds w flush_ok =
    let s =
      redact_stream-Settles (from_secrets values) (from_secrets-IsRedactor values h) rounds w
        flush_ok in
    (s.ends, s.whole)

-- Whatever the rounds and the outcome, failed writes included, the log file is a prefix of the
-- redaction of the bytes that were read. Where the capture was cut off, it is a prefix of the
-- redaction whatever bytes would have followed. No secret may be empty.
pub redact_stream_prefix :
    (values : List Text)
    → ((q : Text) → Mem q values → 0 < length q)
    → (rounds : List Round) (w : Write) (flush_ok : Bool)
    → let r = from_secrets values in
      let input = input_of r capture_start rounds in
      let result = redact_stream r rounds w flush_ok in
      ((tail : Text) × (redact_bytes r input ≡ some (result.1 ++ tail)))
      × (result.0 ≡ relayed incomplete
          → (more : Text)
          → (tail : Text) × (redact_bytes r (input ++ more) ≡ some (result.1 ++ tail)))
redact_stream_prefix values h rounds w flush_ok =
    let s =
      redact_stream-Settles (from_secrets values) (from_secrets-IsRedactor values h) rounds w
        flush_ok in
    (s.prefix, s.cut)

-- For any secrets, none empty, the whole-buffer redaction of any input ends and is the only text
-- that the specification allows: at each position the longest secret that stands there is replaced
-- by the token, and a byte where none stands is kept.
pub redact_bytes_lem :
    (values : List Text)
    → ((q : Text) → Mem q values → 0 < length q)
    → (input : Text)
    → (out : Text) × (redact_bytes (from_secrets values) input ≡ some out)
      × Redacts values input out
      × ((other : Text) → Redacts values input other → other ≡ out)
redact_bytes_lem values h input =
    let valid = from_secrets-IsRedactor values h in
    let (out, e, t) = redact_bytes-Redacts (from_secrets values) input valid in
    let same = (from_secrets_lem values).0 in
    (out, e, Redacts-congr same t, λ other u. Redacts-unique h u (Redacts-congr same t) refl)
