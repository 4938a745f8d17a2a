-- ===== src/Redaction/Streams.antt =====
-- What the capture loop leaves in the log file, against the redaction of the bytes that it read.
use mathlib.Core.List.{append-nil, append_assoc}
use nixfied.Prelude.{
  ℕ, ◌≡◌, sym, ap, ◌∙◌, ◌||◌, List, [], ◌∷◌, ◌++◌, Text, take, drop, take-append-drop, Bool-cases,
  some, if◌then◌else◌, inl, inr,
}
use nixfied.Redaction.Redactor.{Redactor, redact_available}
use nixfied.Redaction.Spec.{Redacts}
use nixfied.Redaction.Scan.{IsRedactor, redact_bytes-Redacts}
use nixfied.Redaction.Chunks.{redact_available-Redacts}
use nixfied.Redaction.Relay.{
  CaptureMode, Round, Read, bytes, retry, read_failed, Polled, ready, timed_out, interrupted,
  poll_failed, Write, written, write_failed, Capture, Relay, running, completed, failed, diverged,
  aborted, expired, consume, emit, polled_round, capture_round, relay_step, relay_loop,
}

-- The bytes that the loop takes from the pipe in a round.
abbrev pub chunk_of : Read → Text
chunk_of (bytes chunk) = chunk
chunk_of _ = []

abbrev pub polled_chunk : CaptureMode → Round → Polled → Text
polled_chunk mode round ready =
    if (aborted mode round.after round.after_now).1 then [] else chunk_of round.read
polled_chunk mode round _ = []

abbrev pub round_chunk : CaptureMode → Round → Text
round_chunk mode round =
    let (mode', stop) = aborted mode round.before round.before_now in
    if stop || expired mode' round.wait_now then [] else polled_chunk mode' round round.polled

abbrev pub relay_chunk : Relay → Round → Text
relay_chunk (running c) round = round_chunk c.mode round
relay_chunk _ round = []

-- All bytes that the loop takes from the pipe.
pub input_of : Redactor → Relay → List Round → Text
input_of r s [] = []
input_of r s (round ∷ rounds) = relay_chunk s round ++ input_of r (relay_step r round s) rounds

-- The file holds the front, and the pending bytes are the end, of what was read.
abbrev pub IsFront : Redactor → Text → Text → Text → Type 0
IsFront r input pending file =
    (more result : Text)
    → Redacts r.patterns (pending ++ more) result
    → Redacts r.patterns (input ++ more) (file ++ result)

-- The file is a prefix of the redaction of what was read, however that goes on.
abbrev pub IsSafe : Redactor → Text → Text → Type 0
IsSafe r input file =
    (more : Text) → (tail : Text) × Redacts r.patterns (input ++ more) (file ++ tail)

abbrev pub Tracks : Redactor → Text → Relay → Type 0
Tracks r input (running c) = IsFront r input c.pending c.file
Tracks r input (completed completion c) = IsFront r input c.pending c.file
Tracks r input (failed e file) = IsSafe r input file
Tracks r input diverged = ⊥

-- A part of the text is a prefix of what the text is a prefix of.
pub cut-append :
    (n : ℕ) (file out x : Text) → (file ++ take n out) ++ (drop n out ++ x) ≡ (file ++ out) ++ x
cut-append n file out x =
    append_assoc file (take n out) (drop n out ++ x)
    ∙ ap (λ z. file ++ z)
        (sym (append_assoc (take n out) (drop n out) x) ∙ ap (λ z. z ++ x) (take-append-drop n out))
    ∙ sym (append_assoc file out x)

module _ (r : Redactor) (valid : IsRedactor r) where
  pub front-IsSafe :
      (input pending file : Text) → IsFront r input pending file → IsSafe r input file
  front-IsSafe input pending file h more =
      let (out, e, t) = redact_bytes-Redacts r (pending ++ more) valid in (out, h more out t)

  emit-Tracks :
      (input chunk : Text) (w : Write) (c : Capture)
      → IsFront r input c.pending c.file
      → Tracks r (input ++ chunk) (emit w c (redact_available r (c.pending ++ chunk)))
  unfolding emit
  emit-Tracks input chunk w c h =
      let (out, rest, e, t) = redact_available-Redacts r (c.pending ++ chunk) valid in
      rw e (by_write w out rest (front out rest t))
    where
      front :
          (out rest : Text)
          → ((more result : Text)
              → Redacts r.patterns (rest ++ more) result
              → Redacts r.patterns ((c.pending ++ chunk) ++ more) (out ++ result))
          → IsFront r (input ++ chunk) rest (c.file ++ out)
      front out rest t more result u =
          rw (append_assoc, append_assoc)
            (h (chunk ++ more) (out ++ result) (rw append_assoc at (t more result u)))

      by_write :
          (w : Write) (out rest : Text)
          → IsFront r (input ++ chunk) rest (c.file ++ out)
          → Tracks r (input ++ chunk) (emit w c (some (out, rest)))
      by_write written out rest f = f
      by_write (write_failed n) out rest f = λ more.
          let (x, t) = front-IsSafe (input ++ chunk) rest (c.file ++ out) f more in
          (drop n out ++ x, rw (cut-append n c.file out x) t)

  consume-Tracks :
      (input : Text) (w : Write) (c : Capture) (read : Read)
      → IsFront r input c.pending c.file
      → Tracks r (input ++ chunk_of read) (consume r w c read)
  unfolding consume
  consume-Tracks input w c retry h = rw append-nil h
  consume-Tracks input w c read_failed h = rw append-nil (front-IsSafe input c.pending c.file h)
  consume-Tracks input w c (bytes []) h = rw append-nil h
  consume-Tracks input w c (bytes (b ∷ chunk)) h = emit-Tracks input (b ∷ chunk) w c h

  polled_round-Tracks :
      (input : Text) (round : Round) (c : Capture) (polled : Polled)
      → IsFront r input c.pending c.file
      → Tracks r (input ++ polled_chunk c.mode round polled) (polled_round r round c polled)
  unfolding polled_round
  polled_round-Tracks input round c timed_out h = rw append-nil h
  polled_round-Tracks input round c interrupted h = rw append-nil h
  polled_round-Tracks input round c poll_failed h =
      rw append-nil (front-IsSafe input c.pending c.file h)
  polled_round-Tracks input round c ready h =
      elim (Bool-cases (aborted c.mode round.after round.after_now).1) [
        | inl e ↦ rw e (rw append-nil h)
        | inr e ↦ rw e (
            consume-Tracks input round.write
              (record c { mode = (aborted c.mode round.after round.after_now).0 }) round.read h)
      ]

  relay_step-Tracks :
      (input : Text) (round : Round) (s : Relay)
      → Tracks r input s
      → Tracks r (input ++ relay_chunk s round) (relay_step r round s)
  unfolding relay_step capture_round
  relay_step-Tracks input round (completed completion c) h = rw append-nil h
  relay_step-Tracks input round (failed e file) h = rw append-nil h
  relay_step-Tracks input round diverged h = h
  relay_step-Tracks input round (running c) h =
      let a = aborted c.mode round.before round.before_now in
      elim (Bool-cases (a.1 || expired a.0 round.wait_now)) [
        | inl e ↦ rw e (rw append-nil h)
        | inr e ↦ rw e (polled_round-Tracks input round (record c { mode = a.0 }) round.polled h)
      ]

  pub relay_loop-Tracks :
      (input : Text) (s : Relay) (rounds : List Round)
      → Tracks r input s
      → Tracks r (input ++ input_of r s rounds) (relay_loop r s rounds)
  unfolding relay_loop input_of
  relay_loop-Tracks input s [] h = rw append-nil h
  relay_loop-Tracks input s (round ∷ rounds) h =
      rw (sym (append_assoc input (relay_chunk s round) (input_of r (relay_step r round s) rounds)))
        (relay_loop-Tracks (input ++ relay_chunk s round) (relay_step r round s) rounds
          (relay_step-Tracks input round s h))
