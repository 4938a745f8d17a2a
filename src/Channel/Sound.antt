-- ===== src/Channel/Sound.antt =====
-- What `FrameReader::step` of channel.rs accepts, on any bytes: a frame that `encode` makes.
use nixfied.Prelude.{
  ℕ, zero, suc, ◌+◌, ◌-◌, ◌≤◌, ◌≡◌, ◌⊎◌, refl, ap, ◌∙◌, inl, inr, Option, none, some, List, [], ◌∷◌,
  ◌++◌, ok, err, length, length-append, take, drop, take-append-drop, ◌==◌, ==_iff, arith,
  Bool-cases,
}
use mathlib.Core.List.{append_assoc}
use nixfied.Channel.Frame.{
  IoError, invalid_data, unexpected_eof, Protocol, header, encode, expected,
}
use nixfied.Channel.Socket.{Outcome, moves, interrupted, would_block, fails, moved}
use nixfied.Channel.Reader.{
  complete, wants, next_of, Step, body, incomplete, stopped, failed, Reading, reads, read_some,
  step_loop,
}
use nixfied.Channel.Header.{AreBytes, size_of, expected-cases, encode-received}

abbrev IsEnd : Step → Type 0
IsEnd step = (step ≡ incomplete) ⊎ (step ≡ stopped) ⊎ ((e : IoError) × (step ≡ failed e))

-- The step took a whole frame off the front, or it holds a front that is no longer than a frame.
abbrev pub Accepts : Protocol → List ℕ → Reading → Type 0
Accepts p stream r =
    ((content : List ℕ) × (frame : List ℕ) × (r.step ≡ body content)
      × (encode p content ≡ ok frame)
      × (frame ++ r.rest ≡ stream))
    ⊎ (IsEnd r.step × (r.received ++ r.rest ≡ stream) × (length r.received ≤ header + p.max))

-- What a step does next on any bytes.
abbrev Decides : Protocol → List ℕ → Type 0
Decides p received =
    (expected p received ≡ err invalid_data)
    ⊎ ((total : Option ℕ) × (expected p received ≡ ok total)
        × (((next_of received total ≡ complete (drop 8 received))
              × (encode p (drop 8 received) ≡ ok received))
            ⊎ ((n : ℕ) × (next_of received total ≡ wants n)
                × (length received + n ≤ header + p.max))))

decides :
    (p : Protocol) (received : List ℕ)
    → AreBytes received
    → length received ≤ header + p.max
    → Decides p received
unfolding next_of
decides p received all_bytes h = elim (expected-cases p received) [
  | inl (e, less) ↦ inr (none, e, inr (header - length received, refl, omega (arith, less)))
  | inr (inl e) ↦ inl e
  | inr (inr (e, past, magic, positive, bounded)) ↦
      elim (Bool-cases (length received == header + size_of received)) [
        | inl t ↦
            let whole : length received ≡ header + size_of received =
              (==_iff (length received) (header + size_of received)).0 t in
            inr (
              some (header + size_of received),
              e,
              inl (
                rw (next_of, t) refl,
                encode-received p received all_bytes past magic positive bounded whole,
              ),
            )
        | inr n ↦ inr (
          some (header + size_of received),
          e,
          inr (
            (header + size_of received) - length received,
            rw (next_of, n) refl,
            omega (arith, h, bounded),
          ),
        )
      ]
]

moved-le : (wanted more : ℕ) → moved wanted more ≤ wanted
unfolding moved
moved-le wanted more = ground arith

All-front : (xs ys : List ℕ) → AreBytes (xs ++ ys) → AreBytes xs
All-front [] ys h = tt
All-front (x ∷ xs) ys (b, h) = (b, All-front xs ys h)

length-take : (n : ℕ) (xs : List ℕ) → length (take n xs) ≤ n
length-take zero xs = omega arith
length-take (suc n) [] = omega arith
length-take (suc n) (x ∷ xs) = omega (arith, length-take n xs)

module _ (p : Protocol) where
  halts :
      (step : Step) (received stream : List ℕ)
      → IsEnd step
      → length received ≤ header + p.max
      → Accepts p (received ++ stream) (reads received step stream)
  unfolding reads
  halts step received stream e h = inr (e, refl, h)

  module _ (outcomes : List Outcome)
      (rest_accepts : (received stream : List ℕ)
        → AreBytes (received ++ stream)
        → length received ≤ header + p.max
        → Accepts p (received ++ stream) (step_loop p outcomes received stream))
      (received : List ℕ) (n : ℕ) (fits : length received + n ≤ header + p.max) where
    moves-Accepts :
        (more : ℕ) (stream : List ℕ)
        → AreBytes (received ++ stream)
        → Accepts p (received ++ stream) (read_some (step_loop p outcomes) received n more stream)
    unfolding read_some
    moves-Accepts more [] all_bytes =
        halts (failed unexpected_eof) received [] (inr (inr (unexpected_eof, refl)))
          (omega (arith, fits))
    moves-Accepts more (b ∷ stream) all_bytes =
        let m = moved n more in
        let same : (received ++ take m (b ∷ stream)) ++ drop m (b ∷ stream)
            ≡ received ++ b ∷ stream =
          append_assoc received (take m (b ∷ stream)) (drop m (b ∷ stream))
          ∙ ap (λ l. received ++ l) (take-append-drop m (b ∷ stream)) in
        let less : length (received ++ take m (b ∷ stream)) ≤ header + p.max = omega (
          arith,
          length-append received (take m (b ∷ stream)),
          length-take m (b ∷ stream),
          moved-le n more,
          fits,
        ) in
        let there =
          rest_accepts (received ++ take m (b ∷ stream)) (drop m (b ∷ stream)) (rw same all_bytes)
            less in
        rw same at there

    answer-Accepts :
        (o : Outcome) (stream : List ℕ)
        → AreBytes (received ++ stream)
        → Accepts p (received ++ stream) (elim o [
          | moves more ↦ read_some (step_loop p outcomes) received n more stream
          | interrupted ↦ step_loop p outcomes received stream
          | would_block ↦ reads received incomplete stream
          | fails e ↦ reads received (failed e) stream
        ])
    answer-Accepts (moves more) stream all_bytes = moves-Accepts more stream all_bytes
    answer-Accepts interrupted stream all_bytes =
        rest_accepts received stream all_bytes (omega (arith, fits))
    answer-Accepts would_block stream all_bytes =
        halts incomplete received stream (inl refl) (omega (arith, fits))
    answer-Accepts (fails e) stream all_bytes =
        halts (failed e) received stream (inr (inr (e, refl))) (omega (arith, fits))

  step_loop-front :
      (outcomes : List Outcome) (received stream : List ℕ)
      → AreBytes (received ++ stream)
      → length received ≤ header + p.max
      → Accepts p (received ++ stream) (step_loop p outcomes received stream)
  unfolding step_loop reads
  step_loop-front [] received stream all_bytes h =
      elim (decides p received (All-front received stream all_bytes) h) [
        | inl e ↦
            rw (step_loop, e)
              (halts (failed invalid_data) received stream (inr (inr (invalid_data, refl))) h)
        | inr (total, e, inl (c, f)) ↦
            rw (step_loop, e, c) (inl (drop 8 received, received, refl, f, refl))
        | inr (total, e, inr (n, w, fits)) ↦
            rw (step_loop, e, w) (halts stopped received stream (inr (inl refl)) h)
      ]
  step_loop-front (o ∷ outcomes) received stream all_bytes h =
      elim (decides p received (All-front received stream all_bytes) h) [
        | inl e ↦
            rw (step_loop, e)
              (halts (failed invalid_data) received stream (inr (inr (invalid_data, refl))) h)
        | inr (total, e, inl (c, f)) ↦
            rw (step_loop, e, c) (inl (drop 8 received, received, refl, f, refl))
        | inr (total, e, inr (n, w, fits)) ↦
            rw (step_loop, e, w)
              (answer-Accepts outcomes (λ r s b k. step_loop-front outcomes r s b k) received n fits
                o stream all_bytes)
      ]

-- On any bytes, a step gives a body only for a frame that `encode` makes of it, and takes exactly that
-- frame off the front. Otherwise nothing is lost, and what it holds is no longer than the header and
-- the protocol's bound.
pub step_loop-Accepts :
    (p : Protocol) (outcomes : List Outcome) (stream : List ℕ)
    → AreBytes stream
    → Accepts p stream (step_loop p outcomes [] stream)
step_loop-Accepts p outcomes stream all_bytes =
    step_loop-front p outcomes [] stream all_bytes (omega arith)
