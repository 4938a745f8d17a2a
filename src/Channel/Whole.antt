-- ===== src/Channel/Whole.antt =====
-- `FrameReader::step` of channel.rs on a frame of a peer: whatever the operating system answers.
use nixfied.Prelude.{
  ℕ, ◌+◌, ◌≤◌, ◌<◌, ◌≡◌, refl, ap, ◌∙◌, inl, inr, List, [], ◌∷◌, ◌++◌, ok, length, length-append,
  length-drop, drop-length, take, drop, arith,
}
use nixfied.Channel.Frame.{Protocol, header, encode}
use nixfied.Channel.Socket.{Outcome, moves, interrupted, would_block, fails, moved}
use nixfied.Channel.Reader.{body, incomplete, failed, Reading, reads, read_some, step_loop}
use nixfied.Channel.Rounds.{take_round, drop_round, moved-range}
use nixfied.Channel.Roundtrip.{
  IsProtocol, IsFrame, encode-IsFrame, next_of-cases, count_moves, FrameRead,
}

-- A stream whose length is at least one is not empty.
nonempty : (xs : List ℕ) → 0 < length xs → (b : ℕ) × (bs : List ℕ) × (xs ≡ b ∷ bs)
nonempty [] h = absurd (omega (arith, h))
nonempty (b ∷ bs) h = (b, bs, refl)

read_some_nonempty :
    (continue : List ℕ → List ℕ → Reading) (received : List ℕ) (n more : ℕ) (stream : List ℕ)
    → 0 < length stream
    → read_some continue received n more stream
      ≡ continue (received ++ take (moved n more) stream) (drop (moved n more) stream)
unfolding read_some
read_some_nonempty continue received n more [] h = absurd (omega (arith, h))
read_some_nonempty continue received n more (b ∷ bs) h = refl

module _ (p : Protocol) (content frame after : List ℕ) (i : IsProtocol p)
    (f : IsFrame p content frame) where
  -- One answer more in front keeps what the step did.
  later :
      (outcome : Outcome) (outcomes : List Outcome) (from k : ℕ) (r : Reading)
      → from + count_moves (outcome ∷ outcomes) ≤ k + count_moves outcomes
      → FrameRead content frame after outcomes k r
      → FrameRead content frame after (outcome ∷ outcomes) from r
  later outcome outcomes from k r h (inl done) = inl done
  later outcome outcomes from k r h (inr (j, less, got, left, halts)) = inr (
    j,
    less,
    got,
    left,
    elim halts [
      | inl (e, m) ↦ inl (e, inr m)
      | inr (inl (e, le)) ↦ inr (inl (e, omega (arith, h, le)))
      | inr (inr (e, s, m)) ↦ inr (inr (e, s, inr m))
    ],
  )

  whole_read :
      (outcomes : List Outcome) (from k : ℕ)
      → k ≡ length frame
      → FrameRead content frame after outcomes from
          (reads (take header (take k frame)) (body content) (drop k frame ++ after))
  unfolding reads
  whole_read outcomes from k e =
      let empty : drop k frame ≡ [] = ap (λ n. drop n frame) e ∙ drop-length frame in
      inl (refl, ap (λ l. l ++ after) empty)

  module _ (outcomes : List Outcome)
      (rest_reads : (j : ℕ)
        → j ≤ length frame
        → FrameRead content frame after outcomes j
            (step_loop p outcomes (take j frame) (drop j frame ++ after)))
      (k n : ℕ) (pos : 0 < n) (le : k + n ≤ length frame) where
    -- A read that moves bytes takes the next ones of the frame.
    moves-FrameRead :
        (more : ℕ)
        → FrameRead content frame after
            (moves more ∷ outcomes)
            k
            (read_some (step_loop p outcomes) (take k frame) n more (drop k frame ++ after))
    moves-FrameRead more =
        let (some_bytes, few) = moved-range n more pos in
        let left : 0 < length (drop k frame ++ after) =
          omega (arith, length-append (drop k frame) after, length-drop k frame, pos, le) in
        let fits : k + moved n more ≤ length frame = omega (arith, few, le) in
        let got = take_round k (moved n more) (k + moved n more) frame after refl fits in
        let over = drop_round k (moved n more) frame after fits in
        rw
          (
            read_some_nonempty (step_loop p outcomes) (take k frame) n more (drop k frame ++ after)
                left,
            got,
            over,
          )
          (later (moves more) outcomes k (k + moved n more) _ (omega (arith, some_bytes))
            (rest_reads (k + moved n more) fits))

    answer-FrameRead :
        (o : Outcome)
        → FrameRead content frame after (o ∷ outcomes) k (elim o [
          | moves more ↦
              read_some (step_loop p outcomes) (take k frame) n more (drop k frame ++ after)
          | interrupted ↦ step_loop p outcomes (take k frame) (drop k frame ++ after)
          | would_block ↦ reads (take k frame) incomplete (drop k frame ++ after)
          | fails e ↦ reads (take k frame) (failed e) (drop k frame ++ after)
        ])
    unfolding reads
    answer-FrameRead (moves more) = moves-FrameRead more
    answer-FrameRead interrupted =
        later interrupted outcomes k k (step_loop p outcomes (take k frame) (drop k frame ++ after))
          (omega arith) (rest_reads k (omega (arith, le)))
    answer-FrameRead would_block = inr (k, omega (arith, pos, le), refl, refl, inl (refl, inl refl))
    answer-FrameRead (fails e) =
        inr (k, omega (arith, pos, le), refl, refl, inr (inr (e, refl, inl refl)))

  step_loop-FrameRead :
      (outcomes : List Outcome) (k : ℕ)
      → k ≤ length frame
      → FrameRead content frame after outcomes k
          (step_loop p outcomes (take k frame) (drop k frame ++ after))
  unfolding step_loop reads
  step_loop-FrameRead [] k h =
      let (total, found) = next_of-cases p content frame k i f h in
      let (e, next) = found in
      elim next [
        | inl (whole, c) ↦ rw (step_loop, e, c) (whole_read [] k k whole)
        | inr (n, w, pos, le) ↦
            rw (step_loop, e, w)
              (inr (k, omega (arith, pos, le), refl, refl, inr (inl (refl, omega arith))))
      ]
  step_loop-FrameRead (outcome ∷ outcomes) k h =
      let (total, found) = next_of-cases p content frame k i f h in
      let (e, next) = found in
      elim next [
        | inl (whole, c) ↦ rw (step_loop, e, c) (whole_read (outcome ∷ outcomes) k k whole)
        | inr (n, w, pos, le) ↦
            rw (step_loop, e, w)
              (answer-FrameRead outcomes (λ j g. step_loop-FrameRead outcomes j g) k n pos le
                outcome)
      ]

-- A frame that the peer sends is read whole whatever answers the reads get. A step that gives a body
-- gives the encoded one and leaves exactly what follows the frame. Any other step has read a front of
-- the frame and nothing behind it: it would block, an error of the operating system ended it, or
-- fewer reads moved bytes than the frame has.
pub step_loop-encode :
    (p : Protocol) (content frame after : List ℕ) (outcomes : List Outcome)
    → IsProtocol p
    → encode p content ≡ ok frame
    → FrameRead content frame after outcomes 0 (step_loop p outcomes [] (frame ++ after))
step_loop-encode p content frame after outcomes i e =
    step_loop-FrameRead p content frame after i (encode-IsFrame p content frame e) outcomes 0
      (omega arith)
