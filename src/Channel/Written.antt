-- ===== src/Channel/Written.antt =====
-- `write_all` and `read_eof` of channel.rs: nothing is lost, doubled or reordered.
use nixfied.Prelude.{
  ℕ, suc, ◌+◌, ◌≤◌, ◌<◌, ◌≡◌, ◌⊎◌, refl, ap, ◌∙◌, inl, inr, List, [], ◌∷◌, ◌++◌, Result, ok, err,
  length, length-drop, take, drop, take-append-drop, All, Mem, arith,
}
use mathlib.Core.List.{append_assoc}
use nixfied.Channel.Frame.{IoError, write_zero, invalid_data}
use nixfied.Channel.Socket.{Outcome, moves, interrupted, would_block, fails, moved}
use nixfied.Channel.Writer.{
  WriteOutcome, answers, refuses, done, aborted, waiting, Written, Writing, writes, write_loop,
  write_all, read_eof,
}
use nixfied.Channel.Rounds.{moved-range}

-- The answers that move bytes.
abbrev pub write_moves : List WriteOutcome → ℕ
write_moves [] = 0
write_moves (answers (moves more) waited ∷ outcomes) = suc (write_moves outcomes)
write_moves (answers interrupted waited ∷ outcomes) = write_moves outcomes
write_moves (answers would_block waited ∷ outcomes) = write_moves outcomes
write_moves (answers (fails e) waited ∷ outcomes) = write_moves outcomes
write_moves (refuses ∷ outcomes) = write_moves outcomes

-- What a write may be aborted with.
abbrev pub IsAnswer : List WriteOutcome → IoError → Type 0
IsAnswer outcomes e =
    ((e ≡ write_zero) × Mem refuses outcomes)
    ⊎ ((waited : _) × Mem (answers (fails e) waited) outcomes)
    ⊎ Mem (answers would_block (err e)) outcomes

-- All is written; or some is left, for want of answers when each move took a byte, or after an error.
abbrev pub IsWritten : List WriteOutcome → List ℕ → List ℕ → Writing → Type 0
IsWritten outcomes before bytes w =
    (w.written ++ w.left ≡ before ++ bytes)
    × (((w.result ≡ done) × (w.left ≡ []))
        ⊎ ((w.result ≡ waiting) × (length w.left + write_moves outcomes ≤ length bytes))
        ⊎ ((e : IoError) × (w.result ≡ aborted e) × IsAnswer outcomes e))

later :
    (o : WriteOutcome) (outcomes : List WriteOutcome) (before before' bytes bytes' : List ℕ)
    (w : Writing)
    → before' ++ bytes' ≡ before ++ bytes
    → length bytes' + write_moves (o ∷ outcomes) ≤ length bytes + write_moves outcomes
    → IsWritten outcomes before' bytes' w
    → IsWritten (o ∷ outcomes) before bytes w
later o outcomes before before' bytes bytes' w e h (all_bytes, ends) = (
  all_bytes ∙ e,
  elim ends [
    | inl d ↦ inl d
    | inr (inl (s, le)) ↦ inr (inl (s, omega (arith, le, h)))
    | inr (inr (x, s, a)) ↦ inr (
        inr (
          x,
          s,
          elim a [
            | inl (z, m) ↦ inl (z, inr m)
            | inr (inl (waited, m)) ↦ inr (inl (waited, inr m))
            | inr (inr m) ↦ inr (inr (inr m))
          ],
        ))
  ],
)

write_loop-IsWritten :
    (outcomes : List WriteOutcome) (before bytes : List ℕ)
    → IsWritten outcomes before bytes (write_loop outcomes before bytes)
unfolding write_loop writes
write_loop-IsWritten [] before [] = (refl, inl (refl, refl))
write_loop-IsWritten (o ∷ outcomes) before [] = (refl, inl (refl, refl))
write_loop-IsWritten [] before (b ∷ bytes) = (refl, inr (inl (refl, omega arith)))
write_loop-IsWritten (refuses ∷ outcomes) before (b ∷ bytes) =
    (refl, inr (inr (write_zero, refl, inl (refl, inl refl))))
write_loop-IsWritten (answers (moves more) waited ∷ outcomes) before (b ∷ bytes) =
    let n = moved (length (b ∷ bytes)) more in
    let (some_bytes, few) = moved-range (length (b ∷ bytes)) more (omega arith) in
    later (answers (moves more) waited) outcomes before (before ++ take n (b ∷ bytes)) (b ∷ bytes)
      (drop n (b ∷ bytes)) _
      (append_assoc before (take n (b ∷ bytes)) (drop n (b ∷ bytes))
        ∙ ap (λ l. before ++ l) (take-append-drop n (b ∷ bytes)))
      (omega (arith, some_bytes, few, length-drop n (b ∷ bytes)))
      (write_loop-IsWritten outcomes (before ++ take n (b ∷ bytes)) (drop n (b ∷ bytes)))
write_loop-IsWritten (answers interrupted waited ∷ outcomes) before (b ∷ bytes) =
    later (answers interrupted waited) outcomes before before (b ∷ bytes) (b ∷ bytes) _ refl
      (omega arith) (write_loop-IsWritten outcomes before (b ∷ bytes))
write_loop-IsWritten (answers would_block (ok u) ∷ outcomes) before (b ∷ bytes) =
    later (answers would_block (ok u)) outcomes before before (b ∷ bytes) (b ∷ bytes) _ refl
      (omega arith) (write_loop-IsWritten outcomes before (b ∷ bytes))
write_loop-IsWritten (answers would_block (err e) ∷ outcomes) before (b ∷ bytes) =
    (refl, inr (inr (e, refl, inr (inr (inl refl)))))
write_loop-IsWritten (answers (fails e) waited ∷ outcomes) before (b ∷ bytes) =
    (refl, inr (inr (e, refl, inr (inl (waited, inl refl)))))

-- Whatever answers the writes get, what is written and what is left are the bytes in order. The write
-- ends with nothing left, or with an error that an answer gave; it goes on only while fewer answers
-- moved bytes than there are.
pub write_all-IsWritten :
    (outcomes : List WriteOutcome) (bytes : List ℕ)
    → IsWritten outcomes [] bytes (write_all outcomes bytes)
unfolding write_all
write_all-IsWritten outcomes bytes = write_loop-IsWritten outcomes [] bytes

-- An answer after which `read_eof` goes on.
abbrev pub Waits : Outcome × Result IoError (Unit {0}) → Type 0
Waits (moves more, waited) = ⊥
Waits (interrupted, waited) = Unit
Waits (would_block, ok u) = Unit
Waits (would_block, err e) = ⊥
Waits (fails e, waited) = ⊥

-- What any other answer makes of the stream.
abbrev pub Ends : Outcome × Result IoError (Unit {0}) → List ℕ → Written → Type 0
Ends (moves more, waited) stream w =
    ((w ≡ done) × (stream ≡ [])) ⊎ ((w ≡ aborted invalid_data) × (0 < length stream))
Ends (interrupted, waited) stream w = ⊥
Ends (would_block, ok u) stream w = ⊥
Ends (would_block, err e) stream w = w ≡ aborted e
Ends (fails e, waited) stream w = w ≡ aborted e

-- All answers wait, or the first that does not decides.
abbrev pub IsDecided : List (Outcome × Result IoError (Unit {0})) → List ℕ → Written → Type 0
IsDecided outcomes stream w =
    ((w ≡ waiting) × All Waits outcomes)
    ⊎ ((front : List (Outcome × Result IoError (Unit {0}))) × (o : Outcome
          × Result IoError (Unit {0}))
        × (back : List (Outcome × Result IoError (Unit {0}))) × (outcomes ≡ front ++ o ∷ back)
        × All Waits front
        × Ends o stream w)

at_once :
    (o : Outcome × Result IoError (Unit {0}))
    (outcomes : List (Outcome × Result IoError (Unit {0}))) (stream : List ℕ) (w : Written)
    → Ends o stream w
    → IsDecided (o ∷ outcomes) stream w
at_once o outcomes stream w e = inr ([], o, outcomes, refl, tt, e)

after :
    (o : Outcome × Result IoError (Unit {0}))
    (outcomes : List (Outcome × Result IoError (Unit {0}))) (stream : List ℕ) (w : Written)
    → Waits o
    → IsDecided outcomes stream w
    → IsDecided (o ∷ outcomes) stream w
after o outcomes stream w h (inl (e, all_wait)) = inl (e, (h, all_wait))
after o outcomes stream w h (inr (front, p, back, e, wait, ends)) =
    inr (o ∷ front, p, back, ap (λ l. o ∷ l) e, (h, wait), ends)

-- `read_eof` waits only as long as every answer is an interruption, or would block and the wait
-- succeeds. The first other answer decides: a read that moves bytes ends it, as done where the peer
-- sent nothing more and as invalid data where a byte is left, and a failed read or a failed wait ends
-- it with that error.
pub read_eof-cases :
    (outcomes : List (Outcome × Result IoError (Unit {0}))) (stream : List ℕ)
    → IsDecided outcomes stream (read_eof outcomes stream)
unfolding read_eof
read_eof-cases [] stream = inl (refl, tt)
read_eof-cases ((moves more, waited) ∷ outcomes) [] =
    at_once (moves more, waited) outcomes [] _ (inl (refl, refl))
read_eof-cases ((moves more, waited) ∷ outcomes) (b ∷ stream) =
    at_once (moves more, waited) outcomes (b ∷ stream) _ (inr (refl, omega arith))
read_eof-cases ((interrupted, waited) ∷ outcomes) stream =
    after (interrupted, waited) outcomes stream _ tt (read_eof-cases outcomes stream)
read_eof-cases ((would_block, ok u) ∷ outcomes) stream =
    after (would_block, ok u) outcomes stream _ tt (read_eof-cases outcomes stream)
read_eof-cases ((would_block, err e) ∷ outcomes) stream =
    at_once (would_block, err e) outcomes stream _ refl
read_eof-cases ((fails e, waited) ∷ outcomes) stream =
    at_once (fails e, waited) outcomes stream _ refl
