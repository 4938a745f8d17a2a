-- ===== src/Channel/Tests.antt =====
-- A small protocol, a frame of it in two reads, and the witnesses.
use nixfied.Prelude.{ℕ, ◌≡◌, refl, List, [], ◌∷◌, ◌++◌, codes, text_eq, Result, ok, err, arith}
use nixfied.Channel.Frame.{IoError, invalid_data, Protocol, encode, expected}
use nixfied.Channel.Socket.{Outcome, moves, interrupted, would_block}
use nixfied.Channel.Reader.{body, reads, step_loop}
use nixfied.Channel.Writer.{WriteOutcome, answers, aborted, write_all, read_eof}
use nixfied.Channel.Roundtrip.{FrameRead}
use nixfied.Channel.Whole.{step_loop-encode}
use nixfied.Channel.Header.{AreBytes}
use nixfied.Channel.Sound.{Accepts, step_loop-Accepts}
use nixfied.Channel.Written.{IsWritten, write_all-IsWritten, IsDecided, read_eof-cases}

abbrev protocol : Protocol
protocol = record { magic = codes "NXT1"; max = 16 }

abbrev content : List ℕ
content = codes "{}"

abbrev frame : List ℕ
frame = codes "NXT1" ++ 0 ∷ 0 ∷ 0 ∷ 2 ∷ content

abbrev outcomes : List Outcome
outcomes = moves 2 ∷ interrupted ∷ moves 9 ∷ moves 0 ∷ moves 5 ∷ []

encodes : encode protocol content ≡ ok frame
unfolding encode
encodes = refl

refuses_empty : encode protocol [] ≡ err invalid_data
unfolding encode
refuses_empty = refl

reads_in_parts :
    step_loop protocol outcomes [] (frame ++ codes "x")
    ≡ reads (codes "NXT1" ++ 0 ∷ 0 ∷ 0 ∷ 2 ∷ []) (body content) (codes "x")
unfolding step_loop expected text_eq
reads_in_parts = refl

step_loop-encode_example :
    FrameRead content frame
      (codes "x")
      outcomes
      0
      (step_loop protocol outcomes [] (frame ++ codes "x"))
step_loop-encode_example =
    step_loop-encode protocol content frame (codes "x") outcomes (refl, omega arith) encodes

small_bytes : AreBytes (frame ++ codes "x")
small_bytes = (
  omega arith,
  (
    omega arith,
    (
      omega arith,
      (
        omega arith,
        (
          omega arith,
          (
            omega arith,
            (omega arith, (omega arith, (omega arith, (omega arith, (omega arith, tt))))),
          ),
        ),
      ),
    ),
  ),
)

step_loop-Accepts_example :
    Accepts protocol (frame ++ codes "x") (step_loop protocol outcomes [] (frame ++ codes "x"))
step_loop-Accepts_example = step_loop-Accepts protocol outcomes (frame ++ codes "x") small_bytes

abbrev writes_in_parts : List WriteOutcome
writes_in_parts =
    answers (moves 3) (ok tt) ∷ answers would_block (ok tt) ∷ answers (moves 20) (ok tt) ∷ []

write_all-IsWritten_example : IsWritten writes_in_parts [] frame (write_all writes_in_parts frame)
write_all-IsWritten_example = write_all-IsWritten writes_in_parts frame

abbrev closing : List (Outcome × Result IoError (Unit {0}))
closing = (interrupted, ok tt) ∷ (moves 0, ok tt) ∷ []

read_eof_byte_left : read_eof closing (7 ∷ []) ≡ aborted invalid_data
unfolding read_eof
read_eof_byte_left = refl

read_eof-cases_example : IsDecided closing (7 ∷ []) (read_eof closing (7 ∷ []))
read_eof-cases_example = read_eof-cases closing (7 ∷ [])
