-- ===== src/Channel/Writer.antt =====
-- `write_all` and `read_eof` of channel.rs.
use nixfied.Prelude.{ℕ, List, [], ◌∷◌, ◌++◌, Result, ok, err, length, take, drop}
use nixfied.Channel.Frame.{IoError, write_zero, invalid_data}
use nixfied.Channel.Socket.{Outcome, moves, interrupted, would_block, fails, moved}

-- An answer to a write, and to the wait that follows where it would block. `Ok(0)` is `refuses`.
pub data WriteOutcome : Type 0 where
  answers : Outcome → Result IoError (Unit {0}) → WriteOutcome
  refuses : WriteOutcome

-- What was written, what is left, and the result once there is one.
pub data Written : Type 0 where
  done : Written
  aborted : IoError → Written
  waiting : Written

pub record Writing : Type 0 where
  pub result : Written
  pub written : List ℕ
  pub left : List ℕ

unfoldable pub writes : List ℕ → Written → List ℕ → Writing
writes written result left = record { result = result; written = written; left = left }

-- The loop of `write_all`.
unfoldable pub write_loop : List WriteOutcome → List ℕ → List ℕ → Writing
unfolding writes moved
write_loop outcomes written [] = writes written done []
write_loop [] written (b ∷ bytes) = writes written waiting (b ∷ bytes)
write_loop (refuses ∷ outcomes) written (b ∷ bytes) =
    writes written (aborted write_zero) (b ∷ bytes)
write_loop (answers (moves more) waited ∷ outcomes) written (b ∷ bytes) =
    let n = moved (length (b ∷ bytes)) more in
    write_loop outcomes (written ++ take n (b ∷ bytes)) (drop n (b ∷ bytes))
write_loop (answers interrupted waited ∷ outcomes) written (b ∷ bytes) =
    write_loop outcomes written (b ∷ bytes)
write_loop (answers would_block (ok u) ∷ outcomes) written (b ∷ bytes) =
    write_loop outcomes written (b ∷ bytes)
write_loop (answers would_block (err e) ∷ outcomes) written (b ∷ bytes) =
    writes written (aborted e) (b ∷ bytes)
write_loop (answers (fails e) waited ∷ outcomes) written (b ∷ bytes) =
    writes written (aborted e) (b ∷ bytes)

unfoldable pub write_all : List WriteOutcome → List ℕ → Writing
unfolding write_loop
write_all outcomes bytes = write_loop outcomes [] bytes

-- `read_eof`: the answers to reads of one byte, each with the answer to the wait after it.
unfoldable pub read_eof : List (Outcome × Result IoError (Unit {0})) → List ℕ → Written
read_eof [] stream = waiting
read_eof ((moves more, waited) ∷ outcomes) [] = done
read_eof ((moves more, waited) ∷ outcomes) (b ∷ stream) = aborted invalid_data
read_eof ((interrupted, waited) ∷ outcomes) stream = read_eof outcomes stream
read_eof ((would_block, ok u) ∷ outcomes) stream = read_eof outcomes stream
read_eof ((would_block, err e) ∷ outcomes) stream = aborted e
read_eof ((fails e, waited) ∷ outcomes) stream = aborted e
