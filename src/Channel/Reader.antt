-- ===== src/Channel/Reader.antt =====
-- `FrameReader::step` and `Protocol::read` of channel.rs. A step gets the answers to its reads one
-- after the other; where they end, the step goes on waiting for an answer.
use nixfied.Prelude.{
  ℕ, ◌-◌, Option, none, some, List, [], ◌∷◌, ◌++◌, Result, ok, err, length, take, drop, ◌==◌,
  if◌then◌else◌,
}
use nixfied.Channel.Frame.{IoError, unexpected_eof, Protocol, header, expected}
use nixfied.Channel.Socket.{Outcome, moves, interrupted, would_block, fails, moved}

-- What the loop of a step does next: the body is complete, or this many bytes are wanted.
pub data Next : Type 0 where
  complete : List ℕ → Next
  wants : ℕ → Next

unfoldable pub next_of : List ℕ → Option ℕ → Next
next_of received none = wants (header - length received)
next_of received (some total) =
    if length received == total
    then complete (drop header received)
    else wants (total - length received)

-- A step's end: `Ok(Some(body))`, `Ok(None)`, an error, or no answer yet; the bytes received; and the
-- bytes of the peer that are not read.
pub data Step : Type 0 where
  body : List ℕ → Step
  incomplete stopped : Step
  failed : IoError → Step

pub record Reading : Type 0 where
  pub step : Step
  pub received : List ℕ
  pub rest : List ℕ

unfoldable pub reads : List ℕ → Step → List ℕ → Reading
reads received step rest = record { step = step; received = received; rest = rest }

-- One read of `wanted` bytes: nothing is left of a stream that its peer closed, `Ok(0)`.
unfoldable pub read_some : (List ℕ → List ℕ → Reading) → List ℕ → ℕ → ℕ → List ℕ → Reading
unfolding reads moved
read_some continue received wanted more [] = reads received (failed unexpected_eof) []
read_some continue received wanted more (b ∷ stream) =
    continue (received ++ take (moved wanted more) (b ∷ stream))
      (drop (moved wanted more) (b ∷ stream))

-- The loop of `step`, over the answers to its reads.
unfoldable pub step_loop : Protocol → List Outcome → List ℕ → List ℕ → Reading
unfolding read_some next_of reads
step_loop protocol [] received stream = elim (expected protocol received) [
  | err e ↦ reads received (failed e) stream
  | ok total ↦ elim (next_of received total) [
    | complete b ↦ reads (take header received) (body b) stream
    | wants n ↦ reads received stopped stream
  ]
]
step_loop protocol (outcome ∷ outcomes) received stream = elim (expected protocol received) [
  | err e ↦ reads received (failed e) stream
  | ok total ↦ elim (next_of received total) [
    | complete b ↦ reads (take header received) (body b) stream
    | wants n ↦ elim outcome [
      | moves more ↦ read_some (step_loop protocol outcomes) received n more stream
      | interrupted ↦ step_loop protocol outcomes received stream
      | would_block ↦ reads received incomplete stream
      | fails e ↦ reads received (failed e) stream
    ]
  ]
]

-- The loop of `read`: steps with the answer to the wait after each incomplete one.
unfoldable pub read_loop :
    Protocol → List (List Outcome × Result IoError (Unit {0})) → List ℕ → List ℕ → Reading
unfolding step_loop reads
read_loop protocol [] received stream = reads received stopped stream
read_loop protocol ((outcomes, waited) ∷ turns) received stream =
    let r = step_loop protocol outcomes received stream in
    elim r.step [
      | body b ↦ r
      | stopped ↦ r
      | failed e ↦ r
      | incomplete ↦ elim waited [
        | err e ↦ reads r.received (failed e) r.rest
        | ok u ↦ read_loop protocol turns r.received r.rest
      ]
    ]

-- `Protocol::read`
unfoldable pub read : Protocol → List (List Outcome × Result IoError (Unit {0})) → List ℕ → Reading
unfolding read_loop
read protocol turns stream = read_loop protocol turns [] stream
