-- ===== src/Redaction/Relay.antt =====
-- `redact_stream_with_poll` of redaction.rs: the capture loop of one stream. What the pipe, the
-- clock, the control channel and the log file do in a round is the `Round` that the loop is given.
use nixfied.Prelude.{
  ℕ, Bool, true, false, ◌||◌, Option, none, some, List, [], ◌∷◌, ◌++◌, Text, take, leb,
  if◌then◌else◌,
}
use nixfied.Redaction.Redactor.{Redactor, redact_bytes, redact_available}

-- `Instant`s are numbers of one clock.
pub data CaptureMode : Type 0 where
  owned : CaptureMode
  shutdown : ℕ → CaptureMode

-- What `try_recv` finds until the channel is empty or disconnected.
pub record Inbox : Type 0 where
  pub deadlines : List ℕ
  pub disconnected : Bool

pub data Polled : Type 0 where
  ready timed_out interrupted poll_failed : Polled

-- `bytes []` is the end of the stream.
pub data Read : Type 0 where
  bytes : Text → Read
  retry read_failed : Read

-- `write_all` writes everything, or fails behind the first `n` bytes.
pub data Write : Type 0 where
  written : Write
  write_failed : ℕ → Write

pub record Round : Type 0 where
  pub before : Inbox
  pub before_now : ℕ
  pub wait_now : ℕ
  pub polled : Polled
  pub after : Inbox
  pub after_now : ℕ
  pub read : Read
  pub write : Write

pub data Completion : Type 0 where
  eof incomplete : Completion

pub data RelayError : Type 0 where
  read_error write_error final_write_error flush_error : RelayError

-- The loop's variables, with the log file's bytes so far.
pub record Capture : Type 0 where
  pub mode : CaptureMode
  pub pending : Text
  pub file : Text

-- A state of the loop. `diverged` is a scan that its fuel does not end.
pub data Relay : Type 0 where
  running : Capture → Relay
  completed : Completion → Capture → Relay
  failed : RelayError → Text → Relay
  diverged : Relay

unfoldable pub min_deadline : ℕ → ℕ → ℕ
min_deadline a b = if leb a b then a else b

unfoldable pub receive : CaptureMode → List ℕ → CaptureMode
unfolding min_deadline
receive mode [] = mode
receive owned (d ∷ ds) = receive (shutdown d) ds
receive (shutdown existing) (d ∷ ds) = receive (shutdown (min_deadline d existing)) ds

unfoldable pub expired : CaptureMode → ℕ → Bool
expired owned now = false
expired (shutdown deadline) now = leb deadline now

-- The mode after the drain, and whether the capture is aborted.
unfoldable pub aborted : CaptureMode → Inbox → ℕ → CaptureMode × Bool
unfolding receive expired
aborted mode inbox now =
    let mode' = receive mode inbox.deadlines in (mode', inbox.disconnected || expired mode' now)

-- What `write_all` leaves in the file.
unfoldable pub append_written : Write → Text → Text → Text
append_written written file out = file ++ out
append_written (write_failed n) file out = file ++ take n out

unfoldable pub after_write : Write → RelayError → Text → Relay → Relay
after_write written e file next = next
after_write (write_failed n) e file next = failed e file

-- `pending.extend`, `redact_available` and `write_all`.
unfoldable pub emit : Write → Capture → Option (Text × Text) → Relay
unfolding append_written after_write
emit w c none = diverged
emit w c (some (out, rest)) =
    let file = append_written w c.file out in
    after_write w write_error file (running (record c { pending = rest; file = file }))

unfoldable pub consume : Redactor → Write → Capture → Read → Relay
unfolding emit
consume r w c retry = running c
consume r w c read_failed = failed read_error c.file
consume r w c (bytes []) = completed eof c
consume r w c (bytes (b ∷ chunk)) = emit w c (redact_available r (c.pending ++ b ∷ chunk))

-- Behind the poll: a shutdown that arrived meanwhile wins over readiness.
unfoldable pub polled_round : Redactor → Round → Capture → Polled → Relay
unfolding aborted consume
polled_round r round c interrupted = running c
polled_round r round c poll_failed = failed read_error c.file
polled_round r round c timed_out = running c
polled_round r round c ready =
    let (mode, stop) = aborted c.mode round.after round.after_now in
    let c' = record c { mode = mode } in
    if stop then completed incomplete c' else consume r round.write c' round.read

-- One round of the loop.
unfoldable pub capture_round : Redactor → Round → Capture → Relay
unfolding aborted polled_round expired
capture_round r round c =
    let (mode, stop) = aborted c.mode round.before round.before_now in
    let c' = record c { mode = mode } in
    if stop || expired mode round.wait_now
    then completed incomplete c'
    else polled_round r round c' round.polled

unfoldable pub relay_step : Redactor → Round → Relay → Relay
unfolding capture_round
relay_step r round (running c) = capture_round r round c
relay_step r round other = other

-- The loop over the rounds; it is still running if they end first.
unfoldable pub relay_loop : Redactor → Relay → List Round → Relay
unfolding relay_step
relay_loop r s [] = s
relay_loop r s (round ∷ rounds) = relay_loop r (relay_step r round s) rounds

unfoldable pub is_pending : Text → Bool
is_pending [] = false
is_pending (b ∷ rest) = true

pub data Outcome : Type 0 where
  relayed : Completion → Outcome
  relay_failed : RelayError → Outcome
  relay_running relay_diverged : Outcome

-- The flush, and the result with the file.
unfoldable pub flushed : Bool → Completion → Text → Outcome × Text
flushed true completion file = (relayed completion, file)
flushed false completion file = (relay_failed flush_error, file)

-- The final write of what was pending at the end of the stream.
unfoldable pub final_write : Write → Bool → Capture → Option Text → Outcome × Text
unfolding append_written flushed
final_write w flush_ok c none = (relay_diverged, c.file)
final_write written flush_ok c (some out) = flushed flush_ok eof (c.file ++ out)
final_write (write_failed n) flush_ok c (some out) =
    (relay_failed final_write_error, c.file ++ take n out)

unfoldable pub settle : Redactor → Write → Bool → Relay → Outcome × Text
unfolding final_write flushed is_pending
settle r w flush_ok (running c) = (relay_running, c.file)
settle r w flush_ok (failed e file) = (relay_failed e, file)
settle r w flush_ok diverged = (relay_diverged, [])
settle r w flush_ok (completed incomplete c) = flushed flush_ok incomplete c.file
settle r w flush_ok (completed eof c) =
    if is_pending c.pending
    then final_write w flush_ok c (redact_bytes r c.pending)
    else flushed flush_ok eof c.file

abbrev pub capture_start : Relay
capture_start = running (record { mode = owned; pending = []; file = [] })

-- `redact_stream_with_poll`: the outcome, and what the log file holds.
unfoldable pub redact_stream : Redactor → List Round → Write → Bool → Outcome × Text
unfolding relay_loop settle
redact_stream r rounds w flush_ok = settle r w flush_ok (relay_loop r capture_start rounds)
