-- ===== src/Channel/Socket.antt =====
-- What the operating system answers to a call on a nonblocking stream socket. The bytes that the peer
-- sends before it closes its end are a list; a read takes some of its front.
use nixfied.Prelude.{ℕ, suc, ltb, if◌then◌else◌}
use nixfied.Channel.Frame.{IoError}

-- A call moves up to `suc more` bytes, or is answered by an error kind.
pub data Outcome : Type 0 where
  moves : ℕ → Outcome
  interrupted would_block : Outcome
  fails : IoError → Outcome

-- How many bytes a call for `wanted` of them gets.
unfoldable pub moved : ℕ → ℕ → ℕ
moved wanted more = if ltb more wanted then suc more else wanted
