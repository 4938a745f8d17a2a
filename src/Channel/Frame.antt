-- ===== src/Channel/Frame.antt =====
-- `Protocol::encode` and `FrameReader::expected` of channel.rs: a magic of four bytes, the length of
-- the body in four bytes with the highest first, and the body.
use Prim.Native.Nat.{◌/◌, ◌%◌, ◌*◌}
use nixfied.Prelude.{
  ℕ, ◌+◌, not, ◌||◌, Option, none, some, List, [], ◌∷◌, ◌++◌, text_eq, Result, ok, err, ◌>>◌,
  ensure, length, take, drop, ltb, ◌==◌, if◌then◌else◌,
}

-- `io::ErrorKind`, with the kinds that the operating system gives in `other`.
pub data IoError : Type 0 where
  invalid_data unexpected_eof write_zero timed_out : IoError
  other : ℕ → IoError

pub record Protocol : Type 0 where
  pub magic : List ℕ
  pub max : ℕ

-- `HEADER`
abbrev pub header : ℕ
header = 8

-- `(n as u32).to_be_bytes()`
unfoldable pub to_be_bytes : ℕ → List ℕ
to_be_bytes n = (n / 16777216) % 256 ∷ (n / 65536) % 256 ∷ (n / 256) % 256 ∷ n % 256 ∷ []

-- `u32::from_be_bytes` of the bytes from 4 to 8.
unfoldable pub from_be_bytes : List ℕ → ℕ
from_be_bytes (a ∷ b ∷ c ∷ d ∷ []) = a * 16777216 + b * 65536 + c * 256 + d
from_be_bytes _ = 0

unfoldable pub encode : Protocol → List ℕ → Result IoError (List ℕ)
unfolding to_be_bytes
encode protocol body =
    ensure invalid_data (not ((length body == 0) || ltb protocol.max (length body)))
    >> ok (protocol.magic ++ to_be_bytes (length body) ++ body)

-- The whole frame's length, once the header is there.
unfoldable pub expected : Protocol → List ℕ → Result IoError (Option ℕ)
unfolding from_be_bytes
expected protocol received =
    let size = from_be_bytes (take 4 (drop 4 received)) in
    if ltb (length received) header
    then ok none
    else if not (text_eq (take 4 received) protocol.magic)
    then err invalid_data
    else if (size == 0) || ltb protocol.max size
    then err invalid_data
    else ok (some (header + size))
