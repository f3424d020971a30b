-- ===== src/Socket/Stream.antt =====
-- The part of tokio's `UnixStream` that the handshakes use: a stream of bytes with no descriptors.
use dbus_router.Prelude.{ℕ, leb, if◌then◌else◌, Bytes, length, take, drop, []}

-- What comes behind the last byte: silence, the end of the stream, or an error.
pub data Ending : Type 0 where
  silent closed broken : Ending

pub record Stream : Type 0 where
  pub bytes : Bytes
  pub ending : Ending

pub data Exact : Type 0 where
  filled : Bytes → Exact
  waits : Exact
  eof : Exact
  failed : Exact

abbrev pub ended : Ending → Exact
ended Ending.silent = waits
ended Ending.closed = eof
ended Ending.broken = failed

-- `stream.read_exact` into a buffer of `n` bytes; `eof` is the error UnexpectedEof.
unfoldable pub read_exact : ℕ → Stream → Exact × Stream
read_exact n s =
    if leb n (length s.bytes)
    then (filled (take n s.bytes), record s { bytes = drop n s.bytes })
    else (ended s.ending, record s { bytes = [] })
