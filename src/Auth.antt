-- ===== src/Auth.antt =====
-- src/auth.rs: the handshake, which is passed on line by line. A line is read byte by byte.
pub mod Passthrough
pub mod Lines
pub mod Whole
pub mod Transcript
pub mod Rounds
pub mod Relayed
pub mod Turns
pub mod Spoken
pub mod Late
use mathlib.Core.List.{reverse}
use dbus_router.Prelude.{
  ℕ, zero, suc, Bool, true, false, List, [], ◌∷◌, ◌++◌, ◌==◌, ◌&&◌, leb, if◌then◌else◌, Bytes,
  codes, length, starts_with, Error, auth, io, Result, ok, err, panic,
}
use dbus_router.Socket.Stream.{Ending, Stream}
use dbus_router.Socket.{Polled, pending, ready}
use dbus_router.Text.Utf8.{from_utf8_lossy}

-- `AUTH_BUFFER_SIZE`
abbrev pub auth_buffer_size : ℕ
auth_buffer_size = 4096

abbrev pub reversed_line : Bytes → Bool
reversed_line (b ∷ a ∷ _) = a == 13 && b == 10
reversed_line _ = false

-- whether the bytes read so far end in `\r\n`
unfoldable pub ends_line : Bytes → Bool
ends_line result = reversed_line (reverse result)

-- What `read_auth_line` has come to after one more byte.
pub data Progress : Type 0 where
  more : Bytes → Progress
  line : Bytes → Progress
  too_long : Progress

unfoldable pub read_byte : ℕ → Bytes → ℕ → Progress
read_byte size result byte =
    let result' = result ++ byte ∷ [] in
    if ends_line result'
    then line result'
    else if leb size (length result')
    then too_long
    else more result'

abbrev at_end : Ending → Polled Bytes
at_end Ending.silent = pending
at_end Ending.closed = ready (ok [])
at_end Ending.broken = ready (err io)

-- `read_auth_line` into a buffer of `size` bytes. At the end of the stream it gives no bytes at all.
pub read_line_from : ℕ → Bytes → Bytes → Ending → Polled Bytes × Bytes
read_line_from size result [] ending = (at_end ending, [])
read_line_from size result (byte ∷ rest) ending =
    let later = λ (result' : Bytes). read_line_from size result' rest ending in
    elim (read_byte size result byte) [
      | more result' ↦ later result'
      | line whole ↦ (ready (ok whole), rest)
      | too_long ↦ (ready (err auth), rest)
    ]

unfoldable pub read_auth_line : ℕ → Stream → Polled Bytes × Stream
unfolding read_line_from
read_auth_line size s =
    let (result, rest) = read_line_from size [] s.bytes s.ending in
    (result, record s { bytes = rest })

abbrev pub as_string : Polled Bytes → Polled Bytes
as_string pending = pending
as_string (ready panic) = ready panic
as_string (ready (err why)) = ready (err why)
as_string (ready (ok [])) = ready (err auth)
as_string (ready (ok (b ∷ bytes))) = ready (ok (from_utf8_lossy (b ∷ bytes)))

unfoldable pub read_auth_line_string : Stream → Polled Bytes × Stream
read_auth_line_string s =
    let (result, s') = read_auth_line auth_buffer_size s in (as_string result, s')

unfoldable pub is_begin_line : Bytes → Bool
is_begin_line l = starts_with (codes "BEGIN") l

unfoldable pub is_negotiate_unix_fd : Bytes → Bool
is_negotiate_unix_fd l = starts_with (codes "NEGOTIATE_UNIX_FD") l

unfoldable pub is_agree_unix_fd : Bytes → Bool
is_agree_unix_fd l = starts_with (codes "AGREE_UNIX_FD") l

unfoldable pub is_error_line : Bytes → Bool
is_error_line l = starts_with (codes "ERROR") l
