-- ===== src/Message/Reading.antt =====
-- Reading one whole message: `read_message_from` over a `DbusReader`, and `read_message` over a plain
-- stream.
pub mod Layout
pub mod Calm
pub mod Framing
pub mod Sent
pub mod Cuts
pub mod Plain
pub mod Agreement
pub mod Taken
use dbus_router.Message.Fields.{ParsedHeaderFields, parse_header_fields}
use dbus_router.Message.Prologue.{
  Prologue, parse, header_end, padding, total_len, fixed_header_size, min_header_size,
}
use dbus_router.Message.{Message, MessageHeader}
use dbus_router.Prelude.{
  ℕ, Bool, not, Option, none, some, List, [], ◌++◌, ◌==◌, ltb, if◌then◌else◌, Bytes, io, protocol,
  Error, Result, ok, err, panic, slice,
}
use dbus_router.Socket.Reader.{Reader, Reads, ◌>>=◌, give, lift, fill, head, consume, take_fds}
use dbus_router.Socket.Stream.{Stream, Exact, filled, waits, eof, failed, read_exact}
use dbus_router.Socket.{max_fds_per_message, Polled, pending, ready}
use dbus_router.Zvariant.{Zvariant}

-- `Prologue::into_header`
abbrev pub into_header : Prologue → ParsedHeaderFields → MessageHeader
into_header p fields = record {
  endian = p.endian;
  msg_type = p.msg_type;
  flags = p.flags;
  serial = p.serial;
  body_len = p.body_len;
  destination = fields.destination;
  reply_serial = fields.reply_serial;
  sender = fields.sender;
  interface = fields.interface;
  member = fields.member;
  path = fields.path;
  signature = fields.signature;
  unix_fds = fields.unix_fds;
}

-- `.map_err(|e| Error::Protocol(e.to_string()))`
as_protocol {ℓ} : {A : Type ℓ} → Polled A × Reader → Polled A × Reader
as_protocol (ready (err why), r) = (ready (err protocol), r)
as_protocol (p, r) = (p, r)

-- `declared.unwrap_or(0)`
abbrev pub or_zero : Option ℕ → ℕ
or_zero none = 0
or_zero (some n) = n

pub take_number : ℕ → Reads (List ℕ)
unfolding as_protocol
take_number declared =
    if ltb max_fds_per_message declared
    then lift (err protocol)
    else if declared == 0
    then give []
    else λ r. as_protocol (take_fds declared r)

unfoldable pub take_declared_fds : Option ℕ → Reads (List ℕ)
unfolding take_number
take_declared_fds declared = take_number (or_zero declared)

module _ (z : Zvariant) where
  -- behind `reader.consume(total)`
  taken_off : Prologue → Bytes → Reads (Option Message)
  taken_off p raw = do
    buf ← lift (slice raw min_header_size (header_end p))
    let fields = parse_header_fields z buf p.endian
    fds ← take_declared_fds fields.unix_fds
    give (some (record { header = into_header p fields; raw = raw; fds = fds }))

  -- behind `reader.fill(total)`
  with_whole : Prologue → Bool → Reads (Option Message)
  unfolding taken_off
  with_whole p whole =
      if not whole
      then lift (err protocol)
      else do raw ← head (total_len p); _ ← consume (total_len p); taken_off p raw

  -- behind `reader.fill(MIN_HEADER_SIZE)`
  with_head : Bool → Reads (Option Message)
  unfolding with_whole
  with_head there = if not there then give none else do
    first ← head min_header_size
    p ← lift (parse first)
    whole ← fill (total_len p)
    with_whole p whole

  unfoldable pub read_message_from : Reads (Option Message)
  unfolding with_head
  read_message_from = do there ← fill min_header_size; with_head there

-- The chain of `read_exact(..).await?` over a stream.
abbrev pub exactly {ℓ} :
    {A : Type ℓ} → Exact × Stream → (Bytes → Stream → Polled A × Stream) → Polled A × Stream
exactly (filled bytes, s) rest = rest bytes s
exactly (waits, s) rest = (pending, s)
exactly (eof, s) rest = (ready (err io), s)
exactly (failed, s) rest = (ready (err io), s)

-- the first of them, where the end of the stream is no error
abbrev pub exactly_or_none :
    Exact × Stream
    → (Bytes → Stream → Polled (Option Message) × Stream)
    → Polled (Option Message) × Stream
exactly_or_none (filled bytes, s) rest = rest bytes s
exactly_or_none (waits, s) rest = (pending, s)
exactly_or_none (eof, s) rest = (ready (ok none), s)
exactly_or_none (failed, s) rest = (ready (err io), s)

module _ (z : Zvariant) where
  pub message_of : Prologue → Bytes → Bytes → Bytes → Bytes → Message
  message_of p first fields_buf padding_buf body = record {
    header = into_header p (parse_header_fields z fields_buf p.endian);
    raw = first ++ (fields_buf ++ (padding_buf ++ body));
    fds = [];
  }

  -- behind the prologue; a `read_exact` of no bytes reads nothing, so the code's tests for an empty
  -- buffer are left out
  pub read_rest : Bytes → Result Prologue → Stream → Polled (Option Message) × Stream
  unfolding message_of
  read_rest first panic s = (ready panic, s)
  read_rest first (err why) s = (ready (err why), s)
  read_rest first (ok p) s = exactly (read_exact p.array_len s) λ fields_buf s'.
      exactly (read_exact (padding p) s') λ padding_buf s''.
        exactly (read_exact p.body_len s'')
          λ body s'''. (ready (ok (some (message_of p first fields_buf padding_buf body))), s''')

  unfoldable pub read_message : Stream → Polled (Option Message) × Stream
  unfolding read_rest
  read_message s = exactly_or_none (read_exact fixed_header_size s) λ fixed s'.
      exactly (read_exact 4 s')
        λ array_len s''. read_rest (fixed ++ array_len) (parse (fixed ++ array_len)) s''
