-- ===== src/Samples/Sockets.antt =====
-- The theorems about sockets, the handshakes and addresses, each at a concrete input.
use dbus_router.Address.Entries.{IsEntry, parse_unix_address-entry, address_of, entry}
use dbus_router.Address.{path, parse_unix_address, socket_of}
use dbus_router.Session.Log.{Logged, log_message, log_message-ok}
use dbus_router.Format.{BodyReader}
use dbus_router.Message.Endian.{read_u32, Order}
use dbus_router.Message.Fields.{parse_header_fields}
use dbus_router.Message.Prologue.{Prologue, parse, method_return, message_type}
use dbus_router.Message.Reading.Agreement.{read_message_from-read_message}
use dbus_router.Message.Reading.Framing.{read_message_from-Found}
use dbus_router.Message.Reading.Calm.{Found, IsCalm}
use dbus_router.Message.Reading.Layout.{IsWhole, header_of}
use dbus_router.Message.Reading.Plain.{read_message-IsWhole}
use dbus_router.Message.Reading.{read_message, read_message_from}
use dbus_router.Message.Reading.Taken.{TakenFrom, read_message_from-TakenFrom}
use dbus_router.Message.{Message, MessageHeader}
use dbus_router.Prelude.{
  none, ◌≡◌, refl, true, some, [], ◌∷◌, ◌++◌, arith, Bytes, codes, ok, err, io, index, slice,
  strip_prefix, ◌<◌,
}
use dbus_router.Samples.Plain.{without, without-All}
use dbus_router.Samples.{sample_zvariant}
use dbus_router.Socket.Reader.Arrived.{bytes_in, fds_in}
use dbus_router.Socket.Reader.{Reader}
use dbus_router.Socket.Stream.{Stream, Ending, read_exact}
use dbus_router.Socket.Writer.Send.{send-Delivered, Delivered}
use dbus_router.Socket.Writer.Waiting.{WaitsForPeer, send-WaitsForPeer}
use dbus_router.Socket.Writer.{Writer, send}
use dbus_router.Socket.{Arrival, Attempt, max_fds_per_message, ready}

-- A reply with no header fields and no body.
abbrev pub reply_raw : Bytes
reply_raw = b'l' ∷ 2 ∷ 0 ∷ 1 ∷ 0 ∷ 0 ∷ 0 ∷ 0 ∷ 5 ∷ 0 ∷ 0 ∷ 0 ∷ 0 ∷ 0 ∷ 0 ∷ 0 ∷ []

abbrev reply_prologue : Prologue
reply_prologue = record {
  endian = Order.little;
  msg_type = method_return;
  flags = 0;
  serial = 5;
  body_len = 0;
  array_len = 0;
}

abbrev pub reply_header : MessageHeader
reply_header = header_of sample_zvariant reply_prologue reply_raw

pub reply-IsWhole : IsWhole sample_zvariant reply_raw reply_header
unfolding parse read_u32 message_type index slice
reply-IsWhole = record { prologue = reply_prologue; parses = refl; whole = refl; header_is = refl }

-- The reply in two parts, and a byte behind it.
abbrev cut_reader : Reader
cut_reader = record {
  incoming =
      Arrival.chunk (b'l' ∷ 2 ∷ 0 ∷ []) []
      ∷ Arrival.blocked
      ∷ Arrival.chunk (1 ∷ 0 ∷ 0 ∷ 0 ∷ 0 ∷ 5 ∷ 0 ∷ 0 ∷ 0 ∷ 0 ∷ 0 ∷ 0 ∷ 0 ∷ 9 ∷ []) []
      ∷ [];
  buf = [];
  start = 0;
  fdq = [];
}

cut_reader-IsCalm : IsCalm cut_reader
unfolding bytes_in fds_in
cut_reader-IsCalm = record {
  inside = omega arith;
  data_only = (tt, (tt, (tt, tt)));
  few_fds = omega arith;
}

abbrev reply_message : Message
reply_message = record { header = reply_header; raw = reply_raw; fds = [] }

read_message_from-Found_example :
    Found reply_message (9 ∷ []) (read_message_from sample_zvariant cut_reader)
unfolding bytes_in parse_header_fields
read_message_from-Found_example =
    read_message_from-Found sample_zvariant cut_reader reply_raw (9 ∷ []) reply_header
      cut_reader-IsCalm refl reply-IsWhole (omega arith)

-- The reply in one part, on a plain stream.
abbrev plain_stream : Stream
plain_stream = record { bytes = reply_raw ++ 9 ∷ []; ending = Ending.silent }

abbrev plain_rest : Stream
plain_rest = record { bytes = 9 ∷ []; ending = Ending.silent }

plain_read :
    read_message sample_zvariant plain_stream ≡ (ready (ok (some reply_message)), plain_rest)
unfolding read_message read_exact parse read_u32 message_type index slice
plain_read = refl

read_message-IsWhole_example :
    IsWhole sample_zvariant reply_raw reply_header
    × (plain_stream.bytes ≡ reply_raw ++ plain_rest.bytes)
    × (reply_message.fds ≡ [])
read_message-IsWhole_example =
    read_message-IsWhole sample_zvariant plain_stream plain_rest reply_message plain_read

read_message_from-read_message_example :
    Found reply_message (9 ∷ []) (read_message_from sample_zvariant cut_reader)
unfolding bytes_in
read_message_from-read_message_example =
    read_message_from-read_message sample_zvariant plain_stream plain_rest cut_reader reply_message
      plain_read (unfold parse_header_fields in refl) cut_reader-IsCalm refl

cut_read : Found reply_message (9 ∷ []) (read_message_from sample_zvariant cut_reader)
unfolding bytes_in parse_header_fields
cut_read =
    read_message_from-Found sample_zvariant cut_reader reply_raw (9 ∷ []) reply_header
      cut_reader-IsCalm refl reply-IsWhole (omega arith)

read_message_from-TakenFrom_example :
    TakenFrom sample_zvariant cut_reader cut_read.after reply_message
read_message_from-TakenFrom_example =
    read_message_from-TakenFrom sample_zvariant cut_reader cut_read.after reply_message
      cut_reader-IsCalm.inside cut_read.gives

-- The kernel takes one byte, and then two.
abbrev slow_writer : Writer
slow_writer = record {
  attempts = Attempt.accepts 1 ∷ Attempt.blocked ∷ Attempt.accepts 2 ∷ [];
  delivered = [];
}

send-Delivered_example :
    Delivered (1 ∷ 2 ∷ 3 ∷ []) (7 ∷ []) slow_writer (send (1 ∷ 2 ∷ 3 ∷ []) (7 ∷ []) slow_writer)
    × (max_fds_per_message < 1
        → send (1 ∷ 2 ∷ 3 ∷ []) (7 ∷ []) slow_writer ≡ (ready (err io), slow_writer))
send-Delivered_example = send-Delivered (1 ∷ 2 ∷ 3 ∷ []) (7 ∷ []) slow_writer

send-WaitsForPeer_example : WaitsForPeer (send (1 ∷ 2 ∷ 3 ∷ 4 ∷ []) [] slow_writer)
send-WaitsForPeer_example = send-WaitsForPeer (1 ∷ 2 ∷ 3 ∷ 4 ∷ []) [] slow_writer

parse_unix_address-entry_example :
    parse_unix_address (address_of (codes "guid=1" ∷ codes "path=/a" ∷ codes "path=/b" ∷ []))
    ≡ ok (path (codes "/a"))
unfolding entry
parse_unix_address-entry_example =
    parse_unix_address-entry (codes "guid=1" ∷ []) (codes "path=/b" ∷ []) (path (codes "/a"))
      (unfold socket_of strip_prefix in (refl, tt))
      (unfold without in
        (
          part (codes "guid=1") refl,
          (part (codes "path=/a") refl, (part (codes "path=/b") refl, tt)),
        ))
  where
    part : (text : Bytes) → without b',' text ≡ true → IsEntry text
    part text h = without-All b',' text h

-- zvariant reads no body at all.
abbrev no_reader : BodyReader
no_reader = record {
  read_value = λ order body. none;
  read_text = λ order body. none;
  read_number = λ order body. none;
  read_text_and_number = λ order body. none;
  read_two = λ order body. none;
  read_three = λ order body. none;
  read_texts = λ order body. none;
}

log_message-ok_example :
    (logged : Logged) × (log_message no_reader reply_message (codes "Host->Client") none
      ≡ ok logged)
log_message-ok_example =
    log_message-ok no_reader sample_zvariant reply_message (codes "Host->Client") none reply-IsWhole
