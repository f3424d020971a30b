-- ===== src/Samples/Descriptors.antt =====
-- The theorems about descriptors: a reply with two of them, from one end of a connection to the other.
use dbus_router.Message.Endian.{Order, read_u32}
use dbus_router.Message.Fields.{parse_header_fields}
use dbus_router.Message.Prologue.{Prologue, parse, method_return, message_type}
use dbus_router.Message.Reading.Calm.{Found}
use dbus_router.Message.Reading.Layout.{IsWhole, header_of}
use dbus_router.Message.Reading.Sent.{Transported, IsIdle, send-read_message_from}
use dbus_router.Message.Reading.{read_message_from}
use dbus_router.Message.{MessageHeader}
use dbus_router.Prelude.{ℕ, ◌+◌, ◌*◌, ◌/◌, ◌≤◌, ◌≡◌, refl, some, [], ◌∷◌, arith, ok, index, slice}
use dbus_router.Samples.Sockets.{reply_raw}
use dbus_router.Samples.{sample_zvariant}
use dbus_router.Socket.Control.RoundTrip.{control_of-adopt_scm_rights}
use dbus_router.Socket.Control.{
  CLibrary, IsCLibrary, ControlMessage, control_of, adopt_scm_rights, cmsg_buf_space,
}
use dbus_router.Socket.Reader.Arrived.{bytes_in, fds_in}
use dbus_router.Socket.Reader.{Reader}
use dbus_router.Socket.Writer.Send.{joined}
use dbus_router.Socket.Writer.{Writer, send, sendmsg_some}
use dbus_router.Socket.{Arrival, Attempt}
use dbus_router.Zvariant.{Zvariant}

-- Its header fields are the field UNIX_FDS alone, with the number two.
abbrev fd_zvariant : Zvariant
fd_zvariant = record sample_zvariant { decode_fields = λ order pos b. some ((9, 0 ∷ 0 ∷ []) ∷ []) }

abbrev fd_prologue : Prologue
fd_prologue = record {
  endian = Order.little;
  msg_type = method_return;
  flags = 0;
  serial = 5;
  body_len = 0;
  array_len = 0;
}

abbrev fd_header : MessageHeader
fd_header = header_of fd_zvariant fd_prologue reply_raw

fd_reply-IsWhole : IsWhole fd_zvariant reply_raw fd_header
unfolding parse read_u32 message_type index slice
fd_reply-IsWhole = record { prologue = fd_prologue; parses = refl; whole = refl; header_is = refl }

-- The kernel takes one byte, and then the rest.
abbrev fd_writer : Writer
fd_writer = record {
  attempts = Attempt.accepts 1 ∷ Attempt.blocked ∷ Attempt.accepts 20 ∷ [];
  delivered = [];
}

-- It arrives in other parts.
abbrev fd_reader : Reader
fd_reader = record {
  incoming =
      Arrival.blocked
      ∷ Arrival.chunk (b'l' ∷ 2 ∷ 0 ∷ []) (7 ∷ 8 ∷ [])
      ∷ Arrival.chunk (1 ∷ 0 ∷ 0 ∷ 0 ∷ 0 ∷ 5 ∷ 0 ∷ 0 ∷ 0 ∷ 0 ∷ 0 ∷ 0 ∷ 0 ∷ []) []
      ∷ [];
  buf = [];
  start = 0;
  fdq = [];
}

fd_reader-IsIdle : IsIdle fd_reader
fd_reader-IsIdle = record { nothing_buffered = refl; inside = omega arith; nothing_queued = refl }

fd_reply-Transported :
    Transported (send reply_raw (7 ∷ 8 ∷ []) fd_writer).1.delivered fd_reader.incoming
unfolding send joined bytes_in fds_in sendmsg_some
fd_reply-Transported = record {
  data_only = (tt, (tt, (tt, tt)));
  same_bytes = refl;
  fds_first = (refl, refl);
}

send-read_message_from_example :
    Found
      (record { header = fd_header; raw = reply_raw; fds = 7 ∷ 8 ∷ [] })
      []
      (read_message_from fd_zvariant fd_reader)
unfolding send parse_header_fields sendmsg_some
send-read_message_from_example =
    send-read_message_from fd_zvariant fd_writer fd_reader reply_raw (7 ∷ 8 ∷ []) fd_header
      fd_reply-IsWhole refl refl refl fd_reader-IsIdle fd_reply-Transported

-- The C library on Linux with words of 64 bits.
abbrev linux_library : CLibrary
linux_library = record {
  sol_socket = 1;
  scm_rights = 1;
  cmsg_len = λ n. 16 + n;
  cmsg_space = λ n. 16 + (n + 7) / 8 * 8;
  order = Order.little;
}

linux_library-IsCLibrary : IsCLibrary linux_library
linux_library-IsCLibrary = record {
  header_added = λ n. refl;
  has_room = λ n. omega arith;
  rising = λ m n le. omega arith;
}

-- a record of another type, which carries credentials
abbrev credentials_message : ControlMessage
credentials_message = record {
  cmsg_level = 1;
  cmsg_type = 2;
  cmsg_len = 28;
  cmsg_data = 1 ∷ 2 ∷ [];
}

control_of-adopt_scm_rights_example :
    (used : ℕ) × (cmsg : ControlMessage) × (control_of linux_library (7 ∷ 300 ∷ [])
      ≡ some (used, cmsg))
    × (cmsg.cmsg_len ≤ used)
    × (used ≤ cmsg_buf_space linux_library)
    × (adopt_scm_rights linux_library (credentials_message ∷ cmsg ∷ []) ≡ ok (7 ∷ 300 ∷ []))
unfolding adopt_scm_rights
control_of-adopt_scm_rights_example =
    control_of-adopt_scm_rights linux_library linux_library-IsCLibrary (7 ∷ 300 ∷ [])
      (omega arith, (omega arith, tt)) (omega arith) (credentials_message ∷ []) [] [] []
      (omega arith) refl refl
