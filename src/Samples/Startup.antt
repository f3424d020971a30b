-- ===== src/Samples/Startup.antt =====
-- The theorems about the handshakes, each at a concrete input.
use dbus_router.Auth.Lines.{IsLine, crlf}
use dbus_router.Auth.Passthrough.{
  client, bus, Event, byte, auth_passthrough, asked, answered, steps, step, in_phase, greeted,
  happens, progressed, heard, from_bus, settled, from_client,
}
use dbus_router.Auth.Late.{Settles, said_late, auth_passthrough-late}
use dbus_router.Auth.Transcript.{Said, Relayed, unanswered}
use dbus_router.Auth.Spoken.{always, IsEarly, PassedOn, spoken}
use dbus_router.Auth.Turns.{said}
use dbus_router.Auth.{
  read_byte, ends_line, is_begin_line, is_negotiate_unix_fd, is_agree_unix_fd, is_error_line,
}
use dbus_router.Message.Endian.{u32_bytes, read_u32}
use dbus_router.Message.Prologue.{parse, message_type}
use dbus_router.Message.Reading.{read_message}
use dbus_router.Prelude.{
  ◌≡◌, ◌+◌, refl, true, false, List, [], ◌∷◌, ◌++◌, All, arith, Bytes, codes, starts_with,
  strip_prefix, length, leb, leb→le, ok, err, auth, replicate, index, slice,
}
use dbus_router.Samples.Plain.{without, without-All}
use dbus_router.Samples.Sockets.{reply_raw}
use dbus_router.Samples.{sample_zvariant, all_writes}
use dbus_router.Session.Startup.Dialog.{
  credentials, requests, auth_host_bus-accepted, auth_host_bus-refused,
}
use dbus_router.Session.Startup.Hello.{build_hello_call, hello_with}
use dbus_router.Session.Startup.HelloFrame.{IsCall, build_hello_call-IsCall}
use dbus_router.Session.Startup.Registered.{Registered, send_host_hello-Registered}
use dbus_router.Session.Startup.{HostBus, auth_host_bus, send_host_hello, write_all}
use dbus_router.Socket.Stream.{Ending, read_exact}
use dbus_router.Socket.{ready}
use dbus_router.Text.Utf8.{from_utf8_lossy}

abbrev signal_raw : Bytes
signal_raw = b'l' ∷ 4 ∷ 0 ∷ 1 ∷ 0 ∷ 0 ∷ 0 ∷ 0 ∷ 6 ∷ 0 ∷ 0 ∷ 0 ∷ 0 ∷ 0 ∷ 0 ∷ 0 ∷ []

-- A line of these words.
abbrev pub line_of_words : Bytes → Bytes
line_of_words words = words ++ crlf

pub words-IsLine :
    (words : Bytes)
    → without 10 words ≡ true
    → leb (length words + 2) 4096 ≡ true
    → IsLine (line_of_words words)
words-IsLine words h fits = record {
  words = words;
  unbroken = without-All 10 words h;
  ended = refl;
  fits = leb→le (length words + 2) 4096 fits;
}

abbrev asks : Bytes
asks = line_of_words (codes "NEGOTIATE_UNIX_FD")

abbrev agrees : Bytes
agrees = line_of_words (codes "AGREE_UNIX_FD")

abbrev begins : Bytes
begins = line_of_words (codes "BEGIN")

-- The client asks for descriptors, the bus agrees; the latest line first.
abbrev talk : List Said
talk = (bus, agrees) ∷ (client, asks) ∷ []

talk-IsEarly : All IsEarly talk
unfolding without is_begin_line starts_with strip_prefix
talk-IsEarly = (
  words-IsLine (codes "AGREE_UNIX_FD") refl refl,
  ((words-IsLine (codes "NEGOTIATE_UNIX_FD") refl refl, refl), tt),
)

talk_answered : unanswered talk ≡ 0
unfolding unanswered answered is_agree_unix_fd starts_with strip_prefix asked is_negotiate_unix_fd
talk_answered = refl

begins-IsLine : IsLine begins
unfolding without
begins-IsLine = words-IsLine (codes "BEGIN") refl refl

-- The client's first byte is read, then a line of the bus: that byte is dropped, and the next line is BEGIN.
abbrev lossy_events : List Event
lossy_events =
    byte client 0
    ∷ byte client b'X'
    ∷ byte bus b'O'
    ∷ byte bus 13
    ∷ byte bus 10
    ∷ said client (codes "BEGIN" ++ crlf)

-- Lines of the host bus.
abbrev accepts : Bytes
accepts = line_of_words (codes "OK 1")

abbrev rejects : Bytes
rejects = line_of_words (codes "REJECTED")

accepts-IsLine : IsLine accepts
unfolding without
accepts-IsLine = words-IsLine (codes "OK 1") refl refl

rejects-IsLine : IsLine rejects
unfolding without
rejects-IsLine = words-IsLine (codes "REJECTED") refl refl

agrees-IsLine : IsLine agrees
unfolding without
agrees-IsLine = words-IsLine (codes "AGREE_UNIX_FD") refl refl

-- The client asks and begins at once; the bus accepts and agrees behind it.
abbrev hasty : List Said
hasty = (client, asks) ∷ []

hasty-IsEarly : All IsEarly hasty
unfolding without is_begin_line starts_with strip_prefix
hasty-IsEarly = ((words-IsLine (codes "NEGOTIATE_UNIX_FD") refl refl, refl), tt)

hasty-Settles : Settles (unanswered hasty) (accepts ∷ agrees ∷ [])
unfolding unanswered answered is_agree_unix_fd is_error_line starts_with strip_prefix asked
    is_negotiate_unix_fd
hasty-Settles = (omega arith, (omega arith, refl))

auth_passthrough-late_example :
    PassedOn ((bus, agrees) ∷ (bus, accepts) ∷ (client, begins) ∷ hasty) (
      auth_passthrough always
        (byte client 0 ∷ (spoken ((client, begins) ∷ hasty) ++ said_late (accepts ∷ agrees ∷ []))))
unfolding is_begin_line starts_with strip_prefix
auth_passthrough-late_example =
    auth_passthrough-late hasty begins (accepts ∷ agrees ∷ []) hasty-IsEarly begins-IsLine refl
      (accepts-IsLine, (agrees-IsLine, tt)) hasty-Settles

accepts_text : starts_with (codes "OK") (from_utf8_lossy accepts) ≡ true
unfolding starts_with strip_prefix from_utf8_lossy
accepts_text = refl

rejects_text : starts_with (codes "OK") (from_utf8_lossy rejects) ≡ false
unfolding starts_with strip_prefix from_utf8_lossy
rejects_text = refl

abbrev host_bus : Bytes → HostBus
host_bus bytes = record {
  incoming = record { bytes = bytes; ending = Ending.silent };
  written = [];
  attempts = 0;
}

auth_host_bus-accepted_example :
    auth_host_bus sample_zvariant all_writes 1000 true (host_bus (accepts ++ (agrees ++ [])))
    ≡ (ready (ok tt), record (host_bus []) { written = credentials 1000 ++ requests; attempts = 4 })
auth_host_bus-accepted_example =
    auth_host_bus-accepted sample_zvariant 1000 true accepts agrees [] Ending.silent accepts-IsLine
      agrees-IsLine accepts_text

auth_host_bus-refused_example :
    auth_host_bus sample_zvariant all_writes 1000 false (host_bus (rejects ++ []))
    ≡ (ready (err auth), record (host_bus []) { written = credentials 1000; attempts = 2 })
auth_host_bus-refused_example =
    auth_host_bus-refused sample_zvariant 1000 false rejects [] Ending.silent rejects-IsLine
      rejects_text

build_hello_call-IsCall_example :
    (call : Bytes) × (build_hello_call sample_zvariant ≡ ok call) × IsCall call 0
unfolding u32_bytes
build_hello_call-IsCall_example = build_hello_call-IsCall sample_zvariant [] refl (omega arith)

-- The host bus answers, signals the name, and goes on.
abbrev greeting_bus : HostBus
greeting_bus = host_bus (reply_raw ++ (signal_raw ++ 9 ∷ []))

abbrev registered_bus : HostBus
registered_bus = record {
  incoming = record { bytes = 9 ∷ []; ending = Ending.silent };
  written = (b'l' ∷ 1 ∷ 0 ∷ 1 ∷ []) ++ replicate 4 0 ++ (1 ∷ 0 ∷ 0 ∷ 0 ∷ []) ++ replicate 4 0;
  attempts = 1;
}

greeting_ends :
    send_host_hello sample_zvariant all_writes greeting_bus ≡ (ready (ok tt), registered_bus)
unfolding send_host_hello build_hello_call hello_with write_all u32_bytes read_message read_exact
    parse read_u32 message_type index slice
greeting_ends = refl

send_host_hello-Registered_example : Registered sample_zvariant greeting_bus registered_bus
send_host_hello-Registered_example =
    send_host_hello-Registered sample_zvariant all_writes greeting_bus registered_bus greeting_ends

-- The client's first byte is read, then a line of the bus: that byte is lost.
lost_byte :
    (auth_passthrough always (
      byte client 0
      ∷ byte client b'B'
      ∷ (said bus (b'O' ∷ crlf) ++ said client (codes "EGIN" ++ crlf)))).to_bus
    ≡ 0 ∷ codes "EGIN" ++ crlf
unfolding auth_passthrough steps said step in_phase greeted happens progressed read_byte ends_line
    heard from_bus settled from_client is_begin_line starts_with strip_prefix
lost_byte = refl
