-- ===== src/Lib.antt =====
-- dbus-router is a proxy for D-Bus. It stands between one client, which runs in a sandbox, and two
-- buses, the host's and the sandbox's. The client speaks to it as to one bus: unique names of the two
-- buses are shown to it under a prefix of their bus, and each message that it sends goes to the bus, or
-- to both, that its destination and the configuration say.
--
-- The parts, and the files that model them:
--   * src/fake_name.rs, src/bus.rs: FakeName, Bus. Names under which the client sees unique names.
--   * src/config.rs: Config. Host routes and executables with a hostpass; Load is `Config::load`.
--   * src/dbus/socket.rs: Socket. Reader is `DbusReader`, Writer is `DbusWriter`, Control is
--     what carries descriptors. Stream is not code: it is what the handshakes use of tokio's
--     `UnixStream`.
--   * src/auth.rs: Auth, with `auth_passthrough` in Passthrough. Auth/Transcript is not code: it describes
--     what was passed on and what was dropped.
--   * src/conn.rs: Address, with `connect_dbus` in Connect.
--   * src/dbus/message.rs: Message, with the byte order in Endian, the fixed 16 bytes in Prologue, the
--     header fields in Fields, and `read_message` and `read_message_from` in Reading. Message/Frame is
--     not code: it describes a message on the wire by its pieces, and the theorems on raw bytes are
--     about such messages; nor is Reading/Layout, which says what a whole message is. Reading/Sent
--     goes from a writer to the reader at the other end.
--   * src/dbus/rewrite.rs: Rewrite, with the walk over the header fields in Rewrite/Scan; MatchRule.
--     Rewrite/Encode and MatchRule/Rule are not code: they are the specification's layouts of header
--     fields and of match rules, the rules without the rarer characters that IsPlain excludes.
--   * src/dbus/daemon.rs: Daemon, with the table of the bus daemon's methods in Routes, the rewriting
--     of bodies in Body, and the merged lists of names in Names. Routes/Goes is not code: it describes
--     where a call goes.
--   * src/dbus/format.rs: Format.
--   * src/routing.rs: Routing.
--   * src/session.rs: Session. State holds the fields of `Session` but the sockets; Client is
--     `handle_client_message`, Upstream is `handle_upstream_message`, ToClient is
--     `prepare_message_for_client`, Merge is `process_merge_response`, Run is `forward_loop`, and Startup
--     is the handshake with the host bus, the call of Hello, and `run`; Open is `Session::new`, and Log is
--     `log_message`.
--   * src/router.rs: Router, from `accept` to the end of each session.
--   * src/bin/main.rs: CommandLine, from the arguments to the running router.
-- Prelude and Text hold what Rust's standard library gives: slices that panic out of bounds, UTF-8,
-- `split`, `trim`, `replace`, hash maps.
--
-- How the code is modelled. A string or a byte slice is a list of numbers; a string's are its UTF-8
-- bytes. A function that can fail or panic gives a `Result` with three cases: ok, err and panic. A
-- handler takes the session and gives it back beside its result; the messages that it writes are
-- appended to a list, and whether the n-th write succeeds is a parameter (`Writes`). A function that
-- changes a message in place gives the changed message, and an error leaves the message as it was.
-- Maps keyed by a serial are association lists. The loop of `forward_loop` runs over a list of what the
-- connections deliver, in the order in which `select!` takes it, so a theorem on every list holds for
-- every interleaving of the connections. The router's loop runs over a list of what `accept` gives. Its
-- tasks share only a configuration that nobody changes, so each is run to its end by itself.
--
-- The kernel is not modelled. A reader carries the list of what its next calls of `recvmsg` give, and a
-- writer that of its next calls of `sendmsg`; a function that would wait for the peer is `pending`. The
-- handshake between the client and the sandbox bus runs over the list of the single bytes that its two
-- branches read, in any order, so that what `select!` drops is seen.
--
-- Bounds and fuel. `usize` is 64 bits: where the code subtracts or converts, the wrap is written out;
-- the other sums cannot reach 2^64, since they add lengths of slices in memory and 32-bit numbers. A
-- length written into four bytes is taken modulo 2^32. The walk over the header fields runs on fuel, one
-- more than the length of the fields; the loop of `fill` on one round more than there are arrivals, and
-- that of `send` on one more than the message has bytes. A uid is printed with ten digits at most, as
-- many as 32 bits need. The counter of unanswered requests in the handshake wraps at 2^32.
--
-- Parameters. zvariant encodes and decodes header fields, arrays of strings and the body of
-- NameOwnerChanged (Zvariant), and reads bodies for the log (Format.BodyReader); glob matches patterns
-- (Config.Glob), and toml reads the configuration. Nothing is assumed of them but in one theorem, which
-- says so: that an array is encoded as its length and its bytes. The calls that make a socket are a
-- parameter (Address.Connect.Kernel), and so are the layout of control messages
-- (Socket.Control.CLibrary, whose documentation is the hypothesis IsCLibrary) and what the system says
-- of a process (Session.Open.PeerInfo). That a unix socket hands on bytes and descriptors in order is the
-- hypothesis Transported of the theorem that goes from a writer to a reader.
--
-- Not modelled: the system calls themselves, setting up the arguments of `recvmsg` and `sendmsg`, and
-- `dup_fd` (src/dbus/socket.rs); the reading of the arguments and the setting up of the log
-- (src/bin/main.rs); the other log messages, and the texts inside errors. `getuid` is a parameter.
mod Prelude
mod Samples
pub mod Text
pub mod Bus
pub mod FakeName
pub mod Config
pub mod MatchRule
pub mod Zvariant
pub mod Message
pub mod Rewrite
pub mod Daemon
pub mod Routing
pub mod Socket
pub mod Auth
pub mod Address
pub mod Format
pub mod Session
pub mod Router
pub mod CommandLine
