-- ===== src/Session/Startup.antt =====
-- How a session starts: `build_hello_call`, `auth_host_bus`, `send_host_hello` and `run` of src/session.rs.
pub mod Uid
pub mod Hello
pub mod Dialog
pub mod Registered
pub mod HelloFrame
pub mod Isolation
use dbus_router.Auth.Passthrough.{Handshake, Phase, auth_passthrough, Event}
use dbus_router.Auth.{read_auth_line_string}
use dbus_router.Config.{Glob}
use dbus_router.Message.Endian.{Order, u32_bytes}
use dbus_router.Message.Prologue.{MessageType, method_return, error, signal, method_call, invalid}
use dbus_router.Message.Reading.{read_message}
use dbus_router.Message.{Message, dbus_name}
use dbus_router.Prelude.{
  ℕ, zero, suc, ◌+◌, ◌-◌, ◌/◌, ◌%◌, Bool, true, false, Option, none, some, List, [], ◌∷◌, ◌++◌, ltb,
  if◌then◌else◌, Bytes, codes, length, replicate, starts_with, protocol, auth, io, zvariant, Result,
  ok, err, panic, Error, not,
}
use dbus_router.Routing.{is_hostpass_client}
use dbus_router.Session.Run.{Read, Progress, forward_loop}
use dbus_router.Session.Startup.Hello.{build_hello_call}
use dbus_router.Session.State.{Peer, World, Writes}
use dbus_router.Socket.Stream.{Stream}
use dbus_router.Socket.{Polled, pending, ready}
use dbus_router.Text.Decimal.{decimal_on}
use dbus_router.Zvariant.{Zvariant}

-- a digit of `{:x}`
unfoldable pub hex_digit : ℕ → ℕ
hex_digit n = if ltb n 10 then 48 + n else 87 + n

-- `format!("{:02x}", b)` of each byte
unfoldable pub hex_bytes : Bytes → Bytes
hex_bytes [] = []
hex_bytes (b ∷ bytes) = hex_digit (b / 16) ∷ hex_digit (b % 16) ∷ hex_bytes bytes

-- A u32 has ten digits at most.
unfoldable pub uid_hex : ℕ → Bytes
uid_hex uid = hex_bytes (decimal_on 10 uid)

abbrev pub line_end : Bytes
line_end = 13 ∷ 10 ∷ []

-- The connection to the host bus before any message is forwarded: what the bus sends, what was written to
-- it, and how often.
pub record HostBus : Type 0 where
  pub incoming : Stream
  pub written : Bytes
  pub attempts : ℕ

abbrev pub Dialog {ℓ} : Type ℓ → Type ℓ
Dialog A = HostBus → Polled A × HostBus

abbrev pub then_do {ℓ₁ ℓ₂} :
    {Before : Type ℓ₁} {After : Type ℓ₂}
    → Polled Before × HostBus
    → (Before → Dialog After)
    → Polled After × HostBus
then_do (pending, h) rest = (pending, h)
then_do (ready panic, h) rest = (ready panic, h)
then_do (ready (err why), h) rest = (ready (err why), h)
then_do (ready (ok value), h) rest = rest value h

infixl 5 ◌>>=◌
abbrev pub ◌>>=◌ {ℓ₁ ℓ₂} :
    {Before : Type ℓ₁} {After : Type ℓ₂} → Dialog Before → (Before → Dialog After) → Dialog After
◌>>=◌ m rest h = then_do (m h) rest

abbrev pub settle {ℓ} : {A : Type ℓ} → Result A → Dialog A
settle result h = (ready result, h)

-- `self.host_bus.write_all`
unfoldable pub write_all : Writes → Bytes → Dialog (Unit {0})
write_all writes bytes h =
    if writes h.attempts
    then (ready (ok tt), record h { written = h.written ++ bytes; attempts = h.attempts + 1 })
    else (ready (err io), record h { attempts = h.attempts + 1 })

-- a function over the stream of the host bus
abbrev pub reading {ℓ} : {A : Type ℓ} → (Stream → Polled A × Stream) → Dialog A
reading read h = let (result, s) = read h.incoming in (result, record h { incoming = s })

-- The answer to `Hello()`, and what comes behind it.
abbrev pub hello_reply : MessageType → Result (Unit {0})
hello_reply method_return = ok tt
hello_reply _ = err protocol

unfoldable pub checked_reply : Option Message → Result (Unit {0})
checked_reply none = err protocol
checked_reply (some resp) = hello_reply resp.header.msg_type

unfoldable pub checked_signal : Option Message → Result (Unit {0})
checked_signal none = err protocol
checked_signal (some resp) = ok tt

module _ (z : Zvariant) (writes : Writes) where
  unfoldable pub send_host_hello : Dialog (Unit {0})
  unfolding checked_reply checked_signal
  send_host_hello = do
    msg ← settle (build_hello_call z)
    _ ← write_all writes msg
    resp ← reading (read_message z)
    _ ← settle (checked_reply resp)
    resp' ← reading (read_message z)
    settle (checked_signal resp')

  -- `uid` is what `getuid` gives
  unfoldable pub auth_host_bus : ℕ → Bool → Dialog (Unit {0})
  auth_host_bus uid skip_hello = do
    _ ← write_all writes (0 ∷ [])
    _ ← write_all writes (codes "AUTH EXTERNAL " ++ (uid_hex uid ++ line_end))
    response ← reading read_auth_line_string
    if not (starts_with (codes "OK") response) then settle (err auth) else do
      _ ← write_all writes (codes "NEGOTIATE_UNIX_FD" ++ line_end)
      _ ← reading read_auth_line_string
      _ ← write_all writes (codes "BEGIN" ++ line_end)
      if skip_hello then settle (ok tt) else send_host_hello

-- What a session has come to.
pub data Course : Type 0 where
  authenticating : Course
  failed : Error → Course
  crashed : Course
  forwarding : Progress → Course

module _ (z : Zvariant) (glob : Glob) where
  authenticated : Polled (Unit {0}) → List (Peer × Read) → Writes → World → Course × World
  authenticated pending reads writes w = (authenticating, w)
  authenticated (ready panic) reads writes w = (crashed, w)
  authenticated (ready (err why)) reads writes w = (failed why, w)
  authenticated (ready (ok _)) reads writes w =
      let (p, w') = forward_loop z glob writes reads w in (forwarding p, w')

  passed : Phase → Polled (Unit {0}) → List (Peer × Read) → Writes → World → Course × World
  unfolding authenticated
  passed Phase.talking host reads writes w = (authenticating, w)
  passed (Phase.failed why) host reads writes w = (failed why, w)
  passed Phase.finished host reads writes w = authenticated host reads writes w

  -- `run`: what the client and the sandbox bus send in the handshake, what the host bus sends in its own,
  -- and what the three deliver after it. The writes of each phase are numbered on their own.
  unfoldable pub run :
      Writes
      → List Event
      → Writes
      → ℕ
      → Stream
      → Writes
      → List (Peer × Read)
      → World
      → Course × World
  unfolding passed
  run auth_writes events host_writes uid host_stream writes reads w =
      let is_hostpass = is_hostpass_client glob w.config w.client_exe_path in
      let a = auth_passthrough auth_writes events in
      let (host, _) =
        auth_host_bus z host_writes uid is_hostpass
          (record { incoming = host_stream; written = []; attempts = 0 }) in
      passed a.phase host reads writes w
