-- ===== src/Session/State.antt =====
-- The state of a session, and the handlers' effects: a handler takes the session and the connections,
-- and gives both back beside its result, also where it fails.
pub use dbus_router.Socket.{max_fds_per_message}
use dbus_router.Bus.{Bus}
use dbus_router.Config.{Config}
use dbus_router.Message.{Message}
use dbus_router.Prelude.{
  ℕ, ◌+◌, Bool, Option, List, [], ◌∷◌, ◌++◌, ltb, if◌then◌else◌, Bytes, length, Table, io, Result,
  ok, err, panic,
}

pub record PendingMerge : Type 0 where
  pub original_request : Message
  pub first_response : Option (Bus × List Bytes)

pub record PendingCallInfo : Type 0 where
  pub bus : Bus
  pub member : Option Bytes

-- The sockets of the client and of the buses are in `World`.
pub record Session : Type 0 where
  pub config : Config
  pub pending_calls : Table PendingCallInfo
  pub client_exe_path : Option Bytes
  pub exported_services : List Bytes
  pub sandbox_services : List Bytes
  pub incoming_calls : Table Bus
  pub pending_merges : Table PendingMerge

pub data Peer : Type 0 where
  client : Peer
  upstream : Bus → Peer

-- One message that was written whole.
pub record Sent : Type 0 where
  pub peer : Peer
  pub raw : Bytes
  pub fds : List ℕ

-- `sent` lists the messages written, the first one first; `attempts` counts the writes tried.
pub record World : Type 0 where
  pub session : Session
  pub open session use *
  pub sent : List Sent
  pub attempts : ℕ

abbrev pub Handler {ℓ} : Type ℓ → Type ℓ
Handler A = World → Result A × World

abbrev pub continue {ℓ₁ ℓ₂} :
    {Before : Type ℓ₁} {After : Type ℓ₂}
    → Result Before
    → (Before → World → Result After × World)
    → World
    → Result After × World
continue panic rest w = (panic, w)
continue (err why) rest w = (err why, w)
continue (ok value) rest w = rest value w

infixl 5 ◌>>=◌
abbrev pub ◌>>=◌ {ℓ₁ ℓ₂} :
    {Before : Type ℓ₁} {After : Type ℓ₂} → Handler Before → (Before → Handler After) → Handler After
◌>>=◌ m rest w = let (r, w') = m w in continue r rest w'

infixl 5 ◌>>◌
abbrev pub ◌>>◌ {ℓ} : {After : Type ℓ} → Handler (Unit {0}) → Handler After → Handler After
m >> k = m >>= λ _. k

abbrev pub pure {ℓ} : {A : Type ℓ} → A → Handler A
pure a w = (ok a, w)

abbrev pub lift {ℓ} : {A : Type ℓ} → Result A → Handler A
lift r w = (r, w)

abbrev pub modify : (Session → Session) → Handler (Unit {0})
modify f w = (ok tt, record w { session = f w.session })

-- `match r { Ok(a) => a, Err(_) => fallback }`
abbrev pub recover {ℓ} : {A : Type ℓ} → A → Result A → Result A
recover fallback (ok a) = ok a
recover fallback (err e) = ok fallback
recover fallback panic = panic

-- The sockets: whether the n-th write of the session succeeds.
abbrev pub Writes : Type 0
Writes = ℕ → Bool

-- `Upstreams::send`, or `client_write.send`, and what `DbusWriter::send` of src/dbus/socket.rs makes
-- of it: too many descriptors are refused before a byte is written, and a write that fails, perhaps
-- halfway, is an error and adds nothing to `sent`.
unfoldable pub send : Writes → Peer → Bytes → List ℕ → Handler (Unit {0})
send writes peer raw fds w =
    if ltb max_fds_per_message (length fds)
    then (err io, w)
    else if writes w.attempts
    then (
      ok tt,
      record w {
        sent = w.sent ++ record { peer = peer; raw = raw; fds = fds } ∷ [];
        attempts = w.attempts + 1;
      },
    )
    else (err io, record w { attempts = w.attempts + 1 })

-- `Upstreams::send_both`: the host bus first
unfoldable pub send_both : Writes → Bytes → List ℕ → Handler (Unit {0})
unfolding send
send_both writes raw fds = do
  send writes (upstream Bus.host) raw fds
  send writes (upstream Bus.sandbox) raw fds
