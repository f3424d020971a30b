-- ===== src/Auth/Passthrough.antt =====
-- `auth_passthrough` of src/auth.rs as a state machine. Its `select!` waits for a line of the client and
-- for a line of the bus at once; an event is what one `read` of one byte gives, in the order in which the
-- two branches make them. When one line is whole, the other branch is dropped with what it has read.
-- A side that is not read, like the client after BEGIN, has no event: one in the list is passed over.
use dbus_router.Auth.{
  auth_buffer_size, Progress, more, line, too_long, read_byte, is_begin_line, is_negotiate_unix_fd,
  is_agree_unix_fd, is_error_line,
}
use dbus_router.Prelude.{
  ℕ, zero, suc, ◌+◌, ◌-◌, ◌%◌, ◌^◌, Bool, true, false, List, [], ◌∷◌, ◌++◌, ◌==◌, ◌&&◌, ◌||◌,
  if◌then◌else◌, Bytes, Error, auth, io,
}

pub data Side : Type 0 where
  client bus : Side

pub data Event : Type 0 where
  byte : Side → ℕ → Event
  eof broken : Side → Event

pub data Phase : Type 0 where
  talking : Phase
  finished : Phase
  failed : Error → Phase

-- The local variables, what the two branches have read of their lines, and what was written to each side.
-- `attempts` counts the writes tried.
pub record Handshake : Type 0 where
  pub phase : Phase
  pub client_line : Bytes
  pub bus_line : Bytes
  pub pending_responses : ℕ
  pub begin_received : Bool
  pub to_bus : Bytes
  pub to_client : Bytes
  pub attempts : ℕ

-- whether the n-th write succeeds
abbrev pub Writes : Type 0
Writes = ℕ → Bool

-- the check at the top of the loop
unfoldable pub settled : Handshake → Handshake
settled a =
    if a.begin_received && a.pending_responses == 0 then record a { phase = finished } else a

-- `pending_responses += 1` on a u32
unfoldable pub asked : Bytes → ℕ → ℕ
asked l n = if is_negotiate_unix_fd l then (n + 1) % 2 ^ 32 else n

unfoldable pub answered : Bytes → ℕ → ℕ
answered l n = if is_agree_unix_fd l || is_error_line l then n - 1 else n

-- A branch is done: both are started again in the next round.
abbrev restarted : Handshake → Handshake
restarted a = record a { client_line = []; bus_line = []; attempts = a.attempts + 1 }

unfoldable pub from_client : Writes → Bytes → Handshake → Handshake
from_client writes l a =
    let a' = record (restarted a) { pending_responses = asked l a.pending_responses } in
    if writes a.attempts
    then settled
        record a' { to_bus = a.to_bus ++ l; begin_received = a.begin_received || is_begin_line l }
    else record a' { phase = failed io }

unfoldable pub from_bus : Writes → Bytes → Handshake → Handshake
from_bus writes l a =
    let a' = record (restarted a) { pending_responses = answered l a.pending_responses } in
    if writes a.attempts
    then settled record a' { to_client = a.to_client ++ l }
    else record a' { phase = failed io }

unfoldable pub heard : Writes → Side → Bytes → Handshake → Handshake
heard writes client l a = from_client writes l a
heard writes bus l a = from_bus writes l a

abbrev pub partly : Side → Bytes → Handshake → Handshake
partly client l a = record a { client_line = l }
partly bus l a = record a { bus_line = l }

abbrev pub line_of : Side → Handshake → Bytes
line_of client a = a.client_line
line_of bus a = a.bus_line

unfoldable pub progressed : Writes → Side → Progress → Handshake → Handshake
progressed writes side (more l) a = partly side l a
progressed writes side (line l) a = heard writes side l a
progressed writes side too_long a = record a { phase = failed auth }

unfoldable pub happens : Writes → Side → Event → Handshake → Handshake
happens writes side (byte _ b) a =
    progressed writes side (read_byte auth_buffer_size (line_of side a) b) a
happens writes side (eof _) a = record a { phase = failed auth }
happens writes side (broken _) a = record a { phase = failed io }

abbrev pub side_of : Event → Side
side_of (byte side _) = side
side_of (eof side) = side
side_of (broken side) = side

-- After BEGIN nothing is read from the client.
abbrev pub reads : Side → Handshake → Bool
reads client a = if a.begin_received then false else true
reads bus a = true

unfoldable pub in_phase : Phase → Writes → Event → Handshake → Handshake
in_phase talking writes e a = if reads (side_of e) a then happens writes (side_of e) e a else a
in_phase finished writes e a = a
in_phase (failed why) writes e a = a

unfoldable pub step : Writes → Event → Handshake → Handshake
step writes e a = in_phase a.phase writes e a

unfoldable pub steps : Writes → List Event → Handshake → Handshake
steps writes [] a = a
steps writes (e ∷ events) a = steps writes events (step writes e a)

abbrev start : Handshake
start = record {
  phase = talking;
  client_line = [];
  bus_line = [];
  pending_responses = 0;
  begin_received = false;
  to_bus = [];
  to_client = [];
  attempts = 0;
}

-- the null byte
unfoldable pub greeted : Writes → ℕ → Handshake
greeted writes (suc _) = record start { phase = failed auth }
greeted writes zero =
    if writes 0
    then record start { to_bus = 0 ∷ []; attempts = 1 }
    else record start { phase = failed io; attempts = 1 }

-- While no null byte has come, only the client is read.
unfoldable pub auth_passthrough : Writes → List Event → Handshake
auth_passthrough writes [] = start
auth_passthrough writes (byte client b ∷ events) = steps writes events (greeted writes b)
auth_passthrough writes (eof client ∷ events) = record start { phase = failed auth }
auth_passthrough writes (broken client ∷ events) = record start { phase = failed io }
auth_passthrough writes (byte bus _ ∷ events) = auth_passthrough writes events
auth_passthrough writes (eof bus ∷ events) = auth_passthrough writes events
auth_passthrough writes (broken bus ∷ events) = auth_passthrough writes events
