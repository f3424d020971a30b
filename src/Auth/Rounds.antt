-- ===== src/Auth/Rounds.antt =====
-- One round of the handshake: a line has come to its end.
use mathlib.Core.List.{append-nil, append_assoc}
use dbus_router.Auth.{is_begin_line}
use dbus_router.Auth.Passthrough.{
  Side, client, bus, Event, talking, finished, Handshake, Writes, settled, asked, answered,
  from_client, from_bus, line_of,
}
use dbus_router.Auth.Transcript.{
  lines_of, sent, unanswered, Begun, said_in, read_in, byte_of, IsOpen, Relayed, Stands,
}
use dbus_router.Auth.Whole.{IsPart, IsWholeLine}
use dbus_router.Prelude.{
  ℕ, ◌+◌, ◌≡◌, refl, ap, Bool, true, false, [], ◌∷◌, ◌++◌, ◌==◌, ◌&&◌, ◌||◌, arith, Bool-cases, inl,
  inr, Bytes,
}

-- The bytes behind one more event.
abbrev pub later : (Side → Bytes) → Event → Side → Bytes
later past e side = past side ++ byte_of side e

abbrev other : Side → Side
other client = bus
other bus = client

settled-Relayed :
    (past : Side → Bytes) (a : Handshake)
    → a.phase ≡ talking
    → ((side : Side) → line_of side a ≡ [])
    → Relayed past a
    → Relayed past (settled a)
unfolding settled
settled-Relayed past a t empty r =
    elim (Bool-cases (a.begin_received && a.pending_responses == 0)) [
      | inl done ↦ rw done record {
        rounds = r.rounds;
        unread = r.unread;
        all_read = all_read;
        none_unread = λ side o. cc (o.0);
        partly_read = partly_read;
        whole = r.whole;
        bus_has = r.bus_has;
        client_has = r.client_has;
        open_questions = r.open_questions;
        begun = r.begun;
        ends = λ e. (ground arith, ground arith, no_line);
      }
      | inr going ↦ rw going r
    ]
  where
    no_line : (side : Side) → line_of side (record a { phase = finished }) ≡ []
    no_line client = empty client
    no_line bus = empty bus

    all_read :
        (side : Side)
        → past side
          ≡ read_in side r.rounds ++ (line_of side (record a { phase = finished }) ++ r.unread side)
    all_read client = r.all_read client
    all_read bus = r.all_read bus

    partly_read : (side : Side) → IsPart (line_of side (record a { phase = finished }))
    partly_read client = r.partly_read client
    partly_read bus = r.partly_read bus

-- Both branches are started again.
pub lineless :
    (side : Side) (a : Handshake) → a.client_line ≡ [] → a.bus_line ≡ [] → line_of side a ≡ []
lineless client a c b = c
lineless bus a c b = b

pub nothing-IsPart : (l : Bytes) → l ≡ [] → IsPart l
nothing-IsPart l e = rw e λ rest ending. refl

-- The state in the next round.
abbrev behind_client : Bytes → Handshake → Handshake
behind_client l a = record a {
  client_line = [];
  bus_line = [];
  pending_responses = asked l a.pending_responses;
  begin_received = a.begin_received || is_begin_line l;
  to_bus = a.to_bus ++ l;
  attempts = a.attempts + 1;
}

abbrev behind_bus : Bytes → Handshake → Handshake
behind_bus l a = record a {
  client_line = [];
  bus_line = [];
  pending_responses = answered l a.pending_responses;
  to_client = a.to_client ++ l;
  attempts = a.attempts + 1;
}

-- A line has come to its end with `b`; `round` is what was read by then.
bytes-round :
    (side : Side) (b : ℕ) (past : Side → Bytes) (a : Handshake) (l : Bytes) (r : Relayed past a)
    → r.unread side ≡ []
    → l ≡ line_of side a ++ b ∷ []
    → (x : Side) (v : Bytes) → v ≡ []
    → later past (Event.byte side b) x
      ≡ read_in x (record { said = (side, l); dropped = line_of (other side) a } ∷ r.rounds)
        ++ (v ++ r.unread x)
unfolding read_in
bytes-round client b past a l r none e client v n =
    rw (r.all_read client, none, e, n) (simp (append_assoc, append-nil))
bytes-round client b past a l r none e bus v n =
    rw (r.all_read bus, n) (simp (append_assoc, append-nil))
bytes-round bus b past a l r none e client v n =
    rw (r.all_read client, n) (simp (append_assoc, append-nil))
bytes-round bus b past a l r none e bus v n =
    rw (r.all_read bus, none, e, n) (simp (append_assoc, append-nil))

pub from_client-Stands :
    (writes : Writes) (l : Bytes) (b : ℕ) (past : Side → Bytes) (a : Handshake)
    → a.phase ≡ talking
    → a.begin_received ≡ false
    → IsWholeLine l
    → l ≡ a.client_line ++ b ∷ []
    → Relayed past a
    → Stands (later past (Event.byte client b)) (from_client writes l a)
unfolding from_client sent lines_of unanswered asked
from_client-Stands writes l b past a t waits w l_is r = elim (Bool-cases (writes a.attempts)) [
  | inl written ↦ rw written λ live.
      settled-Relayed _ _ t (λ side. lineless side (behind_client l a) refl refl)
        record {
          rounds = record { said = (client, l); dropped = a.bus_line } ∷ r.rounds;
          unread = r.unread;
          all_read = λ side.
              bytes-round client b past a l r nothing_left l_is side
                (line_of side (behind_client l a)) (lineless side (behind_client l a) refl refl);
          none_unread = λ side o. none_left side;
          partly_read = λ side. nothing-IsPart _ (lineless side (behind_client l a) refl refl);
          whole = (w, r.whole);
          bus_has = ap (λ (s : Bytes). s ++ l) r.bus_has;
          client_has = r.client_has;
          open_questions = ap (asked l) r.open_questions;
          begun = now_begun (is_begin_line l) refl;
          ends = λ e. absurd (cc);
        }
  | inr failing ↦ rw failing λ live. absurd live
]
  where
    now_begun :
        (last : Bool)
        → is_begin_line l ≡ last
        → Begun (a.begin_received || is_begin_line l) (l ∷ lines_of client (said_in r.rounds))
    now_begun true e = rw (waits, e) (e, rw waits at r.begun)
    now_begun false e = rw (waits, e) (e, rw waits at r.begun)

    nothing_left : r.unread client ≡ []
    nothing_left = r.none_unread client (t, rw waits refl)

    none_left : (side : Side) → r.unread side ≡ []
    none_left client = nothing_left
    none_left bus = r.none_unread bus (t, refl)

pub from_bus-Stands :
    (writes : Writes) (l : Bytes) (b : ℕ) (past : Side → Bytes) (a : Handshake)
    → a.phase ≡ talking
    → IsWholeLine l
    → l ≡ a.bus_line ++ b ∷ []
    → Relayed past a
    → Stands (later past (Event.byte bus b)) (from_bus writes l a)
unfolding from_bus sent lines_of unanswered
from_bus-Stands writes l b past a t w l_is r = elim (Bool-cases (writes a.attempts)) [
  | inl written ↦ rw written λ live.
      settled-Relayed _ _ t (λ side. lineless side (behind_bus l a) refl refl)
        record {
          rounds = record { said = (bus, l); dropped = a.client_line } ∷ r.rounds;
          unread = r.unread;
          all_read = λ side.
              bytes-round bus b past a l r (r.none_unread bus (t, refl)) l_is side
                (line_of side (behind_bus l a)) (lineless side (behind_bus l a) refl refl);
          none_unread = λ side o. none_left side o;
          partly_read = λ side. nothing-IsPart _ (lineless side (behind_bus l a) refl refl);
          whole = (w, r.whole);
          bus_has = r.bus_has;
          client_has = ap (λ (s : Bytes). s ++ l) r.client_has;
          open_questions = ap (answered l) r.open_questions;
          begun = r.begun;
          ends = λ e. absurd (cc);
        }
  | inr failing ↦ rw failing λ live. absurd live
]
  where
    none_left : (side : Side) → IsOpen side (behind_bus l a) → r.unread side ≡ []
    none_left client o = r.none_unread client o
    none_left bus o = r.none_unread bus o
