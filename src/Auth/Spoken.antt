-- ===== src/Auth/Spoken.antt =====
-- The handshake where the sides take turns line by line.
use dbus_router.Auth.{is_begin_line, is_negotiate_unix_fd}
use dbus_router.Auth.Lines.{IsLine}
use dbus_router.Auth.Passthrough.{
  Side, client, bus, Event, byte, talking, finished, Handshake, Writes, settled, asked, answered,
  from_client, from_bus, heard, line_of, steps, greeted, auth_passthrough,
}
use dbus_router.Auth.Transcript.{Said, lines_of, sent, unanswered}
use dbus_router.Prelude.{
  ◌≡◌, refl, ap, ◌∙◌, true, false, List, [], ◌∷◌, ◌++◌, All, arith, Bytes, starts_with,
  strip_prefix,
}
use dbus_router.Auth.Turns.{said, steps-append, Open, steps-said}

-- A transcript, the latest line first, as it is read.
unfoldable pub spoken : List Said → List Event
spoken [] = []
spoken ((side, l) ∷ earlier) = spoken earlier ++ said side l

-- The handshake goes on, and no part of a line is read.
pub record Between (a : Handshake) (lines : List Said) : Type 0 where
  pub goes_on : a.phase ≡ talking
  pub waiting : a.begin_received ≡ false
  pub no_part : (a.client_line ≡ []) × (a.bus_line ≡ [])
  pub asked_so_far : a.pending_responses ≡ unanswered lines
  pub bus_has : a.to_bus ≡ 0 ∷ sent (lines_of client lines)
  pub client_has : a.to_client ≡ sent (lines_of bus lines)

abbrev pub always : Writes
always n = true

-- A line that is not BEGIN of the client.
abbrev pub IsEarly : Said → Type 0
IsEarly (client, l) = IsLine l × (is_begin_line l ≡ false)
IsEarly (bus, l) = IsLine l

heard-Between :
    (side : Side) (l : Bytes) (lines : List Said) (a : Handshake)
    → IsEarly (side, l)
    → Between a lines
    → Between (heard always side l a) ((side, l) ∷ lines)
unfolding heard from_client from_bus settled sent lines_of unanswered
heard-Between client l lines a (i, n) b =
    rw (b.waiting, n)
      record {
        goes_on = b.goes_on;
        waiting = refl;
        no_part = (refl, refl);
        asked_so_far = ap (asked l) b.asked_so_far;
        bus_has = ap (λ (x : Bytes). x ++ l) b.bus_has;
        client_has = b.client_has;
      }
heard-Between bus l lines a i b = rw b.waiting record {
  goes_on = b.goes_on;
  waiting = refl;
  no_part = (refl, refl);
  asked_so_far = ap (answered l) b.asked_so_far;
  bus_has = b.bus_has;
  client_has = ap (λ (x : Bytes). x ++ l) b.client_has;
}

pub Between-Open : (side : Side) (a : Handshake) (lines : List Said) → Between a lines → Open side a
Between-Open client a lines b = (b.goes_on, rw b.waiting refl)
Between-Open bus a lines b = (b.goes_on, refl)

pub Between-line_of :
    (side : Side) (a : Handshake) (lines : List Said) → Between a lines → line_of side a ≡ []
Between-line_of client a lines b = b.no_part.0
Between-line_of bus a lines b = b.no_part.1

IsEarly-IsLine : (side : Side) (l : Bytes) → IsEarly (side, l) → IsLine l
IsEarly-IsLine client l i = i.0
IsEarly-IsLine bus l i = i

pub spoken-Between :
    (lines : List Said)
    → All IsEarly lines
    → Between (steps always (spoken lines) (greeted always 0)) lines
unfolding spoken
spoken-Between [] i =
    unfold greeted sent lines_of unanswered steps in
    record {
      goes_on = refl;
      waiting = refl;
      no_part = (refl, refl);
      asked_so_far = refl;
      bus_has = refl;
      client_has = refl;
    }
spoken-Between ((side, l) ∷ lines) (i, j) =
    let b = spoken-Between lines j in
    rw (steps-append always (spoken lines) (said side l) (greeted always 0)) (
      rw
        (steps-said always side l _ (Between-Open side _ lines b) (Between-line_of side _ lines b)
          (IsEarly-IsLine side l i))
        (heard-Between side l lines _ i b))

pub begin_not-is_negotiate_unix_fd :
    (l : Bytes) → is_begin_line l ≡ true → is_negotiate_unix_fd l ≡ false
unfolding is_begin_line is_negotiate_unix_fd starts_with strip_prefix
begin_not-is_negotiate_unix_fd [] h = cc
begin_not-is_negotiate_unix_fd (b ∷ l) h = ground arith

-- All that was said has arrived, and the handshake is over.
pub record PassedOn (lines : List Said) (a : Handshake) : Type 0 where
  pub over : a.phase ≡ finished
  pub bus_has : a.to_bus ≡ 0 ∷ sent (lines_of client lines)
  pub client_has : a.to_client ≡ sent (lines_of bus lines)

heard-PassedOn :
    (l : Bytes) (lines : List Said) (a : Handshake)
    → is_begin_line l ≡ true
    → unanswered lines ≡ 0
    → Between a lines
    → PassedOn ((client, l) ∷ lines) (heard always client l a)
unfolding heard from_client settled sent lines_of asked
heard-PassedOn l lines a begins none_open b =
    let none : a.pending_responses ≡ 0 = b.asked_so_far ∙ none_open in
    rw (b.waiting, begins, begin_not-is_negotiate_unix_fd l begins, none)
      record {
        over = refl;
        bus_has = ap (λ (x : Bytes). x ++ l) b.bus_has;
        client_has = b.client_has;
      }

-- Let all writes succeed and let the sides say whole lines, one after the other, at last the client's BEGIN when no
-- request for descriptors is unanswered. Then the handshake finishes, and each side was sent, after the
-- null byte to the bus, exactly what the other has said.
pub auth_passthrough-spoken :
    (lines : List Said) (l : Bytes)
    → All IsEarly lines
    → unanswered lines ≡ 0
    → IsLine l
    → is_begin_line l ≡ true
    → PassedOn
        ((client, l) ∷ lines)
        (auth_passthrough always (byte client 0 ∷ spoken ((client, l) ∷ lines)))
unfolding auth_passthrough spoken
auth_passthrough-spoken lines l early none_open i begins =
    let b = spoken-Between lines early in
    let before = steps always (spoken lines) (greeted always 0) in
    rw (steps-append always (spoken lines) (said client l) (greeted always 0)) (
      rw
        (steps-said always client l before (Between-Open client before lines b)
          (Between-line_of client before lines b) i)
        (heard-PassedOn l lines before begins none_open b))
