-- ===== src/Auth/Transcript.antt =====
-- What the two sides of the handshake have said, what of it was passed on, and what was dropped.
use dbus_router.Auth.{is_begin_line}
use dbus_router.Auth.Passthrough.{
  Side, client, bus, Event, Phase, talking, finished, failed, Handshake, asked, answered, line_of,
  reads,
}
use dbus_router.Auth.Whole.{IsPart, IsWholeLine}
use dbus_router.Prelude.{ℕ, ◌≡◌, Bool, true, false, List, [], ◌∷◌, ◌++◌, All, map, Bytes}

-- One line, and who said it. A transcript has the latest line first.
abbrev pub Said : Type 0
Said = Side × Bytes

unfoldable pub lines_of : Side → List Said → List Bytes
lines_of side [] = []
lines_of client ((client, l) ∷ lines) = l ∷ lines_of client lines
lines_of client ((bus, l) ∷ lines) = lines_of client lines
lines_of bus ((bus, l) ∷ lines) = l ∷ lines_of bus lines
lines_of bus ((client, l) ∷ lines) = lines_of bus lines

-- Lines, the latest first, as they were sent.
unfoldable pub sent : List Bytes → Bytes
sent [] = []
sent (l ∷ earlier) = sent earlier ++ l

-- The requests for descriptors that are not answered yet.
unfoldable pub unanswered : List Said → ℕ
unanswered [] = 0
unanswered ((client, l) ∷ earlier) = asked l (unanswered earlier)
unanswered ((bus, l) ∷ earlier) = answered l (unanswered earlier)

-- Of the client's lines the last is BEGIN, or none is.
abbrev pub Begun : Bool → List Bytes → Type 0
Begun false lines = All (λ l. is_begin_line l ≡ false) lines
Begun true [] = ⊥
Begun true (l ∷ lines) = (is_begin_line l ≡ true) × All (λ x. is_begin_line x ≡ false) lines

-- One round of the loop: the line that was passed on, whose it was, and what the branch of the other side had
-- read and dropped.
pub record Round : Type 0 where
  pub said : Said
  pub dropped : Bytes

abbrev pub said_in : List Round → List Said
said_in rounds = map (λ r. r.said) rounds

-- What was read of one side in a round.
abbrev pub part_of : Side → Said → Bytes → Bytes
part_of client (client, l) dropped = l
part_of client (bus, l) dropped = dropped
part_of bus (bus, l) dropped = l
part_of bus (client, l) dropped = dropped

-- What was read of one side, the latest round first.
unfoldable pub read_in : Side → List Round → Bytes
read_in side [] = []
read_in side (r ∷ earlier) = read_in side earlier ++ part_of side r.said r.dropped

-- The bytes that one side sends among the events.
abbrev pub byte_of : Side → Event → Bytes
byte_of client (Event.byte client b) = b ∷ []
byte_of bus (Event.byte bus b) = b ∷ []
byte_of _ _ = []

unfoldable pub sent_by : Side → List Event → Bytes
sent_by side [] = []
sent_by side (e ∷ events) = byte_of side e ++ sent_by side events

-- The events behind the client's first byte.
unfoldable pub behind_null : List Event → List Event
behind_null [] = []
behind_null (Event.byte client _ ∷ events) = events
behind_null (_ ∷ events) = behind_null events

-- A side may be read now.
abbrev pub IsOpen : Side → Handshake → Type 0
IsOpen side a = (a.phase ≡ talking) × (reads side a ≡ true)

-- The handshake stands where these rounds lead, with these bytes of the two sides: each side's bytes are,
-- in their order, the lines that were passed on and the parts that were dropped, then what is read of
-- the line at hand, then what is not read.
pub record Relayed (past : Side → Bytes) (a : Handshake) : Type 0 where
  pub rounds : List Round
  pub unread : Side → Bytes
  pub all_read : (side : Side) → past side ≡ read_in side rounds ++ (line_of side a ++ unread side)
  pub none_unread : (side : Side) → IsOpen side a → unread side ≡ []
  pub partly_read : (side : Side) → IsPart (line_of side a)
  pub whole : All (λ r. IsWholeLine r.said.1) rounds
  pub bus_has : a.to_bus ≡ 0 ∷ sent (lines_of client (said_in rounds))
  pub client_has : a.to_client ≡ sent (lines_of bus (said_in rounds))
  pub open_questions : a.pending_responses ≡ unanswered (said_in rounds)
  pub begun : Begun a.begin_received (lines_of client (said_in rounds))
  pub ends :
      a.phase ≡ finished
      → (a.begin_received ≡ true)
        × (a.pending_responses ≡ 0)
        × ((side : Side) → line_of side a ≡ [])

abbrev pub Live : Phase → Type 0
Live talking = Unit
Live finished = Unit
Live (failed why) = ⊥

-- So it stands, unless it has failed.
abbrev pub Stands : (Side → Bytes) → Handshake → Type 0
Stands past a = Live a.phase → Relayed past a
