-- ===== src/Auth/Late.antt =====
-- The handshake where the client does not wait: answers that come behind its BEGIN.
use dbus_router.Auth.{is_begin_line}
use dbus_router.Auth.Lines.{IsLine}
use dbus_router.Auth.Passthrough.{
  client, bus, Event, byte, talking, Handshake, settled, asked, answered, from_client, from_bus,
  heard, steps, greeted, auth_passthrough,
}
use dbus_router.Auth.Transcript.{Said, lines_of, sent, unanswered}
use dbus_router.Auth.Turns.{said, steps-append, steps-said}
use dbus_router.Auth.Spoken.{
  spoken, Between, Between-Open, Between-line_of, spoken-Between, always, IsEarly,
  begin_not-is_negotiate_unix_fd, PassedOn,
}
use dbus_router.Prelude.{
  ℕ, ◌<◌, ◌≡◌, refl, ap, ◌∙◌, ◌==◌, ◌&&◌, true, List, [], ◌∷◌, ◌++◌, All, arith, Bytes, Bool-cases,
  inl, inr,
}

-- Lines of the bus, the first one first, as they are read.
unfoldable pub said_late : List Bytes → List Event
said_late [] = []
said_late (l ∷ late) = said bus l ++ said_late late

-- The transcript with them.
abbrev pub behind : List Said → List Bytes → List Said
behind lines [] = lines
behind lines (l ∷ late) = behind ((bus, l) ∷ lines) late

-- Of `n` unanswered requests none is left behind the last line, and one before it.
abbrev pub Settles : ℕ → List Bytes → Type 0
Settles n [] = n ≡ 0
Settles n (l ∷ late) = 0 < n × Settles (answered l n) late

-- BEGIN was passed on, and the bus is read on.
record Begun (lines : List Said) (n : ℕ) (a : Handshake) : Type 0 where
  pub goes_on : a.phase ≡ talking
  pub begins : a.begin_received ≡ true
  pub no_part : a.bus_line ≡ []
  pub asked_so_far : a.pending_responses ≡ n
  pub bus_has : a.to_bus ≡ 0 ∷ sent (lines_of client lines)
  pub client_has : a.to_client ≡ sent (lines_of bus lines)

-- Behind BEGIN the handshake is over exactly when nothing is unanswered.
record Settled (lines : List Said) (n : ℕ) (a : Handshake) : Type 0 where
  pub over : n ≡ 0 → PassedOn lines a
  pub not_over : 0 < n → Begun lines n a

settled-Settled :
    (lines : List Said) (n : ℕ) (a : Handshake) → Begun lines n a → Settled lines n (settled a)
unfolding settled
settled-Settled lines n a b =
    let test : (a.begin_received && a.pending_responses == 0) ≡ (n == 0) =
      rw (b.begins, b.asked_so_far) refl in
    elim (Bool-cases (n == 0)) [
      | inl none ↦ record {
        over = λ e.
            rw (test ∙ none) record { over = refl; bus_has = b.bus_has; client_has = b.client_has };
        not_over = λ more. absurd (ground arith);
      }
      | inr some ↦ record {
        over = λ e. absurd (ground arith);
        not_over = λ more. rw (test ∙ some) b;
      }
    ]

late-Settled :
    (lines : List Said) (n : ℕ) (l : Bytes) (a : Handshake)
    → Begun lines n a
    → Settled ((bus, l) ∷ lines) (answered l n) (heard always bus l a)
unfolding heard from_bus sent lines_of
late-Settled lines n l a b = settled-Settled ((bus, l) ∷ lines) (answered l n) _ record {
  goes_on = b.goes_on;
  begins = b.begins;
  no_part = refl;
  asked_so_far = ap (answered l) b.asked_so_far;
  bus_has = b.bus_has;
  client_has = ap (λ (x : Bytes). x ++ l) b.client_has;
}

begin-Settled :
    (lines : List Said) (l : Bytes) (a : Handshake)
    → is_begin_line l ≡ true
    → Between a lines
    → Settled ((client, l) ∷ lines) (unanswered lines) (heard always client l a)
unfolding heard from_client sent lines_of asked
begin-Settled lines l a begins b =
    rw (b.waiting, begins, begin_not-is_negotiate_unix_fd l begins)
      (settled-Settled ((client, l) ∷ lines) (unanswered lines) _ record {
        goes_on = b.goes_on;
        begins = refl;
        no_part = refl;
        asked_so_far = b.asked_so_far;
        bus_has = ap (λ (x : Bytes). x ++ l) b.bus_has;
        client_has = b.client_has;
      })

steps-late :
    (late : List Bytes) (lines : List Said) (n : ℕ) (a : Handshake)
    → Settled lines n a
    → All IsLine late
    → Settles n late
    → PassedOn (behind lines late) (steps always (said_late late) a)
unfolding said_late steps
steps-late [] lines n a s i none = s.over none
steps-late (l ∷ late) lines n a s (i, is) (more, rest) =
    let b = s.not_over more in
    rw (steps-append always (said bus l) (said_late late) a) (
      rw (steps-said always bus l a (b.goes_on, refl) b.no_part i)
        (steps-late late ((bus, l) ∷ lines) (answered l n) _ (late-Settled lines n l a b) is rest))

-- Let all writes succeed and let the sides say whole lines, one after the other: first lines of both, then
-- the client's BEGIN, perhaps before the bus has answered its requests for descriptors, and then lines
-- of the bus as long as a request is unanswered. Then the handshake finishes, and each side was sent,
-- after the null byte to the bus, exactly what the other has said, the late answers included.
pub auth_passthrough-late :
    (lines : List Said) (l : Bytes) (late : List Bytes)
    → All IsEarly lines
    → IsLine l
    → is_begin_line l ≡ true
    → All IsLine late
    → Settles (unanswered lines) late
    → PassedOn
        (behind ((client, l) ∷ lines) late)
        (auth_passthrough always (byte client 0 ∷ (spoken ((client, l) ∷ lines) ++ said_late late)))
unfolding auth_passthrough spoken
auth_passthrough-late lines l late early i begins is settles =
    let b = spoken-Between lines early in
    let before = steps always (spoken lines) (greeted always 0) in
    rw (steps-append always (spoken lines ++ said client l) (said_late late) (greeted always 0)) (
      rw (steps-append always (spoken lines) (said client l) (greeted always 0)) (
        rw
          (steps-said always client l before (Between-Open client before lines b)
            (Between-line_of client before lines b) i)
          (steps-late late ((client, l) ∷ lines) (unanswered lines) _
            (begin-Settled lines l before begins b) is settles)))
