-- ===== src/Message/Reading/Agreement.antt =====
-- The two readers of messages agree.
use dbus_router.Message.Reading.Calm.{Found, IsCalm, zero-take}
use dbus_router.Message.Reading.Framing.{read_message_from-Found}
use dbus_router.Message.Reading.{or_zero, read_message, read_message_from}
use dbus_router.Message.{Message}
use dbus_router.Prelude.{ℕ, ◌≡◌, sym, ap, ◌∙◌, some, arith, ok, List}
use dbus_router.Socket.Reader.Buffer.{stream}
use dbus_router.Socket.Reader.{Reader}
use dbus_router.Socket.Stream.{Stream}
use dbus_router.Socket.{ready}
use dbus_router.Zvariant.{Zvariant}
use dbus_router.Message.Reading.Plain.{read_message-IsWhole}

-- Where `read_message` gives a message that declares no descriptors, `read_message_from` gives the same
-- message and leaves the same bytes, over any reader with the same stream to which nothing but data
-- arrives, with no more than 64 descriptors queued or on their way, however the bytes are cut into
-- arrivals.
pub read_message_from-read_message :
    (z : Zvariant) (s s' : Stream) (r : Reader) (msg : Message)
    → read_message z s ≡ (ready (ok (some msg)), s')
    → or_zero msg.header.unix_fds ≡ 0
    → IsCalm r
    → stream r ≡ s.bytes
    → Found msg s'.bytes (read_message_from z r)
read_message_from-read_message z s s' r msg h undeclared c same =
    let (w, front, no_fds) = read_message-IsWhole z s s' msg h in
    let f =
      read_message_from-Found z r msg.raw s'.bytes msg.header c (same ∙ front) w
        (omega (arith, undeclared)) in
    let same_fds =
      ap (λ (fds : List ℕ). (ready (ok (some (record msg { fds = fds }))), f.after))
        (zero-take (or_zero msg.header.unix_fds) r.fdq undeclared ∙ sym no_fds) in
    record {
      after = f.after;
      gives = f.gives ∙ same_fds;
      rest_is = f.rest_is;
      still_calm = f.still_calm;
    }
