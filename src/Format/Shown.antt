-- ===== src/Format/Shown.antt =====
-- Formatting does not disturb a session: it panics on no message that was read whole.
use dbus_router.Bus.{Bus}
use dbus_router.Format.{BodyReader, format_body, format_signed, format_message}
use dbus_router.Message.Endian.{Order, read_u32}
use dbus_router.Message.Prologue.{min_header_size, fixed_header_size}
use dbus_router.Message.Reading.Layout.{IsWhole}
use dbus_router.Message.{Message, body_start, get_body_start}
use dbus_router.Prelude.{
  ℕ, ◌≤◌, ◌≡◌, refl, Bool, Option, some, none, [], ◌∷◌, arith, Bool-cases, inl, inr, ltb, leb,
  Bytes, length, length-drop, drop, ok, slice_from,
}
use dbus_router.Zvariant.{Zvariant}

read_u32-long :
    (order : Order) (bytes : Bytes) → 4 ≤ length bytes → (n : ℕ) × (read_u32 order bytes ≡ ok n)
unfolding read_u32
read_u32-long order [] h = absurd (omega arith)
read_u32-long order (a ∷ []) h = absurd (omega arith)
read_u32-long order (a ∷ b ∷ []) h = absurd (omega arith)
read_u32-long order (a ∷ b ∷ c ∷ []) h = absurd (omega arith)
read_u32-long Order.little (a ∷ b ∷ c ∷ d ∷ rest) h = (_, refl)
read_u32-long Order.big (a ∷ b ∷ c ∷ d ∷ rest) h = (_, refl)

get_body_start-long :
    (raw : Bytes) (order : Order)
    → min_header_size ≤ length raw
    → (n : ℕ) × (get_body_start raw order ≡ ok n)
unfolding get_body_start slice_from
get_body_start-long raw order h =
    let inside : leb fixed_header_size (length raw) ≡ Bool.true = ground arith in
    let (n, e) =
      read_u32-long order (drop fixed_header_size raw)
        (omega (arith, length-drop fixed_header_size raw)) in
    rw inside (rw e (_, refl))

format_body-ok :
    (reader : BodyReader) (msg : Message) (sig : Bytes)
    → min_header_size ≤ length msg.raw
    → (o : Option Bytes) × (format_body reader msg sig ≡ ok o)
unfolding format_body body_start slice_from
format_body-ok reader msg sig h =
    let (start, e) = get_body_start-long msg.raw msg.header.endian h in
    rw e (elim (Bool-cases (leb (length msg.raw) start)) [
      | inl behind ↦ rw behind (none, refl)
      | inr inside ↦
          let there : leb start (length msg.raw) ≡ Bool.true = ground arith in
          rw (inside, there) (_, refl)
    ])

format_signed-ok :
    (reader : BodyReader) (msg : Message) (sig : Option Bytes)
    → min_header_size ≤ length msg.raw
    → (o : Option Bytes) × (format_signed reader msg sig ≡ ok o)
unfolding format_signed
format_signed-ok reader msg none h = (none, refl)
format_signed-ok reader msg (some []) h = (none, refl)
format_signed-ok reader msg (some (b ∷ sig)) h = format_body-ok reader msg (b ∷ sig) h

-- Whatever zvariant makes of its body, a whole message is formatted: `format_message` does not panic and gives no
-- error.
pub format_message-ok :
    (z : Zvariant) (reader : BodyReader) (msg : Message) (direction : Bytes) (bus : Option Bus)
    → IsWhole z msg.raw msg.header
    → (text : Bytes) × (format_message reader msg direction bus ≡ ok text)
unfolding format_message
format_message-ok z reader msg direction bus w =
    let long : min_header_size ≤ length msg.raw = omega (arith, w.whole) in
    elim (Bool-cases (ltb 0 msg.header.body_len)) [
      | inl some_body ↦
          let (o, e) = format_signed-ok reader msg msg.header.signature long in
          rw some_body (rw e (_, refl))
      | inr no_body ↦ rw no_body (_, refl)
    ]
