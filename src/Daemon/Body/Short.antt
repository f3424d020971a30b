-- ===== src/Daemon/Body/Short.antt =====
-- Bodies that are too short for the length of a string.
use dbus_router.Bus.{Bus}
use dbus_router.Daemon.Body.{
  first_string, rewrite_match_rule_body, rewrite_single_name_response, rewrite_unique_name_request,
}
use dbus_router.Message.Endian.{Order, read_u32}
use dbus_router.Message.Frame.{
  Frame, IsFramed, header_length, length-bytes_of, get_body_start-bytes_of,
  slice_from-bytes_of_body,
}
use dbus_router.Message.{Message, body_start, extract_name_from_body}
use dbus_router.Prelude.{
  ◌+◌, ◌<◌, ◌≡◌, refl, ap, ◌∙◌, true, false, none, [], ◌∷◌, arith, leb, ltb, Bytes, length, ok,
  panic, slice_from,
}

read_u32-short : (order : Order) (body : Bytes) → length body < 4 → read_u32 order body ≡ panic
unfolding read_u32
read_u32-short Order.little [] h = refl
read_u32-short Order.little (a ∷ []) h = refl
read_u32-short Order.little (a ∷ b ∷ []) h = refl
read_u32-short Order.little (a ∷ b ∷ c ∷ []) h = refl
read_u32-short Order.little (a ∷ b ∷ c ∷ d ∷ rest) h = absurd (omega (arith, h))
read_u32-short Order.big [] h = refl
read_u32-short Order.big (a ∷ []) h = refl
read_u32-short Order.big (a ∷ b ∷ []) h = refl
read_u32-short Order.big (a ∷ b ∷ c ∷ []) h = refl
read_u32-short Order.big (a ∷ b ∷ c ∷ d ∷ rest) h = absurd (omega (arith, h))

module _ (msg : Message) (f : Frame) (framed : IsFramed msg f) (has_body : 0 < length f.body)
    (short : length f.body < 4) where
  start_is : body_start msg ≡ ok (header_length f)
  unfolding body_start
  start_is = rw framed.raw_bytes (get_body_start-bytes_of msg.header.endian f framed.frame)

  body_slice : slice_from msg.raw (header_length f) ≡ ok f.body
  body_slice = rw framed.raw_bytes (slice_from-bytes_of_body msg.header.endian f framed.frame)

  raw_length : length msg.raw ≡ header_length f + length f.body
  raw_length = ap length framed.raw_bytes ∙ length-bytes_of msg.header.endian f framed.frame

  first_string-short : first_string msg ≡ panic
  unfolding first_string
  first_string-short =
      let more : leb (length msg.raw) (header_length f) ≡ false = ground (arith, raw_length) in
      rw start_is
        (rw more (rw body_slice (rw (read_u32-short msg.header.endian f.body short) refl)))

  -- On a message whose raw bytes are laid out as the specification has it and whose body has one
  -- to three bytes, each of the three functions that rewrite the string of a body panics, while
  -- `extract_name_from_body` finds no name and does not panic.
  pub first_string-panics :
      (rewrite_match_rule_body msg ≡ panic)
      × (rewrite_unique_name_request msg ≡ panic)
      × ((source : Bus) → rewrite_single_name_response msg source ≡ panic)
      × (extract_name_from_body msg ≡ ok none)
  unfolding rewrite_match_rule_body rewrite_unique_name_request rewrite_single_name_response
      extract_name_from_body
  first_string-panics =
      let less : ltb (length msg.raw) (header_length f + 4) ≡ true = ground (arith, raw_length) in
      (
        rw first_string-short refl,
        rw first_string-short refl,
        (λ source. rw first_string-short refl),
        rw start_is (rw less refl),
      )
