-- ===== src/Message/Reading/Plain.antt =====
-- What `read_message` gives, read backwards from its result.
use mathlib.Core.List.{append_assoc}
use dbus_router.Message.Prologue.{Prologue, parse, padding, fixed_header_size, min_header_size}
use dbus_router.Message.Reading.Layout.{IsWhole, fields_of}
use dbus_router.Message.Reading.{exactly, message_of, read_rest, read_message}
use dbus_router.Message.{Message}
use dbus_router.Prelude.{
  ◌≡◌, refl, sym, ap, ◌∙◌, some, [], ◌++◌, arith, Bytes, length, length-append, take, take-append,
  drop-append, ok,
}
use dbus_router.Socket.Stream.{Stream, read_exact}
use dbus_router.Socket.{ready}
use dbus_router.Zvariant.{Zvariant}
use dbus_router.Message.Reading.Cuts.{Cut, step_read, first_read, Pieces, read_rest-Pieces}

-- The pieces, put together.
module _ (z : Zvariant) (p : Prologue) (first fields_buf padding_buf body : Bytes) where
  glued_IsWhole :
      parse first ≡ ok p
      → length first ≡ min_header_size
      → length fields_buf ≡ p.array_len
      → length padding_buf ≡ padding p
      → length body ≡ p.body_len
      → (let msg = message_of z p first fields_buf padding_buf body in IsWhole z msg.raw msg.header)
  unfolding message_of
  glued_IsWhole parses long fields_long padding_long body_long =
      let rest : Bytes = padding_buf ++ body in
      let front : take min_header_size (first ++ (fields_buf ++ rest)) ≡ first =
        take-append min_header_size first (fields_buf ++ rest) long in
      let fields : fields_of p (first ++ (fields_buf ++ rest)) ≡ fields_buf =
        ap (take p.array_len) (drop-append min_header_size first (fields_buf ++ rest) long)
        ∙ take-append p.array_len fields_buf rest fields_long in
      record {
        prologue = p;
        parses = rw front parses;
        whole = omega (
          arith,
          long,
          fields_long,
          padding_long,
          body_long,
          length-append first (fields_buf ++ rest),
          length-append fields_buf rest,
          length-append padding_buf body,
        );
        header_is = rw fields refl;
      }

Pieces-IsWhole :
    (z : Zvariant) (first : Bytes) (s s' : Stream) (msg : Message)
    → length first ≡ min_header_size
    → Pieces z first s msg s'
    → IsWhole z msg.raw msg.header × (first ++ s.bytes ≡ msg.raw ++ s'.bytes) × (msg.fds ≡ [])
unfolding message_of
Pieces-IsWhole z first s s' msg long q = rw q.message_is (
  glued_IsWhole z q.prologue first q.fields_buf q.padding_buf q.body q.parses long q.fields_long
      q.padding_long q.body_long,
  ap (λ (l : Bytes). first ++ l) q.front ∙ simp append_assoc,
  refl,
)

-- A message that `read_message` gives is as long as its first 16 bytes say, its header is what they and its
-- header fields say, it stands at the front of the stream, of which the rest is left, and it has no
-- descriptors.
pub read_message-IsWhole :
    (z : Zvariant) (s s' : Stream) (msg : Message)
    → read_message z s ≡ (ready (ok (some msg)), s')
    → IsWhole z msg.raw msg.header × (s.bytes ≡ msg.raw ++ s'.bytes) × (msg.fds ≡ [])
unfolding read_message
read_message-IsWhole z s s' msg h =
    fixed_part (first_read _ fixed_header_size s s' msg (read_exact fixed_header_size s) refl h)
  where
    rest_behind :
        (fixed array_len : Bytes) (s1 s2 : Stream)
        → Cut fixed_header_size s fixed s1
        → Cut 4 s1 array_len s2
        → IsWhole z msg.raw msg.header
          × ((fixed ++ array_len) ++ s2.bytes ≡ msg.raw ++ s'.bytes)
          × (msg.fds ≡ [])
        → IsWhole z msg.raw msg.header × (s.bytes ≡ msg.raw ++ s'.bytes) × (msg.fds ≡ [])
    rest_behind fixed array_len s1 s2 c1 c2 (w, front, fds) = (
      w,
      c1.front
          ∙ ap (λ (l : Bytes). fixed ++ l) c2.front
          ∙ sym (append_assoc fixed array_len s2.bytes)
          ∙ front,
      fds,
    )

    array_part :
        (fixed : Bytes) (s1 : Stream)
        → Cut fixed_header_size s fixed s1
        → (array_len : Bytes) × (s2 : Stream) × Cut 4 s1 array_len s2
          × (read_rest z (fixed ++ array_len) (parse (fixed ++ array_len)) s2
              ≡ (ready (ok (some msg)), s'))
        → IsWhole z msg.raw msg.header × (s.bytes ≡ msg.raw ++ s'.bytes) × (msg.fds ≡ [])
    array_part fixed s1 c1 (array_len, s2, c2, h2) = rest_behind fixed array_len s1 s2 c1 c2 (
        Pieces-IsWhole z (fixed ++ array_len) s2 s' msg
          (omega (arith, c1.as_long, c2.as_long, length-append fixed array_len))
          (read_rest-Pieces z (fixed ++ array_len) (parse (fixed ++ array_len)) s2 s' msg refl h2))

    fixed_part :
        (fixed : Bytes) × (s1 : Stream) × Cut fixed_header_size s fixed s1
          × (exactly
                (read_exact 4 s1)
                (λ array_len s2. read_rest z (fixed ++ array_len) (parse (fixed ++ array_len)) s2)
              ≡ (ready (ok (some msg)), s'))
        → IsWhole z msg.raw msg.header × (s.bytes ≡ msg.raw ++ s'.bytes) × (msg.fds ≡ [])
    fixed_part (fixed, s1, c1, h1) =
        array_part fixed s1 c1 (step_read _ 4 s1 s' msg (read_exact 4 s1) refl h1)
