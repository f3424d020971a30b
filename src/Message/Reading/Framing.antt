-- ===== src/Message/Reading/Framing.antt =====
-- `read_message_from` finds the messages of the stream, however their bytes arrive.
use dbus_router.Message.Fields.{parse_header_fields}
use dbus_router.Message.Prologue.{Prologue, parse, total_len, min_header_size}
use dbus_router.Message.Reading.Layout.{IsWhole, fields_of, header_of}
use dbus_router.Message.Reading.{
  or_zero, take_declared_fds, taken_off, with_whole, with_head, read_message_from,
}
use dbus_router.Message.{Message, MessageHeader}
use dbus_router.Prelude.{
  ℕ, ◌≤◌, ◌≡◌, refl, ap, ap₂, ◌∙◌, true, List, ◌++◌, arith, Bytes, length, length-append, take,
  take-append, drop, drop-append, length-drop, ok,
}
use dbus_router.Socket.Reader.Buffer.{
  unread, stream, head-unread, consume-Consumed, stream-Received, take-append_le,
}
use dbus_router.Socket.Reader.Arrived.{Received, Received-refl, Received-trans, bytes_in, fds_in}
use dbus_router.Socket.Reader.{Reader, avail}
use dbus_router.Socket.{Arrival}
use dbus_router.Zvariant.{Zvariant}
use dbus_router.Message.Reading.Calm.{
  IsCalm, Found, fill_calm, Filled-IsCalm, take-unread, drop-unread, take_number_lem, fields_slice,
  Consumed-IsCalm,
}

-- How many descriptors the message declares.
abbrev declared_fds : Zvariant → Prologue → Bytes → ℕ
declared_fds z p raw = or_zero (parse_header_fields z (fields_of p raw) p.endian).unix_fds

module _ (z : Zvariant) (p : Prologue) (raw more : Bytes) (whole : length raw ≡ total_len p) where
  abbrev message_with : List ℕ → Message
  message_with fds = record { header = header_of z p raw; raw = raw; fds = fds }

  -- behind the bytes of the message
  taken_off-Found :
      (s : Reader) (fds : List ℕ)
      → IsCalm s
      → stream s ≡ more
      → declared_fds z p raw ≤ length s.fdq
      → take (declared_fds z p raw) s.fdq ≡ fds
      → Found (message_with fds) more (taken_off z p raw s)
  unfolding taken_off take_declared_fds
  taken_off-Found s fds c rest queued taken =
      let n = declared_fds z p raw in
      record {
        after = record s { fdq = drop n s.fdq };
        gives =
            rw (fields_slice p raw whole)
              (rw (take_number_lem n s queued (omega (arith, c.few_fds))) (rw taken refl));
        rest_is = rest;
        still_calm = record {
          inside = c.inside;
          data_only = c.data_only;
          few_fds = omega (arith, c.few_fds, length-drop n s.fdq);
        };
      }

  -- behind the second `fill`
  with_whole-Found :
      (s : Reader) (fds : List ℕ)
      → IsCalm s
      → stream s ≡ raw ++ more
      → total_len p ≤ avail s
      → declared_fds z p raw ≤ length s.fdq
      → take (declared_fds z p raw) s.fdq ≡ fds
      → Found (message_with fds) more (with_whole z p true s)
  unfolding with_whole
  with_whole-Found s fds c begins enough queued taken =
      let cut = consume-Consumed (total_len p) s c.inside enough in
      let raw_is : take (total_len p) (unread s) ≡ raw =
        take-unread (total_len p) s enough
        ∙ ap (take (total_len p)) begins
        ∙ take-append (total_len p) raw more whole in
      let rest_is : stream cut.after ≡ more =
        ap₂ (λ (a : Bytes) (b : List Arrival). a ++ bytes_in b) cut.dropped cut.same_incoming
        ∙ drop-unread (total_len p) s enough
        ∙ ap (drop (total_len p)) begins
        ∙ drop-append (total_len p) raw more whole in
      let f =
        taken_off-Found cut.after fds (Consumed-IsCalm (total_len p) s c cut) rest_is
          (omega (arith, ap length cut.same_fdq))
          (ap (take (declared_fds z p raw)) cut.same_fdq ∙ taken) in
      record {
        after = f.after;
        gives = rw (head-unread (total_len p) s c.inside enough) (rw (raw_is, cut.gives) f.gives);
        rest_is = f.rest_is;
        still_calm = f.still_calm;
      }

  -- behind the first `fill`
  with_head-Found :
      (r s : Reader)
      → parse (take min_header_size raw) ≡ ok p
      → Received r s
      → IsCalm s
      → stream s ≡ raw ++ more
      → min_header_size ≤ avail s
      → declared_fds z p raw ≤ length r.fdq
      → Found (message_with (take (declared_fds z p raw) r.fdq)) more (with_head z true s)
  unfolding with_head
  with_head-Found r s parses got c begins enough queued =
      let n = declared_fds z p raw in
      let first_is : take min_header_size (unread s) ≡ take min_header_size raw =
        take-unread min_header_size s enough
        ∙ ap (take min_header_size) begins
        ∙ take-append_le min_header_size raw more (omega (arith, whole)) in
      let all =
        fill_calm (total_len p) s c
          (omega (arith, ap length begins, length-append raw more, whole)) in
      let all_got = Received-trans r s all.after got all.received_it in
      let queue_is : all.after.fdq ≡ r.fdq ++ fds_in all_got.used = all_got.queued in
      let f =
        with_whole-Found all.after (take n r.fdq) (Filled-IsCalm (total_len p) s _ c all)
          (stream-Received all.received_it c.inside ∙ begins) all.enough
          (omega (arith, ap length queue_is, length-append r.fdq (fds_in all_got.used)))
          (ap (take n) queue_is ∙ take-append_le n r.fdq (fds_in all_got.used) queued) in
      record {
        after = f.after;
        gives =
            rw (head-unread min_header_size s c.inside enough)
              (rw first_is (rw (parses, all.gives) f.gives));
        rest_is = f.rest_is;
        still_calm = f.still_calm;
      }

-- Whatever the first fill brings: the message is read with the descriptors that are queued then.
pub read_message_from-queued :
    (z : Zvariant) (r : Reader) (raw more : Bytes) (header : MessageHeader) (fds : List ℕ)
    → IsCalm r
    → stream r ≡ raw ++ more
    → IsWhole z raw header
    → ((s : Reader)
        → Received r s
        → min_header_size ≤ avail s
        → (take (or_zero header.unix_fds) s.fdq ≡ fds) × or_zero header.unix_fds ≤ length s.fdq)
    → Found (record { header = header; raw = raw; fds = fds }) more (read_message_from z r)
unfolding read_message_from
read_message_from-queued z r raw more header fds c begins w queued =
    let first =
      fill_calm min_header_size r c
        (omega (arith, ap length begins, length-append raw more, w.whole)) in
    let (fds_are, enough) = queued first.after first.received_it first.enough in
    let f =
      with_head-Found z w.prologue raw more w.whole first.after first.after w.parses
        (Received-refl first.after) (Filled-IsCalm min_header_size r _ c first)
        (stream-Received first.received_it c.inside ∙ begins) first.enough
        (rw w.header_is at enough) in
    rw (← fds_are) (
      rw w.header_is (record {
        after = f.after;
        gives = rw first.gives f.gives;
        rest_is = f.rest_is;
        still_calm = f.still_calm;
      }))

-- The stream of a reader begins with a whole message, nothing but data arrives, and the descriptors
-- that the message declares are queued, with no more than 64 queued or on their way. However the bytes
-- of the stream are cut into arrivals, `read_message_from` gives that message with its header, its
-- bytes and the first of the descriptors, and leaves the rest of the stream.
pub read_message_from-Found :
    (z : Zvariant) (r : Reader) (raw more : Bytes) (header : MessageHeader)
    → IsCalm r
    → stream r ≡ raw ++ more
    → IsWhole z raw header
    → or_zero header.unix_fds ≤ length r.fdq
    → Found
        (record { header = header; raw = raw; fds = take (or_zero header.unix_fds) r.fdq })
        more
        (read_message_from z r)
read_message_from-Found z r raw more header c begins w queued =
    read_message_from-queued z r raw more header (take (or_zero header.unix_fds) r.fdq) c begins w
      (λ s got some_bytes. (
        ap (take (or_zero header.unix_fds)) got.queued
            ∙ take-append_le (or_zero header.unix_fds) r.fdq (fds_in got.used) queued,
        omega (arith, ap length got.queued, length-append r.fdq (fds_in got.used)),
      ))
