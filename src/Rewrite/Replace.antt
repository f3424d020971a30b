-- ===== src/Rewrite/Replace.antt =====
-- `rewrite_header_field` on a message whose header fields are encoded as the specification has it.
use mathlib.Core.List.{append_assoc}
use dbus_router.Message.Endian.{Order, u32_bytes, read_u32-u32_bytes}
use dbus_router.Message.Frame.{
  Frame, IsFrame, bytes_of, head, length-head, slice_from-bytes_of, length-u32_bytes,
}
use dbus_router.Prelude.{
  ℕ, ◌+◌, ◌^◌, ◌<◌, ◌≡◌, ◌≢◌, refl, sym, ◌∙◌, ap, List, [], ◌∷◌, ◌++◌, arith, Bytes, All, length,
  length-append, ok,
}
use dbus_router.Rewrite.Encode.{HeaderField, field_bytes, encode_at, end_of}
use dbus_router.Rewrite.Pieces.{pieces}
use dbus_router.Rewrite.Rebuild.{rebuild-between, rebuild-at_end}
use dbus_router.Rewrite.Scan.Finds.{find_field-encode_at}
use dbus_router.Rewrite.Scan.{found, find_field}
use dbus_router.Rewrite.{rebuild, rewrite_header_field}
use dbus_router.Rewrite.Placed.{
  string_field, with_fields, here, lead, length-lead, behind, length-fields_with, bytes_of-pieces,
  moved_open, length-moved,
}

module _ (order : Order) (code : ℕ) (before : List HeaderField) where
  rebuild-fields :
      (f : Frame) (old new : Bytes) (after : List HeaderField)
      → IsFrame f
      → f.fields ≡ encode_at order 16 (before ++ string_field code old ∷ after)
      → length (encode_at order 16 (before ++ string_field code new ∷ after)) < 2 ^ 32
      → rebuild
          (bytes_of order f)
          order
          (length f.fields)
          (16 + length (lead order code before))
          new
        ≡ ok (
            bytes_of order
              (with_fields f (encode_at order 16 (before ++ string_field code new ∷ after))))
  rebuild-fields f old new [] w h fits =
      let target = with_fields f (encode_at order 16 (before ++ string_field code new ∷ [])) in
      let old_length = ap length h ∙ length-fields_with order code before old [] in
      ap
        (λ (r : Bytes).
          rebuild r order (length f.fields) (16 + length (lead order code before)) new)
        (bytes_of-pieces order code before f old [] h)
      ∙ rebuild-at_end order (head order f) (lead order code before) old
          (encode_at order (behind order code before old) []) f.pad f.body (length f.fields)
          (length-head order f w) old_length w.pad_length w.fields_fit new (length target.fields)
          (unfold encode_at in refl)
          (length-fields_with order code before new [] ∙ (unfold encode_at in omega arith)) fits
      ∙ (unfold encode_at in ap ok (sym (bytes_of-pieces order code before target new [] refl)))
  rebuild-fields f old new (g ∷ gs) w h fits =
      let fs = g ∷ gs in
      let target = with_fields f (encode_at order 16 (before ++ string_field code new ∷ fs)) in
      let tail : Bytes =
        field_bytes order g ++ encode_at order (end_of order (behind order code before old) g) gs in
      let old_length = ap length h ∙ length-fields_with order code before old fs in
      ap
        (λ (r : Bytes).
          rebuild r order (length f.fields) (16 + length (lead order code before)) new)
        (bytes_of-pieces order code before f old fs h)
      ∙ rebuild-between order (head order f) (lead order code before) old
          (encode_at order (behind order code before old) fs) f.pad f.body (length f.fields)
          (length-head order f w) old_length w.pad_length w.fields_fit tail
          (unfold encode_at behind in refl) (omega arith) new (length target.fields)
          (length-fields_with order code before new fs
            ∙ (unfold behind in omega (arith, length-moved order code before old new g gs)))
          fits
      ∙ ap ok (
          ap
            (λ (a : Bytes).
              pieces order (head order f) (length target.fields) (lead order code before) new a
                (target.pad ++ f.body))
            (moved_open order code before old new g gs)
          ∙ sym (bytes_of-pieces order code before target new fs refl))

  module _ (f : Frame) (w : IsFrame f) (old new : Bytes) (after : List HeaderField)
      (fields_are : f.fields ≡ encode_at order 16 (before ++ string_field code old ∷ after))
      (none_before : All (λ g. g.code ≢ code) before)
      (fits : length (encode_at order 16 (before ++ string_field code new ∷ after)) < 2 ^ 32) where
    old_fits : length (encode_at order 16 (before ++ string_field code old ∷ after)) < 2 ^ 32
    old_fits = omega (arith, w.fields_fit, ap length fields_are)

    finds :
        find_field (bytes_of order f) order code (length f.fields)
        ≡ ok (found (16 + length (lead order code before)))
    unfolding here bytes_of
    finds =
        ap (find_field (bytes_of order f) order code) (ap length fields_are)
        ∙ find_field-encode_at order (bytes_of order f)
            (head order f ++ u32_bytes order (length f.fields)) (f.pad ++ f.body) code before
            (string_field code old) after
            (ap
                (λ (t : Bytes).
                  f.fixed
                  ++ (u32_bytes order (length f.body)
                      ++ (f.serial
                          ++ (u32_bytes order (length f.fields) ++ (t ++ (f.pad ++ f.body))))))
                fields_are
              ∙ simp append_assoc)
            (omega (
              arith,
              length-head order f w,
              length-append (head order f) (u32_bytes order (length f.fields)),
              length-u32_bytes order (length f.fields),
            ))
            old_fits none_before refl
        ∙ ap (λ (n : ℕ). ok (found n)) (omega (arith, length-lead order code before))

    -- In a message whose raw bytes and header fields are laid out as the specification has it,
    -- the first header field with the code is a string, and with the new string in its place the
    -- header fields are shorter than 2^32 bytes. Rewriting that field gives the message with the
    -- new string there: the other header fields are kept in their order and padded for their new
    -- places, the length of the header fields and the padding before the body are made anew, and
    -- everything else is kept.
    pub rewrite_header_field-bytes_of :
        rewrite_header_field (bytes_of order f) order code new
        ≡ ok (
            bytes_of order
              (with_fields f (encode_at order 16 (before ++ string_field code new ∷ after))))
    rewrite_header_field-bytes_of =
        unfold rewrite_header_field in
        rw (slice_from-bytes_of order f w) (
          rw
            (read_u32-u32_bytes order (length f.fields) (f.fields ++ (f.pad ++ f.body))
              w.fields_fit)
            (rw finds (rebuild-fields f old new after w fields_are fits)))
