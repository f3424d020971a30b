-- ===== src/Rewrite/Rebuild.antt =====
-- `rebuild` on raw bytes of which the pieces are known.
use mathlib.Core.List.{append_assoc}
use dbus_router.Message.Endian.{Order, u32_bytes}
use dbus_router.Message.Frame.{length-u32_bytes}
use dbus_router.Prelude.{
  ℕ, ◌+◌, ◌-◌, ◌%◌, ◌^◌, ◌<◌, ◌≡◌, ap, [], ◌∷◌, ◌++◌, arith, Bytes, length, length-append,
  replicate, ok, padding_to_8, slice, ltb, true, false,
}
use dbus_router.Rewrite.{rebuild}
use dbus_router.Rewrite.Pieces.{pieces, Sliced, pieces-Sliced, length-after, tail-slice}

new_string_length :
    (order : Order) (new : Bytes)
    → length (u32_bytes order (length new) ++ (new ++ 0 ∷ [])) ≡ length new + 5
new_string_length order new = omega (
  arith,
  length-append (u32_bytes order (length new)) (new ++ 0 ∷ []),
  length-append new (0 ∷ []),
  length-u32_bytes order (length new),
)

module _ (raw : Bytes) (order : Order) (head before old after body text_on : Bytes) (array_len : ℕ)
    (s : Sliced raw order head before old body text_on array_len)
    (fields_length : array_len ≡ length before + (length old + 5) + length after)
    (small : array_len < 2 ^ 32) where
  -- The string is the last field.
  rebuild_at_end :
      (new : Bytes) (new_len : ℕ)
      → after ≡ []
      → new_len ≡ length before + (length new + 5)
      → new_len < 2 ^ 32
      → rebuild raw order array_len (16 + length before) new
        ≡ ok (
            pieces order head new_len before new []
              (replicate (padding_to_8 (16 + new_len)) 0 ++ body))
  unfolding rebuild
  rebuild_at_end new new_len none_after n fit =
      let at_end : ltb
            (16
              + length before
              + 4
              + length old
              + 1
              + padding_to_8 (16 + length before + 4 + length old + 1))
            (16 + array_len)
          ≡ false =
        ground (arith, ap length none_after) in
      let count : (array_len
              + (length (u32_bytes order (length new) ++ (new ++ 0 ∷ [])) + 0)
              + 2 ^ 64
              - (16 + length before + 4 + length old + 1 - (16 + length before)))
            % 2 ^ 64
          ≡ new_len =
        omega (arith, new_string_length order new, ap length none_after) in
      rw s.string_slice (
        rw s.old_length (
          rw s.first_bytes_slice (
            rw s.before_slice (
              rw s.body_slice
                (rw s.long_enough (rw at_end (rw count (ap ok (simp append_assoc)))))))))

  -- Fields follow the string: `tail` is what follows it and its padding.
  rebuild_between :
      (tail : Bytes)
      → (length after ≡ padding_to_8 (16 + length before + (length old + 5)) + length tail)
      → 0 < length tail
      → ((from : ℕ)
          → from
            ≡ 16
              + length before
              + (length old + 5)
              + padding_to_8 (16 + length before + (length old + 5))
          → slice raw from (16 + array_len) ≡ ok tail)
      → (new : Bytes) (new_len : ℕ)
      → new_len
        ≡ length before
          + (length new + 5)
          + padding_to_8 (16 + length before + (length new + 5))
          + length tail
      → new_len < 2 ^ 32
      → rebuild raw order array_len (16 + length before) new
        ≡ ok (
            pieces order head new_len before new
              (replicate (padding_to_8 (16 + length before + (length new + 5))) 0 ++ tail)
              (replicate (padding_to_8 (16 + new_len)) 0 ++ body))
  unfolding rebuild
  rebuild_between tail after_length some_tail tail_slice new new_len n fit =
      let end = 16 + length before + 4 + length old + 1 in
      let more : ltb
            (16
              + length before
              + 4
              + length old
              + 1
              + padding_to_8 (16 + length before + 4 + length old + 1))
            (16 + array_len)
          ≡ true =
        ground (arith, after_length) in
      let tail_is : slice raw
            (16
              + length before
              + 4
              + length old
              + 1
              + padding_to_8 (16 + length before + 4 + length old + 1))
            (16 + array_len)
          ≡ ok tail =
        tail_slice
          (16
            + length before
            + 4
            + length old
            + 1
            + padding_to_8 (16 + length before + 4 + length old + 1))
          (omega arith) in
      let gap : padding_to_8 (
            16
            + (16 + length before - 16)
            + length (u32_bytes order (length new) ++ (new ++ 0 ∷ [])))
          ≡ padding_to_8 (16 + length before + (length new + 5)) =
        omega (arith, new_string_length order new) in
      let count : (array_len
              + (length (u32_bytes order (length new) ++ (new ++ 0 ∷ []))
                  + padding_to_8 (16 + length before + (length new + 5)))
              + 2 ^ 64
              - (16
                  + length before
                  + 4
                  + length old
                  + 1
                  - (16 + length before)
                  + padding_to_8 (16 + length before + 4 + length old + 1)))
            % 2 ^ 64
          ≡ new_len =
        omega (arith, new_string_length order new, after_length) in
      rw s.string_slice (
        rw s.old_length (
          rw s.first_bytes_slice (
            rw s.before_slice (
              rw s.body_slice (
                rw s.long_enough
                  (rw more (rw tail_is (rw gap (rw count (ap ok (simp append_assoc)))))))))))

module _ (order : Order) (head before old after pad body : Bytes) (array_len : ℕ)
    (head_length : length head ≡ 12)
    (fields_length : array_len ≡ length before + (length old + 5) + length after)
    (pad_length : length pad ≡ padding_to_8 (16 + array_len)) (small : array_len < 2 ^ 32) where
  module _ (tail : Bytes)
      (after_is : after
        ≡ replicate (padding_to_8 (16 + length before + (length old + 5))) 0 ++ tail)
      (some_tail : 0 < length tail) where
    pub rebuild-between :
        (new : Bytes) (new_len : ℕ)
        → new_len
          ≡ length before
            + (length new + 5)
            + padding_to_8 (16 + length before + (length new + 5))
            + length tail
        → new_len < 2 ^ 32
        → rebuild
            (pieces order head array_len before old after (pad ++ body))
            order
            array_len
            (16 + length before)
            new
          ≡ ok (
              pieces order head new_len before new
                (replicate (padding_to_8 (16 + length before + (length new + 5))) 0 ++ tail)
                (replicate (padding_to_8 (16 + new_len)) 0 ++ body))
    rebuild-between new new_len n fit =
        rebuild_between _ order head before old after body _ array_len
          (pieces-Sliced order head before old after pad body array_len head_length fields_length
            pad_length small)
          fields_length small tail
          (length-after order head before old after pad body array_len head_length fields_length
            pad_length small tail after_is some_tail)
          some_tail
          (tail-slice order head before old after pad body array_len head_length fields_length
            pad_length small tail after_is some_tail)
          new new_len n fit

  pub rebuild-at_end :
      (new : Bytes) (new_len : ℕ)
      → after ≡ []
      → new_len ≡ length before + (length new + 5)
      → new_len < 2 ^ 32
      → rebuild
          (pieces order head array_len before old after (pad ++ body))
          order
          array_len
          (16 + length before)
          new
        ≡ ok (
            pieces order head new_len before new []
              (replicate (padding_to_8 (16 + new_len)) 0 ++ body))
  rebuild-at_end new new_len none_after n fit =
      rebuild_at_end _ order head before old after body _ array_len
        (pieces-Sliced order head before old after pad body array_len head_length fields_length
          pad_length small)
        fields_length small new new_len none_after n fit
