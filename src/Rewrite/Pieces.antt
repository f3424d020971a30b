-- ===== src/Rewrite/Pieces.antt =====
-- Raw bytes of which the pieces are known: `head`, the length of the fields, the bytes `before` a
-- string, the string, the fields `after` it, the padding and the body; and their slices.
use mathlib.Core.List.{append_assoc}
use dbus_router.Message.Endian.{Order, read_u32, u32_bytes, read_u32-u32_bytes}
use dbus_router.Message.Frame.{length-u32_bytes}
use dbus_router.Prelude.{
  ℕ, ◌+◌, ◌^◌, ◌<◌, ◌≡◌, refl, sym, ◌∙◌, ap, [], ◌∷◌, ◌++◌, arith, Bytes, length, length-append,
  length-replicate, replicate, ok, padding_to_8, slice, slice_split, slice_from, slice_from_split,
  ltb, false,
}

abbrev pub pieces : Order → Bytes → ℕ → Bytes → Bytes → Bytes → Bytes → Bytes
pieces order head array_len before text after rest =
    head
    ++ (u32_bytes order array_len
        ++ (before ++ (u32_bytes order (length text) ++ (text ++ 0 ∷ (after ++ rest)))))

-- The slices that `rebuild` takes of the raw bytes, but for the fields behind the string. `text_on` is all
-- from the string's length on.
pub record Sliced (raw : Bytes) (order : Order) (head before old body text_on : Bytes)
    (array_len : ℕ) : Type 0 where
  pub string_slice : slice_from raw (16 + length before) ≡ ok text_on
  pub old_length : read_u32 order text_on ≡ ok (length old)
  pub first_bytes_slice : slice raw 0 12 ≡ ok head
  pub before_slice : slice raw 16 (16 + length before) ≡ ok before
  pub body_slice : slice_from raw (16 + array_len + padding_to_8 (16 + array_len)) ≡ ok body
  pub long_enough : ltb (length raw) (16 + length before + 4) ≡ false

module _ (order : Order) (head before old after pad body : Bytes) (array_len : ℕ)
    (head_length : length head ≡ 12)
    (fields_length : array_len ≡ length before + (length old + 5) + length after)
    (pad_length : length pad ≡ padding_to_8 (16 + array_len)) (small : array_len < 2 ^ 32) where
  raw : Bytes
  raw = pieces order head array_len before old after (pad ++ body)

  -- what stands before the string
  front : Bytes
  front = head ++ (u32_bytes order array_len ++ before)

  length-front : length front ≡ 16 + length before
  unfolding front
  length-front = omega (
    arith,
    length-append head (u32_bytes order array_len ++ before),
    length-append (u32_bytes order array_len) before,
    length-u32_bytes order array_len,
  )

  -- up to the end of the string
  upto_string : Bytes
  upto_string = front ++ (u32_bytes order (length old) ++ (old ++ 0 ∷ []))

  length-upto_string : length upto_string ≡ 16 + length before + (length old + 5)
  unfolding upto_string
  length-upto_string = omega (
    arith,
    length-front,
    length-append front (u32_bytes order (length old) ++ (old ++ 0 ∷ [])),
    length-append (u32_bytes order (length old)) (old ++ 0 ∷ []),
    length-append old (0 ∷ []),
    length-u32_bytes order (length old),
  )

  raw-front : raw ≡ front ++ (u32_bytes order (length old) ++ (old ++ 0 ∷ (after ++ (pad ++ body))))
  unfolding raw front
  raw-front = simp append_assoc

  raw-upto_string : raw ≡ upto_string ++ (after ++ (pad ++ body))
  unfolding raw upto_string front
  raw-upto_string = simp append_assoc

  length-raw : length raw ≡ 16 + array_len + length pad + length body
  length-raw =
      ap length raw-upto_string
      ∙ omega (
        arith,
        length-upto_string,
        length-append upto_string (after ++ (pad ++ body)),
        length-append after (pad ++ body),
        length-append pad body,
      )

  string_slice :
      slice_from raw (16 + length before)
      ≡ ok (u32_bytes order (length old) ++ (old ++ 0 ∷ (after ++ (pad ++ body))))
  string_slice = slice_from_split raw front _ (16 + length before) raw-front (sym length-front)

  old_length :
      read_u32 order (u32_bytes order (length old) ++ (old ++ 0 ∷ (after ++ (pad ++ body))))
      ≡ ok (length old)
  old_length = read_u32-u32_bytes order (length old) _ (omega arith)

  first_bytes_slice : slice raw 0 12 ≡ ok head
  unfolding raw
  first_bytes_slice = slice_split raw [] head _ 0 12 refl refl (omega arith)

  before_slice : slice raw 16 (16 + length before) ≡ ok before
  unfolding front
  before_slice =
      slice_split raw (head ++ u32_bytes order array_len) before
        (u32_bytes order (length old) ++ (old ++ 0 ∷ (after ++ (pad ++ body)))) 16
        (16 + length before) (raw-front ∙ simp append_assoc) (omega (arith, sixteen))
        (omega (arith, sixteen))
    where
      sixteen : length (head ++ u32_bytes order array_len) ≡ 16
      sixteen =
          omega (
            arith,
            length-append head (u32_bytes order array_len),
            length-u32_bytes order array_len,
          )

  body_slice : slice_from raw (16 + array_len + length pad) ≡ ok body
  body_slice =
      slice_from_split raw (upto_string ++ (after ++ pad)) body (16 + array_len + length pad)
        (raw-upto_string ∙ simp append_assoc)
        (omega (
          arith,
          length-upto_string,
          length-append upto_string (after ++ pad),
          length-append after pad,
        ))

  body_slice' : slice_from raw (16 + array_len + padding_to_8 (16 + array_len)) ≡ ok body
  body_slice' = rw (← pad_length) body_slice

  long_enough : ltb (length raw) (16 + length before + 4) ≡ false
  long_enough = ground (arith, length-raw)

  pub pieces-Sliced :
      Sliced
        (pieces order head array_len before old after (pad ++ body))
        order
        head
        before
        old
        body
        (u32_bytes order (length old) ++ (old ++ 0 ∷ (after ++ (pad ++ body))))
        array_len
  unfolding raw
  pieces-Sliced = record {
    string_slice = string_slice;
    old_length = old_length;
    first_bytes_slice = first_bytes_slice;
    before_slice = before_slice;
    body_slice = body_slice';
    long_enough = long_enough;
  }

  -- Fields follow the string: `tail` is what follows it and its padding.
  module _ (tail : Bytes)
      (after_is : after
        ≡ replicate (padding_to_8 (16 + length before + (length old + 5))) 0 ++ tail)
      (some_tail : 0 < length tail) where
    pub length-after :
        length after ≡ padding_to_8 (16 + length before + (length old + 5)) + length tail
    length-after =
        ap length after_is
        ∙ omega (
          arith,
          length-append (replicate (padding_to_8 (16 + length before + (length old + 5))) 0) tail,
          length-replicate {A = ℕ} (padding_to_8 (16 + length before + (length old + 5))) 0,
        )

    raw-tail :
        raw
        ≡ (upto_string ++ replicate (padding_to_8 (16 + length before + (length old + 5))) 0)
          ++ (tail ++ (pad ++ body))
    raw-tail =
        raw-upto_string
        ∙ ap (λ (a : Bytes). upto_string ++ (a ++ (pad ++ body))) after_is
        ∙ simp append_assoc

    tail_slice :
        (from : ℕ)
        → from
          ≡ 16
            + length before
            + (length old + 5)
            + padding_to_8 (16 + length before + (length old + 5))
        → slice raw from (16 + array_len) ≡ ok tail
    tail_slice from e =
        slice_split raw
          (upto_string ++ replicate (padding_to_8 (16 + length before + (length old + 5))) 0) tail
          (pad ++ body) from (16 + array_len) raw-tail (omega (arith, gap))
          (omega (arith, gap, length-after))
      where
        gap :
            length
              (upto_string ++ replicate (padding_to_8 (16 + length before + (length old + 5))) 0)
            ≡ 16
              + length before
              + (length old + 5)
              + padding_to_8 (16 + length before + (length old + 5))
        gap = omega (
          arith,
          length-upto_string,
          length-append upto_string
              (replicate (padding_to_8 (16 + length before + (length old + 5))) 0),
          length-replicate {A = ℕ} (padding_to_8 (16 + length before + (length old + 5))) 0,
        )

    pub tail-slice :
        (from : ℕ)
        → from
          ≡ 16
            + length before
            + (length old + 5)
            + padding_to_8 (16 + length before + (length old + 5))
        → slice (pieces order head array_len before old after (pad ++ body)) from (16 + array_len)
          ≡ ok tail
    unfolding raw
    tail-slice from e = tail_slice from e
