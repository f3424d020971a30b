-- ===== src/Session/Startup/HelloFrame.antt =====
-- The call of `Hello` as a reader of messages finds it.
use dbus_router.Message.Endian.{Order, u32_bytes, read_u32, read_u32-u32_bytes}
use dbus_router.Message.Prologue.{
  Prologue, method_call, parse, total_len, max_message_size, min_header_size,
}
use dbus_router.Message.Frame.{length-u32_bytes}
use dbus_router.Prelude.{
  ◌^◌, ◌%◌, ◌-◌, ℕ, ◌+◌, ◌≤◌, ◌≡◌, refl, ap, ◌∙◌, false, some, [], ◌∷◌, ◌++◌, arith, Bytes, ltb,
  slice, index, length, length-append, length-replicate, take, replicate, ok, padding_to_8,
}
use dbus_router.Session.Startup.Hello.{build_hello_call, hello_with, hello_fields}
use dbus_router.Zvariant.{Zvariant}

-- The prologue of a call with serial 1, header fields of `n` bytes and no body.
abbrev pub call_prologue : ℕ → Prologue
call_prologue n = record {
  endian = Order.little;
  msg_type = method_call;
  flags = 0;
  serial = 1;
  body_len = 0;
  array_len = n;
}

pub record IsCall (call : Bytes) (n : ℕ) : Type 0 where
  pub parses : parse (take min_header_size call) ≡ ok (call_prologue n)
  pub whole : length call ≡ total_len (call_prologue n)

-- The call, where zvariant gives these fields.
abbrev call_of : Bytes → Bytes
call_of fields =
    (b'l' ∷ 1 ∷ 0 ∷ 1 ∷ [])
    ++ (u32_bytes Order.little 0
        ++ (u32_bytes Order.little 1
            ++ ((u32_bytes Order.little (length fields) ++ fields)
                ++ replicate (padding_to_8 (16 + length fields)) 0)))

length-encoded :
    (fields : Bytes) → length (u32_bytes Order.little (length fields) ++ fields) ≡ 4 + length fields
length-encoded fields =
    length-append (u32_bytes Order.little (length fields)) fields
    ∙ ap (λ (n : ℕ). n + length fields) (length-u32_bytes Order.little (length fields))

header_end_lem :
    (n : ℕ) → n ≤ max_message_size → (16 + (4 + n + 2 ^ 64 - 4) % 2 ^ 64) % 2 ^ 64 ≡ 16 + n
header_end_lem n small = omega arith

hello_with-call_of :
    (fields : Bytes)
    → length fields ≤ max_message_size
    → hello_with (u32_bytes Order.little (length fields) ++ fields) ≡ call_of fields
unfolding hello_with
hello_with-call_of fields small =
    rw (length-encoded fields) (rw (header_end_lem (length fields) small) refl)

parse-call_of :
    (fields : Bytes)
    → length fields ≤ max_message_size
    → parse (take min_header_size (call_of fields)) ≡ ok (call_prologue (length fields))
unfolding parse u32_bytes slice index
parse-call_of fields small =
    let fits : ltb max_message_size (length fields) ≡ false = ground arith in
    rw (read_u32-u32_bytes Order.little (length fields) [] (omega arith))
      (unfold read_u32 in rw fits refl)

length-call_of :
    (fields : Bytes) → length (call_of fields) ≡ total_len (call_prologue (length fields))
unfolding u32_bytes
length-call_of fields = ground (
  arith,
  length-append fields (replicate (padding_to_8 (16 + length fields)) 0),
  length-replicate {A = ℕ} (padding_to_8 (16 + length fields)) 0,
)

-- If zvariant encodes the header fields as an array, its length and then its `n` bytes, and this is at most
-- the longest message, then `build_hello_call` gives a whole method call with serial 1 and no body.
pub build_hello_call-IsCall :
    (z : Zvariant) (fields : Bytes)
    → z.encode_fields Order.little 12 (hello_fields z)
      ≡ some (u32_bytes Order.little (length fields) ++ fields)
    → length fields ≤ max_message_size
    → (call : Bytes) × (build_hello_call z ≡ ok call) × IsCall call (length fields)
unfolding build_hello_call hello_with
build_hello_call-IsCall z fields encoded small = rw encoded (
  call_of fields,
  ap ok (hello_with-call_of fields small),
  record { parses = parse-call_of fields small; whole = length-call_of fields },
)
