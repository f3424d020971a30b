-- ===== src/Format.antt =====
-- src/dbus/format.rs: a message as text for the log, in the style of dbus-monitor.
pub mod Shown
use mathlib.Core.Option.{map}
use dbus_router.Bus.{Bus}
use dbus_router.Message.Endian.{Order}
use dbus_router.Message.Prologue.{MessageType, method_call, method_return, error, signal, invalid}
use dbus_router.Message.{Message, body_start}
use dbus_router.Prelude.{
  ℕ, ◌+◌, Bool, true, false, Option, none, some, List, [], ◌∷◌, ◌++◌, ltb, ◌||◌, leb, if◌then◌else◌,
  Bytes, codes, length, replicate, str_eq, Result, ok, ◌>>=◌, slice_from,
}
use dbus_router.Text.Decimal.{decimal_on}
use dbus_router.Text.Trim.{trim, trim_start}

-- zvariant's `Value`, by the cases of the code. A signed number is whether it is negative and its amount; of a
-- float and a descriptor there is the text that `{}` and `{:?}` give.
mutual
  pub data Value : Type 0 where
    byte uint16 uint32 uint64 : ℕ → Value
    boolean : Bool → Value
    int16 int32 int64 : Bool → ℕ → Value
    double unix_fd : Bytes → Value
    text object_path signature : Bytes → Value
    variant : Value → Value
    array structure : Values → Value
    dict : Entries → Value

  pub data Values : Type 0 where
    no_value : Values
    value : Value → Values → Values

  pub data Entries : Type 0 where
    no_entry : Entries
    entry : Value → Value → Entries → Entries

-- What zvariant reads from a body, from position 0. `none` is its error.
pub record BodyReader : Type 0 where
  pub read_value : Order → Bytes → Option Value
  pub read_text : Order → Bytes → Option Bytes
  pub read_number : Order → Bytes → Option ℕ
  pub read_text_and_number : Order → Bytes → Option (Bytes × ℕ)
  pub read_two : Order → Bytes → Option (Bytes × Bytes)
  pub read_three : Order → Bytes → Option (Bytes × Bytes × Bytes)
  pub read_texts : Order → Bytes → Option (List Bytes)

-- `n.to_string()` of at most 64 bits
abbrev decimal : ℕ → Bytes
decimal n = decimal_on 20 n

unfoldable pub signed : Bool → ℕ → Bytes
signed negative n = if negative then b'-' ∷ decimal n else decimal n

abbrev pub spaces : ℕ → Bytes
spaces indent = replicate indent b' '

abbrev pub quoted : Bytes → Bytes
quoted s = b'"' ∷ (s ++ b'"' ∷ [])

-- the lines between an opening and a closing bracket; nothing but the two where there is no line
unfoldable pub bracketed : Bytes → Bytes → Bytes → Bytes → Bytes
bracketed indent opening closing [] = indent ++ (opening ++ closing)
bracketed indent opening closing (b ∷ lines) =
    indent ++ (opening ++ ((b ∷ lines) ++ (b'\n' ∷ (indent ++ closing))))

-- a line, and those behind it, with commas between them
unfoldable pub line_before : Bytes → Bytes → Bytes
line_before line [] = b'\n' ∷ line
line_before line (b ∷ lines) = b'\n' ∷ (line ++ (b',' ∷ b ∷ lines))

unfoldable pub truth : Bool → Bytes
truth true = codes "true"
truth false = codes "false"

unfoldable mutual
  unfolding signed truth bracketed line_before

  pub format_value : Value → ℕ → Bytes
  format_value (byte v) indent = spaces indent ++ (codes "byte " ++ decimal v)
  format_value (boolean v) indent = spaces indent ++ (codes "boolean " ++ truth v)
  format_value (int16 negative v) indent = spaces indent ++ (codes "int16 " ++ signed negative v)
  format_value (uint16 v) indent = spaces indent ++ (codes "uint16 " ++ decimal v)
  format_value (int32 negative v) indent = spaces indent ++ (codes "int32 " ++ signed negative v)
  format_value (uint32 v) indent = spaces indent ++ (codes "uint32 " ++ decimal v)
  format_value (int64 negative v) indent = spaces indent ++ (codes "int64 " ++ signed negative v)
  format_value (uint64 v) indent = spaces indent ++ (codes "uint64 " ++ decimal v)
  format_value (double v) indent = spaces indent ++ (codes "double " ++ v)
  format_value (text s) indent = spaces indent ++ (codes "string " ++ quoted s)
  format_value (object_path p) indent = spaces indent ++ (codes "object_path " ++ quoted p)
  format_value (signature s) indent = spaces indent ++ (codes "signature " ++ quoted s)
  format_value (variant v) indent =
      spaces indent ++ (codes "variant " ++ trim_start (format_value v 0))
  format_value (array items) indent =
      bracketed (spaces indent) (codes "array [") (codes "]") (format_values items (indent + 3))
  format_value (dict entries) indent =
      bracketed (spaces indent) (codes "dict {") (codes "}") (format_entries entries indent)
  format_value (structure fields) indent =
      bracketed (spaces indent) (codes "struct {") (codes "}") (format_values fields (indent + 3))
  format_value (unix_fd fd) indent = spaces indent ++ (codes "unix_fd " ++ fd)

  pub format_values : Values → ℕ → Bytes
  format_values no_value indent = []
  format_values (value v vs) indent = line_before (format_value v indent) (format_values vs indent)

  pub format_entries : Entries → ℕ → Bytes
  format_entries no_entry indent = []
  format_entries (entry k v es) indent =
      line_before
        (spaces indent
          ++ (codes "   "
              ++ (trim (format_value k 0) ++ (codes " => " ++ trim (format_value v 0)))))
        (format_entries es indent)

-- `   string "…"` and `   uint32 …`
abbrev string_line : Bytes → Bytes
string_line s = codes "   string " ++ quoted s

abbrev number_line : ℕ → Bytes
number_line n = codes "   uint32 " ++ decimal n

abbrev and_line : Bytes → Bytes → Bytes
and_line line rest = line ++ b'\n' ∷ rest

unfoldable pub text_lines : List Bytes → Bytes
text_lines [] = []
text_lines (s ∷ texts) = line_before (codes "   " ++ string_line s) (text_lines texts)

abbrev text_and_number : Option (Bytes × ℕ) → Option Bytes
text_and_number none = none
text_and_number (some (s, n)) = some (and_line (string_line s) (number_line n))

abbrev two_texts : Option (Bytes × Bytes) → Option Bytes
two_texts none = none
two_texts (some (s, t)) = some (and_line (string_line s) (string_line t))

abbrev three_texts : Option (Bytes × Bytes × Bytes) → Option Bytes
three_texts none = none
three_texts (some (s, t, u)) =
    some (and_line (string_line s) (and_line (string_line t) (string_line u)))

module _ (reader : BodyReader) where
  unfoldable pub format_body_by_signature : Bytes → Bytes → Order → Option Bytes
  format_body_by_signature body sig endian =
      if str_eq sig (codes "s")
      then map string_line (reader.read_text endian body)
      else if str_eq sig (codes "u")
      then map number_line (reader.read_number endian body)
      else if str_eq sig (codes "su") || str_eq sig (codes "us")
      then text_and_number (reader.read_text_and_number endian body)
      else if str_eq sig (codes "ss")
      then two_texts (reader.read_two endian body)
      else if str_eq sig (codes "sss")
      then three_texts (reader.read_three endian body)
      else if str_eq sig (codes "as")
      then map
          (λ (texts : List Bytes).
            bracketed (codes "   ") (codes "array [") (codes "]") (text_lines texts))
          (reader.read_texts endian body)
      else none

  abbrev body_text : Bytes → Bytes → Order → Option Value → Option Bytes
  body_text body sig endian (some v) = some (format_value v 3)
  body_text body sig endian none = format_body_by_signature body sig endian

  unfoldable pub format_body : Message → Bytes → Result (Option Bytes)
  format_body msg sig = do
    start ← body_start msg
    if leb (length msg.raw) start then ok none else do
      body ← slice_from msg.raw start
      ok (body_text body sig msg.header.endian (reader.read_value msg.header.endian body))

abbrev type_str : MessageType → Bytes
type_str method_call = codes "method_call"
type_str method_return = codes "method_return"
type_str error = codes "error"
type_str signal = codes "signal"
type_str invalid = codes "invalid"

abbrev bus_str : Option Bus → Bytes
bus_str none = []
bus_str (some Bus.host) = codes " [H]"
bus_str (some Bus.sandbox) = codes " [S]"

-- `field.as_deref().unwrap_or(default)`
abbrev or_default : Bytes → Option Bytes → Bytes
or_default default none = default
or_default default (some s) = s

-- ` name=…`, where the field is there
abbrev optional : Bytes → Option Bytes → Bytes
optional name none = []
optional name (some s) = name ++ s

-- a line break and the body, where there is one
abbrev on_new_line : Option Bytes → Bytes
on_new_line none = []
on_new_line (some body) = b'\n' ∷ body

-- The header line.
unfoldable pub format_header : Message → Bytes → Option Bus → Bytes
format_header msg direction bus =
    let h = msg.header in
    type_str h.msg_type
    ++ (codes " sender=" ++ or_default (codes "(unknown)") h.sender)
    ++ (codes " -> dest=" ++ or_default (codes "(broadcast)") h.destination)
    ++ bus_str bus
    ++ (codes " (" ++ (direction ++ codes ")"))
    ++ (codes " serial=" ++ decimal h.serial)
    ++ optional (codes " reply_to=") (map decimal h.reply_serial)
    ++ optional (codes " path=") h.path
    ++ optional (codes " iface=") h.interface
    ++ optional (codes " member=") h.member

module _ (reader : BodyReader) where
  pub format_signed : Message → Option Bytes → Result (Option Bytes)
  format_signed msg none = ok none
  format_signed msg (some []) = ok none
  format_signed msg (some (b ∷ sig)) = format_body reader msg (b ∷ sig)

  unfoldable pub format_message : Message → Bytes → Option Bus → Result Bytes
  unfolding format_signed
  format_message msg direction bus = do
    body ← (if ltb 0 msg.header.body_len then format_signed msg msg.header.signature else ok none)
    ok (format_header msg direction bus ++ on_new_line body)
