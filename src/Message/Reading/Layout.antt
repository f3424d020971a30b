-- ===== src/Message/Reading/Layout.antt =====
-- What a reader of messages has to find: a message that is as long as its first 16 bytes say, and
-- whose header is what they and the header fields say.
use dbus_router.Message.Fields.{parse_header_fields}
use dbus_router.Message.Prologue.{Prologue, parse, total_len, min_header_size}
use dbus_router.Message.Reading.{into_header}
use dbus_router.Message.{MessageHeader}
use dbus_router.Prelude.{◌≡◌, Bytes, length, take, drop, ok}
use dbus_router.Zvariant.{Zvariant}

-- The bytes between the prologue and the end of the header fields.
abbrev pub fields_of : Prologue → Bytes → Bytes
fields_of p raw = take p.array_len (drop min_header_size raw)

abbrev pub header_of : Zvariant → Prologue → Bytes → MessageHeader
header_of z p raw = into_header p (parse_header_fields z (fields_of p raw) p.endian)

pub record IsWhole (z : Zvariant) (raw : Bytes) (header : MessageHeader) : Type 0 where
  pub prologue : Prologue
  pub parses : parse (take min_header_size raw) ≡ ok prologue
  pub whole : length raw ≡ total_len prologue
  pub header_is : header ≡ header_of z prologue raw
