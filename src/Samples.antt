-- ===== src/Samples.antt =====
-- A small bus, a client and their messages, at which the theorems are applied.
mod Wire
mod Handlers
mod Answers
mod Merging
mod Written
mod Plain
mod Sockets
mod Startup
mod Calls
mod Routers
mod Descriptors
use dbus_router.Bus.{Bus}
use dbus_router.Config.{Config, Glob}
use dbus_router.FakeName.{is_unique_name, to_fake_name}
use dbus_router.Message.Endian.{Order, u32_bytes}
use dbus_router.Message.Frame.{Frame, IsFrame, IsFramed, bytes_of}
use dbus_router.Message.Prologue.{MessageType, method_call, method_return}
use dbus_router.Message.{Message, MessageHeader}
use dbus_router.Prelude.{
  ℕ, ◌+◌, ◌<◌, ◌^◌, ◌≡◌, ◌≢◌, refl, none, some, true, Option, List, [], ◌∷◌, ◌++◌, arith, Bytes,
  codes, length, str_eq, strip_prefix, replicate, length-replicate, padding_to_8,
}
use dbus_router.Rewrite.Encode.{
  FieldValue, HeaderField, object_path, string, encode_at, value_bytes, type_byte,
}
use dbus_router.Rewrite.Header.{HasField}
use dbus_router.Rewrite.Placed.{string_field}
use dbus_router.Session.State.{World, Writes}
use dbus_router.Zvariant.{Zvariant}

-- a host route, and an executable with a hostpass
abbrev pub sample_config : Config
sample_config = record {
  host_routes = record { destination = codes "org.a.*" } ∷ [];
  hostpass = record { process = codes "/x" } ∷ [];
}

abbrev pub sample_glob : Glob
sample_glob pattern = some (str_eq pattern)

-- a body that is one name, without its length
abbrev pub sample_zvariant : Zvariant
sample_zvariant = record {
  Value = Bytes;
  object_path_of = some;
  signature_of = some;
  string_of = some;
  u32_of = λ v. some (length v);
  u32_value = λ n. n ∷ [];
  signature_value = λ s. s;
  string_value = λ s. s;
  object_path_value = λ s. s;
  decode_fields = λ order pos b. some [];
  encode_fields = λ order pos fs. some (0 ∷ 0 ∷ 0 ∷ 0 ∷ []);
  decode_names = λ order pos b. some (b ∷ []);
  encode_names = λ order pos names. some (length names ∷ []);
  decode_owners = λ order pos b. none;
  encode_owners = λ order pos owners. none;
}

abbrev pub sample_world : World
sample_world = record {
  session = record {
    config = sample_config;
    pending_calls = [];
    client_exe_path = none;
    exported_services = codes "org.c" ∷ [];
    sandbox_services = [];
    incoming_calls = (9, Bus.host) ∷ [];
    pending_merges = [];
  };
  sent = [];
  attempts = 0;
}

abbrev pub all_writes : Writes
all_writes attempt = true

-- A message with a path, one string field and a member.
abbrev pub sample_fields : ℕ → Bytes → List HeaderField
sample_fields code text =
    record { code = 1; value = object_path (codes "/a") }
    ∷ string_field code text
    ∷ string_field 3 (codes "Go")
    ∷ []

abbrev pub sample_frame : ℕ → Bytes → Bytes → Frame
sample_frame code text body =
    let fields = encode_at Order.little 16 (sample_fields code text) in
    record {
      fixed = b'l' ∷ 1 ∷ 0 ∷ 1 ∷ [];
      serial = 7 ∷ 0 ∷ 0 ∷ 0 ∷ [];
      fields = fields;
      pad = replicate (padding_to_8 (16 + length fields)) 0;
      body = body;
    }

abbrev pub sample_header : MessageHeader
sample_header = record {
  endian = Order.little;
  msg_type = method_call;
  flags = 0;
  serial = 7;
  body_len = 0;
  destination = none;
  reply_serial = none;
  sender = none;
  interface = none;
  member = some (codes "Go");
  path = some (codes "/a");
  signature = none;
  unix_fds = none;
}

abbrev pub sample_message : MessageHeader → ℕ → Bytes → Bytes → Message
sample_message header code text body = record {
  header = header;
  raw = bytes_of Order.little (sample_frame code text body);
  fds = 3 ∷ [];
}

abbrev pub sample_field :
    (code : ℕ) (text body : Bytes)
    → 1 ≢ code
    → HasField Order.little (sample_frame code text body) code text
sample_field code text body ne = record {
  before = record { code = 1; value = object_path (codes "/a") } ∷ [];
  after = string_field 3 (codes "Go") ∷ [];
  fields_are = refl;
  none_before = (ne, tt);
}

pub sample_frame-IsFrame :
    (code : ℕ) (text body : Bytes)
    → length (encode_at Order.little 16 (sample_fields code text)) < 2 ^ 32
    → IsFrame (sample_frame code text body)
sample_frame-IsFrame code text body fit = record {
  fixed_length = refl;
  serial_length = refl;
  fields_fit = fit;
  pad_length =
      length-replicate {A = ℕ}
        (padding_to_8 (16 + length (encode_at Order.little 16 (sample_fields code text)))) 0;
}

pub real_destination-fits :
    length (encode_at Order.little 16 (sample_fields 6 (codes ":1.5"))) < 2 ^ 32
unfolding encode_at value_bytes type_byte u32_bytes
real_destination-fits = omega arith

pub fake_destination-fits :
    length (encode_at Order.little 16 (sample_fields 6 (codes ":h.1.5"))) < 2 ^ 32
unfolding encode_at value_bytes type_byte u32_bytes
fake_destination-fits = omega arith

pub real_sender-fits : length (encode_at Order.little 16 (sample_fields 7 (codes ":1.5"))) < 2 ^ 32
unfolding encode_at value_bytes type_byte u32_bytes
real_sender-fits = omega arith

pub fake_sender-fits :
    length (encode_at Order.little 16 (sample_fields 7 (codes ":h.1.5"))) < 2 ^ 32
unfolding encode_at value_bytes type_byte u32_bytes
fake_sender-fits = omega arith

-- the fake name, as a computation
pub shown_as : to_fake_name (codes ":1.5") Bus.host ≡ codes ":h.1.5"
unfolding to_fake_name strip_prefix
shown_as = refl

pub unique : is_unique_name (codes ":1.5") ≡ true
unfolding is_unique_name strip_prefix
unique = refl

-- A call of the client to the fake name, one of a bus's peer, and a reply of the client.
abbrev pub call_header : MessageHeader
call_header = record sample_header { destination = some (codes ":h.1.5") }

abbrev pub call_of_client : Message
call_of_client = sample_message call_header 6 (codes ":h.1.5") []

abbrev pub call_of_peer : Message
call_of_peer =
    sample_message (record sample_header { sender = some (codes ":1.5") }) 7 (codes ":1.5") []

-- a call of the service that the client has on the host bus
abbrev pub service_call : Message
service_call =
    sample_message (record sample_header { destination = some (codes "org.c") }) 6 (codes "org.c")
      []

abbrev pub reply_header : ℕ → MessageHeader
reply_header serial = record call_header { msg_type = method_return; reply_serial = some serial }

abbrev pub reply_of_client : ℕ → Message
reply_of_client serial = sample_message (reply_header serial) 6 (codes ":h.1.5") []

pub sample_message-IsFramed :
    (header : MessageHeader) (code : ℕ) (text body : Bytes)
    → header.endian ≡ Order.little
    → length (encode_at Order.little 16 (sample_fields code text)) < 2 ^ 32
    → IsFramed (sample_message header code text body) (sample_frame code text body)
sample_message-IsFramed header code text body little fit = record {
  frame = sample_frame-IsFrame code text body fit;
  raw_bytes = rw little refl;
}
