-- ===== src/Samples/Answers.antt =====
-- The theorems about the client's answer, at a call from each bus.
use dbus_router.Bus.{Bus}
use dbus_router.FakeName.{to_fake_name, from_fake_name}
use dbus_router.Message.Endian.{Order, u32_bytes}
use dbus_router.Message.Frame.{Frame, IsFramed, bytes_of}
use dbus_router.Message.Prologue.{method_return}
use dbus_router.Message.{Message}
use dbus_router.Prelude.{
  ◌≡◌, ◌<◌, ◌^◌, refl, true, none, some, [], ◌∷◌, List, arith, Bytes, codes, ok, str_eq,
  strip_prefix, contains, length, replicate, length-replicate, padding_to_8, ℕ, ◌+◌,
}
use dbus_router.Rewrite.Encode.{HeaderField, object_path, encode_at, value_bytes, type_byte}
use dbus_router.Rewrite.Header.{HasField}
use dbus_router.Rewrite.Placed.{string_field}
use dbus_router.Samples.{
  sample_glob, sample_zvariant, sample_world, all_writes, sample_frame, sample_header,
  sample_fields, sample_message, sample_field, sample_message-IsFramed, unique, service_call,
}
use dbus_router.Session.CallAnswer.{call-answer, host_call-answer}
use dbus_router.Session.Client.Answer.{answered}
use dbus_router.Session.Client.Addressed.{written}
use dbus_router.Session.Client.{handle_client_message}
use dbus_router.Session.State.{upstream, World}
use dbus_router.Session.Upstream.ServiceCalls.{called}
use dbus_router.Session.Upstream.{is_incoming_service_call, handle_upstream_message}

-- the sample client with a service on the sandbox bus
abbrev sandbox_world : World
sandbox_world = record sample_world {
  session = record sample_world.session { sandbox_services = codes "org.d" ∷ [] };
}

-- A call of that service with its sender, as it is and as it is shown.
abbrev call_fields : Bytes → List HeaderField
call_fields sender =
    record { code = 1; value = object_path (codes "/a") }
    ∷ string_field 6 (codes "org.d")
    ∷ string_field 7 sender
    ∷ []

abbrev call_frame : Bytes → Frame
call_frame sender =
    let fields = encode_at Order.little 16 (call_fields sender) in
    record (sample_frame 7 sender []) {
      fields = fields;
      pad = replicate (padding_to_8 (16 + length fields)) 0;
    }

abbrev sandbox_call : Message
sandbox_call = record {
  header = record sample_header {
    sender = some (codes ":1.5");
    destination = some (codes "org.d");
    member = none;
  };
  raw = bytes_of Order.little (call_frame (codes ":1.5"));
  fds = 3 ∷ [];
}

abbrev sender_field : HasField Order.little (call_frame (codes ":1.5")) 7 (codes ":1.5")
sender_field = record {
  before =
      record { code = 1; value = object_path (codes "/a") } ∷ string_field 6 (codes "org.d") ∷ [];
  after = [];
  fields_are = refl;
  none_before = ((λ e. omega arith), ((λ e. omega arith), tt));
}

call-fits : length (encode_at Order.little 16 (call_fields (codes ":1.5"))) < 2 ^ 32
unfolding encode_at value_bytes type_byte u32_bytes
call-fits = omega arith

shown_call-fits : length (encode_at Order.little 16 (call_fields (codes ":s.1.5"))) < 2 ^ 32
unfolding encode_at value_bytes type_byte u32_bytes
shown_call-fits = omega arith

call-IsFramed : IsFramed sandbox_call (call_frame (codes ":1.5"))
call-IsFramed = record {
  frame = record {
    fixed_length = refl;
    serial_length = refl;
    fields_fit = call-fits;
    pad_length =
        length-replicate {A = ℕ}
          (padding_to_8 (16 + length (encode_at Order.little 16 (call_fields (codes ":1.5"))))) 0;
  };
  raw_bytes = refl;
}

abbrev answer_to : Bytes → Message
answer_to name =
    sample_message
      (record sample_header {
        msg_type = method_return;
        reply_serial = some 7;
        destination = some name;
      })
      6 name []

answer-fits : length (encode_at Order.little 16 (sample_fields 6 (codes ":1.5"))) < 2 ^ 32
unfolding encode_at value_bytes type_byte u32_bytes
answer-fits = omega arith

fake_answer-fits : length (encode_at Order.little 16 (sample_fields 6 (codes ":s.1.5"))) < 2 ^ 32
unfolding encode_at value_bytes type_byte u32_bytes
fake_answer-fits = omega arith

calls_sandbox : is_incoming_service_call sandbox_world.session sandbox_call Bus.sandbox ≡ true
unfolding is_incoming_service_call contains str_eq
calls_sandbox = refl

abbrev between : World
between =
    called sandbox_call Bus.sandbox (bytes_of Order.little (call_frame (codes ":s.1.5")))
      sandbox_world

call-answer_example :
    (handle_upstream_message sample_zvariant all_writes sandbox_call Bus.sandbox sandbox_world
      ≡ (ok tt, between))
    × (handle_client_message all_writes sample_glob (answer_to (codes ":s.1.5")) between ≡ (
      ok tt,
      written
          (record between { session = answered between.session 7 })
          (record {
            peer = upstream Bus.sandbox;
            raw = bytes_of Order.little (sample_frame 6 (codes ":1.5") []);
            fds = 3 ∷ [];
          }),
    ))
unfolding to_fake_name strip_prefix
call-answer_example =
    call-answer sample_zvariant sample_glob all_writes sandbox_call (answer_to (codes ":s.1.5"))
      sandbox_world (omega arith) (omega arith) refl refl refl refl (codes ":1.5")
      (call_frame (codes ":1.5")) (sample_frame 6 (codes ":s.1.5") []) calls_sandbox refl unique
      call-IsFramed sender_field shown_call-fits refl
      (sample_message-IsFramed _ 6 (codes ":s.1.5") [] refl fake_answer-fits)
      (sample_field 6 (codes ":s.1.5") [] (λ e. omega arith)) answer-fits

calls_host : is_incoming_service_call sample_world.session service_call Bus.host ≡ true
unfolding is_incoming_service_call contains str_eq
calls_host = refl

abbrev between_host : World
between_host = called service_call Bus.host service_call.raw sample_world

host_call-answer_example :
    (handle_upstream_message sample_zvariant all_writes service_call Bus.host sample_world
      ≡ (ok tt, between_host))
    × (handle_client_message all_writes sample_glob (answer_to (codes ":1.5")) between_host ≡ (
      ok tt,
      written
          (record between_host { session = answered between_host.session 7 })
          (record { peer = upstream Bus.host; raw = (answer_to (codes ":1.5")).raw; fds = 3 ∷ [] }),
    ))
unfolding from_fake_name strip_prefix
host_call-answer_example =
    host_call-answer sample_zvariant sample_glob all_writes service_call (answer_to (codes ":1.5"))
      sample_world (omega arith) (omega arith) refl refl refl refl (codes ":1.5") calls_host refl
      refl
