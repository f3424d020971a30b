-- ===== src/Samples/Wire.antt =====
-- The theorems on names, rules and raw bytes, at the sample messages.
use dbus_router.FakeName.{is_unique_name, to_fake_name, from_fake_name}
use dbus_router.Message.Endian.{Order}
use dbus_router.Message.Frame.{bytes_of}
use dbus_router.Message.{Message, extract_name_from_body}
use dbus_router.Prelude.{
  ◌<◌, ◌≡◌, refl, true, none, some, [], ◌∷◌, arith, Bytes, codes, length, ok, strip_prefix, ◌↔◌,
  ◌≢◌, ◌^◌, panic,
}
use dbus_router.Samples.{
  sample_config, sample_frame, sample_message, sample_header, sample_field, sample_message-IsFramed,
  real_destination-fits, fake_destination-fits, real_sender-fits, unique, sample_frame-IsFrame,
}
use dbus_router.Bus.{Bus}
use dbus_router.Config.Matching.{should_route_to_host_iff, SomeCovers}
use dbus_router.Config.{should_route_to_host}
use dbus_router.Daemon.Body.Frames.{string_body, HasString}
use dbus_router.Daemon.Body.Short.{first_string-panics}
use dbus_router.Daemon.Body.{
  rewrite_match_rule_body, rewrite_single_name_response, rewrite_unique_name_request,
}
use dbus_router.FakeName.RoundTrip.{from_fake_name-to_fake_name, to_fake_name-from_fake_name}
use dbus_router.Rewrite.Replace.{rewrite_header_field-bytes_of}
use dbus_router.Rewrite.Scan.Ends.{find_field-ne-out_of_fuel}
use dbus_router.Rewrite.Scan.{out_of_fuel, find_field}
use dbus_router.Rewrite.{rewrite_header_field}
use dbus_router.Text.Utf8.{is_utf8}

rewrite_header_field-bytes_of_example :
    rewrite_header_field
      (bytes_of Order.little (sample_frame 6 (codes ":h.1.5") (5 ∷ [])))
      Order.little
      6
      (codes ":1.5")
    ≡ ok (bytes_of Order.little (sample_frame 6 (codes ":1.5") (5 ∷ [])))
rewrite_header_field-bytes_of_example =
    let field = sample_field 6 (codes ":h.1.5") (5 ∷ []) (λ e. omega arith) in
    rewrite_header_field-bytes_of Order.little 6 field.before
      (sample_frame 6 (codes ":h.1.5") (5 ∷ []))
      (sample_frame-IsFrame 6 (codes ":h.1.5") (5 ∷ []) fake_destination-fits) (codes ":h.1.5")
      (codes ":1.5") field.after refl field.none_before real_destination-fits

-- messages whose body is a name
abbrev name_message : Bytes → Message
name_message name =
    sample_message sample_header 7 (codes ":1.5") (string_body Order.little name (0 ∷ []))

name_message-HasString :
    (name : Bytes)
    → length name < 2 ^ 32
    → is_utf8 name ≡ true
    → HasString
        (name_message name)
        (sample_frame 7 (codes ":1.5") (string_body Order.little name (0 ∷ [])))
        name
        (0 ∷ [])
name_message-HasString name fit utf8 = record {
  framed =
      sample_message-IsFramed sample_header 7 (codes ":1.5")
        (string_body Order.little name (0 ∷ [])) refl real_sender-fits;
  body_is = refl;
  fits = fit;
  utf8_text = utf8;
}

-- a body of one byte
abbrev short_message : Message
short_message = sample_message sample_header 7 (codes ":1.5") (5 ∷ [])

first_string-panics_example :
    (rewrite_match_rule_body short_message ≡ panic)
    × (rewrite_unique_name_request short_message ≡ panic)
    × ((source : Bus) → rewrite_single_name_response short_message source ≡ panic)
    × (extract_name_from_body short_message ≡ ok none)
first_string-panics_example =
    first_string-panics short_message (sample_frame 7 (codes ":1.5") (5 ∷ []))
      (sample_message-IsFramed sample_header 7 (codes ":1.5") (5 ∷ []) refl real_sender-fits)
      (omega arith) (omega arith)

should_route_to_host_iff_example :
    (should_route_to_host sample_config (codes "org.a.b") ≡ true)
    ↔ SomeCovers (codes "org.a.b") sample_config.host_routes
should_route_to_host_iff_example = should_route_to_host_iff sample_config (codes "org.a.b")

from_fake_name-to_fake_name_example :
    from_fake_name (to_fake_name (codes ":1.5") Bus.host) ≡ some (codes ":1.5", Bus.host)
from_fake_name-to_fake_name_example = from_fake_name-to_fake_name (codes ":1.5") Bus.host unique

is_fake : from_fake_name (codes ":h.1.5") ≡ some (codes ":1.5", Bus.host)
unfolding from_fake_name strip_prefix
is_fake = refl

to_fake_name-from_fake_name_example :
    (to_fake_name (codes ":1.5") Bus.host ≡ codes ":h.1.5") × (is_unique_name (codes ":1.5") ≡ true)
to_fake_name-from_fake_name_example =
    to_fake_name-from_fake_name (codes ":h.1.5") (codes ":1.5") Bus.host is_fake

find_field-ne-out_of_fuel_example : find_field (1 ∷ 2 ∷ []) Order.little 6 1000 ≢ ok out_of_fuel
find_field-ne-out_of_fuel_example = find_field-ne-out_of_fuel (1 ∷ 2 ∷ []) Order.little 6 1000
