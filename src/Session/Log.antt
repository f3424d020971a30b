-- ===== src/Session/Log.antt =====
-- What src/session.rs writes to the log about a message. The package `tracing` takes it from there.
use dbus_router.Bus.{Bus}
use dbus_router.Format.{BodyReader, format_message}
use dbus_router.Format.Shown.{format_message-ok}
use dbus_router.Message.Prologue.{MessageType, method_call, method_return, error, signal, invalid}
use dbus_router.Message.Reading.Layout.{IsWhole}
use dbus_router.Message.{Message}
use dbus_router.Prelude.{◌≡◌, refl, Option, none, some, [], ◌++◌, Bytes, codes, Result, ok, ◌>>=◌}
use dbus_router.Text.Decimal.{decimal_on}
use dbus_router.Zvariant.{Zvariant}

abbrev kind_str : MessageType → Bytes
kind_str method_call = codes "CALL"
kind_str method_return = codes "REPLY"
kind_str error = codes "ERROR"
kind_str signal = codes "SIGNAL"
kind_str invalid = codes "INVALID"

-- `unwrap_or("-")`
abbrev or_dash : Option Bytes → Bytes
or_dash (some text) = text
or_dash none = codes "-"

unfoldable pub format_message_summary : Message → Bytes
format_message_summary msg =
    let h = msg.header in
    kind_str h.msg_type
    ++ (codes " " ++ (or_dash h.interface ++ (codes "." ++ or_dash h.member)))
    ++ (codes " [" ++ (or_dash h.sender ++ (codes "->" ++ (or_dash h.destination ++ codes "]"))))
    ++ (codes " serial=" ++ decimal_on 10 h.serial)

abbrev target_str : Option Bus → Bytes
target_str (some Bus.host) = codes " -> Host"
target_str (some Bus.sandbox) = codes " -> Sandbox"
target_str none = []

unfoldable pub service_call_label : Bus → Bytes
service_call_label Bus.host = codes "Host->Client(exported)"
service_call_label Bus.sandbox = codes "Sandbox->Client(service)"

unfoldable pub forwarded_label : Bus → Bytes
forwarded_label Bus.host = codes "Host->Client"
forwarded_label Bus.sandbox = codes "Sandbox->Client"

unfoldable pub reply_label : Bus → Bytes
reply_label Bus.host = codes "Client->Host(reply)"
reply_label Bus.sandbox = codes "Client->Sandbox(reply)"

-- The two entries, without the fields of the first that only repeat the header.
pub record Logged : Type 0 where
  pub target : Bytes
  pub summary : Bytes
  pub dbus_monitor : Bytes

module _ (reader : BodyReader) where
  unfoldable pub log_message : Message → Bytes → Option Bus → Result Logged
  log_message msg direction target = do
    monitored ← format_message reader msg direction target
    ok (record {
      target = target_str target;
      summary = format_message_summary msg;
      dbus_monitor = monitored;
    })

  -- A whole message is logged without a panic, whatever zvariant makes of its body.
  pub log_message-ok :
      (z : Zvariant) (msg : Message) (direction : Bytes) (target : Option Bus)
      → IsWhole z msg.raw msg.header
      → (logged : Logged) × (log_message msg direction target ≡ ok logged)
  unfolding log_message
  log_message-ok z msg direction target w =
      let (text, e) = format_message-ok z reader msg direction target w in rw e (_, refl)
