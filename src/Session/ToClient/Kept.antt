-- ===== src/Session/ToClient/Kept.antt =====
-- Messages whose body reaches the client as it is.
use dbus_router.Bus.{Bus}
use dbus_router.Daemon.Routes.{signal_needs_rewrite}
use dbus_router.Message.Prologue.{MessageType, method_return, signal}
use dbus_router.Message.{Message}
use dbus_router.Prelude.{◌≡◌, refl, Bool, true, none, some, Option, Bytes, Table, ok, not}
use dbus_router.Rewrite.{to_client, rewrite_message_header}
use dbus_router.Session.State.{PendingCallInfo}
use dbus_router.Session.ToClient.{
  rewrite_for_type, rewrite_for_signal, rewrite_signal_body, rewrite_method_return_body,
  prepare_message_for_client,
}
use dbus_router.Zvariant.{Zvariant}

-- Signals with this member keep their body.
abbrev pub keeps_body : Option Bytes → Bool
keeps_body none = true
keeps_body (some member) = not (signal_needs_rewrite member)

module _ (z : Zvariant) where
  body_of_signal :
      (msg : Message) (source : Bus) (member : Option Bytes)
      → keeps_body member ≡ true
      → rewrite_for_signal z msg source member ≡ ok msg.raw
  unfolding rewrite_for_signal
  body_of_signal msg source none k = refl
  body_of_signal msg source (some member) k = rw k refl

  body_kept :
      (kind : MessageType) (msg : Message) (source : Bus) (pending_calls : Table PendingCallInfo)
      → msg.header.reply_serial ≡ none
      → keeps_body msg.header.member ≡ true
      → rewrite_for_type z kind msg source pending_calls ≡ ok msg.raw
  unfolding rewrite_for_type rewrite_method_return_body rewrite_signal_body
  body_kept method_return msg source pending_calls r k = rw r refl
  body_kept signal msg source pending_calls r k = body_of_signal msg source msg.header.member k
  body_kept _ msg source pending_calls r k = refl

  -- A message that answers nothing and whose member keeps the body reaches the client with its
  -- header rewritten.
  pub prepare_message_for_client-kept :
      (msg shown : Message) (source : Bus) (pending_calls : Table PendingCallInfo)
      → rewrite_message_header msg to_client source ≡ ok shown
      → shown.header.reply_serial ≡ none
      → keeps_body shown.header.member ≡ true
      → prepare_message_for_client z msg source pending_calls ≡ ok (shown.raw, msg.fds)
  unfolding prepare_message_for_client
  prepare_message_for_client-kept msg shown source pending_calls e r k =
      rw (e, body_kept shown.header.msg_type shown source pending_calls r k) refl
