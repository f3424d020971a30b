-- ===== src/Session/ToClient.antt =====
-- `prepare_message_for_client`: a bus's message as the client is to see it.
pub mod Kept
pub mod Owner
use dbus_router.Bus.{Bus, bus_eq}
use dbus_router.Daemon.Body.{
  rewrite_single_name_response, rewrite_string_array_response, rewrite_name_owner_changed,
}
use dbus_router.Daemon.Routes.{needs_response_rewrite, signal_needs_rewrite}
use dbus_router.Message.Prologue.{MessageType, method_return, signal}
use dbus_router.Message.{Message}
use dbus_router.Prelude.{
  ℕ, not, Option, none, some, List, if◌then◌else◌, Bytes, codes, str_eq, Table, get, Result, ok,
  ◌>>=◌,
}
use dbus_router.Rewrite.{to_client, rewrite_message_header}
use dbus_router.Session.State.{PendingCallInfo, recover}
use dbus_router.Zvariant.{Zvariant}

module _ (z : Zvariant) where
  rewrite_response : Message → Bus → Bytes → Result Bytes
  rewrite_response msg source member =
      if str_eq member (codes "ListQueuedOwners")
      then rewrite_string_array_response z msg source
      else rewrite_single_name_response msg source

  rewrite_for_member : Message → Bus → Option Bytes → Result Bytes
  unfolding rewrite_response
  rewrite_for_member msg source none = ok msg.raw
  rewrite_for_member msg source (some member) =
      if not (needs_response_rewrite member)
      then ok msg.raw
      else recover msg.raw (rewrite_response msg source member)

  rewrite_for_call : Message → Bus → Option PendingCallInfo → Result Bytes
  unfolding rewrite_for_member
  rewrite_for_call msg source none = ok msg.raw
  rewrite_for_call msg source (some call_info) =
      if not (bus_eq call_info.bus source)
      then ok msg.raw
      else rewrite_for_member msg source call_info.member

  rewrite_for_serial : Message → Bus → Table PendingCallInfo → Option ℕ → Result Bytes
  unfolding rewrite_for_call
  rewrite_for_serial msg source pending_calls none = ok msg.raw
  rewrite_for_serial msg source pending_calls (some reply_serial) =
      rewrite_for_call msg source (get pending_calls reply_serial)

  unfoldable pub rewrite_method_return_body : Message → Bus → Table PendingCallInfo → Result Bytes
  unfolding rewrite_for_serial
  rewrite_method_return_body msg source pending_calls =
      rewrite_for_serial msg source pending_calls msg.header.reply_serial

  rewrite_for_signal : Message → Bus → Option Bytes → Result Bytes
  rewrite_for_signal msg source none = ok msg.raw
  rewrite_for_signal msg source (some member) =
      if not (signal_needs_rewrite member)
      then ok msg.raw
      else recover msg.raw (rewrite_name_owner_changed z msg source)

  unfoldable pub rewrite_signal_body : Message → Bus → Result Bytes
  unfolding rewrite_for_signal
  rewrite_signal_body msg source = rewrite_for_signal msg source msg.header.member

  rewrite_for_type : MessageType → Message → Bus → Table PendingCallInfo → Result Bytes
  rewrite_for_type method_return msg source pending_calls =
      rewrite_method_return_body msg source pending_calls
  rewrite_for_type signal msg source pending_calls = rewrite_signal_body msg source
  rewrite_for_type _ msg source pending_calls = ok msg.raw

  unfoldable pub prepare_message_for_client :
      Message → Bus → Table PendingCallInfo → Result (Bytes × List ℕ)
  unfolding rewrite_for_type
  prepare_message_for_client msg source pending_calls = do
    msg_for_client ← recover msg (rewrite_message_header msg to_client source)
    raw ← rewrite_for_type msg_for_client.header.msg_type msg_for_client source pending_calls
    ok (raw, msg.fds)
