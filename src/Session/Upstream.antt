-- ===== src/Session/Upstream.antt =====
-- `handle_upstream_message`: a message from a bus.
pub mod OnlyClient
pub mod Shown
pub mod Remembers
pub mod ServiceCalls
pub mod Owner
use dbus_router.Bus.{Bus}
use dbus_router.Message.Prologue.{MessageType, method_call}
use dbus_router.Message.{Message}
use dbus_router.Prelude.{
  Bool, true, false, ◌&&◌, Option, none, some, [], if◌then◌else◌, Bytes, contains, insert, Table,
  Result, ok,
}
use dbus_router.Rewrite.{to_client, rewrite_message_header}
use dbus_router.Session.Merge.{MergeOutcome, not_merging, awaiting, merged, process_merge_response}
use dbus_router.Session.State.{
  PendingCallInfo, PendingMerge, Session, client, World, Handler, ◌>>=◌, ◌>>◌, pure, lift, modify,
  recover, Writes, send,
}
use dbus_router.Session.ToClient.{prepare_message_for_client}
use dbus_router.Zvariant.{Zvariant}

abbrev is_method_call : MessageType → Bool
is_method_call method_call = true
is_method_call _ = false

abbrev owns : Session → Bus → Option Bytes → Bool
owns s source none = false
owns s Bus.host (some dest) = contains s.exported_services dest
owns s Bus.sandbox (some dest) = contains s.sandbox_services dest

unfoldable pub is_incoming_service_call : Session → Message → Bus → Bool
is_incoming_service_call s msg source =
    is_method_call msg.header.msg_type && owns s source msg.header.destination

-- Only a sandbox peer's sender is rewritten.
service_call_for_client : Message → Bus → Result Message
service_call_for_client msg Bus.sandbox =
    recover msg (rewrite_message_header msg to_client Bus.sandbox)
service_call_for_client msg Bus.host = ok msg

module _ (z : Zvariant) (writes : Writes) where
  forward_service_call : Message → Bus → Handler (Unit {0})
  unfolding service_call_for_client
  forward_service_call msg source = do
    modify (λ s. record s { incoming_calls = insert s.incoming_calls msg.header.serial source })
    msg_for_client ← lift (service_call_for_client msg source)
    send writes client msg_for_client.raw msg_for_client.fds

  plain_with : Message → Bus → Table PendingCallInfo → Handler (Unit {0})
  plain_with msg source pending_calls = do
    prepared ← lift (prepare_message_for_client z msg source pending_calls)
    send writes client prepared.0 prepared.1

  forward_plain : Message → Bus → Handler (Unit {0})
  unfolding plain_with
  forward_plain msg source w = plain_with msg source w.pending_calls w

  after_merge : Message → Bus → MergeOutcome → Handler (Unit {0})
  unfolding forward_plain
  after_merge msg source not_merging = forward_plain msg source
  after_merge msg source awaiting = pure tt
  after_merge msg source (merged response) = send writes client response []

  reply_with : Message → Bus → Table PendingMerge → Handler (Unit {0})
  unfolding after_merge
  reply_with msg source merges = do
    outcome ← lift (process_merge_response z msg source merges)
    modify (λ s. record s { pending_merges = outcome.1 })
    after_merge msg source outcome.0

  forward_reply : Message → Bus → Handler (Unit {0})
  unfolding reply_with
  forward_reply msg source w = reply_with msg source w.pending_merges w

  unfoldable pub handle_upstream_message : Message → Bus → Handler (Unit {0})
  unfolding forward_service_call forward_reply
  handle_upstream_message msg source w =
      if is_incoming_service_call w.session msg source
      then forward_service_call msg source w
      else forward_reply msg source w
