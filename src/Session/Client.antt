-- ===== src/Session/Client.antt =====
-- `handle_client_message`: a message from the client.
pub mod OnlyBuses
pub mod Isolation
pub mod Addressed
pub mod Asked
pub mod Watched
pub mod AboutName
pub mod Answer
use dbus_router.Bus.{Bus}
use dbus_router.Config.{Glob, Config}
use dbus_router.Daemon.Body.{rewrite_match_rule_body, rewrite_unique_name_request}
use dbus_router.Daemon.Routes.{RouteDecision, single, both, merge, needs_request_rewrite}
use dbus_router.Message.Prologue.{MessageType, method_return, error}
use dbus_router.Message.{Message, dbus_name, is_text, is_request_name, extract_name_from_body}
use dbus_router.Prelude.{
  Bool, true, false, not, ◌||◌, Option, none, some, if◌then◌else◌, Bytes, codes, str_eq, add, get,
  insert, remove, Result, ok, err, panic,
}
use dbus_router.Rewrite.{to_upstream, rewrite_message_header}
use dbus_router.Routing.{route_request}
use dbus_router.Session.State.{
  PendingCallInfo, Session, upstream, World, Handler, ◌>>=◌, ◌>>◌, pure, lift, modify, recover,
  Writes, send, send_both,
}

unfoldable pub is_match_rule_member : Bytes → Bool
is_match_rule_member member =
    str_eq member (codes "AddMatch") || str_eq member (codes "RemoveMatch")

abbrev raw_or_original : Message → Result (Option Bytes) → Result Bytes
raw_or_original msg (ok (some rewritten)) = ok rewritten
raw_or_original msg (ok none) = ok msg.raw
raw_or_original msg (err e) = ok msg.raw
raw_or_original msg panic = panic

unfoldable pub match_rule_body_or_original : Message → Result Bytes
match_rule_body_or_original msg = raw_or_original msg (rewrite_match_rule_body msg)

abbrev request_or_original : Message → Result (Bytes × Bus) → Result Bytes
request_or_original msg (ok (rewritten, _)) = ok rewritten
request_or_original msg (err e) = ok msg.raw
request_or_original msg panic = panic

pub rewrite_member_body : Message → Option Bytes → Result Bytes
unfolding match_rule_body_or_original
rewrite_member_body msg none = ok msg.raw
rewrite_member_body msg (some member) =
    if needs_request_rewrite member
    then request_or_original msg (rewrite_unique_name_request msg)
    else if is_match_rule_member member
    then match_rule_body_or_original msg
    else ok msg.raw

unfoldable pub rewrite_request_body : Message → Result Bytes
unfolding rewrite_member_body
rewrite_request_body msg =
    if not (is_text msg.header.destination dbus_name)
    then ok msg.raw
    else rewrite_member_body msg msg.header.member

abbrev pub is_reply : MessageType → Bool
is_reply method_return = true
is_reply error = true
is_reply _ = false

-- `RouteDecision` under which a name that is requested is remembered.
exported : RouteDecision → Option Bytes → Session → Session
exported decision none s = s
exported (single Bus.host) (some name) s = record s {
  exported_services = add name s.exported_services;
}
exported (single Bus.sandbox) (some name) s = record s {
  sandbox_services = add name s.sandbox_services;
}
exported _ (some name) s = s

unfoldable pub track_exported_service : Message → RouteDecision → Handler (Unit {0})
unfolding exported
track_exported_service msg decision =
    if not (is_request_name msg)
    then pure tt
    else do name ← lift (extract_name_from_body msg); modify (exported decision name)

abbrev pub remember_call : Message → Bus → Session → Session
remember_call msg bus s = record s {
  pending_calls =
      insert s.pending_calls msg.header.serial (record { bus = bus; member = msg.header.member });
}

both_body : Message → Option Bytes → Result Bytes
both_body msg none = ok msg.raw
both_body msg (some member) =
    if is_match_rule_member member then match_rule_body_or_original msg else ok msg.raw

module _ (writes : Writes) where
  unfoldable pub forward_to_bus : Message → Bus → Handler (Unit {0})
  forward_to_bus msg target = do
    msg_for_upstream ← lift (recover msg (rewrite_message_header msg to_upstream target))
    raw ← lift (rewrite_request_body msg_for_upstream)
    modify (remember_call msg target)
    send writes (upstream target) raw msg.fds

  unfoldable pub forward_to_both : Message → Handler (Unit {0})
  unfolding both_body
  forward_to_both msg = do
    raw ← lift (both_body msg msg.header.member)
    modify (remember_call msg Bus.sandbox)
    send_both writes raw msg.fds

  unfoldable pub forward_for_merge : Message → Handler (Unit {0})
  forward_for_merge msg = do
    modify (λ s. record s {
      pending_merges =
          insert s.pending_merges msg.header.serial
            (record { original_request = msg; first_response = none });
    })
    send_both writes msg.raw msg.fds

  answer_call : Message → Bus → Handler Bool
  answer_call msg source = do
    msg_for_bus ← lift (recover msg (rewrite_message_header msg to_upstream source))
    send writes (upstream source) msg_for_bus.raw msg_for_bus.fds
    pure true

  answer_serial : Message → Option Bus → Handler Bool
  unfolding answer_call
  answer_serial msg none = pure false
  answer_serial msg (some source) = answer_call msg source

  -- `self.incoming_calls.remove(&reply_serial)`, where there is a serial
  take_call : Message → Handler (Option Bus)
  take_call msg w = elim msg.header.reply_serial [
    | none ↦ (ok none, w)
    | some serial ↦ (
      ok (get w.incoming_calls serial),
      record w { session = record w.session { incoming_calls = remove w.incoming_calls serial } },
    )
  ]

  -- Whether the message was a reply to a call of a bus, and was sent there.
  unfoldable pub forward_reply_to_caller : Message → Handler Bool
  unfolding take_call answer_serial
  forward_reply_to_caller msg =
      if not (is_reply msg.header.msg_type)
      then pure false
      else do source ← take_call msg; answer_serial msg source

  forward_by : RouteDecision → Message → Handler (Unit {0})
  unfolding forward_to_bus forward_to_both forward_for_merge
  forward_by (single target) msg = forward_to_bus msg target
  forward_by both msg = forward_to_both msg
  forward_by merge msg = forward_for_merge msg

  module _ (glob : Glob) where
    route_with : Message → Config → Option Bytes → Handler (Unit {0})
    unfolding forward_by
    route_with msg config client_exe = do
      decision ← lift (route_request glob config msg client_exe)
      track_exported_service msg decision
      forward_by decision msg

    unfoldable pub route_client_message : Message → Handler (Unit {0})
    unfolding route_with
    route_client_message msg w = route_with msg w.config w.client_exe_path w

    unfoldable pub handle_client_message : Message → Handler (Unit {0})
    unfolding route_client_message forward_reply_to_caller
    handle_client_message msg = do
      consumed ← forward_reply_to_caller msg
      if consumed then pure tt else route_client_message msg
