-- ===== src/Session/Upstream/Owner.antt =====
-- A bus names the owner of a name: what the client sees.
use dbus_router.Bus.{Bus}
use dbus_router.Daemon.Body.Frames.{
  with_body, string_body, HasString, rewrite_single_name_response-HasString,
}
use dbus_router.FakeName.{is_unique_name, to_fake_name}
use dbus_router.Message.Frame.{Frame, bytes_of}
use dbus_router.Message.Prologue.{MessageType}
use dbus_router.Message.{Message, dbus_name}
use dbus_router.Prelude.{
  ◌≤◌, ◌≡◌, refl, ap, true, false, none, some, ◌&&◌, [], ◌∷◌, arith, Bytes, length, ok, ltb, get,
  str_eq, strip_prefix, starts_with,
}
use dbus_router.Rewrite.{rewrite_message_header, to_client}
use dbus_router.Session.Client.Addressed.{written}
use dbus_router.Session.Merge.{not_merging, process_merge_response}
use dbus_router.Session.State.{client, World, Writes, send}
use dbus_router.Session.ToClient.Owner.{NamesOwner, prepare_message_for_client-NamesOwner}
use dbus_router.Session.ToClient.{prepare_message_for_client}
use dbus_router.Session.Upstream.{
  is_method_call, owns, is_incoming_service_call, forward_reply, reply_with, after_merge,
  forward_plain, plain_with, handle_upstream_message,
}
use dbus_router.Zvariant.{Zvariant}

module _ (z : Zvariant) (writes : Writes) (msg : Message) (f : Frame) (w : World) (source : Bus)
    (real rest : Bytes) (s : HasString msg f real rest) (unique : is_unique_name real ≡ true)
    (from_daemon : msg.header.sender ≡ some dbus_name) (n : NamesOwner msg source w.pending_calls)
    (not_merged : get w.pending_merges n.serial ≡ none) where
  header_kept : rewrite_message_header msg to_client source ≡ ok msg
  unfolding rewrite_message_header to_fake_name is_unique_name strip_prefix starts_with str_eq
  header_kept = rw from_daemon refl

  no_service_call : is_incoming_service_call w.session msg source ≡ false
  unfolding is_incoming_service_call
  no_service_call =
      ap (λ (t : MessageType). is_method_call t && owns w.session source msg.header.destination)
        n.returns

  no_merge :
      process_merge_response z msg source w.pending_merges ≡ ok (not_merging, w.pending_merges)
  unfolding process_merge_response
  no_merge = rw (n.answers, not_merged) refl

  prepared :
      prepare_message_for_client z msg source w.pending_calls
      ≡ ok (
        bytes_of msg.header.endian
            (with_body f (string_body msg.header.endian (to_fake_name real source) (0 ∷ []))),
        msg.fds,
      )
  prepared =
      prepare_message_for_client-NamesOwner z msg source w.pending_calls n _
        (rewrite_single_name_response-HasString msg f real rest s source unique) header_kept

  -- A bus's daemon answers a call that was forwarded to that bus, of a method that is in
  -- METHODS_NEED_RESPONSE_REWRITE and not ListQueuedOwners; no merging of lists goes on under the serial. The
  -- reply has at most 64 descriptors, its raw bytes are laid out as the specification has it, and its
  -- body starts with a unique name in UTF-8. If the write succeeds, the handling succeeds: exactly one
  -- message is written, to the client, which is the bus's with a body that is the fake name, and the
  -- session is left as it was.
  pub handle_upstream_message-owner :
      length msg.fds ≤ 64
      → writes w.attempts ≡ true
      → handle_upstream_message z writes msg source w ≡ (
        ok tt,
        written w (record {
          peer = client;
          raw =
              bytes_of msg.header.endian
                (with_body f (string_body msg.header.endian (to_fake_name real source) (0 ∷ [])));
          fds = msg.fds;
        }),
      )
  unfolding handle_upstream_message forward_reply reply_with after_merge forward_plain plain_with
      send
  handle_upstream_message-owner few writable =
      let few_fds : ltb 64 (length msg.fds) ≡ false = ground arith in
      rw no_service_call (rw no_merge (rw prepared (rw (few_fds, writable) refl)))
