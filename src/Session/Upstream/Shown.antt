-- ===== src/Session/Upstream/Shown.antt =====
-- What the client sees of a bus's message.
use dbus_router.Bus.{Bus}
use dbus_router.FakeName.{is_unique_name, to_fake_name}
use dbus_router.Message.Frame.{Frame, IsFramed, bytes_of}
use dbus_router.Message.{Message}
use dbus_router.Prelude.{
  ◌<◌, ◌≤◌, ◌^◌, ◌≡◌, refl, true, false, none, some, arith, Bytes, length, ok, ltb,
}
use dbus_router.Rewrite.Header.{HasField, with_text, rewrite_message_header-to_client}
use dbus_router.Session.Client.Addressed.{written}
use dbus_router.Session.Merge.{not_merging, process_merge_response}
use dbus_router.Session.State.{World, Writes, client, send}
use dbus_router.Session.ToClient.Kept.{keeps_body, prepare_message_for_client-kept}
use dbus_router.Session.ToClient.{prepare_message_for_client}
use dbus_router.Session.Upstream.{
  is_incoming_service_call, plain_with, forward_plain, after_merge, reply_with, forward_reply,
  handle_upstream_message,
}
use dbus_router.Zvariant.{Zvariant}

module _ (z : Zvariant) (writes : Writes) (msg : Message) (f : Frame) (w : World) (source : Bus)
    (real : Bytes) (framed : IsFramed msg f) (h : HasField msg.header.endian f 7 real)
    (sender : msg.header.sender ≡ some real) (unique : is_unique_name real ≡ true)
    (fits : length (with_text h (to_fake_name real source)).fields < 2 ^ 32)
    (no_service_call : is_incoming_service_call w.session msg source ≡ false)
    (no_reply : msg.header.reply_serial ≡ none) (keeps : keeps_body msg.header.member ≡ true)
    (few : length msg.fds ≤ 64) (writable : writes w.attempts ≡ true) where
  few_fds : ltb 64 (length msg.fds) ≡ false
  few_fds = ground arith

  prepared :
      prepare_message_for_client z msg source w.pending_calls
      ≡ ok (bytes_of msg.header.endian (with_text h (to_fake_name real source)), msg.fds)
  prepared =
      prepare_message_for_client-kept z msg _ source w.pending_calls
        (rewrite_message_header-to_client msg f source real framed h sender unique fits) no_reply
        keeps

  no_merge :
      process_merge_response z msg source w.pending_merges ≡ ok (not_merging, w.pending_merges)
  unfolding process_merge_response
  no_merge = rw no_reply refl

  -- A bus sends a message from a unique name, with at most 64 descriptors, that has no reply
  -- serial, is not NameOwnerChanged and calls no service that the client has there. Its raw bytes
  -- are laid out as the specification has it, the first header field 7 in them is the sender, and
  -- with the fake name there the header fields are shorter than 2^32 bytes. If the write
  -- succeeds, the handling succeeds: exactly one message is written, to the client, which is the
  -- bus's with the fake name as its sender and the same descriptors; and the session is left as
  -- it was.
  pub handle_upstream_message-shown : handle_upstream_message z writes msg source w ≡ (
    ok tt,
    written w (record {
      peer = client;
      raw = bytes_of msg.header.endian (with_text h (to_fake_name real source));
      fds = msg.fds;
    }),
  )
  unfolding handle_upstream_message forward_reply reply_with after_merge forward_plain plain_with
      send
  handle_upstream_message-shown =
      rw no_service_call (rw no_merge (rw prepared (rw (few_fds, writable) refl)))
