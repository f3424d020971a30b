-- ===== src/Session/CallAnswer.antt =====
-- A bus's call of a client's service, and the client's answer to it.
use dbus_router.Bus.{Bus}
use dbus_router.Config.{Glob}
use dbus_router.FakeName.{is_unique_name, to_fake_name, from_fake_name}
use dbus_router.Message.Frame.{Frame, IsFramed, bytes_of}
use dbus_router.Message.{Message}
use dbus_router.Prelude.{◌<◌, ◌≤◌, ◌+◌, ◌^◌, ◌≡◌, true, none, some, Bytes, length, ok}
use dbus_router.Rewrite.Header.{HasField, with_text}
use dbus_router.Session.Client.Addressed.{written}
use dbus_router.Session.Client.Answer.{
  answered, handle_client_message-answer, handle_client_message-plain_answer,
}
use dbus_router.Session.Client.{is_reply, handle_client_message}
use dbus_router.Session.State.{World, Writes, upstream}
use dbus_router.Session.Upstream.ServiceCalls.{
  called, get-called, handle_upstream_message-sandbox_call, handle_upstream_message-host_call,
}
use dbus_router.Session.Upstream.{is_incoming_service_call, handle_upstream_message}
use dbus_router.Zvariant.{Zvariant}

module _ (z : Zvariant) (glob : Glob) (writes : Writes) (call answer : Message) (w : World)
    (few_of_call : length call.fds ≤ 64) (few_of_answer : length answer.fds ≤ 64)
    (call_written : writes w.attempts ≡ true) (answer_written : writes (w.attempts + 1) ≡ true)
    (replies : is_reply answer.header.msg_type ≡ true)
    (answers : answer.header.reply_serial ≡ some call.header.serial) where
  module _ (caller : Bytes) (call_frame answer_frame : Frame)
      (calls : is_incoming_service_call w.session call Bus.sandbox ≡ true)
      (sender : call.header.sender ≡ some caller) (unique : is_unique_name caller ≡ true)
      (call_framed : IsFramed call call_frame)
      (from : HasField call.header.endian call_frame 7 caller)
      (fake_fits : length (with_text from (to_fake_name caller Bus.sandbox)).fields < 2 ^ 32)
      (destination : answer.header.destination ≡ some (to_fake_name caller Bus.sandbox))
      (answer_framed : IsFramed answer answer_frame)
      (to : HasField answer.header.endian answer_frame 6 (to_fake_name caller Bus.sandbox))
      (real_fits : length (with_text to caller).fields < 2 ^ 32) where
    -- A peer on the sandbox bus calls a service of the client from a unique name, and the client's next
    -- message is the answer to that serial, sent to the sender that the client was shown, the fake name of
    -- the peer. Both messages have at most 64 descriptors and are laid out as the specification has it; the
    -- first header field 7 of the call is its sender and the first header field 6 of the answer its
    -- destination, and with the names exchanged the header fields stay shorter than 2^32 bytes. If both
    -- writes succeed, both are handled: first exactly the call is written, to the client, with the
    -- fake name as its sender; then exactly the answer, to the sandbox bus, with the peer's own name as its
    -- destination; each with its descriptors, and the session changes only in that the
    -- call is awaited behind the first and no more behind the second.
    pub call-answer :
        (let v =
            called call Bus.sandbox
              (bytes_of call.header.endian (with_text from (to_fake_name caller Bus.sandbox)))
              w in
          (handle_upstream_message z writes call Bus.sandbox w ≡ (ok tt, v))
          × (handle_client_message writes glob answer v ≡ (
            ok tt,
            written
                (record v { session = answered v.session call.header.serial })
                (record {
                  peer = upstream Bus.sandbox;
                  raw = bytes_of answer.header.endian (with_text to caller);
                  fds = answer.fds;
                }),
          )))
    call-answer = (
      handle_upstream_message-sandbox_call z writes call w few_of_call call_written caller
          call_frame calls sender unique call_framed from fake_fits,
      handle_client_message-answer glob writes answer answer_frame _ call.header.serial Bus.sandbox
          Bus.sandbox caller replies answers
          (get-called call Bus.sandbox
            (bytes_of call.header.endian (with_text from (to_fake_name caller Bus.sandbox))) w)
          answer_framed to destination unique real_fits few_of_answer answer_written,
    )

  -- A peer on the host bus calls a service of the client, and the client's next message is the answer to that
  -- serial, sent to a name that is no fake name. Both messages have at most 64 descriptors. If both writes
  -- succeed, both are handled: first exactly the call is written, to the client, and then exactly the
  -- answer, to the host bus, whatever the routes say of its destination; each with its bytes and
  -- descriptors as they are, and the session changes only in that the
  -- call is awaited behind the first and no more behind the second.
  pub host_call-answer :
      (name : Bytes)
      → is_incoming_service_call w.session call Bus.host ≡ true
      → answer.header.destination ≡ some name
      → from_fake_name name ≡ none
      → (let v = called call Bus.host call.raw w in
          (handle_upstream_message z writes call Bus.host w ≡ (ok tt, v))
          × (handle_client_message writes glob answer v ≡ (
            ok tt,
            written
                (record v { session = answered v.session call.header.serial })
                (record { peer = upstream Bus.host; raw = answer.raw; fds = answer.fds }),
          )))
  host_call-answer name calls destination real = (
    handle_upstream_message-host_call z writes call w few_of_call call_written calls,
    handle_client_message-plain_answer glob writes answer _ call.header.serial Bus.host name replies
        answers (get-called call Bus.host call.raw w) destination real few_of_answer answer_written,
  )
