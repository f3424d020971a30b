-- ===== src/Session/Client/Answer.antt =====
-- The client's answer to a call that a bus made.
use dbus_router.Bus.{Bus}
use dbus_router.Config.{Glob}
use dbus_router.FakeName.{is_unique_name, to_fake_name, from_fake_name}
use dbus_router.Message.Frame.{Frame, IsFramed, bytes_of}
use dbus_router.Message.{Message}
use dbus_router.Prelude.{
  ℕ, ◌<◌, ◌≤◌, ◌^◌, ◌≡◌, refl, true, false, none, some, arith, Bytes, length, ok, ltb, get, remove,
}
use dbus_router.Rewrite.Header.{HasField, with_text, rewrite_message_header-to_upstream}
use dbus_router.Rewrite.{rewrite_message_header}
use dbus_router.Session.Client.Addressed.{written}
use dbus_router.Session.Client.{
  is_reply, forward_reply_to_caller, take_call, answer_serial, answer_call, handle_client_message,
}
use dbus_router.Session.State.{Session, World, Writes, upstream, send}

-- The session behind an answer: the call is no longer awaited.
abbrev pub answered : Session → ℕ → Session
answered s serial = record s { incoming_calls = remove s.incoming_calls serial }

module _ (glob : Glob) (writes : Writes) (msg : Message) (f : Frame) (w : World) (serial : ℕ)
    (source bus : Bus) (real : Bytes) (replies : is_reply msg.header.msg_type ≡ true)
    (answers : msg.header.reply_serial ≡ some serial)
    (called : get w.incoming_calls serial ≡ some source) (framed : IsFramed msg f)
    (h : HasField msg.header.endian f 6 (to_fake_name real bus))
    (destination : msg.header.destination ≡ some (to_fake_name real bus))
    (unique : is_unique_name real ≡ true) (fits : length (with_text h real).fields < 2 ^ 32)
    (few : length msg.fds ≤ 64) (writable : writes w.attempts ≡ true) where
  few_fds : ltb 64 (length msg.fds) ≡ false
  few_fds = ground arith

  taken :
      take_call writes msg w ≡ (ok (some source), record w { session = answered w.session serial })
  unfolding take_call
  taken = rw answers (rw called refl)

  -- The client answers a serial under which a call of a bus is remembered: a method return or
  -- error, sent to the fake name of a unique name with at most 64 descriptors. Its raw bytes are
  -- laid out as the specification has it, the first header field 6 in them is the destination,
  -- and with the real name there the header fields are shorter than 2^32 bytes. If the write
  -- succeeds, the handling succeeds: exactly one message is written, to the bus that is
  -- remembered, which is the client's with the real name as its destination and the same
  -- descriptors; and the call is no longer awaited.
  pub handle_client_message-answer : handle_client_message writes glob msg w ≡ (
    ok tt,
    written
        (record w { session = answered w.session serial })
        (record {
          peer = upstream source;
          raw = bytes_of msg.header.endian (with_text h real);
          fds = msg.fds;
        }),
  )
  unfolding handle_client_message forward_reply_to_caller answer_serial answer_call send
  handle_client_message-answer =
      rw
        (
          replies,
          taken,
          rewrite_message_header-to_upstream msg f source bus real framed h destination unique fits,
          few_fds,
          writable,
        )
        refl

-- The client answers such a serial with a message for a name that is no fake name: the bus that is remembered
-- gets it as it is.
pub handle_client_message-plain_answer :
    (glob : Glob) (writes : Writes) (msg : Message) (w : World) (serial : ℕ) (source : Bus)
    (name : Bytes)
    → is_reply msg.header.msg_type ≡ true
    → msg.header.reply_serial ≡ some serial
    → get w.incoming_calls serial ≡ some source
    → msg.header.destination ≡ some name
    → from_fake_name name ≡ none
    → length msg.fds ≤ 64
    → writes w.attempts ≡ true
    → handle_client_message writes glob msg w ≡ (
      ok tt,
      written
          (record w { session = answered w.session serial })
          (record { peer = upstream source; raw = msg.raw; fds = msg.fds }),
    )
unfolding handle_client_message forward_reply_to_caller answer_serial answer_call send take_call
    rewrite_message_header
handle_client_message-plain_answer glob writes msg w serial source name replies answers called dest
      real few writable =
    let few_fds : ltb 64 (length msg.fds) ≡ false = ground arith in
    rw (replies, answers) (rw called (rw (dest, real, few_fds, writable) refl))
