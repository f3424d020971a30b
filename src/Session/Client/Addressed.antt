-- ===== src/Session/Client/Addressed.antt =====
-- A call that the client addresses to the fake name of a peer: what is written, and to which bus.
use dbus_router.Bus.{Bus}
use dbus_router.Config.{Glob}
use dbus_router.Daemon.Routes.{single}
use dbus_router.FakeName.Shown.{get_bus_from_fake_name-to_fake_name}
use dbus_router.FakeName.{is_unique_name, to_fake_name}
use dbus_router.Message.Frame.{Frame, IsFramed, bytes_of}
use dbus_router.Message.{Message, dbus_name, is_text, is_request_name}
use dbus_router.Prelude.{
  ◌+◌, ◌<◌, ◌≤◌, ◌^◌, ◌≡◌, refl, true, false, some, [], ◌∷◌, ◌++◌, arith, Bytes, length, ok, ltb,
  str_eq, strip_prefix, starts_with,
}
use dbus_router.Rewrite.Header.{HasField, with_text, rewrite_message_header-to_upstream}
use dbus_router.Routing.{is_hostpass_client, route_request}
use dbus_router.Session.Client.{
  is_reply, forward_reply_to_caller, handle_client_message, route_client_message, route_with,
  forward_by, forward_to_bus, track_exported_service, rewrite_request_body, remember_call,
}
use dbus_router.Session.State.{World, Writes, Sent, upstream, send}

unique-is_text : (name : Bytes) → is_unique_name name ≡ true → is_text (some name) dbus_name ≡ false
unfolding is_unique_name strip_prefix starts_with is_text str_eq
unique-is_text [] h = ground arith
unique-is_text (c ∷ r) h = ground arith

fake-is_text :
    (real : Bytes) (bus : Bus)
    → is_unique_name real ≡ true
    → is_text (some (to_fake_name real bus)) dbus_name ≡ false
unfolding is_unique_name to_fake_name strip_prefix starts_with is_text str_eq
fake-is_text [] bus h = ground arith
fake-is_text (c ∷ r) Bus.host h = ground arith
fake-is_text (c ∷ r) Bus.sandbox h = ground arith

-- The world behind a message that was written.
abbrev pub written : World → Sent → World
written w s = record w { sent = w.sent ++ s ∷ []; attempts = w.attempts + 1 }

module _ (glob : Glob) (writes : Writes) (msg : Message) (f : Frame) (w : World) (bus : Bus)
    (real : Bytes) (framed : IsFramed msg f)
    (h : HasField msg.header.endian f 6 (to_fake_name real bus))
    (destination : msg.header.destination ≡ some (to_fake_name real bus))
    (unique : is_unique_name real ≡ true) (fits : length (with_text h real).fields < 2 ^ 32) where
  routed :
      is_hostpass_client glob w.config w.client_exe_path ≡ false
      → route_request glob w.config msg w.client_exe_path ≡ ok (single bus)
  unfolding route_request
  routed no_pass =
      rw (no_pass, destination, get_bus_from_fake_name-to_fake_name real bus unique) refl

  not_tracked : track_exported_service msg (single bus) w ≡ (ok tt, w)
  unfolding track_exported_service is_request_name
  not_tracked = rw (destination, fake-is_text real bus unique) refl

  module _ (few : length msg.fds ≤ 64) (writable : writes w.attempts ≡ true) where
    few_fds : ltb 64 (length msg.fds) ≡ false
    few_fds = ground arith

    forwarded : forward_to_bus writes msg bus w ≡ (
      ok tt,
      written
          (record w { session = remember_call msg bus w.session })
          (record {
            peer = upstream bus;
            raw = bytes_of msg.header.endian (with_text h real);
            fds = msg.fds;
          }),
    )
    unfolding forward_to_bus rewrite_request_body send
    forwarded =
        rw (rewrite_message_header-to_upstream msg f bus bus real framed h destination unique fits)
          (rw (unique-is_text real unique, few_fds, writable) refl)

    -- A client without a hostpass sends a message that is no reply and has at most 64 descriptors
    -- to the fake name of a unique name of a bus. Its raw bytes are laid out as the specification
    -- has it, the first header field 6 in them is the destination, and with the real name there
    -- the header fields are shorter than 2^32 bytes. If the write succeeds, the handling
    -- succeeds: exactly one message is written, to the bus of the name, which is the client's
    -- with the real name as its destination and the same descriptors; and the session changes
    -- only in that the bus and the member are remembered under the message's serial.
    pub handle_client_message-addressed :
        is_reply msg.header.msg_type ≡ false
        → is_hostpass_client glob w.config w.client_exe_path ≡ false
        → handle_client_message writes glob msg w ≡ (
          ok tt,
          written
              (record w { session = remember_call msg bus w.session })
              (record {
                peer = upstream bus;
                raw = bytes_of msg.header.endian (with_text h real);
                fds = msg.fds;
              }),
        )
    unfolding handle_client_message forward_reply_to_caller route_client_message route_with
        forward_by
    handle_client_message-addressed no_reply no_pass =
        rw no_reply (rw (routed no_pass) (rw not_tracked forwarded))
