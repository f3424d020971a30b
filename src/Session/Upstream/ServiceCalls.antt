-- ===== src/Session/Upstream/ServiceCalls.antt =====
-- A bus's call of a service of the client, as the client is given it.
use dbus_router.Bus.{Bus}
use dbus_router.FakeName.{is_unique_name, to_fake_name}
use dbus_router.Message.Frame.{Frame, IsFramed, bytes_of}
use dbus_router.Message.{Message}
use dbus_router.Prelude.{
  ◌<◌, ◌≤◌, ◌^◌, ◌≡◌, refl, ◌∙◌, true, false, some, arith, Bytes, length, ok, ltb, get, insert,
  get-insert, ==_refl,
}
use dbus_router.Rewrite.Header.{HasField, with_text, rewrite_message_header-to_client}
use dbus_router.Session.Client.Addressed.{written}
use dbus_router.Session.State.{Session, World, Writes, client, send}
use dbus_router.Session.Upstream.{
  is_incoming_service_call, service_call_for_client, forward_service_call, handle_upstream_message,
}
use dbus_router.Zvariant.{Zvariant}

-- The session behind the call: its answer is awaited for the bus.
abbrev pub awaits : Message → Bus → Session → Session
awaits call source s = record s {
  incoming_calls = insert s.incoming_calls call.header.serial source;
}

-- The world behind a call that was written to the client with these bytes.
abbrev pub called : Message → Bus → Bytes → World → World
called call source raw w =
    written (record w { session = awaits call source w.session })
      (record { peer = client; raw = raw; fds = call.fds })

pub get-called :
    (call : Message) (source : Bus) (raw : Bytes) (w : World)
    → get (called call source raw w).incoming_calls call.header.serial ≡ some source
get-called call source raw w =
    get-insert w.incoming_calls call.header.serial call.header.serial source
    ∙ rw (==_refl call.header.serial) refl

module _ (z : Zvariant) (writes : Writes) (call : Message) (w : World) (few : length call.fds ≤ 64)
    (writable : writes w.attempts ≡ true) where
  few_fds : ltb 64 (length call.fds) ≡ false
  few_fds = ground arith

  -- A call from the sandbox bus has the fake name of its sender.
  pub handle_upstream_message-sandbox_call :
      (caller : Bytes) (f : Frame)
      → is_incoming_service_call w.session call Bus.sandbox ≡ true
      → call.header.sender ≡ some caller
      → is_unique_name caller ≡ true
      → IsFramed call f
      → (h : HasField call.header.endian f 7 caller)
      → length (with_text h (to_fake_name caller Bus.sandbox)).fields < 2 ^ 32
      → handle_upstream_message z writes call Bus.sandbox w ≡ (
        ok tt,
        called call Bus.sandbox
            (bytes_of call.header.endian (with_text h (to_fake_name caller Bus.sandbox)))
            w,
      )
  unfolding handle_upstream_message forward_service_call service_call_for_client send
  handle_upstream_message-sandbox_call caller f calls sender unique framed h fits = rw calls (
      rw (rewrite_message_header-to_client call f Bus.sandbox caller framed h sender unique fits)
        (rw (few_fds, writable) refl))

  -- A call from the host bus is given as it is.
  pub handle_upstream_message-host_call :
      is_incoming_service_call w.session call Bus.host ≡ true
      → handle_upstream_message z writes call Bus.host w ≡ (ok tt, called call Bus.host call.raw w)
  unfolding handle_upstream_message forward_service_call service_call_for_client send
  handle_upstream_message-host_call calls = rw (calls, few_fds, writable) refl
