-- ===== src/Session/Upstream/Remembers.antt =====
-- The calls that the client still has to answer.
use dbus_router.Bus.{Bus}
use dbus_router.Message.{Message}
use dbus_router.Prelude.{
  ℕ, ◌≡◌, refl, ◌∙◌, ap, true, Bool-cases, inl, inr, some, List, Bytes, length, ltb, ◌==◌,
  if◌then◌else◌, get, insert, get-insert, Result, ok, err, panic,
}
use dbus_router.Session.State.{
  Peer, client, Session, World, Writes, continue, send, max_fds_per_message,
}
use dbus_router.Session.Upstream.{
  is_incoming_service_call, service_call_for_client, forward_service_call, handle_upstream_message,
}
use dbus_router.Zvariant.{Zvariant}

-- Writing leaves the session as it is.
pub send-session :
    (writes : Writes) (peer : Peer) (raw : Bytes) (fds : List ℕ) (w : World)
    → (send writes peer raw fds w).1.session ≡ w.session
unfolding send
send-session writes peer raw fds w = elim (Bool-cases (ltb max_fds_per_message (length fds))) [
  | inl many ↦ rw many refl
  | inr few ↦ elim (Bool-cases (writes w.attempts)) [
    | inl done ↦ rw (few, done) refl
    | inr refused ↦ rw (few, refused) refl
  ]
]

send_result-session :
    (writes : Writes) (r : Result Message) (w : World)
    → (continue r (λ m. send writes client m.raw m.fds) w).1.session ≡ w.session
send_result-session writes (ok m) w = send-session writes client m.raw m.fds w
send_result-session writes (err e) w = refl
send_result-session writes panic w = refl

-- A call of a service of the client is remembered under its serial with the bus that made it,
-- whatever was remembered under that serial before and whether or not the call reaches the client.
-- What is remembered under other serials stays.
pub handle_upstream_message-remembers :
    (z : Zvariant) (writes : Writes) (msg : Message) (source : Bus) (w : World) (serial : ℕ)
    → is_incoming_service_call w.session msg source ≡ true
    → get (handle_upstream_message z writes msg source w).1.incoming_calls serial
      ≡ (if msg.header.serial == serial then some source else get w.incoming_calls serial)
unfolding handle_upstream_message forward_service_call
handle_upstream_message-remembers z writes msg source w serial call = rw call (
    ap (λ (s : Session). get s.incoming_calls serial)
      (send_result-session writes (service_call_for_client msg source) (record w {
        session = record w.session {
          incoming_calls = insert w.incoming_calls msg.header.serial source;
        };
      }))
    ∙ get-insert w.incoming_calls msg.header.serial serial source)
