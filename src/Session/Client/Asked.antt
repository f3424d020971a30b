-- ===== src/Session/Client/Asked.antt =====
-- A call of the bus daemon about a fake name: what is written, and to which bus.
use dbus_router.Bus.{Bus}
use dbus_router.Config.{Glob}
use dbus_router.Daemon.Routes.{single, route_dbus_method}
use dbus_router.FakeName.{get_bus_from_fake_name, from_fake_name}
use dbus_router.Message.{Message, dbus_name, is_text, is_request_name}
use dbus_router.Prelude.{
  ◌≤◌, ◌≡◌, refl, ◌∙◌, codes, true, false, none, some, arith, Bytes, length, ok, ltb, str_eq,
  str_eq_refl, strip_prefix,
}
use dbus_router.Rewrite.{rewrite_message_header, to_upstream}
use dbus_router.Routing.Decisions.{is_for_daemon}
use dbus_router.Routing.DaemonCalls.{route_request-route_dbus_method}
use dbus_router.Routing.{is_hostpass_client}
use dbus_router.Session.Client.Addressed.{written}
use dbus_router.Session.Client.{
  is_reply, forward_reply_to_caller, handle_client_message, route_client_message, route_with,
  forward_by, forward_to_bus, track_exported_service, rewrite_request_body, remember_call,
}
use dbus_router.Session.State.{World, Writes, upstream, send}

-- A call of a method of the bus daemon.
pub record CallsDaemon (msg : Message) (method : Bytes) : Type 0 where
  pub to_daemon : msg.header.destination ≡ some dbus_name
  pub its_interface : msg.header.interface ≡ some dbus_name
  pub its_member : msg.header.member ≡ some method
  pub no_reply : is_reply msg.header.msg_type ≡ false

dbus_name-no_fake : from_fake_name dbus_name ≡ none
unfolding from_fake_name get_bus_from_fake_name strip_prefix
dbus_name-no_fake = refl

module _ (glob : Glob) (writes : Writes) (msg : Message) (w : World) (bus : Bus)
    (method raw : Bytes) (call : CallsDaemon msg method)
    (routed : route_dbus_method w.config msg ≡ ok (single bus))
    (rewritten : rewrite_request_body msg ≡ ok raw) where
  header_kept : rewrite_message_header msg to_upstream bus ≡ ok msg
  unfolding rewrite_message_header from_fake_name get_bus_from_fake_name strip_prefix
  header_kept = rw call.to_daemon refl

  for_daemon : is_for_daemon msg ≡ true
  unfolding is_text
  for_daemon = rw (call.to_daemon, call.its_interface, str_eq_refl dbus_name) refl

  not_tracked :
      str_eq method (codes "RequestName") ≡ false
      → track_exported_service msg (single bus) w ≡ (ok tt, w)
  unfolding track_exported_service is_request_name is_text
  not_tracked other = rw (call.to_daemon, call.its_interface, call.its_member, other) (ground arith)

  module _ (few : length msg.fds ≤ 64) (writable : writes w.attempts ≡ true) where
    few_fds : ltb 64 (length msg.fds) ≡ false
    few_fds = ground arith

    forwarded : forward_to_bus writes msg bus w ≡ (
      ok tt,
      written
          (record w { session = remember_call msg bus w.session })
          (record { peer = upstream bus; raw = raw; fds = msg.fds }),
    )
    unfolding forward_to_bus send
    forwarded = rw (header_kept, rewritten, few_fds, writable) refl

    -- A call of the bus daemon that is routed to one bus, and is not RequestName.
    pub handle_client_message-asked :
        is_hostpass_client glob w.config w.client_exe_path ≡ false
        → str_eq method (codes "RequestName") ≡ false
        → handle_client_message writes glob msg w ≡ (
          ok tt,
          written
              (record w { session = remember_call msg bus w.session })
              (record { peer = upstream bus; raw = raw; fds = msg.fds }),
        )
    unfolding handle_client_message forward_reply_to_caller route_client_message route_with
        forward_by
    handle_client_message-asked no_pass other = rw call.no_reply (
        rw
          (route_request-route_dbus_method glob w.config msg w.client_exe_path no_pass for_daemon
            ∙ routed)
          (rw (not_tracked other) forwarded))
