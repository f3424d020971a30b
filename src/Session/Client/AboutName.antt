-- ===== src/Session/Client/AboutName.antt =====
-- The client asks the bus daemon about a fake name.
use dbus_router.Bus.{Bus}
use dbus_router.Config.{Glob}
use dbus_router.Daemon.Body.Frames.{
  with_body, string_body, HasString, extract_name_from_body-HasString,
  rewrite_unique_name_request-HasString,
}
use dbus_router.Daemon.Routes.Calls.{route_dbus_method-listed}
use dbus_router.Daemon.Routes.{
  single, by_name, is_member_of, methods_need_request_rewrite, needs_request_rewrite,
  find_method_spec, route_by_kind, route_dbus_method,
}
use dbus_router.FakeName.Shown.{get_bus-from_fake_name}
use dbus_router.FakeName.{from_fake_name}
use dbus_router.Message.Frame.{Frame, bytes_of}
use dbus_router.Message.{Message}
use dbus_router.Prelude.{
  ◌≤◌, ◌≡◌, refl, ◌∙◌, Bool, true, false, some, List, [], ◌∷◌, All, Bool-cases, inl, inr, Bytes,
  codes, length, ok, str_eq, str_eq_iff,
}
use dbus_router.Routing.{is_hostpass_client}
use dbus_router.Session.Client.Addressed.{written}
use dbus_router.Session.Client.Asked.{CallsDaemon, handle_client_message-asked}
use dbus_router.Session.Client.Watched.{rewrite_request_body-CallsDaemon}
use dbus_router.Session.Client.{handle_client_message, rewrite_member_body, remember_call}
use dbus_router.Session.State.{World, Writes, upstream}

-- The table has the method as one about a name that may be a fake one.
abbrev TakesFakeName : Bytes → Type 0
TakesFakeName method =
    (check_host_routes : Bool) × (find_method_spec method
      ≡ some (record { member = method; route = by_name check_host_routes true }))
    × (str_eq method (codes "RequestName") ≡ false)

member-All :
    (P : Bytes → Type 0) (s : Bytes) (xs : List Bytes) → is_member_of s xs ≡ true → All P xs → P s
unfolding is_member_of
member-All P s [] h all = cc
member-All P s (x ∷ xs) h (p, all) = elim (Bool-cases (str_eq x s)) [
  | inl same ↦ rw (← (str_eq_iff x s).0 same) p
  | inr other ↦ member-All P s xs (rw other at h) all
]

needs_request_rewrite-TakesFakeName :
    (method : Bytes) → needs_request_rewrite method ≡ true → TakesFakeName method
unfolding needs_request_rewrite find_method_spec str_eq
needs_request_rewrite-TakesFakeName method h =
    member-All TakesFakeName method methods_need_request_rewrite h (
      (false, refl, refl),
      (
        (false, refl, refl),
        (
          (false, refl, refl),
          (
            (false, refl, refl),
            ((false, refl, refl), ((true, refl, refl), ((true, refl, refl), tt))),
          ),
        ),
      ),
    )

module _ (glob : Glob) (writes : Writes) (msg : Message) (f : Frame) (w : World) (bus : Bus)
    (method fake real rest : Bytes) (call : CallsDaemon msg method)
    (faked : from_fake_name fake ≡ some (real, bus)) (s : HasString msg f fake rest)
    (asks : needs_request_rewrite method ≡ true) where
  real_name : Bytes
  real_name = bytes_of msg.header.endian (with_body f (string_body msg.header.endian real (0 ∷ [])))

  routed_by_name :
      (check_host_routes : Bool)
      → route_by_kind w.config msg (by_name check_host_routes true) ≡ ok (single bus)
  unfolding route_by_kind
  routed_by_name check_host_routes =
      rw (extract_name_from_body-HasString msg f fake rest s)
        (rw (get_bus-from_fake_name fake real bus faked) refl)

  routed : route_dbus_method w.config msg ≡ ok (single bus)
  routed =
      let (check_host_routes, listed, _) = needs_request_rewrite-TakesFakeName method asks in
      route_dbus_method-listed w.config msg method _ call.its_member listed
      ∙ routed_by_name check_host_routes

  rewritten : rewrite_member_body msg (some method) ≡ ok real_name
  unfolding rewrite_member_body real_name
  rewritten =
      rw asks (rw (rewrite_unique_name_request-HasString msg f fake rest s real bus faked) refl)

  -- A client without a hostpass calls a method of the bus daemon that is in
  -- METHODS_NEED_REQUEST_REWRITE, with at most 64 descriptors. The call's raw bytes are laid out as the
  -- specification has it, and its body starts with a fake name in UTF-8. If the write succeeds, the
  -- handling succeeds: exactly one message is written, to the bus of the fake name, which is the client's
  -- with a body that is the real name; and the session changes only in that the bus and the method are
  -- remembered under the call's serial.
  pub handle_client_message-about_name :
      is_hostpass_client glob w.config w.client_exe_path ≡ false
      → length msg.fds ≤ 64
      → writes w.attempts ≡ true
      → handle_client_message writes glob msg w ≡ (
        ok tt,
        written
            (record w { session = remember_call msg bus w.session })
            (record {
              peer = upstream bus;
              raw =
                  bytes_of msg.header.endian
                    (with_body f (string_body msg.header.endian real (0 ∷ [])));
              fds = msg.fds;
            }),
      )
  unfolding real_name
  handle_client_message-about_name no_pass few writable =
      let (_, _, other) = needs_request_rewrite-TakesFakeName method asks in
      handle_client_message-asked glob writes msg w bus method real_name call routed
        (rewrite_request_body-CallsDaemon msg method call ∙ rewritten) few writable no_pass other
