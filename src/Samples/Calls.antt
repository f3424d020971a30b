-- ===== src/Samples/Calls.antt =====
-- The theorems on the bus daemon's methods, at a call that asks for the owner of a fake name.
use dbus_router.Daemon.Body.Frames.{string_body, HasString, extract_name_from_body-HasString}
use dbus_router.Daemon.Routes.Goes.{MethodGoes}
use dbus_router.Bus.{Bus}
use dbus_router.Daemon.Body.Rules.{rule_with}
use dbus_router.Daemon.Routes.{needs_request_rewrite, RouteDecision, needs_response_rewrite}
use dbus_router.FakeName.{from_fake_name, to_fake_name}
use dbus_router.MatchRule.Rule.{Assignment}
use dbus_router.Message.Endian.{Order}
use dbus_router.Message.{Message, MessageHeader, dbus_name, is_text}
use dbus_router.Prelude.{
  ◌<◌, ◌^◌, Bool, List, ◌&&◌, not, ltb, ◌==◌, ◌∷◌, strip_prefix, ◌≡◌, refl, true, some, none, [],
  arith, Bytes, codes, length, ok, str_eq, insert, get,
}
use dbus_router.Session.Client.AboutName.{handle_client_message-about_name}
use dbus_router.Session.Client.Addressed.{written}
use dbus_router.Session.Client.Asked.{CallsDaemon}
use dbus_router.Session.Client.{handle_client_message, remember_call}
use dbus_router.Session.State.{upstream, client, World}
use dbus_router.Message.Prologue.{method_return}
use dbus_router.Samples.{
  sample_zvariant, unique, sample_world, all_writes, sample_frame, sample_message, sample_header,
  sample_message-IsFramed, real_sender-fits, sample_config, sample_glob,
}
use dbus_router.Session.ToClient.Owner.{NamesOwner}
use dbus_router.Session.Upstream.Owner.{handle_upstream_message-owner}
use dbus_router.Session.Upstream.{handle_upstream_message}
use dbus_router.Routing.DaemonCalls.{route_request-MethodGoes}
use dbus_router.Routing.{route_request, is_hostpass_client}
use dbus_router.Text.Utf8.{is_utf8}

-- Visible ASCII without quote, comma and equals sign.
plain : Bytes → Bool
plain [] = true
plain (c ∷ s) =
    ltb 32 c && ltb c 127 && not (c == b'\'') && not (c == b',') && not (c == b'=') && plain s

abbrev daemon_header : Bytes → MessageHeader
daemon_header member = record sample_header {
  destination = some dbus_name;
  interface = some dbus_name;
  member = some member;
}

abbrev daemon_call : Bytes → Bytes → Message
daemon_call member text =
    sample_message (daemon_header member) 7 (codes ":1.5") (string_body Order.little text (0 ∷ []))

daemon_call-HasString :
    (member text : Bytes)
    → length text < 2 ^ 32
    → is_utf8 text ≡ true
    → HasString
        (daemon_call member text)
        (sample_frame 7 (codes ":1.5") (string_body Order.little text (0 ∷ [])))
        text
        (0 ∷ [])
daemon_call-HasString member text fit utf8 = record {
  framed =
      sample_message-IsFramed (daemon_header member) 7 (codes ":1.5")
        (string_body Order.little text (0 ∷ [])) refl real_sender-fits;
  body_is = refl;
  fits = fit;
  utf8_text = utf8;
}

abbrev asks_owner : Message
asks_owner = daemon_call (codes "GetNameOwner") (codes ":h.1.5")

route_request-MethodGoes_example :
    (goal : RouteDecision) × (route_request sample_glob sample_config asks_owner none ≡ ok goal)
    × MethodGoes sample_config (codes "GetNameOwner") (some (codes ":h.1.5")) goal
unfolding is_hostpass_client is_text str_eq is_utf8
route_request-MethodGoes_example =
    route_request-MethodGoes sample_glob sample_config asks_owner none (some (codes ":h.1.5")) refl
      refl
      (extract_name_from_body-HasString asks_owner
        (sample_frame 7 (codes ":1.5") (string_body Order.little (codes ":h.1.5") (0 ∷ [])))
        (codes ":h.1.5") (0 ∷ [])
        (daemon_call-HasString (codes "GetNameOwner") (codes ":h.1.5") (omega arith) refl))

-- a match rule for the signals of a fake name
abbrev asks_signals : List Assignment
asks_signals = (codes "type", codes "signal") ∷ []

abbrev signal_rule : Bytes → Bytes
signal_rule sender = rule_with asks_signals [] sender

abbrev adds_match : Bytes → Message
adds_match sender = daemon_call (codes "AddMatch") (signal_rule sender)

daemon_call-CallsDaemon : (method text : Bytes) → CallsDaemon (daemon_call method text) method
daemon_call-CallsDaemon method text = record {
  to_daemon = refl;
  its_interface = refl;
  its_member = refl;
  no_reply = refl;
}

handle_client_message-about_name_example :
    handle_client_message all_writes sample_glob asks_owner sample_world ≡ (
      ok tt,
      written
          (record sample_world { session = remember_call asks_owner Bus.host sample_world.session })
          (record {
            peer = upstream Bus.host;
            raw = (daemon_call (codes "GetNameOwner") (codes ":1.5")).raw;
            fds = 3 ∷ [];
          }),
    )
unfolding from_fake_name strip_prefix is_utf8 needs_request_rewrite str_eq is_hostpass_client
handle_client_message-about_name_example =
    handle_client_message-about_name sample_glob all_writes asks_owner
      (sample_frame 7 (codes ":1.5") (string_body Order.little (codes ":h.1.5") (0 ∷ [])))
      sample_world Bus.host (codes "GetNameOwner") (codes ":h.1.5") (codes ":1.5") (0 ∷ [])
      (daemon_call-CallsDaemon (codes "GetNameOwner") (codes ":h.1.5")) refl
      (daemon_call-HasString (codes "GetNameOwner") (codes ":h.1.5") (omega arith) refl) refl refl
      (omega arith) refl

-- The host bus names the owner.
abbrev owner_reply : Bytes → Message
owner_reply name =
    sample_message
      (record sample_header {
        msg_type = method_return;
        sender = some dbus_name;
        reply_serial = some 7;
      })
      7 (codes ":1.5") (string_body Order.little name (0 ∷ []))

abbrev asked_world : World
asked_world = record sample_world {
  session = remember_call asks_owner Bus.host sample_world.session;
}

owner_reply-NamesOwner : NamesOwner (owner_reply (codes ":1.5")) Bus.host asked_world.pending_calls
unfolding insert get needs_response_rewrite str_eq
owner_reply-NamesOwner = record {
  serial = 7;
  method = codes "GetNameOwner";
  returns = refl;
  answers = refl;
  called = refl;
  gives_name = refl;
  one_name = refl;
}

handle_upstream_message-owner_example :
    handle_upstream_message sample_zvariant all_writes
      (owner_reply (codes ":1.5"))
      Bus.host
      asked_world
    ≡ (
      ok tt,
      written asked_world
          (record { peer = client; raw = (owner_reply (codes ":h.1.5")).raw; fds = 3 ∷ [] }),
    )
unfolding to_fake_name strip_prefix is_utf8 get
handle_upstream_message-owner_example =
    handle_upstream_message-owner sample_zvariant all_writes (owner_reply (codes ":1.5"))
      (sample_frame 7 (codes ":1.5") (string_body Order.little (codes ":1.5") (0 ∷ []))) asked_world
      Bus.host (codes ":1.5") (0 ∷ [])
      (record {
        framed =
            sample_message-IsFramed (owner_reply (codes ":1.5")).header 7 (codes ":1.5")
              (string_body Order.little (codes ":1.5") (0 ∷ [])) refl real_sender-fits;
        body_is = refl;
        fits = omega arith;
        utf8_text = refl;
      })
      unique refl owner_reply-NamesOwner refl (omega arith) refl
