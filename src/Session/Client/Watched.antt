-- ===== src/Session/Client/Watched.antt =====
-- The client asks the bus daemon for the messages from a fake name.
use dbus_router.Bus.{Bus}
use dbus_router.Config.{Glob}
use dbus_router.Daemon.Body.Frames.{with_body, string_body, HasString}
use dbus_router.Daemon.Body.Rules.{IsSenderRule, rule_with}
use dbus_router.FakeName.{from_fake_name}
use dbus_router.MatchRule.Rule.{Assignment}
use dbus_router.Message.Frame.{Frame, bytes_of}
use dbus_router.Message.{Message, dbus_name, is_text}
use dbus_router.Prelude.{◌≡◌, ap, true, some, List, [], ◌∷◌, Bytes, codes, str_eq_refl, ◌⊎◌}
use dbus_router.Session.Client.Asked.{CallsDaemon}
use dbus_router.Session.Client.{rewrite_request_body, rewrite_member_body}
use dbus_router.Session.State.{World, Writes}

pub rewrite_request_body-CallsDaemon :
    (msg : Message) (method : Bytes)
    → CallsDaemon msg method
    → rewrite_request_body msg ≡ rewrite_member_body msg (some method)
unfolding rewrite_request_body is_text
rewrite_request_body-CallsDaemon msg method call =
    let daemon : is_text msg.header.destination dbus_name ≡ true =
      rw call.to_daemon (str_eq_refl dbus_name) in
    rw daemon (ap (rewrite_member_body msg) call.its_member)

module _ (glob : Glob) (writes : Writes) (msg : Message) (f : Frame) (w : World) (bus : Bus)
    (method fake real : Bytes) (call : CallsDaemon msg method)
    (faked : from_fake_name fake ≡ some (real, bus)) where
  module _ (before after : List Assignment) (rest : Bytes) (is : IsSenderRule before after fake)
      (s : HasString msg f (rule_with before after fake) rest)
      (watches : (method ≡ codes "AddMatch") ⊎ (method ≡ codes "RemoveMatch")) where
    real_rule : Bytes
    real_rule =
        bytes_of msg.header.endian
          (with_body f (string_body msg.header.endian (rule_with before after real) (0 ∷ [])))
