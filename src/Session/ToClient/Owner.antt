-- ===== src/Session/ToClient/Owner.antt =====
-- The body of a reply that names the owner of a name.
use dbus_router.Bus.{Bus, bus_eq}
use dbus_router.Daemon.Body.{rewrite_single_name_response}
use dbus_router.Daemon.Routes.{needs_response_rewrite}
use dbus_router.Message.Prologue.{MessageType, method_return}
use dbus_router.Message.{Message}
use dbus_router.Prelude.{
  ◌≡◌, refl, ap, ◌∙◌, true, false, some, Bytes, codes, str_eq, Table, get, ok, ℕ,
}
use dbus_router.Rewrite.{rewrite_message_header, to_client}
use dbus_router.Session.State.{PendingCallInfo}
use dbus_router.Session.ToClient.{
  rewrite_response, rewrite_for_member, rewrite_for_call, rewrite_for_serial,
  rewrite_method_return_body, rewrite_for_type, prepare_message_for_client,
}
use dbus_router.Zvariant.{Zvariant}

bus_eq_refl : (bus : Bus) → bus_eq bus bus ≡ true
unfolding bus_eq
bus_eq_refl Bus.host = refl
bus_eq_refl Bus.sandbox = refl

-- The reply answers a call whose method gives one name.
pub record NamesOwner (msg : Message) (source : Bus) (pending_calls : Table PendingCallInfo)
    : Type 0 where
  pub serial : ℕ
  pub method : Bytes
  pub returns : msg.header.msg_type ≡ method_return
  pub answers : msg.header.reply_serial ≡ some serial
  pub called : get pending_calls serial ≡ some (record { bus = source; member = some method })
  pub gives_name : needs_response_rewrite method ≡ true
  pub one_name : str_eq method (codes "ListQueuedOwners") ≡ false

module _ (z : Zvariant) (msg : Message) (source : Bus) (pending_calls : Table PendingCallInfo)
    (n : NamesOwner msg source pending_calls) where
  module _ (raw : Bytes) (rewritten : rewrite_single_name_response msg source ≡ ok raw) where
    for_method : rewrite_for_member z msg source (some n.method) ≡ ok raw
    unfolding rewrite_for_member rewrite_response
    for_method = rw (n.gives_name, n.one_name, rewritten) refl

    for_serial : rewrite_for_serial z msg source pending_calls (some n.serial) ≡ ok raw
    unfolding rewrite_for_serial rewrite_for_call
    for_serial = rw (n.called, bus_eq_refl source) for_method

    for_type : rewrite_for_type z msg.header.msg_type msg source pending_calls ≡ ok raw
    unfolding rewrite_for_type rewrite_method_return_body
    for_type =
        ap (λ (t : MessageType). rewrite_for_type z t msg source pending_calls) n.returns
        ∙ ap (rewrite_for_serial z msg source pending_calls) n.answers
        ∙ for_serial

    pub prepare_message_for_client-NamesOwner :
        rewrite_message_header msg to_client source ≡ ok msg
        → prepare_message_for_client z msg source pending_calls ≡ ok (raw, msg.fds)
    unfolding prepare_message_for_client
    prepare_message_for_client-NamesOwner kept = rw (kept, for_type) refl
