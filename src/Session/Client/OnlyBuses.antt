-- ===== src/Session/Client/OnlyBuses.antt =====
-- What the client sends reaches the buses only, and which of them.
use dbus_router.Bus.{Bus}
use dbus_router.Config.{Glob, Config}
use dbus_router.Daemon.Routes.{RouteDecision, single, both, merge}
use dbus_router.Message.{Message}
use dbus_router.Prelude.{false, Option, none, some, Bytes, Option-cases, inl, inr, ◌≡◌, refl, ok}
use dbus_router.Routing.{route_request}
use dbus_router.Session.Adds.{Added, SameClient, Adds, Added-none, Adds-bind, adds_rules}
use dbus_router.Session.Client.{
  take_call, answer_call, answer_serial, forward_reply_to_caller, forward_by, forward_to_bus,
  forward_to_both, forward_for_merge, track_exported_service, route_with, route_client_message,
  handle_client_message, exported,
}
use dbus_router.Session.State.{Session, World, Writes}
use dbus_router.Session.Targets.{ForBus, send-ForBus, send_both-ForBus}

-- Any bus.
abbrev pub AnyBus : Bus → Type 0
AnyBus bus = Unit

-- The buses that a decision names.
abbrev pub Decided : RouteDecision → Bus → Type 0
Decided (single target) bus = target ≡ bus
Decided _ bus = Unit

exported-SameClient :
    (decision : RouteDecision) (name : Option Bytes) (s : Session)
    → SameClient s (exported decision name s)
unfolding exported
exported-SameClient decision none s = (refl, refl)
exported-SameClient (single Bus.host) (some name) s = (refl, refl)
exported-SameClient (single Bus.sandbox) (some name) s = (refl, refl)
exported-SameClient both (some name) s = (refl, refl)
exported-SameClient merge (some name) s = (refl, refl)

track-Adds :
    {P : Bus → Type 0} (msg : Message) (decision : RouteDecision)
    → Adds (ForBus P) (track_exported_service msg decision)
unfolding track_exported_service
track-Adds msg decision = search (adds_rules, exported-SameClient)

module _ (writes : Writes) where
  forward_to_bus-Adds :
      {P : Bus → Type 0} (msg : Message) (target : Bus)
      → P target
      → Adds (ForBus P) (forward_to_bus writes msg target)
  unfolding forward_to_bus
  forward_to_bus-Adds msg target h = search (adds_rules, send-ForBus)

  forward_by-Adds :
      (decision : RouteDecision) (msg : Message)
      → Adds (ForBus (Decided decision)) (forward_by writes decision msg)
  unfolding forward_by
  forward_by-Adds (single target) msg = forward_to_bus-Adds msg target refl
  forward_by-Adds both msg = unfold forward_to_both in search (adds_rules, send_both-ForBus)
  forward_by-Adds merge msg = unfold forward_for_merge in search (adds_rules, send_both-ForBus)

  -- the same, with the decision forgotten
  forward_by_any-Adds :
      (decision : RouteDecision) (msg : Message)
      → Adds (ForBus AnyBus) (forward_by writes decision msg)
  unfolding forward_by
  forward_by_any-Adds (single target) msg = forward_to_bus-Adds msg target tt
  forward_by_any-Adds both msg = unfold forward_to_both in search (adds_rules, send_both-ForBus)
  forward_by_any-Adds merge msg = unfold forward_for_merge in search (adds_rules, send_both-ForBus)

  answer_serial-Adds :
      (msg : Message) (source : Option Bus) → Adds (ForBus AnyBus) (answer_serial writes msg source)
  unfolding answer_serial
  answer_serial-Adds msg none = search adds_rules
  answer_serial-Adds msg (some source) = unfold answer_call in search (adds_rules, send-ForBus)

  take_call-Adds : {P : Bus → Type 0} (msg : Message) → Adds (ForBus P) (take_call writes msg)
  unfolding take_call
  take_call-Adds msg = record {
    at = λ w. elim (Option-cases msg.header.reply_serial) [
      | inl no_serial ↦ rw no_serial (Added-none w w refl (refl, refl))
      | inr (serial, e) ↦ rw e (Added-none w _ refl (refl, refl))
    ];
  }

  reply_to_caller-Adds : (msg : Message) → Adds (ForBus AnyBus) (forward_reply_to_caller writes msg)
  unfolding forward_reply_to_caller
  reply_to_caller-Adds msg = search (adds_rules, take_call-Adds, answer_serial-Adds)

  module _ (glob : Glob) where
    route_with-Adds :
        (msg : Message) (config : Config) (exe : Option Bytes)
        → Adds (ForBus AnyBus) (route_with writes glob msg config exe)
    unfolding route_with
    route_with-Adds msg config exe = search (adds_rules, track-Adds, forward_by_any-Adds)

    route_client_message-Adds :
        (msg : Message) → Adds (ForBus AnyBus) (route_client_message writes glob msg)
    unfolding route_client_message
    route_client_message-Adds msg = record {
      at = λ w. (route_with-Adds msg w.config w.client_exe_path).at w;
    }

    handle-Adds : (msg : Message) → Adds (ForBus AnyBus) (handle_client_message writes glob msg)
    unfolding handle_client_message
    handle-Adds msg = search (adds_rules, reply_to_caller-Adds, route_client_message-Adds)

    -- Whatever the client sends, and whether its handling succeeds, fails or panics: what is
    -- written is added behind what was written before, goes to the buses only, and has at most 64
    -- descriptors a message.
    pub handle_client_message-Adds :
        (msg : Message) (w : World)
        → Added (ForBus AnyBus) w (handle_client_message writes glob msg w).1
    handle_client_message-Adds msg w = (handle-Adds msg).at w

    -- A message that answers no call and is routed to one bus is written to that bus only.
    pub handle_client_message-single :
        (msg : Message) (w : World) (target : Bus)
        → (forward_reply_to_caller writes msg w) ≡ (ok false, w)
        → route_request glob w.config msg w.client_exe_path ≡ ok (single target)
        → Added (ForBus (λ bus. target ≡ bus)) w (handle_client_message writes glob msg w).1
    unfolding handle_client_message route_client_message route_with
    handle_client_message-single msg w target no_call routed =
        rw (no_call, routed)
          ((Adds-bind (track_exported_service msg (single target))
              (λ _. forward_by writes (single target) msg) (track-Adds msg (single target))
              (λ _. forward_by-Adds (single target) msg)).at
            w)
