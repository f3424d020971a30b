-- ===== src/Session/Run/Written.antt =====
-- What a whole session writes, by what its handlers write.
use dbus_router.Bus.{Bus}
use dbus_router.Config.{Glob}
use dbus_router.Message.{Message}
use dbus_router.Prelude.{
  ◌≡◌, refl, ◌∙◌, Bool, true, false, List, [], ◌∷◌, All, Result, ok, err, panic,
}
use dbus_router.Session.Adds.{Added, Added-none, Added-trans, SameClient}
use dbus_router.Session.Client.{handle_client_message}
use dbus_router.Session.Run.{
  Read, message, closed, failed, Progress, waiting, finished, broken, crashed, rounds,
  select_branch, after_handler,
}
use dbus_router.Session.State.{Session, Peer, client, upstream, Sent, World, Writes}
use dbus_router.Session.Targets.{ForClient}
use dbus_router.Session.Upstream.OnlyClient.{handle_upstream_message-Adds}
use dbus_router.Session.Upstream.{handle_upstream_message}
use dbus_router.Zvariant.{Zvariant}

All-weaken :
    {P Q : Sent → Type 0} (h : (s : Sent) → P s → Q s) (new : List Sent) → All P new → All Q new
All-weaken h [] a = tt
All-weaken h (s ∷ new) a = (h s a.0, All-weaken h new a.1)

pub Added-weaken :
    {P Q : Sent → Type 0} (h : (s : Sent) → P s → Q s) (w w' : World) → Added P w w' → Added Q w w'
Added-weaken h w w' a = record {
  new = a.new;
  appended = a.appended;
  allowed = All-weaken h a.new a.allowed;
  same_client = a.same_client;
}

after_handler-world :
    (active : Bool) (r : Result (Unit {0}) × World) → (after_handler active r).1 ≡ r.1
after_handler-world active (ok _, w) = refl
after_handler-world active (err e, w) = refl
after_handler-world active (panic, w) = refl

-- The messages of the client among what is delivered.
abbrev pub FromClient : (Message → Type 0) → Peer × Read → Type 0
FromClient Fine (client, message msg) = Fine msg
FromClient Fine _ = Unit

module _ (z : Zvariant) (glob : Glob) (writes : Writes) (is_hostpass : Bool) (P : Sent → Type 0)
    (Fine : Message → Type 0) (base : Session) (for_client : (s : Sent) → ForClient s → P s)
    (for_buses : (msg : Message) (w : World)
      → SameClient base w.session
      → Fine msg
      → Added P w (handle_client_message writes glob msg w).1) where
  from_bus :
      (active : Bool) (bus : Bus) (read : Read) (w : World)
      → Added P w (select_branch z glob writes is_hostpass active (upstream bus) read w).1
  unfolding select_branch
  from_bus active Bus.host (message msg) w =
      rw (after_handler-world active (handle_upstream_message z writes msg Bus.host w))
        (Added-weaken for_client w _ (handle_upstream_message-Adds z writes msg Bus.host w))
  from_bus active Bus.host closed w = Added-none w w refl (refl, refl)
  from_bus active Bus.host (failed e) w = Added-none w w refl (refl, refl)
  from_bus false Bus.sandbox read w = Added-none w w refl (refl, refl)
  from_bus true Bus.sandbox (message msg) w =
      rw (after_handler-world true (handle_upstream_message z writes msg Bus.sandbox w))
        (Added-weaken for_client w _ (handle_upstream_message-Adds z writes msg Bus.sandbox w))
  from_bus true Bus.sandbox closed w = Added-none w w refl (refl, refl)
  from_bus true Bus.sandbox (failed e) w = Added-none w w refl (refl, refl)

  from_peer :
      (active : Bool) (peer : Peer) (read : Read) (w : World)
      → SameClient base w.session
      → FromClient Fine (peer, read)
      → Added P w (select_branch z glob writes is_hostpass active peer read w).1
  unfolding select_branch
  from_peer active (upstream bus) read w k f = from_bus active bus read w
  from_peer active client (message msg) w k f =
      rw (after_handler-world active (handle_client_message writes glob msg w))
        (for_buses msg w k f)
  from_peer active client closed w k f = Added-none w w refl (refl, refl)
  from_peer active client (failed e) w k f = Added-none w w refl (refl, refl)

  pub rounds-Added :
      (p : Progress) (reads : List (Peer × Read)) (w : World)
      → SameClient base w.session
      → All (FromClient Fine) reads
      → Added P w (rounds z glob writes is_hostpass p reads w).1
  unfolding rounds
  rounds-Added finished reads w k f = Added-none w w refl (refl, refl)
  rounds-Added (broken e) reads w k f = Added-none w w refl (refl, refl)
  rounds-Added crashed reads w k f = Added-none w w refl (refl, refl)
  rounds-Added (waiting active) [] w k f = Added-none w w refl (refl, refl)
  rounds-Added (waiting active) ((peer, read) ∷ reads) w k (f, fs) =
      let r = select_branch z glob writes is_hostpass active peer read w in
      let a = from_peer active peer read w k f in
      Added-trans w r.1 _ a
        (rounds-Added r.0 reads r.1 (a.same_client.0 ∙ k.0, a.same_client.1 ∙ k.1) fs)
