-- ===== src/Router/Isolation.antt =====
-- What the router's sessions write to the host bus.
use dbus_router.Address.Connect.{Kernel, connect_dbus}
use dbus_router.Config.{Config, Glob}
use dbus_router.Prelude.{
  ◌≡◌, refl, sym, ◌∙◌, ap, false, Option, none, some, List, [], ◌∷◌, ◌++◌, All, Bytes, Result, ok,
  err, panic, began_ok,
}
use dbus_router.Router.{
  Router, Files, Served, session, Client, run_opened, serve_opened, serve_client, accept_loop,
  removed, bound, run_router,
}
use dbus_router.Routing.{is_hostpass_client}
use dbus_router.Session.Open.{PeerInfo, get_peer_exe_path, Opened, new_world, new}
use dbus_router.Session.Adds.{Added}
use dbus_router.Session.Run.Isolation.{NotForHost, IsSandboxed}
use dbus_router.Session.Run.Written.{FromClient}
use dbus_router.Session.Startup.Isolation.{run-sandboxed}
use dbus_router.Session.State.{Sent, World}
use dbus_router.Zvariant.{Zvariant}

-- No message was written to the host bus.
abbrev pub Isolated : Served → Type 0
Isolated (session course w) = All NotForHost w.sent
Isolated _ = Unit

only_added : {P : Sent → Type 0} (w w' : World) → w.sent ≡ [] → Added P w w' → All P w'.sent
only_added w w' e a =
    let only_new : w'.sent ≡ a.new = a.appended ∙ ap (λ (l : List Sent). l ++ a.new) e in
    rw only_new a.allowed

module _ (k : Kernel) (z : Zvariant) (glob : Glob) where
  -- A client without a hostpass whose messages have no business on the host bus.
  pub record IsSandboxedClient (config : Config) (c : Client k) : Type 0 where
    pub no_pass : is_hostpass_client glob config (get_peer_exe_path c.peer) ≡ false
    pub messages :
        (host_bus sandbox_bus : k.Socket)
        → All
            (FromClient (IsSandboxed (new_world k (get_peer_exe_path c.peer) config).session))
            (c.traffic host_bus sandbox_bus).reads

  abbrev pub Accepted : Config → Option (Client k) → Type 0
  Accepted config none = Unit
  Accepted config (some c) = IsSandboxedClient config c

  new-world :
      (info : PeerInfo) (host_addr sandbox_addr : Bytes) (config : Config) (o : Opened k)
      → new k info host_addr sandbox_addr config ≡ ok o
      → o.world ≡ new_world k (get_peer_exe_path info) config
  unfolding new
  new-world info host_addr sandbox_addr config o e =
      let (host_bus, _, e') = began_ok (connect_dbus k host_addr) _ e in
      let (sandbox_bus, _, e'') = began_ok (connect_dbus k sandbox_addr) _ e' in cc (e'')

  serve_opened-Isolated :
      (r : Router) (c : Client k) (o : Result (Opened k))
      → new k c.peer r.host_addr r.sandbox_addr r.config ≡ o
      → IsSandboxedClient r.config c
      → Isolated (serve_opened k z glob c o)
  unfolding serve_opened run_opened
  serve_opened-Isolated r c panic e s = tt
  serve_opened-Isolated r c (err why) e s = tt
  serve_opened-Isolated r c (ok o) e s =
      let start = new-world c.peer r.host_addr r.sandbox_addr r.config o e in
      let t = c.traffic o.host_bus o.sandbox_bus in
      let added =
        run-sandboxed z glob t.writes t.reads o.world (rw start s.no_pass)
          (rw start (s.messages o.host_bus o.sandbox_bus)) t.auth_writes t.events t.host_writes
          t.uid t.host_stream in
      let none_sent : o.world.sent ≡ [] = ap (λ (w : World). w.sent) start in
      only_added o.world _ none_sent added

  serve_client-Isolated :
      (r : Router) (c : Client k)
      → IsSandboxedClient r.config c
      → Isolated (serve_client k z glob r c)
  unfolding serve_client
  serve_client-Isolated r c s =
      serve_opened-Isolated r c (new k c.peer r.host_addr r.sandbox_addr r.config) refl s

  accept_loop-Isolated :
      (r : Router) (accepts : List (Option (Client k)))
      → All (Accepted r.config) accepts
      → All Isolated (accept_loop k z glob r accepts)
  unfolding accept_loop
  accept_loop-Isolated r [] s = tt
  accept_loop-Isolated r (some c ∷ accepts) (s, rest) =
      (serve_client-Isolated r c s, accept_loop-Isolated r accepts rest)
  accept_loop-Isolated r (none ∷ accepts) (_, rest) = accept_loop-Isolated r accepts rest

  -- A router all of whose clients have no hostpass and send only messages that are no replies, are not for
  -- the bus daemon, and have a destination that is neither the fake name of a host peer nor covered by a
  -- host route. Whatever addresses, handshakes, deliveries and failures of `accept` there are, no session
  -- forwards a message to the host bus.
  pub run_router-Isolated :
      (files : Files) (r : Router) (accepts : List (Option (Client k))) (tasks : List Served)
      → All (Accepted r.config) accepts
      → run_router k z glob files r accepts ≡ ok tasks
      → All Isolated tasks
  unfolding run_router
  run_router-Isolated files r accepts tasks s e =
      let (_, _, e') = began_ok (removed files r) _ e in
      let (_, _, e'') = began_ok (bound files r) _ e' in
      let same : accept_loop k z glob r accepts ≡ tasks = cc (e'') in
      rw (sym same) (accept_loop-Isolated r accepts s)
