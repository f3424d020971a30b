-- ===== src/Session/Run/Hostpass.antt =====
-- What the closing of the sandbox bus does to a session.
use dbus_router.Bus.{Bus}
use dbus_router.Config.{Glob}
use dbus_router.Prelude.{
  ◌≡◌, refl, Bool, true, false, List, [], ◌∷◌, Result, ok, err, panic, if◌then◌else◌, Bool-cases,
  inl, inr,
}
use dbus_router.Routing.{is_hostpass_client}
use dbus_router.Session.Client.{handle_client_message}
use dbus_router.Session.Upstream.{handle_upstream_message}
use dbus_router.Session.Run.{
  Read, message, closed, failed, Progress, waiting, finished, broken, crashed, rounds, forward_loop,
  select_branch, after_handler,
}
use dbus_router.Session.State.{Peer, client, upstream, World, Writes}
use dbus_router.Zvariant.{Zvariant}

-- What the client and the host bus deliver.
unfoldable pub without_sandbox : List (Peer × Read) → List (Peer × Read)
without_sandbox [] = []
without_sandbox ((client, read) ∷ reads) = (client, read) ∷ without_sandbox reads
without_sandbox ((upstream Bus.host, read) ∷ reads) =
    (upstream Bus.host, read) ∷ without_sandbox reads
without_sandbox ((upstream Bus.sandbox, read) ∷ reads) = without_sandbox reads

-- The sandbox bus is not read any more, or the loop has ended.
IsInactive : Progress → Type 0
IsInactive (waiting true) = ⊥
IsInactive _ = Unit

after_handler-IsInactive : (r : Result (Unit {0}) × World) → IsInactive (after_handler false r).0
unfolding IsInactive
after_handler-IsInactive (ok _, w) = tt
after_handler-IsInactive (err e, w) = tt
after_handler-IsInactive (panic, w) = tt

module _ (z : Zvariant) (glob : Glob) (writes : Writes) (is_hostpass : Bool) where
  select_branch-IsInactive :
      (peer : Peer) (read : Read) (w : World)
      → IsInactive (select_branch z glob writes is_hostpass false peer read w).0
  unfolding select_branch IsInactive
  select_branch-IsInactive client (message msg) w =
      after_handler-IsInactive (handle_client_message writes glob msg w)
  select_branch-IsInactive client closed w = tt
  select_branch-IsInactive client (failed e) w = tt
  select_branch-IsInactive (upstream Bus.host) (message msg) w =
      after_handler-IsInactive (handle_upstream_message z writes msg Bus.host w)
  select_branch-IsInactive (upstream Bus.host) closed w = tt
  select_branch-IsInactive (upstream Bus.host) (failed e) w = tt
  select_branch-IsInactive (upstream Bus.sandbox) read w = tt

  -- Once the sandbox bus is inactive, what it delivers changes nothing.
  rounds-without_sandbox :
      (p : Progress) (reads : List (Peer × Read)) (w : World)
      → IsInactive p
      → rounds z glob writes is_hostpass p reads w
        ≡ rounds z glob writes is_hostpass p (without_sandbox reads) w
  unfolding rounds without_sandbox IsInactive
  rounds-without_sandbox (waiting true) reads w inactive = absurd inactive
  rounds-without_sandbox finished reads w inactive = refl
  rounds-without_sandbox (broken e) reads w inactive = refl
  rounds-without_sandbox crashed reads w inactive = refl
  rounds-without_sandbox (waiting false) [] w inactive = refl
  rounds-without_sandbox (waiting false) ((client, read) ∷ reads) w inactive =
      rounds-without_sandbox (select_branch z glob writes is_hostpass false client read w).0 reads _
        (select_branch-IsInactive client read w)
  rounds-without_sandbox (waiting false) ((upstream Bus.host, read) ∷ reads) w inactive =
      rounds-without_sandbox
        (select_branch z glob writes is_hostpass false (upstream Bus.host) read w).0 reads _
        (select_branch-IsInactive (upstream Bus.host) read w)
  rounds-without_sandbox (waiting false) ((upstream Bus.sandbox, read) ∷ reads) w inactive =
      unfold select_branch in rounds-without_sandbox (waiting false) reads w tt

-- The sandbox bus has closed its connection, or reading from it has failed.
abbrev pub has_ended : Read → Bool
has_ended (message msg) = false
has_ended _ = true

-- The first thing that a session meets is that the sandbox connection closes or cannot be read.
-- For a hostpass client the rest of the session is as if the client and the host bus alone
-- delivered. For every other client the session ends there, without an error, and nothing more is
-- handled.
pub forward_loop-sandbox_ends :
    (z : Zvariant) (glob : Glob) (writes : Writes) (read : Read) (reads : List (Peer × Read))
    (w : World)
    → has_ended read ≡ true
    → forward_loop z glob writes ((upstream Bus.sandbox, read) ∷ reads) w ≡ (
        if is_hostpass_client glob w.config w.client_exe_path
        then rounds z glob writes true (waiting false) (without_sandbox reads) w
        else (finished, w))
unfolding forward_loop rounds select_branch IsInactive
forward_loop-sandbox_ends z glob writes (message msg) reads w ended = cc
forward_loop-sandbox_ends z glob writes closed reads w ended =
    elim (Bool-cases (is_hostpass_client glob w.config w.client_exe_path)) [
      | inl pass ↦ rw pass (rounds-without_sandbox z glob writes true (waiting false) reads w tt)
      | inr no_pass ↦ rw no_pass refl
    ]
forward_loop-sandbox_ends z glob writes (failed e) reads w ended =
    elim (Bool-cases (is_hostpass_client glob w.config w.client_exe_path)) [
      | inl pass ↦ rw pass (rounds-without_sandbox z glob writes true (waiting false) reads w tt)
      | inr no_pass ↦ rw no_pass refl
    ]
