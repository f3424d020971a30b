-- ===== src/Session/Run/Bounds.antt =====
-- What a whole session writes.
use dbus_router.Config.{Glob}
use dbus_router.Prelude.{◌≤◌, refl, true, List, [], ◌∷◌, All, length}
use dbus_router.Session.Adds.{Added}
use dbus_router.Session.Client.OnlyBuses.{handle_client_message-Adds}
use dbus_router.Session.Run.Written.{FromClient, Added-weaken, rounds-Added}
use dbus_router.Session.Run.{Read, message, closed, failed, waiting, forward_loop}
use dbus_router.Session.State.{Peer, client, upstream, Sent, World, Writes, max_fds_per_message}
use dbus_router.Session.Targets.{ForClient}
use dbus_router.Zvariant.{Zvariant}
use dbus_router.Routing.{is_hostpass_client}

-- No more descriptors than one message may carry.
abbrev pub FewFds : Sent → Type 0
FewFds s = length s.fds ≤ max_fds_per_message

to_client : (s : Sent) → ForClient s → FewFds s
to_client s f = f.few_fds

every : (reads : List (Peer × Read)) → All (FromClient (λ msg. Unit {0})) reads
every [] = tt
every ((client, message msg) ∷ reads) = (tt, every reads)
every ((client, closed) ∷ reads) = (tt, every reads)
every ((client, failed e) ∷ reads) = (tt, every reads)
every ((upstream bus, read) ∷ reads) = (tt, every reads)

-- Over a whole session, however the deliveries of the three connections interleave and however it
-- ends: what is written is added behind what was written before, and no message has more than 64
-- descriptors.
pub forward_loop-Added :
    (z : Zvariant) (glob : Glob) (writes : Writes) (reads : List (Peer × Read)) (w : World)
    → Added FewFds w (forward_loop z glob writes reads w).1
unfolding forward_loop
forward_loop-Added z glob writes reads w =
    rounds-Added z glob writes (is_hostpass_client glob w.config w.client_exe_path) FewFds
      (λ msg. Unit {0}) w.session to_client
      (λ msg v k u.
        Added-weaken (λ s f. f.few_fds) v _ (handle_client_message-Adds writes glob msg v))
      (waiting true) reads w (refl, refl) (every reads)
