-- ===== src/Session/Targets.antt =====
-- To whom a session writes.
use dbus_router.Bus.{Bus}
use dbus_router.Prelude.{ℕ, ◌≤◌, ◌≡◌, refl, List, Bytes, length}
use dbus_router.Session.Adds.{Adds, Adds-send, Adds-bind}
use dbus_router.Session.State.{client, upstream, Sent, max_fds_per_message, Writes, send, send_both}

-- A message for the client, with no more descriptors than a message may carry.
pub record ForClient (s : Sent) : Type 0 where
  pub to_client : s.peer ≡ client
  pub few_fds : length s.fds ≤ max_fds_per_message

-- A message for a bus among `allowed`.
pub record ForBus (allowed : Bus → Type 0) (s : Sent) : Type 0 where
  pub bus : Bus
  pub to_bus : s.peer ≡ upstream bus
  pub bus_allowed : allowed bus
  pub few_fds : length s.fds ≤ max_fds_per_message

pub send-ForClient :
    (writes : Writes) (raw : Bytes) (fds : List ℕ) → Adds ForClient (send writes client raw fds)
send-ForClient writes raw fds =
    Adds-send writes client raw fds (λ few. record { to_client = refl; few_fds = few })

pub send-ForBus :
    {allowed : Bus → Type 0} (writes : Writes) (bus : Bus) (raw : Bytes) (fds : List ℕ)
    → allowed bus
    → Adds (ForBus allowed) (send writes (upstream bus) raw fds)
send-ForBus writes bus raw fds a =
    Adds-send writes (upstream bus) raw fds
      (λ few. record { bus = bus; to_bus = refl; bus_allowed = a; few_fds = few })

pub send_both-ForBus :
    {allowed : Bus → Type 0} (writes : Writes) (raw : Bytes) (fds : List ℕ)
    → allowed Bus.host
    → allowed Bus.sandbox
    → Adds (ForBus allowed) (send_both writes raw fds)
send_both-ForBus writes raw fds h s =
    unfold send_both in
    Adds-bind (send writes (upstream Bus.host) raw fds)
      (λ _. send writes (upstream Bus.sandbox) raw fds) (send-ForBus writes Bus.host raw fds h)
      (λ _. send-ForBus writes Bus.sandbox raw fds s)
