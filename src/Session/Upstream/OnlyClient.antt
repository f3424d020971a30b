-- ===== src/Session/Upstream/OnlyClient.antt =====
-- What a bus sends reaches the client only.
use dbus_router.Bus.{Bus}
use dbus_router.Message.{Message}
use dbus_router.Prelude.{Bool-cases, inl, inr, Table}
use dbus_router.Session.Adds.{Added, Adds, adds_rules}
use dbus_router.Session.Merge.{MergeOutcome, not_merging, awaiting, merged}
use dbus_router.Session.State.{PendingCallInfo, PendingMerge, World, Writes}
use dbus_router.Session.Upstream.{
  is_incoming_service_call, forward_service_call, plain_with, forward_plain, after_merge,
  reply_with, forward_reply, handle_upstream_message,
}
use dbus_router.Session.Targets.{ForClient, send-ForClient}
use dbus_router.Zvariant.{Zvariant}

ruleset client_rules = (adds_rules, send-ForClient)

module _ (z : Zvariant) (writes : Writes) where
  plain_with-Adds :
      (msg : Message) (source : Bus) (pending_calls : Table PendingCallInfo)
      → Adds ForClient (plain_with z writes msg source pending_calls)
  unfolding plain_with
  plain_with-Adds msg source pending_calls = search client_rules

  forward_plain-Adds :
      (msg : Message) (source : Bus) → Adds ForClient (forward_plain z writes msg source)
  unfolding forward_plain
  forward_plain-Adds msg source = record {
    at = λ w. (plain_with-Adds msg source w.pending_calls).at w;
  }

  after_merge-Adds :
      (msg : Message) (source : Bus) (outcome : MergeOutcome)
      → Adds ForClient (after_merge z writes msg source outcome)
  unfolding after_merge
  after_merge-Adds msg source not_merging = forward_plain-Adds msg source
  after_merge-Adds msg source awaiting = search client_rules
  after_merge-Adds msg source (merged response) = search client_rules

  reply_with-Adds :
      (msg : Message) (source : Bus) (merges : Table PendingMerge)
      → Adds ForClient (reply_with z writes msg source merges)
  unfolding reply_with
  reply_with-Adds msg source merges = search (client_rules, after_merge-Adds)

  forward_reply-Adds :
      (msg : Message) (source : Bus) → Adds ForClient (forward_reply z writes msg source)
  unfolding forward_reply
  forward_reply-Adds msg source = record {
    at = λ w. (reply_with-Adds msg source w.pending_merges).at w;
  }

  forward_service_call-Adds :
      (msg : Message) (source : Bus) → Adds ForClient (forward_service_call z writes msg source)
  unfolding forward_service_call
  forward_service_call-Adds msg source = search client_rules

  -- Whatever arrives from a bus, and whether its handling succeeds, fails or panics: what is
  -- written is added behind what was written before, goes to the client only, and has at most 64
  -- descriptors a message.
  pub handle_upstream_message-Adds :
      (msg : Message) (source : Bus) (w : World)
      → Added ForClient w (handle_upstream_message z writes msg source w).1
  unfolding handle_upstream_message
  handle_upstream_message-Adds msg source w =
      elim (Bool-cases (is_incoming_service_call w.session msg source)) [
        | inl call ↦ rw call ((forward_service_call-Adds msg source).at w)
        | inr other ↦ rw other ((forward_reply-Adds msg source).at w)
      ]
