-- ===== src/Session/Merge.antt =====
-- `process_merge_response`: the replies to a ListNames or ListActivatableNames sent to both buses.
pub mod BothOrders
use dbus_router.Bus.{Bus}
use dbus_router.Daemon.Body.{parse_string_array}
use dbus_router.Daemon.Names.{merge_list_names, build_list_names_response}
use dbus_router.Message.{Message}
use dbus_router.Prelude.{
  ℕ, Option, none, some, List, Bytes, Table, get, insert, remove, Result, ok, ◌>>=◌,
}
use dbus_router.Session.State.{PendingMerge, recover}
use dbus_router.Zvariant.{Zvariant}

pub data MergeOutcome : Type 0 where
  not_merging awaiting : MergeOutcome
  merged : Bytes → MergeOutcome

-- `first_bus == Bus::Host`: which names are the host's
abbrev by_bus : Bus → List Bytes → List Bytes → List Bytes
by_bus Bus.host first_names names = merge_list_names first_names names
by_bus Bus.sandbox first_names names = merge_list_names names first_names

module _ (z : Zvariant) where
  resolve :
      Message
      → Bus
      → Table PendingMerge
      → ℕ
      → PendingMerge
      → List Bytes
      → Option (Bus × List Bytes)
      → Result (MergeOutcome × Table PendingMerge)
  resolve msg source merges serial pending names none =
      ok (awaiting, insert merges serial (record pending { first_response = some (source, names) }))
  resolve msg source merges serial pending names (some (first_bus, first_names)) = do
    response ←
        recover msg.raw (
          build_list_names_response z pending.original_request (by_bus first_bus first_names names))
    ok (merged response, remove merges serial)

  merge_reply :
      Message
      → Bus
      → Table PendingMerge
      → ℕ
      → Option PendingMerge
      → Result (MergeOutcome × Table PendingMerge)
  unfolding resolve
  merge_reply msg source merges serial none = ok (not_merging, merges)
  merge_reply msg source merges serial (some pending) = do
    names ← parse_string_array z msg
    resolve msg source merges serial pending names pending.first_response

  merge_serial :
      Message → Bus → Table PendingMerge → Option ℕ → Result (MergeOutcome × Table PendingMerge)
  unfolding merge_reply
  merge_serial msg source merges none = ok (not_merging, merges)
  merge_serial msg source merges (some serial) =
      merge_reply msg source merges serial (get merges serial)

  -- The outcome, and the pending merges that are left.
  unfoldable pub process_merge_response :
      Message → Bus → Table PendingMerge → Result (MergeOutcome × Table PendingMerge)
  unfolding merge_serial
  process_merge_response msg source merges = merge_serial msg source merges msg.header.reply_serial
