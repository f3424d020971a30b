-- ===== src/Session/Merge/BothOrders.antt =====
-- The two replies to a merged request, in both orders.
use dbus_router.Bus.{Bus}
use dbus_router.Daemon.Body.{parse_string_array}
use dbus_router.Daemon.Names.{merge_list_names, build_list_names_response}
use dbus_router.Message.{Message}
use dbus_router.Prelude.{
  ℕ, ◌≡◌, refl, Option, none, some, List, Bytes, arith, Table, get, insert, remove, Result, ok,
  ◌>>=◌, get-insert, get-remove,
}
use dbus_router.Session.Merge.{
  MergeOutcome, awaiting, merged, merge_reply, merge_serial, resolve, by_bus,
  process_merge_response,
}
use dbus_router.Session.State.{PendingMerge}
use dbus_router.Zvariant.{Zvariant}

get_inserted : {V : Type 0} (m : Table V) (k : ℕ) (v : V) → get (insert m k v) k ≡ some v
get_inserted m k v = ground (arith, get-insert m k k v)

get_removed : {V : Type 0} (m : Table V) (k : ℕ) → get (remove m k) k ≡ none
get_removed m k = ground (arith, get-remove m k k)

-- The outcomes of two replies that are handled one after the other, and the merges left.
abbrev pub two_replies :
    Zvariant
    → Message × Bus
    → Message × Bus
    → Table PendingMerge
    → Result (MergeOutcome × MergeOutcome × Table PendingMerge)
two_replies z (first, first_bus) (second, second_bus) merges = do
  one ← process_merge_response z first first_bus merges
  two ← process_merge_response z second second_bus one.1
  ok (one.0, two.0, two.1)

module _ (z : Zvariant) (reply : Message) (bus : Bus) (merges : Table PendingMerge)
    (serial : ℕ) where
  first_reply :
      (request : Message) (names : List Bytes) (answers : Option ℕ)
      → answers ≡ some serial
      → get merges serial ≡ some (record { original_request = request; first_response = none })
      → parse_string_array z reply ≡ ok names
      → merge_serial z reply bus merges answers
        ≡ ok (
          awaiting,
          insert merges serial
              (record { original_request = request; first_response = some (bus, names) }),
        )
  unfolding merge_serial merge_reply resolve
  first_reply request names answers a pending lists = rw (a, pending, lists) refl

  second_reply :
      (request : Message) (first_bus : Bus) (first_names names : List Bytes) (response : Bytes)
      (answers : Option ℕ)
      → answers ≡ some serial
      → get merges serial
        ≡ some
            (record { original_request = request; first_response = some (first_bus, first_names) })
      → parse_string_array z reply ≡ ok names
      → build_list_names_response z request (by_bus first_bus first_names names) ≡ ok response
      → merge_serial z reply bus merges answers ≡ ok (merged response, remove merges serial)
  unfolding merge_serial merge_reply resolve
  second_reply request first_bus first_names names response answers a pending lists built =
      rw (a, pending, lists, built) refl

module _ (z : Zvariant) (host_reply sandbox_reply : Message) (merges : Table PendingMerge)
    (serial : ℕ) (request : Message) (host_names sandbox_names : List Bytes) (response : Bytes)
    (host_answers : host_reply.header.reply_serial ≡ some serial)
    (sandbox_answers : sandbox_reply.header.reply_serial ≡ some serial)
    (pending : get merges serial
      ≡ some (record { original_request = request; first_response = none }))
    (host_lists : parse_string_array z host_reply ≡ ok host_names)
    (sandbox_lists : parse_string_array z sandbox_reply ≡ ok sandbox_names)
    (built : build_list_names_response z request (merge_list_names host_names sandbox_names)
      ≡ ok response) where
  waiting_for : Bus → List Bytes → Table PendingMerge
  waiting_for bus names =
      insert merges serial
        (record { original_request = request; first_response = some (bus, names) })

  host_first :
      two_replies z (host_reply, Bus.host) (sandbox_reply, Bus.sandbox) merges
      ≡ ok (awaiting, merged response, remove (waiting_for Bus.host host_names) serial)
  unfolding process_merge_response waiting_for
  host_first =
      rw
        (first_reply z host_reply Bus.host merges serial request host_names _ host_answers pending
          host_lists)
        (rw
          (second_reply z sandbox_reply Bus.sandbox _ serial request Bus.host host_names
            sandbox_names response _ sandbox_answers (get_inserted merges serial _) sandbox_lists
            built)
          refl)

  sandbox_first :
      two_replies z (sandbox_reply, Bus.sandbox) (host_reply, Bus.host) merges
      ≡ ok (awaiting, merged response, remove (waiting_for Bus.sandbox sandbox_names) serial)
  unfolding process_merge_response waiting_for
  sandbox_first =
      rw
        (first_reply z sandbox_reply Bus.sandbox merges serial request sandbox_names _
          sandbox_answers pending sandbox_lists)
        (rw
          (second_reply z host_reply Bus.host _ serial request Bus.sandbox sandbox_names host_names
            response _ host_answers (get_inserted merges serial _) host_lists built)
          refl)

  -- A request that was sent to both buses is pending under a serial with no reply yet, both buses
  -- reply to the serial with a list of names, and the response to the request can be built of the
  -- merged lists. Whichever bus replies first: the client gets nothing for the first reply and
  -- that response for the second one, and the request is pending no longer.
  pub two_replies-both_orders :
      ((left : Table PendingMerge) × (two_replies z
            (host_reply, Bus.host)
            (sandbox_reply, Bus.sandbox)
            merges
          ≡ ok (awaiting, merged response, left))
        × (get left serial ≡ none))
      × ((left : Table PendingMerge) × (two_replies z
              (sandbox_reply, Bus.sandbox)
              (host_reply, Bus.host)
              merges
            ≡ ok (awaiting, merged response, left))
          × (get left serial ≡ none))
  two_replies-both_orders = (
    (_, host_first, get_removed (waiting_for Bus.host host_names) serial),
    (_, sandbox_first, get_removed (waiting_for Bus.sandbox sandbox_names) serial),
  )
