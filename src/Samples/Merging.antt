-- ===== src/Samples/Merging.antt =====
-- The theorems on merged lists of names, at the sample messages.
use dbus_router.FakeName.{is_unique_name}
use dbus_router.Message.Endian.{read_u32, u32_bytes}
use dbus_router.Message.Frame.{bytes_of}
use dbus_router.Message.{Message, body_start, get_body_start}
use dbus_router.Prelude.{
  ◌≡◌, refl, none, some, [], ◌∷◌, Bytes, codes, ok, str_eq, strip_prefix, slice_from, Table, get,
  map, ◌++◌,
}
use dbus_router.Rewrite.Encode.{encode_at, value_bytes, type_byte}
use dbus_router.Samples.{sample_zvariant, sample_message, sample_header, call_of_client}
use dbus_router.Bus.{Bus}
use dbus_router.Daemon.Body.{parse_string_array, shown_name}
use dbus_router.Daemon.Names.{build_list_names_response, build_method_return, merge_list_names}
use dbus_router.Session.Merge.BothOrders.{two_replies, two_replies-both_orders}
use dbus_router.Session.Merge.{awaiting, merged}
use dbus_router.Session.State.{PendingMerge}
use dbus_router.Daemon.Names.Merge.{keep_first, merge_list_names-keep_first}

-- replies of both buses to a request under 9, each with one name
abbrev list_reply : Bytes → Message
list_reply name =
    sample_message (record sample_header { reply_serial = some 9 }) 7 (codes ":1.5") name

abbrev merges : Table PendingMerge
merges = (9, record { original_request = call_of_client; first_response = none }) ∷ []

abbrev response : Bytes
response = b'l' ∷ 2 ∷ 1 ∷ 1 ∷ 1 ∷ 0 ∷ 0 ∷ 0 ∷ 71 ∷ 66 ∷ 15 ∷ 0 ∷ 0 ∷ 0 ∷ 0 ∷ 0 ∷ 2 ∷ []

lists_host :
    parse_string_array sample_zvariant (list_reply (codes "org.h")) ≡ ok (codes "org.h" ∷ [])
unfolding parse_string_array body_start get_body_start slice_from read_u32 u32_bytes encode_at
    value_bytes type_byte bytes_of
lists_host = refl

lists_sandbox :
    parse_string_array sample_zvariant (list_reply (codes "org.s")) ≡ ok (codes "org.s" ∷ [])
unfolding parse_string_array body_start get_body_start slice_from read_u32 u32_bytes encode_at
    value_bytes type_byte bytes_of
lists_sandbox = refl

built :
    build_list_names_response sample_zvariant call_of_client
      (merge_list_names (codes "org.h" ∷ []) (codes "org.s" ∷ []))
    ≡ ok response
unfolding build_list_names_response build_method_return u32_bytes keep_first shown_name
    is_unique_name strip_prefix str_eq
built = rw (merge_list_names-keep_first (codes "org.h" ∷ []) (codes "org.s" ∷ [])) refl

two_replies-both_orders_example :
    ((left : Table PendingMerge) × (two_replies sample_zvariant
          (list_reply (codes "org.h"), Bus.host)
          (list_reply (codes "org.s"), Bus.sandbox)
          merges
        ≡ ok (awaiting, merged response, left))
      × (get left 9 ≡ none))
    × ((left : Table PendingMerge) × (two_replies sample_zvariant
            (list_reply (codes "org.s"), Bus.sandbox)
            (list_reply (codes "org.h"), Bus.host)
            merges
          ≡ ok (awaiting, merged response, left))
        × (get left 9 ≡ none))
unfolding get
two_replies-both_orders_example =
    two_replies-both_orders sample_zvariant (list_reply (codes "org.h"))
      (list_reply (codes "org.s")) merges 9 call_of_client (codes "org.h" ∷ []) (codes "org.s" ∷ [])
      response refl refl refl lists_host lists_sandbox built

merge_list_names-keep_first_example :
    merge_list_names (codes "org.x" ∷ codes ":1.5" ∷ []) (codes ":1.5" ∷ codes "org.x" ∷ [])
    ≡ keep_first (
        map (shown_name Bus.sandbox) (codes ":1.5" ∷ codes "org.x" ∷ [])
        ++ map (shown_name Bus.host) (codes "org.x" ∷ codes ":1.5" ∷ []))
merge_list_names-keep_first_example =
    merge_list_names-keep_first (codes "org.x" ∷ codes ":1.5" ∷ [])
      (codes ":1.5" ∷ codes "org.x" ∷ [])
