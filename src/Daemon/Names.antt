-- ===== src/Daemon/Names.antt =====
-- ListNames over two buses: the merged list, and the reply that carries it.
pub mod Merge
use dbus_router.Bus.{Bus}
use dbus_router.Daemon.Body.{shown_name}
use dbus_router.Message.Endian.{Order, u32_bytes}
use dbus_router.Message.{Message}
use dbus_router.Prelude.{
  ℕ, ◌+◌, ◌-◌, ◌%◌, ◌^◌, Option, none, some, List, [], ◌∷◌, ◌++◌, if◌then◌else◌, Bytes, codes,
  length, replicate, contains, zvariant, Result, ok, ◌>>=◌, or_err, padding_to_8,
}
use dbus_router.Zvariant.{Zvariant}

-- `if seen.insert(key.clone()) { result.push(key) }` for each name; `seen` and `result` together
merge_names : Bus → List Bytes → List Bytes → List Bytes → List Bytes × List Bytes
merge_names bus seen result [] = (seen, result)
merge_names bus seen result (name ∷ names) =
    let key = shown_name bus name in
    let known = contains seen key in
    merge_names bus (if known then seen else key ∷ seen)
      (if known then result else result ++ key ∷ []) names

unfoldable pub merge_list_names : List Bytes → List Bytes → List Bytes
unfolding merge_names
merge_list_names host_names sandbox_names =
    let (seen, result) = merge_names Bus.sandbox [] [] sandbox_names in
    (merge_names Bus.host seen result host_names).1

abbrev marker : Order → ℕ
marker Order.little = b'l'
marker Order.big = b'B'

module _ (z : Zvariant) where
  abbrev signature_field : Option Bytes → List (ℕ × z.Value)
  signature_field none = []
  signature_field (some sig) = (8, z.signature_value sig) ∷ []

  unfoldable pub build_method_return : Message → Bytes → Option Bytes → Result Bytes
  build_method_return request body signature = do
    let endian = request.header.endian
    fields_encoded ← or_err zvariant (
        z.encode_fields endian 12
          ((5, z.u32_value request.header.serial) ∷ signature_field signature))
    let array_len = (length fields_encoded + 2 ^ 32 - 4) % 2 ^ 32
    let serial = (request.header.serial + 1000000) % 2 ^ 32
    ok (
        (marker endian ∷ 2 ∷ 1 ∷ 1 ∷ [])
        ++ (u32_bytes endian (length body)
            ++ (u32_bytes endian serial
                ++ (fields_encoded ++ (replicate (padding_to_8 (16 + array_len)) 0 ++ body)))))

  unfoldable pub build_list_names_response : Message → List Bytes → Result Bytes
  unfolding build_method_return
  build_list_names_response request names = do
    body ← or_err zvariant (z.encode_names request.header.endian 0 names)
    build_method_return request body (some (codes "as"))
