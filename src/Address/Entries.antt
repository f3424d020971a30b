-- ===== src/Address/Entries.antt =====
-- What `parse_unix_address` finds in an address, by the entries of it.
use dbus_router.Address.{
  UnixAddress, path, abstract_name, socket_of, first_socket, parse_unix_address,
}
use dbus_router.Prelude.{
  ◌≡◌, ◌≢◌, refl, ap, ◌∙◌, Bool, ◌⊎◌, inl, inr, none, some, List, [], ◌∷◌, ◌++◌, All, Bytes, codes,
  protocol, ok, err, strip_prefix, strip_prefix-append, starts_with, slice_from, slice_from_split,
}
use dbus_router.Text.Split.{split-join}
use dbus_router.Text.{join}

abbrev pub IsEntry : Bytes → Type 0
IsEntry part = All (λ b. b ≢ b',') part

-- An entry as it is written in an address.
unfoldable pub entry : UnixAddress → Bytes
entry (path p) = codes "path=" ++ p
entry (abstract_name name) = codes "abstract=" ++ name

abbrev pub address_of : List Bytes → Bytes
address_of parts = codes "unix:" ++ join b',' parts

slice_from-address_of :
    (parts : List Bytes) → slice_from (address_of parts) 5 ≡ ok (join b',' parts)
slice_from-address_of parts =
    slice_from_split (address_of parts) (codes "unix:") (join b',' parts) 5 refl refl

parse-address_of :
    (p : Bytes) (ps : List Bytes)
    → All IsEntry (p ∷ ps)
    → parse_unix_address (address_of (p ∷ ps)) ≡ first_socket (p ∷ ps)
unfolding parse_unix_address starts_with strip_prefix
parse-address_of p ps h = rw (slice_from-address_of (p ∷ ps)) (ap first_socket (split-join p ps h))

socket_of-entry : (a : UnixAddress) → socket_of (entry a) ≡ some a
unfolding socket_of entry
socket_of-entry (path p) = rw (strip_prefix-append (codes "path=") p) refl
socket_of-entry (abstract_name name) = unfold strip_prefix in refl

first_socket-entry :
    (before after : List Bytes) (a : UnixAddress)
    → All (λ part. socket_of part ≡ none) before
    → first_socket (before ++ entry a ∷ after) ≡ ok a
unfolding first_socket
first_socket-entry [] after a h = rw (socket_of-entry a) refl
first_socket-entry (part ∷ before) after a (h, u) = rw h (first_socket-entry before after a u)

first_socket-none :
    (parts : List Bytes)
    → All (λ part. socket_of part ≡ none) parts
    → first_socket parts ≡ err protocol
unfolding first_socket
first_socket-none [] h = refl
first_socket-none (part ∷ parts) (h, u) = rw h (first_socket-none parts u)

-- Let an address be written as `unix:` and entries with commas between them, none of which holds a comma.
-- The first entry that is `path=` and a path, or `abstract=` and a name, is the socket that is found.
pub parse_unix_address-entry :
    (before after : List Bytes) (a : UnixAddress)
    → All (λ part. socket_of part ≡ none) before
    → All IsEntry (before ++ entry a ∷ after)
    → parse_unix_address (address_of (before ++ entry a ∷ after)) ≡ ok a
parse_unix_address-entry [] after a silent entries =
    parse-address_of (entry a) after entries ∙ first_socket-entry [] after a silent
parse_unix_address-entry (p ∷ before) after a silent entries =
    parse-address_of p (before ++ entry a ∷ after) entries
    ∙ first_socket-entry (p ∷ before) after a silent

-- An address whose entries hold no comma, and neither `path=` nor `abstract=`, fails, and so does every address that
-- does not start with `unix:`.
pub parse_unix_address-none :
    (text p : Bytes) (ps : List Bytes)
    → (starts_with (codes "unix:") text ≡ Bool.false)
      ⊎ ((text ≡ address_of (p ∷ ps))
          × All IsEntry (p ∷ ps)
          × All (λ part. socket_of part ≡ none) (p ∷ ps))
    → parse_unix_address text ≡ err protocol
parse_unix_address-none text p ps (inl other) = unfold parse_unix_address in rw other refl
parse_unix_address-none text p ps (inr (written, entries, silent)) =
    ap parse_unix_address written
    ∙ parse-address_of p ps entries
    ∙ first_socket-none (p ∷ ps) silent
