-- ===== src/Address.antt =====
-- src/conn.rs: the address of a bus.
pub mod Entries
pub mod Connect
use dbus_router.Prelude.{
  Option, none, some, List, [], ◌∷◌, if◌then◌else◌, Bytes, codes, protocol, Result, ok, err, not,
  starts_with, strip_prefix, slice_from, ◌>>=◌,
}
use dbus_router.Text.{split}

pub data UnixAddress : Type 0 where
  path : Bytes → UnixAddress
  abstract_name : Bytes → UnixAddress

-- the second test of the loop's body
abbrev name_in : Option Bytes → Option UnixAddress
name_in (some name) = some (abstract_name name)
name_in none = none

-- the first
abbrev path_or : Option UnixAddress → Option Bytes → Option UnixAddress
path_or other (some p) = some (path p)
path_or other none = other

unfoldable pub socket_of : Bytes → Option UnixAddress
socket_of part =
    path_or (name_in (strip_prefix (codes "abstract=") part)) (strip_prefix (codes "path=") part)

abbrev or_later : Result UnixAddress → Option UnixAddress → Result UnixAddress
or_later later (some address) = ok address
or_later later none = later

unfoldable pub first_socket : List Bytes → Result UnixAddress
first_socket [] = err protocol
first_socket (part ∷ parts) = or_later (first_socket parts) (socket_of part)

unfoldable pub parse_unix_address : Bytes → Result UnixAddress
parse_unix_address addr =
    if not (starts_with (codes "unix:") addr)
    then err protocol
    else do parts ← slice_from addr 5; first_socket (split b',' parts)
