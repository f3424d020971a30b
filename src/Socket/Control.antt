-- ===== src/Socket/Control.antt =====
-- The control messages of src/dbus/socket.rs, which carry descriptors: `adopt_scm_rights` reads them behind
-- `recvmsg`, and `sendmsg_once` writes one. Their layout is the C library's, and a parameter.
pub mod RoundTrip
use dbus_router.Message.Endian.{Order, read_u32, u32_bytes}
use dbus_router.Prelude.{
  ℕ, zero, suc, ◌-◌, ◌*◌, ◌/◌, ◌%◌, ◌^◌, ◌+◌, ◌&&◌, ◌≤◌, ◌≡◌, List, [], ◌∷◌, ◌++◌, Option, none,
  some, leb, ◌==◌, if◌then◌else◌, Bytes, length, io, Result, ok, err, ◌>>=◌, slice_from, Bool,
}
use dbus_router.Socket.{max_fds_per_message, Arrival}

-- The constants and the macros of the C library, and the byte order of the machine.
pub record CLibrary : Type 0 where
  pub sol_socket : ℕ
  pub scm_rights : ℕ
  -- CMSG_LEN and CMSG_SPACE
  pub cmsg_len : ℕ → ℕ
  pub cmsg_space : ℕ → ℕ
  pub order : Order

-- What their documentation says of the two macros: CMSG_LEN adds a header to the length of the data,
-- and CMSG_SPACE has room for it and does not fall.
pub record IsCLibrary (c : CLibrary) : Type 0 where
  pub header_added : (n : ℕ) → c.cmsg_len n ≡ c.cmsg_len 0 + n
  pub has_room : (n : ℕ) → c.cmsg_len n ≤ c.cmsg_space n
  pub rising : (m n : ℕ) → m ≤ n → c.cmsg_space m ≤ c.cmsg_space n

-- `cmsghdr`, and the data behind it
pub record ControlMessage : Type 0 where
  pub cmsg_level : ℕ
  pub cmsg_type : ℕ
  pub cmsg_len : ℕ
  pub cmsg_data : Bytes

-- `size_of::<RawFd>()`
abbrev pub fd_size : ℕ
fd_size = 4

module _ (c : CLibrary) where
  unfoldable pub cmsg_space_for : ℕ → ℕ
  cmsg_space_for data_len = c.cmsg_space (data_len % 2 ^ 32)

  unfoldable pub cmsg_buf_space : ℕ
  unfolding cmsg_space_for
  cmsg_buf_space = cmsg_space_for (max_fds_per_message * fd_size)

  -- `from_raw_parts`, and the numbers in it. Reading behind the data panics here.
  raw_fds : ℕ → Bytes → Result (List ℕ)
  raw_fds zero payload = ok []
  raw_fds (suc count) payload = do
    raw ← read_u32 c.order payload
    rest ← slice_from payload fd_size
    fds ← raw_fds count rest
    ok (raw ∷ fds)

  -- one round of the loop
  adopt_one : ControlMessage → Result (List ℕ)
  unfolding raw_fds
  adopt_one cmsg =
      if cmsg.cmsg_level == c.sol_socket && cmsg.cmsg_type == c.scm_rights
      then raw_fds ((cmsg.cmsg_len - c.cmsg_len 0) / fd_size) cmsg.cmsg_data
      else ok []

  -- The list is what CMSG_FIRSTHDR and CMSG_NXTHDR go through.
  unfoldable pub adopt_scm_rights : List ControlMessage → Result (List ℕ)
  unfolding adopt_one
  adopt_scm_rights [] = ok []
  adopt_scm_rights (cmsg ∷ later) = do
    fds ← adopt_one cmsg
    more ← adopt_scm_rights later
    ok (fds ++ more)

  -- `fd.as_raw_fd().to_ne_bytes()` of each descriptor
  fd_bytes : List ℕ → Bytes
  fd_bytes [] = []
  fd_bytes (fd ∷ fds) = u32_bytes c.order fd ++ fd_bytes fds

  -- `msg_controllen`, and the record that is written under it
  rights_message : List ℕ → ℕ × ControlMessage
  unfolding fd_bytes cmsg_space_for
  rights_message fds =
      let data_len = length fds * fd_size in
      (
        cmsg_space_for data_len,
        record {
          cmsg_level = c.sol_socket;
          cmsg_type = c.scm_rights;
          cmsg_len = c.cmsg_len (data_len % 2 ^ 32);
          cmsg_data = fd_bytes fds;
        },
      )

  -- The control part of `sendmsg_once`; with no descriptors there is none.
  unfoldable pub control_of : List ℕ → Option (ℕ × ControlMessage)
  unfolding rights_message
  control_of [] = none
  control_of (fd ∷ fds) = some (rights_message (fd ∷ fds))

  -- What one `recvmsg` that gave bytes hands on: all descriptors are adopted before the flags are looked
  -- at.
  unfoldable pub arrival_of : Bytes → List ControlMessage → Bool → Result Arrival
  unfolding adopt_scm_rights
  arrival_of bytes cmsgs ctrunc = do
    received ← adopt_scm_rights cmsgs
    ok (if ctrunc then Arrival.truncated bytes received else Arrival.chunk bytes received)
