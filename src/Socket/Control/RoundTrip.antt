-- ===== src/Socket/Control/RoundTrip.antt =====
-- What is written into a control message is read out of it.
use mathlib.Core.List.{append_assoc}
use dbus_router.Message.Endian.{u32_bytes, read_u32-u32_bytes}
use dbus_router.Message.Frame.{length-u32_bytes}
use dbus_router.Prelude.{
  ℕ, ◌-◌, ◌*◌, ◌/◌, ◌%◌, ◌^◌, ◌<◌, ◌≤◌, ◌≡◌, refl, sym, ap, some, List, [], ◌∷◌, ◌++◌, All, arith,
  ==_refl, began_ok, length, length-append, ok, slice_from, slice_from_split,
}
use dbus_router.Socket.Control.{
  CLibrary, IsCLibrary, ControlMessage, cmsg_space_for, cmsg_buf_space, raw_fds, adopt_one,
  adopt_scm_rights, fd_bytes, rights_message, control_of,
}
use dbus_router.Socket.{max_fds_per_message}

-- A number that a descriptor can have.
abbrev pub IsFd : ℕ → Type 0
IsFd fd = fd < 2 ^ 31

module _ (c : CLibrary) where
  raw_fds-fd_bytes :
      (fds : List ℕ) → All IsFd fds → raw_fds c (length fds) (fd_bytes c fds) ≡ ok fds
  unfolding raw_fds fd_bytes
  raw_fds-fd_bytes [] h = refl
  raw_fds-fd_bytes (fd ∷ fds) (small, h) =
      let first = read_u32-u32_bytes c.order fd (fd_bytes c fds) (omega arith) in
      let rest : slice_from (u32_bytes c.order fd ++ fd_bytes c fds) 4 ≡ ok (fd_bytes c fds) =
        slice_from_split _ (u32_bytes c.order fd) (fd_bytes c fds) 4 refl
          (sym (length-u32_bytes c.order fd)) in
      rw (first, rest, raw_fds-fd_bytes fds h) refl

  length-fd_bytes : (fds : List ℕ) → length (fd_bytes c fds) ≡ length fds * 4
  unfolding fd_bytes
  length-fd_bytes [] = refl
  length-fd_bytes (fd ∷ fds) = omega (
    arith,
    length-append (u32_bytes c.order fd) (fd_bytes c fds),
    length-u32_bytes c.order fd,
    length-fd_bytes fds,
  )

  adopt-append :
      (before after : List ControlMessage) (fds more : List ℕ)
      → adopt_scm_rights c before ≡ ok fds
      → adopt_scm_rights c after ≡ ok more
      → adopt_scm_rights c (before ++ after) ≡ ok (fds ++ more)
  unfolding adopt_scm_rights
  adopt-append [] after fds more b a = let none_before : fds ≡ [] = cc (b) in rw none_before a
  adopt-append (cmsg ∷ before) after fds more b a =
      let (here, h, b') = began_ok (adopt_one c cmsg) _ b in
      let (there, t, b'') = began_ok (adopt_scm_rights c before) _ b' in
      let both : fds ≡ here ++ there = cc (b'') in
      rw (h, adopt-append before after there more t a)
        (ap ok (rw both (sym (append_assoc here there more))))

  control_of-some : (fds : List ℕ) → 0 < length fds → control_of c fds ≡ some (rights_message c fds)
  unfolding control_of
  control_of-some [] h = absurd (omega arith)
  control_of-some (fd ∷ fds) h = refl

  module _ (is : IsCLibrary c) (fds : List ℕ) (small : All IsFd fds)
      (few : length fds ≤ max_fds_per_message) where
    adopt_one-rights_message : adopt_one c (rights_message c fds).1 ≡ ok fds
    unfolding adopt_one rights_message
    adopt_one-rights_message =
        let no_wrap : length fds * 4 % 2 ^ 32 ≡ length fds * 4 = omega arith in
        let count : (c.cmsg_len (length fds * 4) - c.cmsg_len 0) / 4 ≡ length fds =
          omega (arith, is.header_added (length fds * 4)) in
        rw (==_refl c.sol_socket, ==_refl c.scm_rights, no_wrap, count) (raw_fds-fd_bytes fds small)

    -- Of 1 to 64 descriptors, each a number below 2^31, `sendmsg_once` makes one control message. Its
    -- length and the length that the kernel is told fit into the control buffer. If the kernel hands the
    -- message on among others, `adopt_scm_rights` adopts these descriptors in their order, between
    -- those of the messages before it and behind it.
    pub control_of-adopt_scm_rights :
        (before after : List ControlMessage) (earlier later : List ℕ)
        → 0 < length fds
        → adopt_scm_rights c before ≡ ok earlier
        → adopt_scm_rights c after ≡ ok later
        → (used : ℕ) × (cmsg : ControlMessage) × (control_of c fds ≡ some (used, cmsg))
          × (cmsg.cmsg_len ≤ used)
          × (used ≤ cmsg_buf_space c)
          × (adopt_scm_rights c (before ++ cmsg ∷ after) ≡ ok (earlier ++ (fds ++ later)))
    control_of-adopt_scm_rights before after earlier later some_fds b a = (
      (rights_message c fds).0,
      (rights_message c fds).1,
      control_of-some fds some_fds,
      unfold rights_message cmsg_space_for in is.has_room (length fds * 4 % 2 ^ 32),
      unfold rights_message cmsg_space_for cmsg_buf_space in
          is.rising (length fds * 4 % 2 ^ 32) (max_fds_per_message * 4 % 2 ^ 32) (omega arith),
      adopt-append before ((rights_message c fds).1 ∷ after) earlier (fds ++ later) b
          (unfold adopt_scm_rights in rw (adopt_one-rights_message, a) refl),
    )
