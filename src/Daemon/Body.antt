-- ===== src/Daemon/Body.antt =====
-- Replacing the unique name, or the names, in the body of a message to or from the bus daemon.
pub mod Rebuild
pub mod Frames
pub mod Short
pub mod Rules
use dbus_router.Bus.{Bus}
use dbus_router.FakeName.{is_unique_name, to_fake_name, from_fake_name}
use dbus_router.MatchRule.{parse_match_rule_sender, rewrite_match_rule_sender}
use dbus_router.Message.Endian.{Order, read_u32}
use dbus_router.Message.{Message, body_start}
use dbus_router.Prelude.{
  ℕ, ◌+◌, Bool, not, ◌&&◌, Option, none, some, List, [], ◌∷◌, map, leb, ltb, if◌then◌else◌, Bytes,
  length, protocol, zvariant, Result, ok, err, ◌>>=◌, or_err, slice, slice_from,
}
use dbus_router.Text.Utf8.{from_utf8_lossy}
use dbus_router.Zvariant.{Zvariant}
use Rebuild.{rebuild_message_with_string, rebuild_message_with_body}

-- The string that the body starts with, once its end is known to lie inside.
abbrev lossy_text_at : Bytes → ℕ → ℕ → Result (Option Bytes)
lossy_text_at raw start len =
    if ltb (length raw) (start + len)
    then ok none
    else (do text ← slice raw start (start + len); ok (some (from_utf8_lossy text)))

-- The lines that four of the functions below share: `none` where there is no body, or where the
-- string would end behind it.
unfoldable pub first_string : Message → Result (Option Bytes)
first_string msg = do
  start ← body_start msg
  if leb (length msg.raw) start then ok none else do
    rest ← slice_from msg.raw start
    str_len ← read_u32 msg.header.endian rest
    lossy_text_at msg.raw (start + 4) str_len

abbrev rebuilt : Message → Bytes → Result (Option Bytes)
rebuilt msg new_str = do
  raw ← rebuild_message_with_string msg.raw msg.header.endian new_str
  ok (some raw)

rewrite_rule_sender : Message → Bytes → Bytes → Option (Bytes × Bus) → Result (Option Bytes)
rewrite_rule_sender msg rule sender none = ok none
rewrite_rule_sender msg rule sender (some (real_sender, _)) =
    rebuilt msg (rewrite_match_rule_sender rule sender real_sender)

rewrite_rule : Message → Bytes → Option Bytes → Result (Option Bytes)
unfolding rewrite_rule_sender
rewrite_rule msg rule none = ok none
rewrite_rule msg rule (some sender) = rewrite_rule_sender msg rule sender (from_fake_name sender)

rewrite_rule_text : Message → Option Bytes → Result (Option Bytes)
unfolding rewrite_rule
rewrite_rule_text msg none = ok none
rewrite_rule_text msg (some rule) = rewrite_rule msg rule (parse_match_rule_sender rule)

unfoldable pub rewrite_match_rule_body : Message → Result (Option Bytes)
unfolding rewrite_rule_text
rewrite_match_rule_body msg = do text ← first_string msg; rewrite_rule_text msg text

fake_single_name : Message → Bus → Option Bytes → Result Bytes
fake_single_name msg source none = ok msg.raw
fake_single_name msg source (some name) =
    if not (is_unique_name name)
    then ok msg.raw
    else rebuild_message_with_string msg.raw msg.header.endian (to_fake_name name source)

unfoldable pub rewrite_single_name_response : Message → Bus → Result Bytes
unfolding fake_single_name
rewrite_single_name_response msg source = do
  name ← first_string msg
  fake_single_name msg source name

real_single_name : Message → Option (Bytes × Bus) → Result (Bytes × Bus)
real_single_name msg none = ok (msg.raw, Bus.sandbox)
real_single_name msg (some (real_name, bus)) = do
  raw ← rebuild_message_with_string msg.raw msg.header.endian real_name
  ok (raw, bus)

real_name_request : Message → Option Bytes → Result (Bytes × Bus)
unfolding real_single_name
real_name_request msg none = err protocol
real_name_request msg (some name) = real_single_name msg (from_fake_name name)

unfoldable pub rewrite_unique_name_request : Message → Result (Bytes × Bus)
unfolding real_name_request
rewrite_unique_name_request msg = do name ← first_string msg; real_name_request msg name

-- `if is_unique_name(&name) { to_fake_name(&name, source) } else { name }`
unfoldable pub shown_name : Bus → Bytes → Bytes
shown_name source name = if is_unique_name name then to_fake_name name source else name

abbrev names_or_none : Option (List Bytes) → List Bytes
names_or_none none = []
names_or_none (some names) = names

module _ (z : Zvariant) where
  unfoldable pub parse_string_array : Message → Result (List Bytes)
  parse_string_array msg = do
    start ← body_start msg
    if leb (length msg.raw) start then ok [] else do
      body ← slice_from msg.raw start
      ok (names_or_none (z.decode_names msg.header.endian start body))

  show_names : Message → Bus → List Bytes → Result Bytes
  show_names msg source [] = ok msg.raw
  show_names msg source (name ∷ names) = do
    new_body ←
        or_err zvariant
          (z.encode_names msg.header.endian 0 (map (shown_name source) (name ∷ names)))
    rebuild_message_with_body msg.raw msg.header.endian new_body

  unfoldable pub rewrite_string_array_response : Message → Bus → Result Bytes
  unfolding parse_string_array show_names
  rewrite_string_array_response msg source = do
    names ← parse_string_array msg
    show_names msg source names

  -- `is_unique_name(&owner) && !owner.is_empty()`
  abbrev shown_owner : Bus → Bytes → Bytes
  shown_owner source owner =
      if is_unique_name owner && ltb 0 (length owner) then to_fake_name owner source else owner

  show_owners : Message → Bus → Option (Bytes × Bytes × Bytes) → Result Bytes
  show_owners msg source none = ok msg.raw
  show_owners msg source (some (name, old_owner, new_owner)) = do
    new_body ← or_err zvariant (
        z.encode_owners msg.header.endian 0
          (name, shown_owner source old_owner, shown_owner source new_owner))
    rebuild_message_with_body msg.raw msg.header.endian new_body

  unfoldable pub rewrite_name_owner_changed : Message → Bus → Result Bytes
  unfolding show_owners
  rewrite_name_owner_changed msg source = do
    start ← body_start msg
    if leb (length msg.raw) start then ok msg.raw else do
      body ← slice_from msg.raw start
      show_owners msg source (z.decode_owners msg.header.endian start body)
