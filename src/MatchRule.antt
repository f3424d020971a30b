-- ===== src/MatchRule.antt =====
-- The match-rule part of src/dbus/rewrite.rs: the comma-separated `key='value'` rules of AddMatch and
-- RemoveMatch.
pub mod Sender
pub mod Rule
pub mod Replaced
pub mod Parsed
pub mod Info
use dbus_router.Prelude.{
  Option, none, some, List, [], ◌∷◌, ◌++◌, if◌then◌else◌, Bytes, codes, str_eq, strip_prefix,
  strip_suffix,
}
use dbus_router.Text.{split, split_once, replace}
use dbus_router.Text.Trim.{trim, trim_matches}

abbrev unquoted : Option Bytes → Option Bytes
unquoted none = none
unquoted (some value) = strip_suffix (codes "'") value

abbrev or_else {ℓ} : {A : Type ℓ} → Option A → Option A → Option A
or_else (some a) o = some a
or_else none o = o

-- The body of the loop for one part: a quoted value that is closed, else all that follows "sender=".
abbrev sender_of_part : Bytes → Option Bytes
sender_of_part part =
    or_else (unquoted (strip_prefix (codes "sender='") part)) (strip_prefix (codes "sender=") part)

sender_of_parts : List Bytes → Option Bytes
sender_of_parts [] = none
sender_of_parts (part ∷ parts) = or_else (sender_of_part (trim part)) (sender_of_parts parts)

unfoldable pub parse_match_rule_sender : Bytes → Option Bytes
unfolding sender_of_parts
parse_match_rule_sender rule = sender_of_parts (split b',' rule)

abbrev pub quoted_sender : Bytes → Bytes
quoted_sender sender = codes "sender='" ++ (sender ++ codes "'")

unfoldable pub rewrite_match_rule_sender : Bytes → Bytes → Bytes → Bytes
rewrite_match_rule_sender rule old_sender new_sender =
    replace (quoted_sender old_sender) (quoted_sender new_sender) rule

pub record MatchRuleInfo : Type 0 where
  pub sender : Option Bytes
  pub interface : Option Bytes
  pub member : Option Bytes
  pub path : Option Bytes
  pub path_namespace : Option Bytes
  pub destination : Option Bytes
  pub msg_type : Option Bytes

abbrev pub no_info : MatchRuleInfo
no_info = record {
  sender = none;
  interface = none;
  member = none;
  path = none;
  path_namespace = none;
  destination = none;
  msg_type = none;
}

-- The assignment under `match key`.
set_info : MatchRuleInfo → Bytes → Bytes → MatchRuleInfo
set_info info key value =
    if str_eq key (codes "sender")
    then record info { sender = some value }
    else if str_eq key (codes "interface")
    then record info { interface = some value }
    else if str_eq key (codes "member")
    then record info { member = some value }
    else if str_eq key (codes "path")
    then record info { path = some value }
    else if str_eq key (codes "path_namespace")
    then record info { path_namespace = some value }
    else if str_eq key (codes "destination")
    then record info { destination = some value }
    else if str_eq key (codes "type")
    then record info { msg_type = some value }
    else info

info_of_part : MatchRuleInfo → Option (Bytes × Bytes) → MatchRuleInfo
unfolding set_info
info_of_part info none = info
info_of_part info (some (key, value)) = set_info info key (trim_matches b'\'' value)

info_of_parts : MatchRuleInfo → List Bytes → MatchRuleInfo
info_of_parts info [] = info
info_of_parts info (part ∷ parts) =
    info_of_parts (info_of_part info (split_once b'=' (trim part))) parts

unfoldable pub parse_match_rule : Bytes → MatchRuleInfo
unfolding info_of_parts info_of_part
parse_match_rule rule = info_of_parts no_info (split b',' rule)
