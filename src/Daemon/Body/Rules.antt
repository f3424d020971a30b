-- ===== src/Daemon/Body/Rules.antt =====
-- A match rule that asks for the messages of a fake name.
use dbus_router.Bus.{Bus}
use dbus_router.Config.{Config}
use dbus_router.Daemon.Body.Frames.{
  with_body, string_body, HasString, first_string-HasString, extract_name_from_body-HasString,
  rebuilt_with,
}
use dbus_router.Daemon.Body.{
  rewrite_rule_sender, rewrite_rule, rewrite_rule_text, rewrite_match_rule_body,
}
use dbus_router.Daemon.Body.Rebuild.{rebuild_message_with_string}
use dbus_router.Daemon.Routes.{
  single, find_method_spec, by_match_rule, route_by_kind, route_dbus_method,
}
use dbus_router.FakeName.RoundTrip.{to_fake_name-from_fake_name}
use dbus_router.FakeName.Shown.{length-to_fake_name, get_bus-from_fake_name}
use dbus_router.Message.Endian.{u32_bytes}
use dbus_router.FakeName.{from_fake_name}
use dbus_router.MatchRule.Info.{parse_match_rule-rule_of}
use dbus_router.MatchRule.Parsed.{parse_match_rule_sender-rule_of}
use dbus_router.MatchRule.Replaced.{rewrite_match_rule_sender-rule_of}
use dbus_router.MatchRule.Rule.{Assignment, rule_of, IsAssignment, IsOther}
use dbus_router.MatchRule.{parse_match_rule_sender}
use dbus_router.Message.Frame.{Frame, bytes_of}
use dbus_router.Message.{Message, extract_string_from_body}
use dbus_router.Prelude.{
  ◌<◌, ◌≡◌, refl, ap, some, List, [], ◌∷◌, ◌++◌, All, arith, Bytes, codes, length, str_eq, ok, ◌⊎◌,
  inl, inr,
}

-- A rule of quoted values, all keys and values of plain bytes: one assignment is the sender, and no other
-- key ends in `sender`.
pub record IsSenderRule (before after : List Assignment) (sender : Bytes) : Type 0 where
  pub before_fine : All IsAssignment before
  pub before_others : All IsOther before
  pub sender_fine : IsAssignment (codes "sender", sender)
  pub after_fine : All IsAssignment after
  pub after_others : All IsOther after

abbrev pub rule_with : List Assignment → List Assignment → Bytes → Bytes
rule_with before after sender = rule_of (before ++ (codes "sender", sender) ∷ after)

All-around :
    (P : Assignment → Type 0) (before after : List Assignment) (a : Assignment)
    → All P before
    → P a
    → All P after
    → All P (before ++ a ∷ after)
All-around P [] after a b h k = (h, k)
All-around P (x ∷ before) after a (p, b) h k = (p, All-around P before after a b h k)

module _ (before after : List Assignment) (fake real : Bytes) (bus : Bus)
    (is : IsSenderRule before after fake) (faked : from_fake_name fake ≡ some (real, bus)) where
  fine : All IsAssignment (before ++ (codes "sender", fake) ∷ after)
  fine =
      All-around IsAssignment before after (codes "sender", fake) is.before_fine is.sender_fine
        is.after_fine

  sender_read : parse_match_rule_sender (rule_with before after fake) ≡ some fake
  sender_read =
      parse_match_rule_sender-rule_of before after fake fine is.before_fine is.before_others
        is.sender_fine

  some_bytes : 0 < length fake
  some_bytes =
      let (shown, unique) = to_fake_name-from_fake_name fake real bus faked in
      omega (arith, ap length shown, length-to_fake_name real bus unique)

  module _ (msg : Message) (f : Frame) (rest : Bytes)
      (s : HasString msg f (rule_with before after fake) rest) where
    rewritten :
        rewrite_match_rule_body msg
        ≡ ok (
            some (
              bytes_of msg.header.endian (
                with_body f
                  (string_body msg.header.endian (rule_with before after real) (0 ∷ [])))))
    unfolding rewrite_match_rule_body rewrite_rule_text rewrite_rule rewrite_rule_sender
        rebuild_message_with_string string_body
    rewritten = rw (first_string-HasString msg f (rule_with before after fake) rest s) (
        rw sender_read (
          rw faked (
            rw
              (rewrite_match_rule_sender-rule_of before after fake real is.before_fine
                is.before_others is.after_fine is.after_others)
              (rw
                (rebuilt_with msg f (rule_with before after fake) rest s (
                  u32_bytes msg.header.endian (length (rule_with before after real))
                  ++ (rule_with before after real ++ 0 ∷ [])))
                refl))))

    routed_by_rule : (config : Config) → route_by_kind config msg by_match_rule ≡ ok (single bus)
    unfolding route_by_kind extract_string_from_body
    routed_by_rule config =
        rw (extract_name_from_body-HasString msg f (rule_with before after fake) rest s) (
          rw
            (parse_match_rule-rule_of before after fake fine is.before_fine is.sender_fine
              some_bytes is.after_fine is.after_others)
            (rw (get_bus-from_fake_name fake real bus faked) refl))

    routed :
        (config : Config)
        → (msg.header.member ≡ some (codes "AddMatch"))
          ⊎ (msg.header.member ≡ some (codes "RemoveMatch"))
        → route_dbus_method config msg ≡ ok (single bus)
    unfolding route_dbus_method find_method_spec str_eq route_by_kind extract_string_from_body
    routed config (inl add) = rw add (routed_by_rule config)
    routed config (inr remove) = rw remove (routed_by_rule config)

    -- A call of AddMatch or RemoveMatch whose raw bytes are laid out as the specification has it and
    -- whose body starts with a rule that asks for the messages of a fake name; the rule is a list of
    -- assignments of plain keys and values with one sender and no other key that ends in `sender`. The call goes to the bus of
    -- the fake name, and it is rewritten to the same message with a body that is the same rule with the
    -- real name as the sender.
    pub rewrite_match_rule_body-real :
        (config : Config)
        → (msg.header.member ≡ some (codes "AddMatch"))
          ⊎ (msg.header.member ≡ some (codes "RemoveMatch"))
        → (route_dbus_method config msg ≡ ok (single bus))
          × (rewrite_match_rule_body msg
              ≡ ok (
                  some (
                    bytes_of msg.header.endian (
                      with_body f
                        (string_body msg.header.endian (rule_with before after real) (0 ∷ []))))))
    rewrite_match_rule_body-real config member = (routed config member, rewritten)
