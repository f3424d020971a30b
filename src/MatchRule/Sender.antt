-- ===== src/MatchRule/Sender.antt =====
-- Runs of the two readers and of the rewriting, on the rules of the program's own tests.
use dbus_router.Prelude.{◌≡◌, refl, some, codes, str_eq, strip_prefix, strip_suffix}
use dbus_router.Text.{split, split_once, replace}
use dbus_router.Text.Trim.{trim, trim_matches}
use dbus_router.MatchRule.{parse_match_rule_sender, rewrite_match_rule_sender, parse_match_rule}

sender_of_rule :
    parse_match_rule_sender (codes "type='signal', sender=':h.1.45'") ≡ some (codes ":h.1.45")
unfolding parse_match_rule_sender split trim str_eq strip_prefix strip_suffix
sender_of_rule = refl

rewritten_rule :
    rewrite_match_rule_sender
      (codes "type='signal',sender=':h.1.45',x='y'")
      (codes ":h.1.45")
      (codes ":1.45")
    ≡ codes "type='signal',sender=':1.45',x='y'"
unfolding rewrite_match_rule_sender replace strip_prefix
rewritten_rule = refl

parsed_rule :
    (parse_match_rule (codes "type='signal', path = '/a',interface='org.a.B.C'")).interface
    ≡ some (codes "org.a.B.C")
unfolding parse_match_rule split trim trim_matches split_once str_eq
parsed_rule = refl

-- A comma inside a quoted value divides the rule as well, and the two readers take different senders.
sender_of_divided :
    parse_match_rule_sender (codes "sender=':h.1.5',arg0='a,sender=:s.1.2'") ≡ some (codes ":h.1.5")
unfolding parse_match_rule_sender split trim str_eq strip_prefix strip_suffix
sender_of_divided = refl

divided_rule :
    (parse_match_rule (codes "sender=':h.1.5',arg0='a,sender=:s.1.2'")).sender
    ≡ some (codes ":s.1.2")
unfolding parse_match_rule split trim trim_matches split_once str_eq
divided_rule = refl
