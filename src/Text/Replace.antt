-- ===== src/Text/Replace.antt =====
-- What `replace` does to a text in which an occurrence is known.
use mathlib.Core.List.{append_assoc, append-nil}
use dbus_router.Prelude.{
  zero, ◌-◌, ℕ, ◌≡◌, refl, sym, ap, ◌∙◌, true, false, [], ◌∷◌, ◌++◌, arith, Bytes, length,
  starts_with, strip_prefix-append,
}
use dbus_router.Text.{replace, replace_from}

-- No occurrence of `old` starts in `pre`, where `rest` follows.
abbrev pub IsClear : Bytes → Bytes → Bytes → Type 0
IsClear old [] rest = Unit
IsClear old (c ∷ pre) rest = (starts_with old (c ∷ pre ++ rest) ≡ false) × IsClear old pre rest

pub IsClear-append :
    (old pre post rest : Bytes)
    → IsClear old pre (post ++ rest)
    → IsClear old post rest
    → IsClear old (pre ++ post) rest
IsClear-append old [] post rest a b = b
IsClear-append old (c ∷ pre) post rest (h, a) b =
    (rw (append_assoc pre post rest) h, IsClear-append old pre post rest a b)

replace_from-IsClear :
    (old new pre rest : Bytes)
    → IsClear old pre rest
    → replace_from old new zero (pre ++ rest) ≡ pre ++ replace_from old new zero rest
unfolding replace_from
replace_from-IsClear old new [] rest h = refl
replace_from-IsClear old new (c ∷ pre) rest (h, u) =
    rw (h, replace_from) (ap (λ s. c ∷ s) (replace_from-IsClear old new pre rest u))

replace_from-skip :
    (old new skipped rest : Bytes)
    → replace_from old new (length skipped) (skipped ++ rest) ≡ replace_from old new zero rest
unfolding replace_from
replace_from-skip old new [] rest = refl
replace_from-skip old new (c ∷ skipped) rest = replace_from-skip old new skipped rest

pub starts_with-append : (p s : Bytes) → starts_with p (p ++ s) ≡ true
unfolding starts_with
starts_with-append p s = rw (strip_prefix-append p s)

replace_from-here :
    (c : ℕ) (old new rest : Bytes)
    → replace_from (c ∷ old) new zero (c ∷ old ++ rest)
      ≡ new ++ replace_from (c ∷ old) new zero rest
unfolding replace_from
replace_from-here c old new rest =
    let one_less : length (c ∷ old) - 1 ≡ length old = omega arith in
    rw (starts_with-append (c ∷ old) rest, replace_from)
      (rw one_less (ap (λ s. new ++ s) (replace_from-skip (c ∷ old) new old rest)))

-- An occurrence between two texts in which none starts is replaced, and nothing else.
pub replace-between :
    (c : ℕ) (old new before after : Bytes)
    → IsClear (c ∷ old) before (c ∷ old ++ after)
    → IsClear (c ∷ old) after []
    → replace (c ∷ old) new (before ++ (c ∷ old ++ after)) ≡ before ++ (new ++ after)
unfolding replace
replace-between c old new before after b a =
    replace_from-IsClear (c ∷ old) new before (c ∷ old ++ after) b
    ∙ ap (λ s. before ++ s) (replace_from-here c old new after ∙ ap (λ s. new ++ s) tail_kept)
  where
    tail_kept : replace_from (c ∷ old) new zero after ≡ after
    tail_kept =
        ap (replace_from (c ∷ old) new zero) (sym (append-nil after))
        ∙ replace_from-IsClear (c ∷ old) new after [] a
        ∙ append-nil after
