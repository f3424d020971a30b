-- ===== src/Text/Split.antt =====
-- Splitting at commas.
use dbus_router.Prelude.{◌≡◌, ◌≢◌, refl, ap, ◌∙◌, List, [], ◌∷◌, ◌++◌, All, arith, Bytes}
use dbus_router.Text.{split, join}

abbrev pub HasNoComma : Bytes → Type 0
HasNoComma part = All (λ b. b ≢ b',') part

split-alone : (p : Bytes) → HasNoComma p → split b',' p ≡ p ∷ []
unfolding split
split-alone [] h = refl
split-alone (x ∷ p) (h, u) = rw (split-alone p u) (ground arith)

split-entry : (p rest : Bytes) → HasNoComma p → split b',' (p ++ b',' ∷ rest) ≡ p ∷ split b',' rest
unfolding split
split-entry [] rest h = refl
split-entry (x ∷ p) rest (h, u) = rw (split-entry p rest u) (ground arith)

pub split-join :
    (p : Bytes) (ps : List Bytes)
    → All HasNoComma (p ∷ ps)
    → split b',' (join b',' (p ∷ ps)) ≡ p ∷ ps
unfolding join
split-join p [] (h, u) = split-alone p h
split-join p (q ∷ ps) (h, u) =
    split-entry p (join b',' (q ∷ ps)) h ∙ ap (λ (l : List Bytes). p ∷ l) (split-join q ps u)
