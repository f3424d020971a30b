-- ===== src/Auth/Turns.antt =====
-- What the handshake does with a whole line of one side, where the other side is silent in between.
use mathlib.Core.List.{append-nil, append_assoc}
use dbus_router.Auth.{Progress, read_byte, auth_buffer_size}
use dbus_router.Auth.Lines.{IsLine, crlf, read_byte-more, read_byte-line}
use dbus_router.Auth.Passthrough.{
  Side, client, bus, Event, byte, Phase, talking, Handshake, Writes, from_client, from_bus, heard,
  progressed, happens, line_of, partly, reads, step, in_phase, steps,
}
use dbus_router.Prelude.{
  ℕ, ◌+◌, ◌≤◌, ◌<◌, ◌≡◌, ◌≢◌, refl, sym, ap, ◌∙◌, true, List, [], ◌∷◌, ◌++◌, All, arith, Bytes,
  length, length-append,
}

-- The reads of the bytes of one side.
unfoldable pub said : Side → Bytes → List Event
said side [] = []
said side (b ∷ bytes) = byte side b ∷ said side bytes

pub steps-append :
    (writes : Writes) (before after : List Event) (a : Handshake)
    → steps writes (before ++ after) a ≡ steps writes after (steps writes before a)
unfolding steps
steps-append writes [] after a = refl
steps-append writes (e ∷ before) after a = steps-append writes before after (step writes e a)

said-append : (side : Side) (x y : Bytes) → said side (x ++ y) ≡ said side x ++ said side y
unfolding said
said-append side [] y = refl
said-append side (b ∷ x) y = ap (λ (l : List Event). byte side b ∷ l) (said-append side x y)

-- A side may be read now.
abbrev pub Open : Side → Handshake → Type 0
Open side a = (a.phase ≡ talking) × (reads side a ≡ true)

step-progressed :
    (writes : Writes) (side : Side) (b : ℕ) (l : Bytes) (p : Progress) (a : Handshake)
    → Open side a
    → line_of side a ≡ l
    → read_byte auth_buffer_size l b ≡ p
    → step writes (byte side b) a ≡ progressed writes side p a
unfolding step in_phase happens
step-progressed writes side b l p a (t, o) e r =
    ap (λ (phase : Phase). in_phase phase writes (byte side b) a) t
    ∙ simp o (ap (λ (x : Bytes). progressed writes side (read_byte auth_buffer_size x b) a) e)
    ∙ ap (λ (q : Progress). progressed writes side q a) r

partly-Open : (side : Side) (l : Bytes) (a : Handshake) → Open side a → Open side (partly side l a)
partly-Open client l a o = o
partly-Open bus l a o = o

line_of-partly : (side : Side) (l : Bytes) (a : Handshake) → line_of side (partly side l a) ≡ l
line_of-partly client l a = refl
line_of-partly bus l a = refl

heard-partly :
    (writes : Writes) (side : Side) (l l' : Bytes) (a : Handshake)
    → heard writes side l' (partly side l a) ≡ heard writes side l' a
unfolding heard from_client from_bus
heard-partly writes client l l' a = refl
heard-partly writes bus l l' a = refl

-- One byte within a line.
steps-more :
    (writes : Writes) (side : Side) (b : ℕ) (l : Bytes) (events : List Event) (a : Handshake)
    → Open side a
    → line_of side a ≡ l
    → b ≢ 10
    → length l + 1 < auth_buffer_size
    → steps writes (byte side b ∷ events) a ≡ steps writes events (partly side (l ++ b ∷ []) a)
unfolding steps progressed
steps-more writes side b l events a o e h room =
    ap (steps writes events)
      (step-progressed writes side b l _ a o e (read_byte-more auth_buffer_size l b h room))

steps-words :
    (writes : Writes) (side : Side) (result words : Bytes) (a : Handshake)
    → Open side a
    → line_of side a ≡ result
    → All (λ b. b ≢ 10) words
    → length result + length words + 2 ≤ auth_buffer_size
    → steps writes (said side (words ++ crlf)) a ≡ heard writes side ((result ++ words) ++ crlf) a
unfolding said steps progressed
steps-words writes side result [] a o e u room =
    steps-more writes side 13 result (byte side 10 ∷ []) a o e (λ h. ground arith) (omega arith)
    ∙ step-progressed writes side 10 (result ++ 13 ∷ []) _ _ (partly-Open side _ a o)
        (line_of-partly side _ a) (read_byte-line auth_buffer_size result)
    ∙ heard-partly writes side (result ++ 13 ∷ []) ((result ++ 13 ∷ []) ++ 10 ∷ []) a
    ∙ ap (λ (l : Bytes). heard writes side l a)
        (append_assoc result (13 ∷ []) (10 ∷ [])
          ∙ ap (λ (l : Bytes). l ++ crlf) (sym (append-nil result)))
steps-words writes side result (b ∷ words) a o e (h, u) room =
    steps-more writes side b result (said side (words ++ crlf)) a o e h (ground arith)
    ∙ steps-words writes side (result ++ b ∷ []) words (partly side (result ++ b ∷ []) a)
        (partly-Open side _ a o) (line_of-partly side _ a) u
        (ground (arith, length-append result (b ∷ [])))
    ∙ heard-partly writes side (result ++ b ∷ []) _ a
    ∙ ap (λ (l : Bytes). heard writes side (l ++ crlf) a) (append_assoc result (b ∷ []) words)

-- A whole line, where the other side is silent in between.
pub steps-said :
    (writes : Writes) (side : Side) (l : Bytes) (a : Handshake)
    → Open side a
    → line_of side a ≡ []
    → IsLine l
    → steps writes (said side l) a ≡ heard writes side l a
steps-said writes side l a o e i =
    ap (λ (x : Bytes). steps writes (said side x) a) i.ended
    ∙ steps-words writes side [] i.words a o e i.unbroken (omega (arith, i.fits))
    ∙ ap (λ (x : Bytes). heard writes side x a) (sym i.ended)
