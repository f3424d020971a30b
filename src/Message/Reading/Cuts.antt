-- ===== src/Message/Reading/Cuts.antt =====
-- The pieces in which `read_message` reads a message.
use dbus_router.Message.Prologue.{Prologue, parse, padding}
use dbus_router.Message.Reading.{exactly, exactly_or_none, message_of, read_rest}
use dbus_router.Message.{Message}
use dbus_router.Prelude.{
  ℕ, ◌≡◌, ◌≢◌, refl, sym, ap, ap₂, ◌∙◌, Option, some, ◌++◌, arith, leb, leb→le, Bool-cases, inl,
  inr, Bytes, length, length-take, take, take-append-drop, drop, Result, ok, err, panic,
}
use dbus_router.Socket.Stream.{Stream, Exact, filled, waits, eof, failed, Ending, read_exact, ended}
use dbus_router.Socket.{Polled, ready}
use dbus_router.Zvariant.{Zvariant}

-- What `read_exact` reads stands at the front.
pub record Cut (n : ℕ) (s : Stream) (bytes : Bytes) (s' : Stream) : Type 0 where
  pub as_long : length bytes ≡ n
  pub front : s.bytes ≡ bytes ++ s'.bytes

ended-ne-filled : (ending : Ending) (bytes : Bytes) → ended ending ≢ filled bytes
ended-ne-filled Ending.silent bytes h = cc
ended-ne-filled Ending.closed bytes h = cc
ended-ne-filled Ending.broken bytes h = cc

read_exact-Cut :
    (n : ℕ) (s s' : Stream) (bytes : Bytes) → read_exact n s ≡ (filled bytes, s') → Cut n s bytes s'
unfolding read_exact
read_exact-Cut n s s' bytes h = elim (Bool-cases (leb n (length s.bytes))) [
  | inl enough ↦
      let e : (filled (take n s.bytes), record s { bytes = drop n s.bytes }) ≡ (filled bytes, s') =
        rw enough at h in
      let front : take n s.bytes ≡ bytes = cc in
      let behind : drop n s.bytes ≡ s'.bytes = ap (λ (t : Exact × Stream). t.1.bytes) e in
      record {
        as_long =
            ap length (sym front)
            ∙ omega (arith, length-take n s.bytes, leb→le n (length s.bytes) enough);
        front = sym (take-append-drop n s.bytes) ∙ ap₂ (λ (a b : Bytes). a ++ b) front behind;
      }
  | inr short ↦
      absurd (ended-ne-filled s.ending bytes (ap (λ (t : Exact × Stream). t.0) (rw short at h)))
]

-- The last step of the chain.
body_read :
    (build : Bytes → Message) (n : ℕ) (s s' : Stream) (msg : Message) (e : Exact × Stream)
    → read_exact n s ≡ e
    → exactly e (λ body t. (ready (ok (some (build body))), t)) ≡ (ready (ok (some msg)), s')
    → (body : Bytes) × Cut n s body s' × (msg ≡ build body)
body_read build n s s' msg (filled body, t) e h =
    let same : t ≡ s' = cc in
    (body, read_exact-Cut n s s' body (e ∙ ap (λ (u : Stream). (filled body, u)) same), cc)
body_read build n s s' msg (waits, t) e h = cc
body_read build n s s' msg (eof, t) e h = cc
body_read build n s s' msg (failed, t) e h = cc

-- A step before it.
pub step_read :
    (rest : Bytes → Stream → Polled (Option Message) × Stream) (n : ℕ) (s s' : Stream)
    (msg : Message) (e : Exact × Stream)
    → read_exact n s ≡ e
    → exactly e rest ≡ (ready (ok (some msg)), s')
    → (bytes : Bytes) × (t : Stream) × Cut n s bytes t
      × (rest bytes t ≡ (ready (ok (some msg)), s'))
step_read rest n s s' msg (filled bytes, t) e h = (bytes, t, read_exact-Cut n s t bytes e, h)
step_read rest n s s' msg (waits, t) e h = cc
step_read rest n s s' msg (eof, t) e h = cc
step_read rest n s s' msg (failed, t) e h = cc

pub first_read :
    (rest : Bytes → Stream → Polled (Option Message) × Stream) (n : ℕ) (s s' : Stream)
    (msg : Message) (e : Exact × Stream)
    → read_exact n s ≡ e
    → exactly_or_none e rest ≡ (ready (ok (some msg)), s')
    → (bytes : Bytes) × (t : Stream) × Cut n s bytes t
      × (rest bytes t ≡ (ready (ok (some msg)), s'))
first_read rest n s s' msg (filled bytes, t) e h = (bytes, t, read_exact-Cut n s t bytes e, h)
first_read rest n s s' msg (waits, t) e h = cc
first_read rest n s s' msg (eof, t) e h = cc
first_read rest n s s' msg (failed, t) e h = cc

-- The message that was read, and the pieces that it was read in.
pub record Pieces (z : Zvariant) (first : Bytes) (s : Stream) (msg : Message) (s' : Stream)
    : Type 0 where
  pub prologue : Prologue
  pub fields_buf : Bytes
  pub padding_buf : Bytes
  pub body : Bytes
  pub parses : parse first ≡ ok prologue
  pub fields_long : length fields_buf ≡ prologue.array_len
  pub padding_long : length padding_buf ≡ padding prologue
  pub body_long : length body ≡ prologue.body_len
  pub message_is : msg ≡ message_of z prologue first fields_buf padding_buf body
  pub front : s.bytes ≡ fields_buf ++ (padding_buf ++ (body ++ s'.bytes))

pub read_rest-Pieces :
    (z : Zvariant) (first : Bytes) (parsed : Result Prologue) (s s' : Stream) (msg : Message)
    → parse first ≡ parsed
    → read_rest z first parsed s ≡ (ready (ok (some msg)), s')
    → Pieces z first s msg s'
unfolding read_rest
read_rest-Pieces z first panic s s' msg e h = cc
read_rest-Pieces z first (err why) s s' msg e h = cc
read_rest-Pieces z first (ok p) s s' msg e h =
    fields (step_read _ p.array_len s s' msg (read_exact p.array_len s) refl h)
  where
    body_behind :
        (fields_buf padding_buf : Bytes) (s1 s2 : Stream)
        → Cut p.array_len s fields_buf s1
        → Cut (padding p) s1 padding_buf s2
        → (body : Bytes) × Cut p.body_len s2 body s'
          × (msg ≡ message_of z p first fields_buf padding_buf body)
        → Pieces z first s msg s'
    body_behind fields_buf padding_buf s1 s2 c1 c2 (body, c3, m) = record {
      prologue = p;
      fields_buf = fields_buf;
      padding_buf = padding_buf;
      body = body;
      parses = e;
      fields_long = c1.as_long;
      padding_long = c2.as_long;
      body_long = c3.as_long;
      message_is = m;
      front =
          c1.front
          ∙ ap (λ (l : Bytes). fields_buf ++ l)
              (c2.front ∙ ap (λ (l : Bytes). padding_buf ++ l) c3.front);
    }

    padding_behind :
        (fields_buf : Bytes) (s1 : Stream)
        → Cut p.array_len s fields_buf s1
        → (padding_buf : Bytes) × (s2 : Stream) × Cut (padding p) s1 padding_buf s2
          × (exactly (read_exact p.body_len s2) (λ body t.
                (ready (ok (some (message_of z p first fields_buf padding_buf body))), t))
              ≡ (ready (ok (some msg)), s'))
        → Pieces z first s msg s'
    padding_behind fields_buf s1 c1 (padding_buf, s2, c2, h2) =
        body_behind fields_buf padding_buf s1 s2 c1 c2 (
          body_read (message_of z p first fields_buf padding_buf) p.body_len s2 s' msg
            (read_exact p.body_len s2) refl h2)

    fields :
        (fields_buf : Bytes) × (s1 : Stream) × Cut p.array_len s fields_buf s1
          × (exactly (read_exact (padding p) s1) (λ padding_buf s2.
                exactly (read_exact p.body_len s2) (λ body t.
                  (ready (ok (some (message_of z p first fields_buf padding_buf body))), t)))
              ≡ (ready (ok (some msg)), s'))
        → Pieces z first s msg s'
    fields (fields_buf, s1, c1, h1) =
        padding_behind fields_buf s1 c1
          (step_read _ (padding p) s1 s' msg (read_exact (padding p) s1) refl h1)
