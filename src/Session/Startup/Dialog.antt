-- ===== src/Session/Startup/Dialog.antt =====
-- What passes between the router and the host bus before messages are forwarded.
use mathlib.Core.List.{append_assoc}
use dbus_router.Auth.{as_string, read_auth_line_string}
use dbus_router.Auth.Lines.{IsLine, crlf, read_auth_line-IsLine}
use dbus_router.Prelude.{
  ℕ, ◌≡◌, ◌≢◌, refl, sym, ap, ◌∙◌, Bool, true, false, [], ◌∷◌, ◌++◌, if◌then◌else◌, Bytes, codes,
  starts_with, ok, err, auth,
}
use dbus_router.Session.State.{Writes}
use dbus_router.Session.Startup.{
  settle, write_all, uid_hex, line_end, send_host_hello, auth_host_bus,
}
use dbus_router.Socket.Stream.{Stream, Ending}
use dbus_router.Socket.{Polled, ready}
use dbus_router.Text.Utf8.{from_utf8_lossy}
use dbus_router.Zvariant.{Zvariant}

abbrev pub always : Writes
always n = true

abbrev stream : Bytes → Ending → Stream
stream bytes ending = record { bytes = bytes; ending = ending }

IsLine-ne-nil : (l : Bytes) → IsLine l → l ≢ []
IsLine-ne-nil l i e = go i.words (sym i.ended ∙ e)
  where
    go : (words : Bytes) → words ++ crlf ≢ []
    go [] h = cc
    go (w ∷ words) h = cc

as_string-ne-nil : (l : Bytes) → l ≢ [] → as_string (ready (ok l)) ≡ ready (ok (from_utf8_lossy l))
as_string-ne-nil [] h = absurd (h refl)
as_string-ne-nil (b ∷ l) h = refl

-- The text of a line.
read_auth_line_string-IsLine :
    (l rest : Bytes) (ending : Ending)
    → IsLine l
    → read_auth_line_string (stream (l ++ rest) ending)
      ≡ (ready (ok (from_utf8_lossy l)), stream rest ending)
unfolding read_auth_line_string
read_auth_line_string-IsLine l rest ending i =
    rw (read_auth_line-IsLine l rest ending i)
      (ap (λ (p : Polled Bytes). (p, stream rest ending)) (as_string-ne-nil l (IsLine-ne-nil l i)))

-- The bytes that the router writes up to the first answer, and those up to BEGIN.
abbrev pub credentials : ℕ → Bytes
credentials uid = (0 ∷ []) ++ (codes "AUTH EXTERNAL " ++ (uid_hex uid ++ line_end))

abbrev pub requests : Bytes
requests = (codes "NEGOTIATE_UNIX_FD" ++ line_end) ++ (codes "BEGIN" ++ line_end)

-- Let all writes succeed, and let the host bus answer with two lines of which the first starts with OK. Then the
-- router writes its credentials, asks for descriptors and begins, and nothing else; it takes the two
-- lines and nothing behind them; and it goes on with `Hello()`, or is done if it skips that.
pub auth_host_bus-accepted :
    (z : Zvariant) (uid : ℕ) (skip_hello : Bool) (l l' rest : Bytes) (ending : Ending)
    → IsLine l
    → IsLine l'
    → starts_with (codes "OK") (from_utf8_lossy l) ≡ true
    → auth_host_bus z always uid skip_hello
        (record { incoming = stream (l ++ (l' ++ rest)) ending; written = []; attempts = 0 })
      ≡ (if skip_hello then settle (ok tt) else send_host_hello z always) (record {
        incoming = stream rest ending;
        written = credentials uid ++ requests;
        attempts = 4;
      })
unfolding auth_host_bus write_all
auth_host_bus-accepted z uid skip_hello l l' rest ending i i' accepted =
    rw (read_auth_line_string-IsLine l (l' ++ rest) ending i) (
      rw accepted (
        rw (read_auth_line_string-IsLine l' rest ending i') (
          ap
            (λ (bytes : Bytes).
              (if skip_hello then settle (ok tt) else send_host_hello z always)
                (record { incoming = stream rest ending; written = bytes; attempts = 4 }))
            (append_assoc (credentials uid) (codes "NEGOTIATE_UNIX_FD" ++ line_end)
              (codes "BEGIN" ++ line_end)))))

-- If the host bus answers with another line, then the router writes its credentials and nothing else,
-- and fails.
pub auth_host_bus-refused :
    (z : Zvariant) (uid : ℕ) (skip_hello : Bool) (l rest : Bytes) (ending : Ending)
    → IsLine l
    → starts_with (codes "OK") (from_utf8_lossy l) ≡ false
    → auth_host_bus z always uid skip_hello
        (record { incoming = stream (l ++ rest) ending; written = []; attempts = 0 })
      ≡ (
        ready (err auth),
        record { incoming = stream rest ending; written = credentials uid; attempts = 2 },
      )
unfolding auth_host_bus write_all
auth_host_bus-refused z uid skip_hello l rest ending i refused =
    rw (read_auth_line_string-IsLine l rest ending i) (rw refused refl)
