-- ===== src/Session/Startup/Registered.antt =====
-- `send_host_hello`, read backwards from its success.
use dbus_router.Message.{Message}
use dbus_router.Message.Prologue.{MessageType, method_return, method_call, error, signal, invalid}
use dbus_router.Message.Reading.{read_message}
use dbus_router.Message.Reading.Layout.{IsWhole}
use dbus_router.Message.Reading.Plain.{read_message-IsWhole}
use dbus_router.Prelude.{
  ◌≡◌, refl, sym, ap, ◌∙◌, Option, none, some, ◌++◌, Bool-cases, inl, inr, Bytes, Result, ok, err,
  panic,
}
use dbus_router.Session.State.{Writes}
use dbus_router.Session.Startup.{
  hello_reply, HostBus, Dialog, then_do, settle, write_all, reading, send_host_hello, checked_reply,
  checked_signal,
}
use dbus_router.Session.Startup.Hello.{build_hello_call}
use dbus_router.Socket.Stream.{Stream}
use dbus_router.Socket.{Polled, pending, ready}
use dbus_router.Zvariant.{Zvariant}

-- What a dialog that ends well has done first.
then_do_ok {ℓ₁ ℓ₂} :
    {Before : Type ℓ₁} {After : Type ℓ₂} (m : Polled Before × HostBus)
    (rest : Before → Dialog After) {b : After} {h' : HostBus}
    → then_do m rest ≡ (ready (ok b), h')
    → (a : Before) × (h : HostBus) × (m ≡ (ready (ok a), h)) × (rest a h ≡ (ready (ok b), h'))
then_do_ok (pending, h) rest e = cc
then_do_ok (ready panic, h) rest e = cc
then_do_ok (ready (err why), h) rest e = cc
then_do_ok (ready (ok a), h) rest e = (a, h, refl, e)

-- What a successful `Hello()` has sent and taken.
pub record Registered (z : Zvariant) (before after : HostBus) : Type 0 where
  pub call : Bytes
  pub built : build_hello_call z ≡ ok call
  pub written : after.written ≡ before.written ++ call
  pub reply : Message
  pub second : Message
  pub reply_IsWhole : IsWhole z reply.raw reply.header
  pub second_IsWhole : IsWhole z second.raw second.header
  pub is_return : reply.header.msg_type ≡ method_return
  pub taken : before.incoming.bytes ≡ reply.raw ++ (second.raw ++ after.incoming.bytes)

settle_ok {ℓ} :
    {A : Type ℓ} (r : Result A) (h : HostBus) {a : A} {h' : HostBus}
    → settle r h ≡ (ready (ok a), h')
    → (r ≡ ok a) × (h' ≡ h)
settle_ok panic h e = cc
settle_ok (err why) h e = cc
settle_ok (ok a) h e = (cc, ap (λ p. p.1) (sym e))

wrote :
    (writes : Writes) (bytes : Bytes) (h h' : HostBus)
    → write_all writes bytes h ≡ (ready (ok tt), h')
    → (h'.written ≡ h.written ++ bytes) × (h'.incoming ≡ h.incoming)
unfolding write_all
wrote writes bytes h h' e = elim (Bool-cases (writes h.attempts)) [
  | inl written ↦
      let e' = rw written at e in
      (
        ap (λ (t : Polled (Unit {0}) × HostBus). t.1.written) (sym e'),
        ap (λ (t : Polled (Unit {0}) × HostBus). t.1.incoming) (sym e'),
      )
  | inr failing ↦ let e' = rw failing at e in cc
]

hello_reply-ok : (t : MessageType) → hello_reply t ≡ ok tt → t ≡ method_return
hello_reply-ok method_return e = refl
hello_reply-ok invalid e = cc
hello_reply-ok method_call e = cc
hello_reply-ok error e = cc
hello_reply-ok signal e = cc

-- The reply that passes.
checked :
    (resp : Option Message)
    → checked_reply resp ≡ ok tt
    → (m : Message) × (resp ≡ some m) × (m.header.msg_type ≡ method_return)
unfolding checked_reply
checked none e = cc
checked (some m) e = (m, refl, hello_reply-ok m.header.msg_type e)

there : (resp : Option Message) → checked_signal resp ≡ ok tt → (m : Message) × (resp ≡ some m)
unfolding checked_signal
there none e = cc
there (some m) e = (m, refl)

-- Where a message is read from the host bus.
got :
    (z : Zvariant) (h h' : HostBus) (m : Message)
    → reading (read_message z) h ≡ (ready (ok (some m)), h')
    → IsWhole z m.raw m.header
      × (h.incoming.bytes ≡ m.raw ++ h'.incoming.bytes)
      × (h'.written ≡ h.written)
got z h h' m e =
    let (w, front, _) =
      read_message-IsWhole z h.incoming h'.incoming m
        (ap (λ (t : Polled (Option Message) × HostBus). (t.0, t.1.incoming)) e) in
    (w, front, ap (λ (t : Polled (Option Message) × HostBus). t.1.written) (sym e))

-- Two messages off the stream, one after the other.
read_twice :
    (h h1 h2 h3 h4 h5 h' : HostBus) (m m' : Message)
    → h1 ≡ h
    → h2.incoming ≡ h1.incoming
    → h2.incoming.bytes ≡ m.raw ++ h3.incoming.bytes
    → h4 ≡ h3
    → h4.incoming.bytes ≡ m'.raw ++ h5.incoming.bytes
    → h' ≡ h5
    → h.incoming.bytes ≡ m.raw ++ (m'.raw ++ h'.incoming.bytes)
read_twice h h1 h2 h3 h4 h5 h' m m' same1 kept front same4 front' same5 =
    ap (λ (x : HostBus). x.incoming.bytes) (sym same1)
    ∙ ap (λ (x : Stream). x.bytes) (sym kept)
    ∙ front
    ∙ ap (λ (x : Bytes). m.raw ++ x)
        (ap (λ (x : HostBus). x.incoming.bytes) (sym same4)
          ∙ front'
          ∙ ap (λ (x : HostBus). m'.raw ++ x.incoming.bytes) (sym same5))

-- If `send_host_hello` succeeds, whatever the host bus sends: the router has written the call of `Hello` and
-- nothing else, and has taken two whole messages from the stream and nothing behind them, of which the first is
-- a method return.
pub send_host_hello-Registered :
    (z : Zvariant) (writes : Writes) (h h' : HostBus)
    → send_host_hello z writes h ≡ (ready (ok tt), h')
    → Registered z h h'
unfolding send_host_hello
send_host_hello-Registered z writes h h' e =
    let (call, h1, e1, r1) = then_do_ok (settle (build_hello_call z) h) _ e in
    let (_, h2, e2, r2) = then_do_ok (write_all writes call h1) _ r1 in
    let (resp, h3, e3, r3) = then_do_ok (reading (read_message z) h2) _ r2 in
    let (_, h4, e4, r4) = then_do_ok (settle (checked_reply resp) h3) _ r3 in
    let (resp', h5, e5, r5) = then_do_ok (reading (read_message z) h4) _ r4 in
    let (built, same1) = settle_ok _ h e1 in
    let (passes, same4) = settle_ok _ h3 e4 in
    let (present, same5) = settle_ok _ h5 r5 in
    let (m, is_some, returned) = checked resp passes in
    let (m', is_some') = there resp' present in
    let (put, kept) = wrote writes call h1 h2 e2 in
    let (w, front, still) =
      got z h2 h3 m (e3 ∙ ap (λ (o : Option Message). (ready (ok o), h3)) is_some) in
    let (w', front', still') =
      got z h4 h5 m' (e5 ∙ ap (λ (o : Option Message). (ready (ok o), h5)) is_some') in
    record {
      call = call;
      built = built;
      written = cc;
      reply = m;
      second = m';
      reply_IsWhole = w;
      second_IsWhole = w';
      is_return = returned;
      taken = read_twice h h1 h2 h3 h4 h5 h' m m' same1 kept front same4 front' same5;
    }
