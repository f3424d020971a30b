-- ===== src/Socket/Reader/Fill.antt =====
-- What `fill` takes from the socket.
use mathlib.Core.Path.{subst}
use dbus_router.Prelude.{
  ℕ, zero, suc, ◌+◌, ◌≤◌, ◌<◌, ◌≡◌, refl, ap, Bool, true, false, List, [], ◌∷◌, ◌++◌, All, arith,
  ltb, leb, leb→le, Bool-cases, inl, inr, length, length-append, ok, err, panic,
}
use dbus_router.Socket.Reader.{
  Reader, avail, then_read, received, cut_off, recv_from, recv_some, go_on, fill_loop, fill,
}
use dbus_router.Socket.{max_fds_per_message, Polled, pending, ready, Arrival}
use dbus_router.Socket.Reader.Arrived.{
  bytes_in, fds_in, IsData, Received, Received-refl, Received-trans, fed, Received-chunk,
  Received-blocked, fds_around, fds_around-Received, bytes_around, bytes_around-Received,
  length-Received,
}

-- What one `recv_some` gives, where bytes arrive.
record Got (r : Reader) (ins : List Arrival) : Type 0 where
  pub after : Reader
  pub count : ℕ
  pub gives : recv_from ins r ≡ (ready (ok (suc count)), after)
  pub received_it : Received (fed r ins) after
  pub fewer : length after.incoming < length ins
  pub more_data : All IsData after.incoming

recv_from-Got :
    (ins : List Arrival) (r : Reader)
    → All IsData ins
    → 0 < length (bytes_in ins)
    → length r.fdq + length (fds_in ins) ≤ max_fds_per_message
    → Got r ins
unfolding recv_from received bytes_in fds_in
recv_from-Got [] r d some_bytes few = absurd (omega arith)
recv_from-Got (Arrival.blocked ∷ ins) r d some_bytes few =
    let g = recv_from-Got ins r d.1 some_bytes few in
    record {
      after = g.after;
      count = g.count;
      gives = g.gives;
      received_it = Received-blocked r ins g.received_it;
      fewer = omega (arith, g.fewer);
      more_data = g.more_data;
    }
recv_from-Got (Arrival.broken ∷ ins) r d some_bytes few = absurd d.0
recv_from-Got (Arrival.chunk [] fds ∷ ins) r d some_bytes few = absurd d.0
recv_from-Got (Arrival.chunk (b ∷ bytes) fds ∷ ins) r d some_bytes few =
    let fits : ltb max_fds_per_message (length r.fdq + length fds) ≡ false =
      ground (arith, length-append fds (fds_in ins)) in
    record {
      after = record r { incoming = ins; buf = r.buf ++ b ∷ bytes; fdq = r.fdq ++ fds };
      count = length bytes;
      gives = rw fits refl;
      received_it = Received-chunk r ins b bytes fds;
      fewer = omega arith;
      more_data = d.1;
    }
recv_from-Got (Arrival.truncated bytes fds ∷ ins) r d some_bytes few = absurd d.0

-- What `fill` gives, where the bytes arrive.
pub record Filled (n : ℕ) (r : Reader) (result : Polled Bool × Reader) : Type 0 where
  pub after : Reader
  pub gives : result ≡ (ready (ok true), after)
  pub received_it : Received r after
  pub enough : n ≤ avail after
  pub more_data : All IsData after.incoming

fill_loop-Filled :
    (fuel n : ℕ) (r : Reader)
    → length r.incoming < fuel
    → All IsData r.incoming
    → r.start ≤ length r.buf
    → n + r.start ≤ bytes_around r
    → fds_around r ≤ max_fds_per_message
    → Filled n r (fill_loop fuel n r)
unfolding fill_loop recv_some
fill_loop-Filled zero n r rounds data_only inside enough few = absurd (omega arith)
fill_loop-Filled (suc fuel) n r rounds data_only inside enough few =
    elim (Bool-cases (leb n (avail r))) [
      | inl there ↦ record {
        after = r;
        gives = rw there refl;
        received_it = Received-refl r;
        enough = omega (arith, leb→le n (avail r) there);
        more_data = data_only;
      }
      | inr missing ↦
          let g = recv_from-Got r.incoming r data_only (ground arith) few in
          let rest =
            fill_loop-Filled fuel n g.after (omega (arith, g.fewer)) g.more_data
              (omega (arith, g.received_it.same_start, length-Received g.received_it))
              (omega (arith, g.received_it.same_start, bytes_around-Received g.received_it))
              (omega (arith, fds_around-Received g.received_it)) in
          record {
            after = rest.after;
            gives = rw missing (rw g.gives rest.gives);
            received_it = Received-trans r g.after rest.after g.received_it rest.received_it;
            enough = rest.enough;
            more_data = rest.more_data;
          }
    ]

-- If only data arrives, and enough of it, `fill` waits until the bytes are there.
pub fill-Filled :
    (n : ℕ) (r : Reader)
    → All IsData r.incoming
    → r.start ≤ length r.buf
    → n + r.start ≤ length r.buf + length (bytes_in r.incoming)
    → fds_around r ≤ max_fds_per_message
    → Filled n r (fill n r)
unfolding fill
fill-Filled n r data_only inside enough few =
    fill_loop-Filled (suc (length r.incoming)) n r (omega arith) data_only inside enough few

-- Whatever arrives: what one `recv_some` gives besides an error and the end of the stream.
recv_from-Received :
    (ins : List Arrival) (r r' : Reader) (k : ℕ)
    → recv_from ins r ≡ (ready (ok (suc k)), r')
    → Received (fed r ins) r'
unfolding recv_from received cut_off
recv_from-Received [] r r' k h = cc
recv_from-Received (Arrival.blocked ∷ ins) r r' k h =
    Received-blocked r ins (recv_from-Received ins r r' k h)
recv_from-Received (Arrival.broken ∷ ins) r r' k h = cc
recv_from-Received (Arrival.chunk [] fds ∷ ins) r r' k h = cc
recv_from-Received (Arrival.chunk (b ∷ bytes) fds ∷ ins) r r' k h =
    elim (Bool-cases (ltb max_fds_per_message (length r.fdq + length fds))) [
      | inl many ↦ cc (rw many at h)
      | inr few ↦
          subst (λ (s : Reader). Received (fed r (Arrival.chunk (b ∷ bytes) fds ∷ ins)) s)
            (ap (λ (t : Polled ℕ × Reader). t.1) (rw few at h)) (Received-chunk r ins b bytes fds)
    ]
recv_from-Received (Arrival.truncated [] fds ∷ ins) r r' k h = cc
recv_from-Received (Arrival.truncated (b ∷ bytes) fds ∷ ins) r r' k h = cc

round-Received :
    (fuel n : ℕ) (r r' : Reader) (got : Polled ℕ × Reader)
    → ((s : Reader) → fill_loop fuel n s ≡ (ready (ok true), r') → Received s r' × (n ≤ avail r'))
    → recv_from r.incoming r ≡ got
    → then_read got (go_on (fill_loop fuel n)) ≡ (ready (ok true), r')
    → Received r r' × (n ≤ avail r')
round-Received fuel n r r' (pending, s) again e h = cc
round-Received fuel n r r' (ready panic, s) again e h = cc
round-Received fuel n r r' (ready (err why), s) again e h = cc
round-Received fuel n r r' (ready (ok zero), s) again e h = cc
round-Received fuel n r r' (ready (ok (suc k)), s) again e h =
    let (more, enough) = again s h in
    (Received-trans r s r' (recv_from-Received r.incoming r s k e) more, enough)

fill_loop-Received :
    (fuel n : ℕ) (r r' : Reader)
    → fill_loop fuel n r ≡ (ready (ok true), r')
    → Received r r' × (n ≤ avail r')
unfolding fill_loop recv_some
fill_loop-Received zero n r r' h = cc
fill_loop-Received (suc fuel) n r r' h = elim (Bool-cases (leb n (avail r))) [
  | inl there ↦
      subst (λ (s : Reader). Received r s × (n ≤ avail s))
        (ap (λ (t : Polled Bool × Reader). t.1) (rw there at h))
        (Received-refl r, leb→le n (avail r) there)
  | inr missing ↦
      round-Received fuel n r r' (recv_from r.incoming r) (λ s. fill_loop-Received fuel n s r') refl
        (rw missing at h)
]

-- Whatever arrives, also errors: where `fill` says that `n` bytes are there, at least `n` are buffered, and the bytes
-- and descriptors of the arrivals that it took stand behind those that were there, in the order of
-- arrival.
pub fill-Received :
    (n : ℕ) (r r' : Reader) → fill n r ≡ (ready (ok true), r') → Received r r' × (n ≤ avail r')
unfolding fill
fill-Received n r r' h = fill_loop-Received (suc (length r.incoming)) n r r' h
