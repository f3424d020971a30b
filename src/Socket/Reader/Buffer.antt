-- ===== src/Socket/Reader/Buffer.antt =====
-- The reader's buffer as the bytes that are not yet consumed.
use mathlib.Core.List.{append_assoc}
use dbus_router.Prelude.{
  ℕ, zero, suc, ◌+◌, ◌-◌, ◌≤◌, ◌≡◌, refl, sym, ap, ◌∙◌, true, false, List, [], ◌∷◌, ◌++◌, ◌==◌,
  ==_iff, arith, ltb, leb, Bool-cases, inl, inr, Bytes, length, take, drop, length-drop, ok, slice,
}
use dbus_router.Socket.Reader.Arrived.{Received, bytes_in, bytes_in-append, length-Received}
use dbus_router.Socket.Reader.{Reader, avail, head, consume, settled, compacted, compact_limit}
use dbus_router.Socket.{ready}

-- The start of the unconsumed bytes lies in the buffer.
abbrev pub IsReader : Reader → Type 0
IsReader r = r.start ≤ length r.buf

abbrev pub unread : Reader → Bytes
unread r = drop r.start r.buf

-- What is still to be consumed: in the buffer, and on its way.
abbrev pub stream : Reader → Bytes
stream r = unread r ++ bytes_in r.incoming

module _ {ℓ} {A : Type ℓ} where
  drop-nil : (n : ℕ) → drop {A = A} n [] ≡ []
  drop-nil zero = refl
  drop-nil (suc n) = refl

  pub drop-drop : (n m : ℕ) (xs : List A) → drop (n + m) xs ≡ drop m (drop n xs)
  drop-drop zero m xs = ground arith
  drop-drop (suc n) m [] = drop-nil (suc n + m) ∙ sym (drop-nil m)
  drop-drop (suc n) m (x ∷ xs) =
      let moved : suc n + m ≡ suc (n + m) = omega arith in
      ap (λ (k : ℕ). drop k (x ∷ xs)) moved ∙ drop-drop n m xs

  pub drop_all : (n : ℕ) (xs : List A) → length xs ≤ n → drop n xs ≡ []
  drop_all zero [] h = refl
  drop_all zero (x ∷ xs) h = absurd (omega arith)
  drop_all (suc n) [] h = refl
  drop_all (suc n) (x ∷ xs) h = drop_all n xs (omega arith)

  pub drop-append_le :
      (n : ℕ) (xs ys : List A) → n ≤ length xs → drop n (xs ++ ys) ≡ drop n xs ++ ys
  drop-append_le zero xs ys h = refl
  drop-append_le (suc n) [] ys h = absurd (omega arith)
  drop-append_le (suc n) (x ∷ xs) ys h = drop-append_le n xs ys (omega arith)

  pub take-append_le : (n : ℕ) (xs ys : List A) → n ≤ length xs → take n (xs ++ ys) ≡ take n xs
  take-append_le zero xs ys h = refl
  take-append_le (suc n) [] ys h = absurd (omega arith)
  take-append_le (suc n) (x ∷ xs) ys h = ap (◌∷◌ x) (take-append_le n xs ys (omega arith))

pub avail_lem : (r : Reader) → length (unread r) ≡ avail r
avail_lem r = length-drop r.start r.buf

pub head-unread :
    (n : ℕ) (r : Reader) → IsReader r → n ≤ avail r → head n r ≡ (ready (ok (take n (unread r))), r)
unfolding head slice
head-unread n r inside enough =
    let a : leb r.start (r.start + n) ≡ true = ground arith in
    let b : leb (r.start + n) (length r.buf) ≡ true = ground arith in
    let c : r.start + n - r.start ≡ n = omega arith in rw (a, b, c) refl

-- What `consume` leaves.
pub record Consumed (n : ℕ) (r : Reader) : Type 0 where
  pub after : Reader
  pub gives : consume n r ≡ (ready (ok tt), after)
  pub dropped : unread after ≡ drop n (unread r)
  pub inside : IsReader after
  pub same_incoming : after.incoming ≡ r.incoming
  pub same_fdq : after.fdq ≡ r.fdq

pub consume-Consumed : (n : ℕ) (r : Reader) → IsReader r → n ≤ avail r → Consumed n r
unfolding consume settled compacted
consume-Consumed n r inside enough = elim (Bool-cases (r.start + n == length r.buf)) [
  | inl all ↦ record {
    after = record r { buf = []; start = 0 };
    gives = rw all refl;
    dropped = sym (
        drop_all n (unread r)
          (omega (arith, length-drop r.start r.buf, (==_iff (r.start + n) (length r.buf)).0 all)));
    inside = omega arith;
    same_incoming = refl;
    same_fdq = refl;
  }
  | inr some_left ↦ elim (Bool-cases (ltb compact_limit (r.start + n))) [
    | inl far ↦
        let within : ltb (length r.buf) (r.start + n) ≡ false = ground arith in
        record {
          after = record r { buf = drop (r.start + n) r.buf; start = 0 };
          gives = rw (some_left, far, within) refl;
          dropped = drop-drop r.start n r.buf;
          inside = omega arith;
          same_incoming = refl;
          same_fdq = refl;
        }
    | inr near ↦ record {
      after = record r { start = r.start + n };
      gives = rw (some_left, near) refl;
      dropped = drop-drop r.start n r.buf;
      inside = omega arith;
      same_incoming = refl;
      same_fdq = refl;
    }
  ]
]

pub unread-Received :
    {r s : Reader} (a : Received r s) → IsReader r → unread s ≡ unread r ++ bytes_in a.used
unread-Received {r} {s} a inside =
    ap (λ (n : ℕ). drop n s.buf) a.same_start
    ∙ ap (drop r.start) a.appended
    ∙ drop-append_le r.start r.buf (bytes_in a.used) inside

pub IsReader-Received : {r s : Reader} → Received r s → IsReader r → IsReader s
IsReader-Received {r} {s} a inside = omega (arith, a.same_start, length-Received a)

pub stream-Received : {r s : Reader} → Received r s → IsReader r → stream s ≡ stream r
stream-Received {r} {s} a inside =
    ap (λ (l : Bytes). l ++ bytes_in s.incoming) (unread-Received a inside)
    ∙ append_assoc (unread r) (bytes_in a.used) (bytes_in s.incoming)
    ∙ ap (λ (l : Bytes). unread r ++ l)
        (sym (bytes_in-append a.used s.incoming) ∙ ap bytes_in (sym a.from_socket))
