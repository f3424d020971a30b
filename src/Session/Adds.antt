-- ===== src/Session/Adds.antt =====
-- What a handler may write, whatever it returns: one rule for each way to build a handler.
use mathlib.Core.List.{append-nil, append_assoc}
use dbus_router.Prelude.{
  ℕ, ◌≤◌, ◌≡◌, refl, sym, ◌∙◌, ap, Bool, true, false, List, [], ◌∷◌, ◌++◌, All, arith, ltb,
  if◌then◌else◌, Bytes, Bool-cases, inl, inr, length, Result, ok, err, panic,
}
use dbus_router.Session.State.{
  Session, Peer, Sent, World, Handler, continue, ◌>>=◌, pure, lift, modify, max_fds_per_message,
  Writes, send,
}

All-append :
    (P : Sent → Type 0) (new later : List Sent) → All P new → All P later → All P (new ++ later)
All-append P [] later here there = there
All-append P (s ∷ new) later here there = (here.0, All-append P new later here.1 there)

-- Which client it is, and the configuration, are never changed.
abbrev pub SameClient : Session → Session → Type 0
SameClient s s' = (s'.config ≡ s.config) × (s'.client_exe_path ≡ s.client_exe_path)

-- From `w` to `w'` messages were written that are all in `P`, behind those written before.
pub record Added (P : Sent → Type 0) (w w' : World) : Type 0 where
  pub new : List Sent
  pub appended : w'.sent ≡ w.sent ++ new
  pub allowed : All P new
  pub same_client : SameClient w.session w'.session

pub Added-none :
    {P : Sent → Type 0} (w w' : World)
    → w'.sent ≡ w.sent
    → SameClient w.session w'.session
    → Added P w w'
Added-none w w' e k = record {
  new = [];
  appended = e ∙ sym (append-nil w.sent);
  allowed = tt;
  same_client = k;
}

pub Added-trans : {P : Sent → Type 0} (u v w : World) → Added P u v → Added P v w → Added P u w
Added-trans {P} u v w a b = record {
  new = a.new ++ b.new;
  appended =
      b.appended ∙ ap (λ (l : List Sent). l ++ b.new) a.appended ∙ append_assoc u.sent a.new b.new;
  allowed = All-append P a.new b.new a.allowed b.allowed;
  same_client = (b.same_client.0 ∙ a.same_client.0, b.same_client.1 ∙ a.same_client.1);
}

-- Whether `m` returns, fails or panics, it writes only what is in `P`.
pub record Adds {ℓ} {A : Type ℓ} (P : Sent → Type 0) (m : Handler A) : Type ℓ where
  pub at : (w : World) → Added P w (m w).1

module _ {ℓ} {A : Type ℓ} {P : Sent → Type 0} where
  pub Adds-pure : (a : A) → Adds P (pure a)
  Adds-pure a = record { at = λ w. Added-none w w refl (refl, refl) }

  pub Adds-lift : (r : Result A) → Adds P (lift r)
  Adds-lift r = record { at = λ w. Added-none w w refl (refl, refl) }

  pub Adds-if : (b : Bool) (m n : Handler A) → Adds P m → Adds P n → Adds P (if b then m else n)
  Adds-if true m n hm hn = hm
  Adds-if false m n hm hn = hn

pub Adds-modify :
    {P : Sent → Type 0} (f : Session → Session)
    → ((s : Session) → SameClient s (f s))
    → Adds P (modify f)
Adds-modify f k = record { at = λ w. Added-none w (modify f w).1 refl (k w.session) }

module _ {ℓ κ} {A : Type ℓ} {B : Type κ} {P : Sent → Type 0} where
  continue_adds :
      (r : Result A) (f : A → Handler B) (w : World)
      → ((a : A) → Adds P (f a))
      → Added P w (continue r f w).1
  continue_adds (ok a) f w hf = (hf a).at w
  continue_adds (err e) f w hf = Added-none w w refl (refl, refl)
  continue_adds panic f w hf = Added-none w w refl (refl, refl)

  pub Adds-bind :
      (m : Handler A) (f : A → Handler B) → Adds P m → ((a : A) → Adds P (f a)) → Adds P (m >>= f)
  Adds-bind m f hm hf = record {
    at = λ w. Added-trans w (m w).1 ((m >>= f) w).1 (hm.at w) (continue_adds (m w).0 f (m w).1 hf);
  }

-- A write adds at most the message that it is given, and none with too many descriptors.
pub Adds-send :
    {P : Sent → Type 0} (writes : Writes) (peer : Peer) (raw : Bytes) (fds : List ℕ)
    → (length fds ≤ max_fds_per_message → P (record { peer = peer; raw = raw; fds = fds }))
    → Adds P (send writes peer raw fds)
unfolding send
Adds-send {P} writes peer raw fds h = record { at = λ w. wrote w }
  where
    wrote : (w : World) → Added P w (send writes peer raw fds w).1
    wrote w = elim (Bool-cases (ltb max_fds_per_message (length fds))) [
      | inl many ↦ rw many (Added-none w w refl (refl, refl))
      | inr few ↦ elim (Bool-cases (writes w.attempts)) [
        | inl done ↦
            rw (few, done)
              (record {
                new = record { peer = peer; raw = raw; fds = fds } ∷ [];
                appended = refl;
                allowed = (h (ground arith), tt);
                same_client = (refl, refl);
              })
        | inr refused ↦ rw (few, refused) (Added-none w _ refl (refl, refl))
      ]
    ]

pub ruleset adds_rules = (Adds-pure, Adds-lift, Adds-if, Adds-modify, Adds-bind)

-- A handler that looks at the session first.
pub Adds-look {ℓ} :
    {A : Type ℓ} {P : Sent → Type 0} (m : World → Handler A)
    → ((v : World) → Adds P (m v))
    → Adds P (λ w. m w w)
Adds-look m h = record { at = λ w. (h w).at w }
