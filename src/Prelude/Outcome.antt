-- ===== src/Prelude/Outcome.antt =====
-- error.rs, and the three ways in which a Rust function ends. The texts inside the errors go to the
-- log only and are left out.
use mathlib.Core.Path.{◌≡◌, refl}
use mathlib.Core.Option.{Option, none, some}

pub data Error : Type 0 where
  io toml glob utf8 zvariant protocol auth : Error

-- `panic` is an index or a slice out of bounds, which ends the task that runs the code.
pub data Result {ℓ} (A : Type ℓ) : Type ℓ where
  panic : Result A
  err : Error → Result A
  ok : A → Result A

infixl 5 ◌>>=◌
-- `?`, and what follows it
abbrev pub ◌>>=◌ {ℓ₁ ℓ₂} :
    {Before : Type ℓ₁} {After : Type ℓ₂} → Result Before → (Before → Result After) → Result After
panic >>= rest = panic
err why >>= rest = err why
ok value >>= rest = rest value

-- What ends well began well.
pub began_ok {ℓ₁ ℓ₂} :
    {Before : Type ℓ₁} {After : Type ℓ₂} (start : Result Before) (rest : Before → Result After)
    {end : After}
    → (start >>= rest) ≡ ok end
    → (value : Before) × (start ≡ ok value) × (rest value ≡ ok end)
began_ok panic rest ended = cc
began_ok (err why) rest ended = cc
began_ok (ok value) rest ended = (value, refl, ended)

-- An `Option` that must be there.
abbrev pub or_panic {ℓ} : {A : Type ℓ} → Option A → Result A
or_panic none = panic
or_panic (some a) = ok a

abbrev pub or_err {ℓ} : {A : Type ℓ} → Error → Option A → Result A
or_err e (some a) = ok a
or_err e none = err e
