-- ===== src/Prelude/Result.antt =====
-- `Result<T, Error>` with the errors of crates/ironwood/src/types.rs.
use mathlib.Core.Option.{Option, none, some}

-- `Io` wraps an operating system error, which the modelled code never builds.
pub data Error : Type 0 where
  encode decode closed timeout bad_message empty_message oversized_message : Error
  unrecognized_message peer_not_found bad_address bad_key io : Error

-- `stuck` is no Rust value: a loop of the model ran out of fuel.
pub data Result {ℓ} (A : Type ℓ) : Type ℓ where
  ok : A → Result A
  err : Error → Result A
  stuck : Result A

infixl 5 ◌>>=◌
abbrev pub ◌>>=◌ {ℓ κ} : {A : Type ℓ} {B : Type κ} → Result A → (A → Result B) → Result B
ok a >>= f = f a
err e >>= f = err e
stuck >>= f = stuck

-- `option.ok_or(e)`
abbrev pub ok_or {ℓ} : {A : Type ℓ} → Option A → Error → Result A
ok_or none e = err e
ok_or (some a) e = ok a
