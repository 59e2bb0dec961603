-- ===== src/Result.antt =====
-- Rust's `Result`, with `?` as the bind of a `do` block.
use ruststack.Prelude.{Option, none, some}

pub data Result {ℓ κ} (E : Type ℓ) (A : Type κ) : Type (ℓ ⊔ κ) where
  ok : A → Result E A
  err : E → Result E A

infixl 5 ◌>>=◌
abbrev pub ◌>>=◌ {ℓ κ μ} :
    {E : Type ℓ} {A : Type κ} {B : Type μ} → Result E A → (A → Result E B) → Result E B
ok a >>= f = f a
err e >>= f = err e

-- `Option::ok_or`
abbrev pub ok_or {ℓ κ} : {E : Type ℓ} {A : Type κ} → Option A → E → Result E A
ok_or none e = err e
ok_or (some a) e = ok a

-- The state beside the result: what was written before an error stays written.
abbrev pub state {ℓ κ} : {R : Type ℓ} {S : Type κ} → R × S → S
state (r, s) = s

abbrev pub reply {ℓ κ} : {R : Type ℓ} {S : Type κ} → R × S → R
reply (r, s) = r
