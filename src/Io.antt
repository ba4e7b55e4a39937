-- ===== src/Io.antt =====
-- `std::io::Result`: a value, or an error of the kind `InvalidInput` with its message, or one of
-- the operating system, as its number.
use shadowstep.Prelude.{ℕ, ◌≡◌, ◌⊎◌, inl, inr, refl}
use shadowstep.Text.{Text}

pub data IoError : Type 0 where
  invalid_input : Text → IoError
  os : ℕ → IoError

pub data Io {ℓ} (A : Type ℓ) : Type ℓ where
  ok : A → Io A
  fails : IoError → Io A

infixl 5 ◌>>=◌
abbrev pub ◌>>=◌ {ℓ κ} : {A : Type ℓ} {B : Type κ} → Io A → (A → Io B) → Io B
ok a >>= f = f a
fails e >>= f = fails e

pub Io-cases {ℓ} :
    {A : Type ℓ} (r : Io A) → ((a : A) × (r ≡ ok a)) ⊎ ((e : IoError) × (r ≡ fails e))
Io-cases (ok a) = inl (a, refl)
Io-cases (fails e) = inr (e, refl)

-- A chain that succeeded had a first step that did.
pub bind-ok {ℓ κ} :
    {A : Type ℓ} {B : Type κ} (r : Io A) (f : A → Io B) (b : B)
    → r >>= f ≡ ok b
    → (a : A) × (r ≡ ok a) × (f a ≡ ok b)
bind-ok (ok a) f b h = (a, refl, h)
bind-ok (fails e) f b h = cc
