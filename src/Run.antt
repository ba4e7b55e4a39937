-- ===== src/Run.antt =====
-- A computation that returns or panics.
use shadowstep.Prelude.{◌≡◌, ◌⊎◌, inl, inr, refl, subst, Bool, true, false, if◌then◌else◌}

pub data Run {ℓ} (A : Type ℓ) : Type ℓ where
  done : A → Run A
  panic : Run A

infixl 5 ◌>>=◌
abbrev pub ◌>>=◌ {ℓ κ} : {A : Type ℓ} {B : Type κ} → Run A → (A → Run B) → Run B
done a >>= f = f a
panic >>= f = panic

abbrev pub map_run {ℓ κ} : {A : Type ℓ} {B : Type κ} → (A → B) → Run A → Run B
map_run f (done a) = done (f a)
map_run f panic = panic

pub Run-cases {ℓ} : {A : Type ℓ} (r : Run A) → ((a : A) × (r ≡ done a)) ⊎ (r ≡ panic)
Run-cases (done a) = inl (a, refl)
Run-cases panic = inr refl

-- A mapped computation that returned did return before.
pub map_run-done {ℓ κ} :
    {A : Type ℓ} {B : Type κ} (f : A → B) (r : Run A) (b : B)
    → map_run f r ≡ done b
    → (a : A) × (r ≡ done a) × (f a ≡ b)
map_run-done f (done a) b h = (a, refl, cc)
map_run-done f panic b h = cc

-- What holds of the result of a computation that returns.
abbrev pub Ends {ℓ κ} : {A : Type ℓ} → (A → Type κ) → Run A → Type (ℓ ⊔ κ)
Ends {A = A} P r = (a : A) → r ≡ done a → P a

pub Ends-done {ℓ κ} : {A : Type ℓ} (P : A → Type κ) (a : A) → P a → Ends P (done a)
Ends-done P a h b e = let same : a ≡ b = cc in subst P same h

pub Ends-map_run {ℓ κ ι} :
    {A : Type ℓ} {B : Type κ} (P : B → Type ι) (f : A → B) (r : Run A)
    → ((a : A) → P (f a))
    → Ends P (map_run f r)
Ends-map_run P f (done a) h = Ends-done P (f a) (h a)
Ends-map_run P f panic h = λ b e. cc

pub Ends-bind {ℓ κ ι} :
    {A : Type ℓ} {B : Type κ} (P : B → Type ι) (r : Run A) (f : A → Run B)
    → ((a : A) → Ends P (f a))
    → Ends P (r >>= f)
Ends-bind P (done a) f h = h a
Ends-bind P panic f h = λ b e. cc

pub Ends-bind_of {ℓ κ ι ι'} :
    {A : Type ℓ} {B : Type κ} (Q : A → Type ι') (P : B → Type ι) (r : Run A) (f : A → Run B)
    → Ends Q r
    → ((a : A) → Q a → Ends P (f a))
    → Ends P (r >>= f)
Ends-bind_of Q P (done a) f q h = h a (q a refl)
Ends-bind_of Q P panic f q h = λ b e. cc

pub Ends-map_run_of {ℓ κ ι ι'} :
    {A : Type ℓ} {B : Type κ} (Q : A → Type ι') (P : B → Type ι) (f : A → B) (r : Run A)
    → Ends Q r
    → ((a : A) → Q a → P (f a))
    → Ends P (map_run f r)
Ends-map_run_of Q P f (done a) q h = Ends-done P (f a) (h a (q a refl))
Ends-map_run_of Q P f panic q h = λ b e. cc

pub Ends-if {ℓ κ} :
    {A : Type ℓ} (P : A → Type κ) (b : Bool) (x y : Run A)
    → Ends P x
    → Ends P y
    → Ends P (if b then x else y)
Ends-if P true x y h k = h
Ends-if P false x y h k = k
