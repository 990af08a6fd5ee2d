-- ===== src/Base/Run.antt =====
-- Code that may stop the process: `abort` stands for an assertion that fails and for the use of a
-- pointer that is NULL.
use mathlib.Core.Path.{◌≡◌, subst}
use mathlib.Core.Option.{Option, none, some}

pub data Run {ℓ} (A : Type ℓ) : Type ℓ where
  ok : A → Run A
  abort : Run A

infixl 5 ◌>>=◌
abbrev pub ◌>>=◌ {ℓ κ} : {A : Type ℓ} {B : Type κ} → Run A → (A → Run B) → Run B
ok a >>= f = f a
abort >>= f = abort

-- the use of a pointer
abbrev pub deref {ℓ} : {A : Type ℓ} → Option A → Run A
deref none = abort
deref (some a) = ok a

-- What holds of the value, if there is one.
abbrev pub Post {ℓ κ} : {A : Type ℓ} → (A → Type κ) → Run A → Type κ
Post P (ok a) = P a
Post P abort = Unit

pub Post-bind {ℓ κ μ} :
    {A : Type ℓ} {B : Type κ} (P : B → Type μ) (m : Run A) (f : A → Run B)
    → ((a : A) → Post P (f a))
    → Post P (m >>= f)
Post-bind P (ok a) f h = h a
Post-bind P abort f h = tt

pub Post-ok {ℓ κ} : {A : Type ℓ} (P : A → Type κ) (m : Run A) {a : A} → Post P m → m ≡ ok a → P a
Post-ok P (ok b) h e = subst (λ m. Post P m) e h
Post-ok P abort h e = cc

pub Post-then {ℓ κ μ ν} :
    {A : Type ℓ} {B : Type κ} (Q : A → Type ν) (P : B → Type μ) (m : Run A) (f : A → Run B)
    → Post Q m
    → ((a : A) → Q a → Post P (f a))
    → Post P (m >>= f)
Post-then Q P (ok a) f q h = h a q
Post-then Q P abort f q h = tt

pub Post-map {ℓ κ μ} :
    {A : Type ℓ} (Q : A → Type κ) (P : A → Type μ) (m : Run A)
    → Post Q m
    → ((a : A) → Q a → Post P (ok a))
    → Post P m
Post-map Q P (ok a) q h = h a q
Post-map Q P abort q h = tt
