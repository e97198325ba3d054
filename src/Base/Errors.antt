-- ===== src/Base/Errors.antt =====
-- What a Go call comes back with: a value, an `error`, or a panic.
use mathlib.Core.Path.{◌≡◌, refl, subst}
use go_relay.Base.Strings.{Text}

pub data Outcome {ℓ} (A : Type ℓ) : Type ℓ where
  ok : A → Outcome A
  err : Text → Outcome A
  panic : Outcome A

infixl 5 ◌>>=◌
abbrev pub ◌>>=◌ {ℓ κ} : {A : Type ℓ} {B : Type κ} → Outcome A → (A → Outcome B) → Outcome B
ok a >>= f = f a
err e >>= f = err e
panic >>= f = panic

-- Whatever is returned satisfies `P`.
abbrev pub Holds {ℓ κ} : {A : Type ℓ} → (A → Type κ) → Outcome A → Type κ
Holds P (ok a) = P a
Holds P (err e) = Unit
Holds P panic = Unit

pub Holds-bind {ℓ κ ν} :
    {A : Type ℓ} {B : Type κ} (P : A → Type ν) (Q : B → Type ν) (m : Outcome A) (f : A → Outcome B)
    → Holds P m
    → ((a : A) → P a → Holds Q (f a))
    → Holds Q (m >>= f)
Holds-bind P Q (ok a) f h k = k a h
Holds-bind P Q (err e) f h k = tt
Holds-bind P Q panic f h k = tt

pub Holds-bind_eq {ℓ κ ν} :
    {A : Type ℓ} {B : Type κ} (Q : B → Type ν) (m : Outcome A) (f : A → Outcome B)
    → ((a : A) → m ≡ ok a → Holds Q (f a))
    → Holds Q (m >>= f)
Holds-bind_eq Q (ok a) f k = k a refl
Holds-bind_eq Q (err e) f k = tt
Holds-bind_eq Q panic f k = tt

pub Holds-ok {ℓ κ} :
    {A : Type ℓ} (P : A → Type κ) (m : Outcome A) {a : A} → Holds P m → m ≡ ok a → P a
Holds-ok P m h e = subst (Holds P) e h

pub Holds-mono {ℓ κ ν} :
    {A : Type ℓ} (P : A → Type κ) (Q : A → Type ν) (m : Outcome A)
    → ((a : A) → P a → Q a)
    → Holds P m
    → Holds Q m
Holds-mono P Q (ok a) f h = f a h
Holds-mono P Q (err e) f h = tt
Holds-mono P Q panic f h = tt

-- It returns neither an error nor a panic, and what it returns satisfies `P`.
abbrev pub Returns {ℓ} : {A : Type ℓ} → (A → Type 0) → Outcome A → Type 0
Returns P (ok a) = P a
Returns P (err e) = ⊥
Returns P panic = ⊥

pub Returns-bind {ℓ κ} :
    {A : Type ℓ} {B : Type κ} (P : A → Type 0) (Q : B → Type 0) (m : Outcome A) (f : A → Outcome B)
    → Returns P m
    → ((a : A) → P a → Returns Q (f a))
    → Returns Q (m >>= f)
Returns-bind P Q (ok a) f h k = k a h
Returns-bind P Q (err e) f h k = elim h [ ]
Returns-bind P Q panic f h k = elim h [ ]

pub Returns-mono {ℓ} :
    {A : Type ℓ} (P Q : A → Type 0) (m : Outcome A)
    → ((a : A) → P a → Q a)
    → Returns P m
    → Returns Q m
Returns-mono P Q (ok a) f h = f a h
Returns-mono P Q (err e) f h = h
Returns-mono P Q panic f h = h
