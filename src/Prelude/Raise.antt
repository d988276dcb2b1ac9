-- ===== src/Prelude/Raise.antt =====
-- Code that may raise: a value, or the exception.
use mathlib.Core.Path.{◌≡◌, refl, ap}
use mathlib.Core.Bool.{Bool, true, false}
use mathlib.Core.Option.{Option, none, some}

pub data Result {ℓ} (E : Type 0) (A : Type ℓ) : Type ℓ where
  ok : A → Result E A
  err : E → Result E A

-- `if b: raise e`
abbrev pub reject_if : {E : Type 0} → Bool → E → Result E (Unit {0})
reject_if true e = err e
reject_if false e = ok tt

infixl 5 ◌>>=◌ ◌>>◌
abbrev pub ◌>>=◌ {ℓ κ} :
    {E : Type 0} {A : Type ℓ} {B : Type κ} → Result E A → (A → Result E B) → Result E B
err e >>= k = err e
ok a >>= k = k a

abbrev pub ◌>>◌ {ℓ κ} :
    {E : Type 0} {A : Type ℓ} {B : Type κ} → Result E A → Result E B → Result E B
m >> k = m >>= λ _. k

-- The value of an option, or the exception.
abbrev pub or_raise {ℓ} : {E : Type 0} {A : Type ℓ} → Option A → E → Result E A
or_raise none e = err e
or_raise (some a) e = ok a

-- `try: m except: raise e`
abbrev pub rethrow {ℓ} : {E F : Type 0} {A : Type ℓ} → Result E A → (E → F) → Result F A
rethrow (ok a) f = ok a
rethrow (err e) f = err (f e)

pub >>=-eq-ok {ℓ κ} :
    {E : Type 0} {A : Type ℓ} {B : Type κ} (m : Result E A) (k : A → Result E B) {r : B}
    → (m >>= k) ≡ ok r
    → (x : A) × (m ≡ ok x) × (k x ≡ ok r)
>>=-eq-ok (err e) k h = cc
>>=-eq-ok (ok x) k h = (x, refl, h)

-- A check that was passed, and what followed it.
pub reject_if-eq-ok {ℓ} :
    {E : Type 0} {A : Type ℓ} (b : Bool) (e : E) (k : Result E A) {a : A}
    → (reject_if b e >> k) ≡ ok a
    → (b ≡ false) × (k ≡ ok a)
reject_if-eq-ok true e k h = cc
reject_if-eq-ok false e k h = (refl, h)

pub or_raise-eq-ok {ℓ} :
    {E : Type 0} {A : Type ℓ} (o : Option A) (e : E) {a : A} → or_raise o e ≡ ok a → o ≡ some a
or_raise-eq-ok none e h = cc
or_raise-eq-ok (some x) e h = cc

abbrev ok_or {ℓ} : {E : Type 0} {A : Type ℓ} → A → Result E A → A
ok_or d (ok a) = a
ok_or d (err e) = d

pub ok-injective {ℓ} :
    {E : Type 0} {A : Type ℓ} {a b : A} → ◌≡◌ {A = Result E A} (ok a) (ok b) → a ≡ b
ok-injective {a} p = ap (ok_or a) p
