-- ===== src/Prelude/Equality.antt =====
-- Python's `==` on the types that the program compares.
use Prim.Native.Nat.{ℕ}
use mathlib.Core.Path.{◌≡◌, refl, ap, ap₂, sym, ◌∙◌}
use mathlib.Core.Logic.{◌↔◌, ◌≢◌, inl, inr}
use mathlib.Core.Bool.{Bool, true, false, ◌&&◌, ◌||◌, not}
use mathlib.Core.Option.{Option, none, some}
use mathlib.Core.List.{List, [], ◌∷◌}
use decent_wallet.Prelude.Tests.{nat_beq, nat_beq_iff, Bool-cases, and_true}

-- A type whose values can be compared.
pub record Eq {ℓ} (T : Type ℓ) : Type ℓ where
  pub beq : T → T → Bool
  pub beq_iff : (x y : T) → (beq x y ≡ true) ↔ (x ≡ y)

instance abbrev pub nat_eq : Eq ℕ
nat_eq = record { beq = nat_beq; beq_iff = nat_beq_iff }

infix 50 ◌!=◌ ◌==◌
abbrev pub ◌==◌ {ℓ} : {T : Type ℓ} ⦃e : Eq T⦄ → T → T → Bool
◌==◌ ⦃e⦄ x y = e.beq x y

abbrev pub ◌!=◌ {ℓ} : {T : Type ℓ} ⦃e : Eq T⦄ → T → T → Bool
x != y = not (x == y)

module _ {ℓ} {A : Type ℓ} ⦃e : Eq A⦄ where
  abbrev pub list_beq : List A → List A → Bool
  list_beq [] [] = true
  list_beq (x ∷ xs) (y ∷ ys) = e.beq x y && list_beq xs ys
  list_beq _ _ = false

  list_beq_refl : (xs : List A) → list_beq xs xs ≡ true
  list_beq_refl [] = refl
  list_beq_refl (x ∷ xs) = rw ((e.beq_iff x x).1 refl) (list_beq_refl xs)

  list_beq_sound : (xs ys : List A) → list_beq xs ys ≡ true → xs ≡ ys
  list_beq_sound [] [] h = refl
  list_beq_sound [] (y ∷ ys) h = cc
  list_beq_sound (x ∷ xs) [] h = cc
  list_beq_sound (x ∷ xs) (y ∷ ys) h =
      let p = and_true (e.beq x y) (list_beq xs ys) h in
      ap₂ ◌∷◌ ((e.beq_iff x y).0 p.0) (list_beq_sound xs ys p.1)

  pub list_beq_iff : (xs ys : List A) → (list_beq xs ys ≡ true) ↔ (xs ≡ ys)
  list_beq_iff xs ys = (list_beq_sound xs ys, λ p. rw p (list_beq_refl ys))

  abbrev pub option_beq : Option A → Option A → Bool
  option_beq none none = true
  option_beq (some x) (some y) = e.beq x y
  option_beq _ _ = false

  option_beq_sound : (a b : Option A) → option_beq a b ≡ true → a ≡ b
  option_beq_sound none none h = refl
  option_beq_sound none (some y) h = cc
  option_beq_sound (some x) none h = cc
  option_beq_sound (some x) (some y) h = ap some ((e.beq_iff x y).0 h)

  option_beq_refl : (a : Option A) → option_beq a a ≡ true
  option_beq_refl none = refl
  option_beq_refl (some x) = (e.beq_iff x x).1 refl

  pub option_beq_iff : (a b : Option A) → (option_beq a b ≡ true) ↔ (a ≡ b)
  option_beq_iff a b = (option_beq_sound a b, λ p. rw p (option_beq_refl b))

instance abbrev pub list_eq {ℓ} : {A : Type ℓ} ⦃e : Eq A⦄ → Eq (List A)
list_eq = record { beq = list_beq; beq_iff = list_beq_iff }

instance abbrev pub option_eq {ℓ} : {A : Type ℓ} ⦃e : Eq A⦄ → Eq (Option A)
option_eq = record { beq = option_beq; beq_iff = option_beq_iff }

module _ {ℓ κ} {A : Type ℓ} {B : Type κ} ⦃e : Eq A⦄ ⦃f : Eq B⦄ where
  abbrev pub pair_beq : A × B → A × B → Bool
  pair_beq (a, b) (c, d) = e.beq a c && f.beq b d

  pair_beq_sound : (p q : A × B) → pair_beq p q ≡ true → p ≡ q
  pair_beq_sound (a, b) (c, d) h =
      let w = and_true (e.beq a c) (f.beq b d) h in
      λ i. ((e.beq_iff a c).0 w.0 i, (f.beq_iff b d).0 w.1 i)

  pair_beq_refl : (p : A × B) → pair_beq p p ≡ true
  pair_beq_refl (a, b) = rw ((e.beq_iff a a).1 refl) ((f.beq_iff b b).1 refl)

  pub pair_beq_iff : (p q : A × B) → (pair_beq p q ≡ true) ↔ (p ≡ q)
  pair_beq_iff p q = (pair_beq_sound p q, λ w. rw w (pair_beq_refl q))

instance abbrev pub pair_eq {ℓ κ} : {A : Type ℓ} {B : Type κ} ⦃e : Eq A⦄ ⦃f : Eq B⦄ → Eq (A × B)
pair_eq = record { beq = pair_beq; beq_iff = pair_beq_iff }

module _ {ℓ} {A : Type ℓ} ⦃e : Eq A⦄ where
  pub beq→eq : (a b : A) → a == b ≡ true → a ≡ b
  beq→eq a b = (e.beq_iff a b).0

  pub beq_refl : (a : A) → a == a ≡ true
  beq_refl a = (e.beq_iff a a).1 refl

  pub eq→beq : (a b : A) → a ≡ b → a == b ≡ true
  eq→beq a b = (e.beq_iff a b).1

  pub beq_comm : (a b : A) → e.beq a b ≡ e.beq b a
  beq_comm a b = elim (Bool-cases (e.beq a b)) [
    | inl p ↦ p ∙ sym (eq→beq b a (sym (beq→eq a b p)))
    | inr p ↦ elim (Bool-cases (e.beq b a)) [
      | inl q ↦ absurd (clash (sym (eq→beq a b (sym (beq→eq b a q))) ∙ p))
      | inr q ↦ p ∙ sym q
    ]
  ]
    where
      clash : true ≢ false
      clash q = cc

  -- A comparison by `!=` that did not reject.
  pub bne→eq : (a b : A) → a != b ≡ false → a ≡ b
  bne→eq a b h = elim (Bool-cases (a == b)) [
    | inl p ↦ beq→eq a b p
    | inr p ↦ absurd (false-ne (rw p at h))
  ]
    where
      false-ne : not false ≢ false
      false-ne q = cc

  pub beq→ne : (a b : A) → a == b ≡ false → a ≢ b
  beq→ne a b h p = cc (eq→beq a b p)

-- Equality of records, field by field: through the tuple of the fields.
module _ {ℓ κ} {A : Type ℓ} {B : Type κ} ⦃e : Eq B⦄ (fields : A → B) (build : B → A) where
  abbrev pub fields_beq : A → A → Bool
  fields_beq a b = e.beq (fields a) (fields b)

  pub fields_beq_iff :
      ((a : A) → build (fields a) ≡ a) → (a b : A) → (fields_beq a b ≡ true) ↔ (a ≡ b)
  fields_beq_iff again a b = (
    λ h. sym (again a) ∙ ap build ((e.beq_iff _ _).0 h) ∙ again b,
    λ p. (e.beq_iff _ _).1 (ap fields p),
  )

module _ {ℓ} {A : Type ℓ} ⦃e : Eq A⦄ where
  -- `x in xs`
  abbrev pub contains : A → List A → Bool
  contains x [] = false
  contains x (y ∷ ys) = e.beq x y || contains x ys

  -- `len(xs) == len(set(xs))`
  abbrev pub is_distinct : List A → Bool
  is_distinct [] = true
  is_distinct (x ∷ xs) = not (contains x xs) && is_distinct xs

  -- `dict(pairs).get(k)`: the last of the pairs with the key `k`.
  abbrev pub dict_get {κ} : {B : Type κ} → A → List (A × B) → Option B
  dict_get k [] = none
  dict_get k ((j, v) ∷ m) = elim (dict_get k m) [
    | some w ↦ some w
    | none ↦ elim (e.beq j k) [ true ↦ some v | false ↦ none ]
  ]
