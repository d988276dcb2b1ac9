-- ===== src/Python/Dict.antt =====
-- Python's `dict`, by its entries in insertion order; the program does not depend on the order.
use decent_wallet.Prelude.{
  Bool, Bool-cases, Eq, List, Option, [], arith, false, if◌then◌else◌, inl, inr, list_eq, nat_eq,
  none, option_eq, pair_eq, refl, some, true, ◌∷◌, ◌≡◌,
}

abbrev pub Dict {ℓ κ} : Type ℓ → Type κ → Type (ℓ ⊔ κ)
Dict K V = List (K × V)

module _ {ℓ κ} {K : Type ℓ} {V : Type κ} ⦃e : Eq K⦄ where
  -- `d.get(k)`
  unfoldable pub lookup : K → Dict K V → Option V
  lookup k [] = none
  lookup k ((j, v) ∷ d) = if e.beq j k then some v else lookup k d

  -- `d[k] = v`
  unfoldable pub assign : K → V → Dict K V → Dict K V
  assign k v [] = (k, v) ∷ []
  assign k v ((j, w) ∷ d) = if e.beq j k then (j, v) ∷ d else (j, w) ∷ assign k v d

  -- `d.pop(k, None)`
  unfoldable pub delete : K → Dict K V → Dict K V
  delete k [] = []
  delete k ((j, w) ∷ d) = if e.beq j k then delete k d else (j, w) ∷ delete k d

  pub lookup-assign :
      (k j : K) (v : V) (d : Dict K V)
      → lookup j (assign k v d) ≡ (if e.beq k j then some v else lookup j d)
  unfolding lookup assign
  lookup-assign k j v [] = refl
  lookup-assign k j v ((i, w) ∷ d) = elim (Bool-cases (e.beq i k)) [
    | inl p ↦ rw (p, (e.beq_iff i k).0 p) (ground arith)
    | inr p ↦ elim (Bool-cases (e.beq k j)) [
      | inl q ↦
          let r : e.beq i j ≡ false = rw (← (e.beq_iff k j).0 q) p in
          rw (p, r, lookup-assign k j v d, q)
      | inr q ↦ rw (p, lookup-assign k j v d, q)
    ]
  ]

  pub lookup-delete :
      (k j : K) (d : Dict K V) → lookup j (delete k d) ≡ (if e.beq k j then none else lookup j d)
  unfolding lookup delete
  lookup-delete k j [] = ground arith
  lookup-delete k j ((i, w) ∷ d) = elim (Bool-cases (e.beq i k)) [
    | inl p ↦ elim (Bool-cases (e.beq k j)) [
      | inl q ↦ rw (p, lookup-delete k j d, q)
      | inr q ↦
          let r : e.beq i j ≡ false = rw ((e.beq_iff i k).0 p) q in
          rw (p, lookup-delete k j d, q, r)
    ]
    | inr p ↦ elim (Bool-cases (e.beq k j)) [
      | inl q ↦
          let r : e.beq i j ≡ false = rw (← (e.beq_iff k j).0 q) p in
          rw (p, r, lookup-delete k j d, q)
      | inr q ↦ rw (p, lookup-delete k j d, q)
    ]
  ]

  unfoldable pub has : K → Dict K V → Bool
  has k d = elim (lookup k d) [ none ↦ false | some v ↦ true ]
