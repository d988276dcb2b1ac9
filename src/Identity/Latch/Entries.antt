-- ===== src/Identity/Latch/Entries.antt =====
-- What the two operations of `_RotationLatchRegistry` of identity.py do to one owner's entry.
use decent_wallet.Identity.Envelope.Operations.{has_value}
use decent_wallet.Identity.Latch.{
  Latches, RotationBinding, binding_eq, clear, clear_over, is_late_environment, register,
  register_over, rotation_binding, same_binding, same_binding_iff,
}
use decent_wallet.Prelude.{
  Bool, Bool-cases, List, Option, Option-cases, [], ap, arith, beq_refl, beq→eq, false,
  if◌then◌else◌, inl, inr, list_eq, nat_eq, none, not, option_eq, pair_eq, refl, some, subst, true,
  ◌&&◌, ◌==◌, ◌||◌, ◌∙◌, ◌∷◌, ◌≡◌, ◌⊎◌,
}
use decent_wallet.Python.Dict.{assign, delete, lookup, lookup-assign, lookup-delete}
use decent_wallet.Python.Value.{Bytes, Str}

-- The two operations that change the registry.
pub data LatchOp : Type 0 where
  registering : RotationBinding → Bool → LatchOp
  clearing : RotationBinding → LatchOp

abbrev pub latch_step : LatchOp → Latches → Latches
latch_step (registering v ready) m = (register v ready m).0
latch_step (clearing v) m = (clear v m).0

-- Newest operation first.
unfoldable pub run_latches : List LatchOp → Latches
run_latches [] = []
run_latches (op ∷ ops) = latch_step op (run_latches ops)

pub binding_itself :
    (v : RotationBinding) {b : RotationBinding} → rotation_binding v ≡ some b → v ≡ b
unfolding rotation_binding
binding_itself v h = ground arith

abbrev pub old_ready : Option (RotationBinding × Bool) → Bool
old_ready none = false
old_ready (some (current, ready)) = ready

-- The entry that a registration of `v` may take the place of.
abbrev pub MayYield : Option (RotationBinding × Bool) → RotationBinding → Bool → Type 0
MayYield none v ready = Unit
MayYield (some (current, was)) v ready =
    (current ≡ v) ⊎ ((ready ≡ false) × (was ≡ false) × (current.environment ≡ none))

pub no_environment : (o : Option Str) → has_value o ≡ false → o ≡ none
no_environment none h = refl
no_environment (some s) h = cc

module _ (v : RotationBinding) (ready : Bool) (m : Latches) where
  -- An owner's entry stays, or becomes `v` where the rules let it.
  abbrev pub Entry : Bytes → Option (RotationBinding × Bool) → Latches → Type 0
  Entry owner o after =
      (lookup owner after ≡ o)
      ⊎ ((v.owner_name ≡ owner)
          × (lookup owner after ≡ some (v, ready || old_ready o))
          × MayYield o v ready)

  assigned : (flag : Bool) → lookup v.owner_name (assign v.owner_name (v, flag) m) ≡ some (v, flag)
  assigned flag = lookup-assign v.owner_name v.owner_name (v, flag) m ∙ rw (beq_refl v.owner_name)

  own-Entry :
      (o : Option (RotationBinding × Bool))
      → lookup v.owner_name m ≡ o
      → Entry v.owner_name o (register_over o v ready m).0
  own-Entry none h = inr (refl, assigned ready ∙ ground arith, tt)
  own-Entry (some (current, was)) h = elim (Bool-cases (same_binding current v)) [
    | inl same ↦
        rw same (inr (refl, assigned (ready || was), inl ((same_binding_iff current v).0 same)))
    | inr differs ↦ rw differs (late (is_late_environment current was v ready) refl)
  ]
    where
      late :
          (b : Bool)
          → is_late_environment current was v ready ≡ b
          → Entry v.owner_name
              (some (current, was))
              (if◌then◌else◌ {A = Latches × Bool}
                (not false && not b)
                (m, false)
                (assign v.owner_name (v, ready || was) m, true)).0
      late false e = inl h
      late true e = inr (
        refl,
        assigned (ready || was),
        inr (ground arith, ground arith, no_environment current.environment (ground arith)),
      )

  other_entry :
      (owner : Bytes) (o : Option (RotationBinding × Bool))
      → v.owner_name == owner ≡ false
      → lookup owner (register_over o v ready m).0 ≡ lookup owner m
  other_entry owner none ne = lookup-assign v.owner_name owner (v, ready) m ∙ rw ne
  other_entry owner (some (current, was)) ne =
      ground (arith, lookup-assign v.owner_name owner (v, ready || was) m)

  pub register-Entry : (owner : Bytes) → Entry owner (lookup owner m) (register v ready m).0
  unfolding register
  register-Entry owner = elim (Option-cases (rotation_binding v)) [
    | inl bad ↦ inl (rw (bad, register))
    | inr (b, good) ↦
        rw (good, register, ← binding_itself v good) (placed (v.owner_name == owner) refl)
  ]
    where
      placed :
          (t : Bool)
          → v.owner_name == owner ≡ t
          → Entry owner (lookup owner m) (register_over (lookup v.owner_name m) v ready m).0
      placed true e =
          subst (λ x. Entry x (lookup x m) (register_over (lookup v.owner_name m) v ready m).0)
            (beq→eq v.owner_name owner e) (own-Entry (lookup v.owner_name m) refl)
      placed false e = inl (other_entry owner (lookup v.owner_name m) e)

-- One owner's entry after one operation.
module _ (v : RotationBinding) (m : Latches) (owner : Bytes) where
  abbrev pub Cleared : Latches → Type 0
  Cleared after =
      (lookup owner after ≡ lookup owner m)
      ⊎ ((lookup owner after ≡ none) × (ready : Bool) × (lookup owner m ≡ some (v, ready)))

  deleted :
      (ready : Bool) → lookup v.owner_name m ≡ some (v, ready) → Cleared (delete v.owner_name m)
  deleted ready h = elim (Bool-cases (v.owner_name == owner)) [
    | inl own ↦ inr (
      lookup-delete v.owner_name owner m ∙ rw own,
      ready,
      subst (λ x. lookup x m ≡ some (v, ready)) (beq→eq v.owner_name owner own) h,
    )
    | inr ne ↦ inl (lookup-delete v.owner_name owner m ∙ rw ne)
  ]

  Cleared-over :
      (o : Option (RotationBinding × Bool))
      → lookup v.owner_name m ≡ o
      → Cleared (clear_over o v m).0
  Cleared-over none h = inl refl
  Cleared-over (some (current, ready)) h = elim (Bool-cases (same_binding current v)) [
    | inl same ↦
        rw same
          (deleted ready (h ∙ ap (λ x. some (x, ready)) ((same_binding_iff current v).0 same)))
    | inr differs ↦ rw differs (inl refl)
  ]

  pub clear_entry : Cleared (clear v m).0
  unfolding clear
  clear_entry = elim (Option-cases (rotation_binding v)) [
    | inl bad ↦ inl (rw (bad, clear))
    | inr (b, good) ↦
        rw (good, clear, ← binding_itself v good) (Cleared-over (lookup v.owner_name m) refl)
  ]
