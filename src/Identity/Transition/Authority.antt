-- ===== src/Identity/Transition/Authority.antt =====
-- Whose signature `_validate_transition` lets through.
use decent_wallet.Identity.Authorization.{Authorization}
use decent_wallet.Identity.Envelope.Inversion.{Passed}
use decent_wallet.Identity.State.{IdentityState}
use decent_wallet.Identity.Transition.{is_signer, validate_transition}
use decent_wallet.Prelude.{
  Bool-cases, List, Option, [], arith, beq→eq, bne→eq, dict_get, inl, inr, is_empty, is_empty→nil,
  list_eq, nat_eq, none, option_eq, pair_eq, refl, some, true, ◌≡◌, ◌≢◌, ◌⊎◌,
}
use decent_wallet.Python.Value.{Bytes, Str}

-- The id names this key in the signer set.
abbrev pub Names : Option Str → Bytes → List (Str × Bytes) → Type 0
Names signer_id k signers = (i : Str) × (signer_id ≡ some i) × (dict_get i signers ≡ some k)

is_signer-Names :
    (signer_id : Option Str) (k : Bytes) (signers : List (Str × Bytes))
    → is_signer signer_id k signers ≡ true
    → Names signer_id k signers
is_signer-Names none k signers h = cc
is_signer-Names (some i) k signers h = (i, refl, beq→eq (dict_get i signers) (some k) h)

module _ (p : IdentityState) (a : Authorization) (signer_id : Option Str) (k : Bytes)
    (h : Passed (validate_transition (some p) a signer_id k)) where
  -- A state with no signer set lets only its owner's key sign.
  legacy_signer : p.signer_set ≡ [] → k ≡ p.owner_public_key
  unfolding validate_transition
  legacy_signer e = ground (arith, bne→eq k p.owner_public_key)

  governed_signer : p.signer_set ≢ [] → is_signer signer_id k p.signer_set ≡ true
  unfolding validate_transition
  governed_signer ne = ground arith

  -- Past a first state the signer is the owner itself where the accepted state has no signer set, and
  -- else one of the accepted state's own signers, whatever signer set the update proposes.
  pub validate_transition-signer :
      ((p.signer_set ≡ []) × (k ≡ p.owner_public_key)) ⊎ Names signer_id k p.signer_set
  validate_transition-signer = elim (Bool-cases (is_empty p.signer_set)) [
    | inl e ↦ let none_set = is_empty→nil p.signer_set e in inl (none_set, legacy_signer none_set)
    | inr ne ↦ inr (is_signer-Names signer_id k p.signer_set (governed_signer (ground arith)))
  ]
