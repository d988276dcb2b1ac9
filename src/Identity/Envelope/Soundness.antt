-- ===== src/Identity/Envelope/Soundness.antt =====
-- The checks of a versioned envelope, taken together, admit only steps by the rules.
use decent_wallet.Crypto.{Crypto}
use decent_wallet.Identity.Authorization.{Authorization}
use decent_wallet.Identity.Envelope.Authority.{
  check_proofs-Quorum, check_proofs-legacy, check_upgrade-Signed,
}
use decent_wallet.Identity.Envelope.Inversion.{
  Passed, built-Asks, check_genesis-Step, check_legacy_rotation-Step, check_ordinary-Step,
  check_replacement-Step, check_rotation-Step,
}
use decent_wallet.Identity.Envelope.Operations.{check_operation, check_upgrade_proof}
use decent_wallet.Identity.Envelope.Parse.{
  check_proofs, legacy_predecessor, owner_state, predecessors, verification_keys,
}
use decent_wallet.Identity.Envelope.Rules.{OfOwner, Quorum, Signed, Step}
use decent_wallet.Identity.Error.{Checked}
use decent_wallet.Identity.State.{IdentityState}
use decent_wallet.Identity.Update.{SignedUpdate, decode_signed_update}
use decent_wallet.Prelude.{
  Bool-cases, List, Option, [], arith, beq→eq, bne→eq, if◌then◌else◌, inl, inr, is_empty→nil,
  list_eq, nat_eq, none, ok, option_eq, pair_eq, refl, some, subst, ℕ, ◌==◌, ◌∷◌, ◌≡◌, ◌≢◌, ◌⊎◌,
}
use decent_wallet.Python.Value.{Bytes, Str, bytes}

module _ (c : Crypto) (name envelope update key : Bytes) (sequence : ℕ) (a : Authorization)
    (signed : SignedUpdate) (decoded : decode_signed_update c update ≡ ok signed)
    (has_a : signed.authorization ≡ some a) where
  abbrev state : Option IdentityState → IdentityState
  state = owner_state c name envelope update sequence a key

  check_upgrade-Step :
      (p : IdentityState) (proofs : List (Option Str × Bytes))
      → a.operation ≡ 4
      → p.owner_name ≡ name
      → Passed (check_operation (some p) name (bytes key) sequence a)
      → Passed (check_upgrade_proof (some p) (bytes key) sequence a proofs)
      → Signed c key update
      → Step c (some p) (state (some p))
  unfolding check_upgrade_proof check_operation owner_state predecessors
  check_upgrade-Step p ((some i, sig) ∷ []) o nm h u g =
      Step.upgrade p (state (some p)) (ground arith)
        (built-Asks c name envelope update key sequence a signed decoded has_a (some p) o
          (ground (arith, bne→eq p.state_hash a.predecessor)))
        (ground (arith, beq→eq key p.owner_public_key)) (is_empty→nil p.signer_set (ground arith))
        (ground arith) (ground arith)
        (subst (λ k. Signed c k update) (ground (arith, beq→eq key p.owner_public_key)) g)
  check_upgrade-Step p [] o nm h u g = cc
  check_upgrade-Step p ((none, sig) ∷ ps) o nm h u g = cc
  check_upgrade-Step p ((some i, sig) ∷ q ∷ ps) o nm h u g = cc

  Quorum-as :
      (signers : List (Str × Bytes)) {keys : List (Str × Bytes)} {m : ℕ}
      → Quorum c keys update m
      → keys ≡ signers
      → Quorum c signers update m
  Quorum-as signers {m} q e = subst (λ k. Quorum c k update m) e q

  judge_rotation :
      (p : IdentityState) (proofs : List (Option Str × Bytes))
      → a.operation ≡ 5
      → Passed (check_operation (some p) name (bytes key) sequence a)
      → Passed (check_proofs c (some p) update a proofs)
      → (signers : List (Str × Bytes)) → p.signer_set ≡ signers
      → Step c (some p) (state (some p))
  judge_rotation p proofs o h v [] e =
      check_legacy_rotation-Step c name envelope update key sequence a signed decoded has_a p h o e
        (check_proofs-legacy c update a p proofs o e v)
  judge_rotation p proofs o h v (x ∷ xs) e =
      check_rotation-Step c name envelope update key sequence a signed decoded has_a p h o
        (ground arith)
        (Quorum-as p.signer_set
          (check_proofs-Quorum c update a (some p) proofs v (omega arith) (ground arith))
          (ground arith))

  -- The proofs that the source checks next, for an upgrade.
  abbrev upgrade_proof : Option IdentityState → List (Option Str × Bytes) → Checked (Unit {0})
  upgrade_proof previous proofs =
      if a.operation == 4 then check_upgrade_proof previous (bytes key) sequence a proofs else ok tt

  operation_cases :
      (p : IdentityState)
      → Passed (check_operation (some p) name (bytes key) sequence a)
      → (a.operation ≡ 2) ⊎ (a.operation ≡ 3) ⊎ (a.operation ≡ 4) ⊎ (a.operation ≡ 5)
  unfolding check_operation
  operation_cases p h = ground arith

  pub checks-Step :
      (previous : Option IdentityState) (proofs : List (Option Str × Bytes))
      → OfOwner name previous
      → Passed (check_operation previous name (bytes key) sequence a)
      → Passed (upgrade_proof previous proofs)
      → Passed (check_proofs c previous update a proofs)
      → Step c previous (state previous)
  checks-Step none proofs own h u v = elim (Bool-cases (a.operation == 1)) [
    | inl one ↦
        check_genesis-Step c name envelope update key sequence a signed decoded has_a none
          (ground arith) h
          (Quorum-as a.signer_set (check_proofs-Quorum c update a none proofs v (ground arith) refl)
            (ground arith))
    | inr ne ↦ absurd (unfold check_operation check_upgrade_proof in ground arith)
  ]
  checks-Step (some p) proofs own h u v =
      let quorum =
        λ (signers : List (Str × Bytes)) (ne : a.operation ≢ 4)
            (e : legacy_predecessor c a.operation (some p) ≡ none)
            (k : verification_keys c a (some p) ≡ signers).
          Quorum-as signers (check_proofs-Quorum c update a (some p) proofs v ne e) k in
      elim (operation_cases p h) [
        | inl two ↦
            check_ordinary-Step c name envelope update key sequence a signed decoded has_a p h two
              (quorum p.signer_set (omega arith) (ground arith) (ground arith))
        | inr (inl three) ↦
            check_replacement-Step c name envelope update key sequence a signed decoded has_a p h
              three (quorum p.signer_set (omega arith) (ground arith) (ground arith))
        | inr (inr (inl four)) ↦
            let u' : Passed (check_upgrade_proof (some p) (bytes key) sequence a proofs) =
              ground arith in
            check_upgrade-Step p proofs four own h u'
              (check_upgrade-Signed c update a (some p) key sequence proofs four u' v)
        | inr (inr (inr five)) ↦ judge_rotation p proofs five h v p.signer_set refl
      ]
