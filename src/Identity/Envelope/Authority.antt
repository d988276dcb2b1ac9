-- ===== src/Identity/Envelope/Authority.antt =====
-- Who signed an update that passes `check_proofs`.
use decent_wallet.Crypto.{Crypto}
use decent_wallet.Identity.Authorization.{Authorization}
use decent_wallet.Identity.Envelope.Inversion.{Passed, verify_proofs-Quorum}
use decent_wallet.Identity.Envelope.Operations.{check_upgrade_proof}
use decent_wallet.Identity.Envelope.Parse.{
  check_proofs, check_threshold, legacy_predecessor, verification_keys,
}
use decent_wallet.Identity.Envelope.Rules.{Quorum, Signed}
use decent_wallet.Identity.Envelope.Signers.{verify_proofs}
use decent_wallet.Identity.State.{IdentityState}
use decent_wallet.Identity.Update.{verify_signature}
use decent_wallet.Prelude.{
  >>=-eq-ok, List, Option, Option-cases, [], arith, beq→eq, dict_get, inl, inr, length, list_eq,
  nat_eq, none, option_eq, pair_eq, some, ℕ, ◌>>=◌, ◌∷◌, ◌≡◌, ◌≢◌, ◌≤◌,
}
use decent_wallet.Python.Value.{Bytes, Str, bytes, key}

module _ (c : Crypto) (update : Bytes) (a : Authorization) where
  check_threshold-le :
      (ids : List Str)
      → a.operation ≢ 4
      → Passed (check_threshold c a ids)
      → a.threshold ≤ length ids
  unfolding check_threshold
  check_threshold-le ids ne h = ground arith

  Quorum-branch :
      (keys : List (Str × Bytes)) (proofs : List (Option Str × Bytes))
      → a.operation ≢ 4
      → Passed (verify_proofs c keys update proofs [] >>= check_threshold c a)
      → Quorum c keys update a.threshold
  Quorum-branch keys proofs ne h =
      let (ids, run, enough) = >>=-eq-ok (verify_proofs c keys update proofs []) _ h in
      verify_proofs-Quorum c keys update proofs {ids = ids} a.threshold run
        (check_threshold-le ids ne enough)

  module _ (previous : Option IdentityState) (proofs : List (Option Str × Bytes))
      (h : Passed (check_proofs c previous update a proofs)) where
    -- Unless the step is an upgrade or leaves a legacy state, a quorum signed it.
    pub check_proofs-Quorum :
        a.operation ≢ 4
        → legacy_predecessor c a.operation previous ≡ none
        → Quorum c (verification_keys c a previous) update a.threshold
    unfolding check_proofs
    check_proofs-Quorum ne e =
        Quorum-branch (verification_keys c a previous) proofs ne (rw (e, check_proofs) at h)

  -- A rotation away from a legacy state is signed by the predecessor's key.
  pub check_proofs-legacy :
      (p : IdentityState) (proofs : List (Option Str × Bytes))
      → a.operation ≡ 5
      → p.signer_set ≡ []
      → Passed (check_proofs c (some p) update a proofs)
      → Signed c p.owner_public_key update
  unfolding check_proofs verify_signature
  check_proofs-legacy p ((none, sig) ∷ []) o e h = (sig, ground arith)
  check_proofs-legacy p [] o e h = absurd (ground arith)
  check_proofs-legacy p ((some i, sig) ∷ ps) o e h = absurd (ground arith)
  check_proofs-legacy p ((none, sig) ∷ q ∷ ps) o e h = absurd (ground arith)

  -- An upgrade is signed by the owner's key, which the new signer set holds.
  pub check_upgrade-Signed :
      (previous : Option IdentityState) (key : Bytes) (sequence : ℕ)
      (proofs : List (Option Str × Bytes))
      → a.operation ≡ 4
      → Passed (check_upgrade_proof previous (bytes key) sequence a proofs)
      → Passed (check_proofs c previous update a proofs)
      → Signed c key update
  unfolding check_upgrade_proof check_proofs verify_proofs verify_signature
  check_upgrade-Signed (some p) key sequence ((some i, sig) ∷ []) o u h =
      elim (Option-cases (dict_get i a.signer_set)) [
        | inl missing ↦ absurd (ground arith)
        | inr (k, found) ↦ (sig, ground (arith, beq→eq key k))
      ]
  check_upgrade-Signed none key sequence proofs o u h = cc
  check_upgrade-Signed (some p) key sequence [] o u h = cc
  check_upgrade-Signed (some p) key sequence ((none, sig) ∷ ps) o u h = cc
  check_upgrade-Signed (some p) key sequence ((some i, sig) ∷ q ∷ ps) o u h = cc
