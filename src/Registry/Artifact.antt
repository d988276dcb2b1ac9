-- ===== src/Registry/Artifact.antt =====
-- What `RegistryAdapter.submit_identity` of identity.py makes of a signature.
use decent_wallet.Crypto.{Crypto}
use decent_wallet.Identity.Authorization.{Authorization}
use decent_wallet.Identity.Bundle.Finalize.{envelope_value, legacy_envelope_value}
use decent_wallet.Identity.Bundle.Merge.{IdentityProof, check_proof}
use decent_wallet.Identity.Draft.Create.{IdentityDraft, check_draft}
use decent_wallet.Identity.Envelope.Operations.{has_value}
use decent_wallet.Identity.Error.{Checked, invalid_request}
use decent_wallet.Identity.State.{IdentityState}
use decent_wallet.Identity.Update.{canonical}
use decent_wallet.Prelude.{
  Bool, List, Option, [], err, false, ltb, none, not, ok, reject_if, some, ◌>>=◌, ◌>>◌, ◌∷◌,
}
use decent_wallet.Python.Value.{Bytes, Str, Value, bytes, dict, end, entry, key, str}
use decent_wallet.Registry.Consent.{ConsentTranscript}
use decent_wallet.Registry.Drafts.{envelope_of, history_of}
use decent_wallet.Registry.Gate.{
  PublishStatus, Reason, draft_proof_ready, threshold_bundle_required,
}
use decent_wallet.Registry.Submission.{Submission, SubmissionResult, submission_refused}

-- `_versioned_envelope`: one proof, with its id.
abbrev one_proof : Str → Bytes → List (Option Str × Bytes)
one_proof signer_id signature = (some signer_id, signature) ∷ []

-- `_canonical({1: signer_id, 2: signature})`
abbrev detached_proof : Str → Bytes → Value
detached_proof signer_id signature =
    dict (entry (key 1) (str signer_id) (entry (key 2) (bytes signature) end))

abbrev pub needs_bundle : Option Authorization → Bool
needs_bundle none = false
needs_bundle (some a) = ltb 1 a.threshold

module _ (c : Crypto) (x : Submission) (t : ConsentTranscript) where
  -- `_legacy_envelope` or `_versioned_envelope`.
  unfoldable pub signed_envelope : Option Authorization → Bytes → Bytes → Checked Bytes
  signed_envelope none update_bytes signature =
      canonical c (legacy_envelope_value update_bytes signature)
  signed_envelope (some a) update_bytes signature = elim x.signer_id [
    | none ↦ err invalid_request
    | some i ↦ canonical c (envelope_value update_bytes (one_proof i signature))
  ]

  abbrev proof_result : Bytes → Bytes → Reason → IdentityDraft → IdentityProof → SubmissionResult
  proof_result update_bytes proof reason d p =
      record (submission_refused t PublishStatus.proof_ready (some reason)) {
        signed_update_bytes = some update_bytes;
        proof_bytes = some proof;
        draft = some d;
        identity_proof = some p;
      }

  abbrev proof_of : Bytes → IdentityProof
  proof_of signature = record {
    signer_id = x.signer_id;
    signer_public_key = x.signer_public_key;
    signature = signature;
  }

  -- `IdentityProof(…)`, whose checks pass or raise.
  abbrev checked_proof : Bytes → Checked IdentityProof
  checked_proof signature = do check_proof (proof_of signature); ok (proof_of signature)

  abbrev detached : Bytes → Checked Bytes
  detached signature = elim x.signer_id [
    | none ↦ ok signature
    | some i ↦ canonical c (detached_proof i signature)
  ]

  -- A proof of a draft that was given.
  unfoldable pub draft_proof : Bytes → Bytes → IdentityDraft → Checked SubmissionResult
  draft_proof update_bytes signature d = do
    p ← checked_proof signature
    proof ← detached signature
    ok (proof_result update_bytes proof draft_proof_ready d p)

  -- A proof for an update that needs more than one.
  unfoldable pub threshold_proof : Option IdentityState → Bytes → Bytes → Checked SubmissionResult
  threshold_proof current update_bytes signature = do
    reject_if (not (has_value x.signer_id)) invalid_request
    proof ← detached signature
    let d : IdentityDraft = record {
      signed_update_bytes = update_bytes;
      previous_state_envelope = envelope_of current;
      previous_state_history = history_of current;
    }
    view ← check_draft c d
    p ← checked_proof signature
    ok (proof_result update_bytes proof threshold_bundle_required d p)
