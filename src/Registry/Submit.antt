-- ===== src/Registry/Submit.antt =====
-- `RegistryAdapter.submit_identity` and `sign_draft` of identity.py.
use mathlib.Core.Option
use decent_wallet.Crypto.{Crypto}
use decent_wallet.Identity.Authorization.{Authorization, authorization_value}
use decent_wallet.Identity.Bundle.Merge.{draft_eq}
use decent_wallet.Identity.Draft.Create.{IdentityDraft}
use decent_wallet.Identity.Error.{Checked, expired_publication, invalid_request, stale_publication}
use decent_wallet.Identity.Latch.{is_owner_latched}
use decent_wallet.Identity.Require.{key_length, require_bytes, validate_owner_name}
use decent_wallet.Identity.State.{IdentityState, same_state}
use decent_wallet.Identity.Update.{decode_signed_update}
use decent_wallet.Prelude.{
  Option, Result, err, false, if◌then◌else◌, leb, length, list_eq, nat_eq, none, not, ok, option_eq,
  pair_eq, reject_if, some, ℕ, ◌!=◌,
}
use decent_wallet.Python.Value.{Bytes, Str}
use decent_wallet.Registry.Artifact.{draft_proof, needs_bundle, signed_envelope, threshold_proof}
use decent_wallet.Registry.Consent.{ConsentTranscript}
use decent_wallet.Registry.Gate.{
  PublishStatus, Reason, Refusal, conditional_publication_rejected, consent_expired, consent_gate,
  independent_readback_required, readback_did_not_confirm_envelope, rotation_is_unresolved,
  state_changed_before_publication, state_changed_before_signing,
}
use decent_wallet.Registry.Read.{read_state}
use decent_wallet.Registry.Request.{ConsentRequest, confirm, hash_of, operation_name}
use decent_wallet.Registry.Signing.{sign}
use decent_wallet.Registry.State.{
  Handler, attempt, gets, lift, locked, pure, put, read_clock, ◌>>=◌, ◌>>◌,
}
use decent_wallet.Registry.Submission.{
  Submission, SubmissionResult, submission_checked, submission_refused,
}
use decent_wallet.Registry.World.{World}

module _ (c : Crypto) (w : World) (x : Submission) (t : ConsentTranscript) where
  abbrev pub due : ℕ
  due = x.request.expires_at

  abbrev pub sent_result :
      PublishStatus → Bytes → Option IdentityState → Option Reason → SubmissionResult
  sent_result status envelope accepted reason = record (submission_refused t status reason) {
    envelope_bytes = some envelope;
    accepted_state = accepted;
  }

  abbrev pub answered : Bytes → Option IdentityState → Reason → Option Reason → SubmissionResult
  answered envelope none failure success =
      sent_result PublishStatus.unknown envelope none (some failure)
  answered envelope (some s) failure success =
      sent_result PublishStatus.confirmed envelope (some s) success

  abbrev pub after_submit :
      Bytes → Bytes → Option IdentityState → Checked (Unit {0}) → Handler SubmissionResult
  after_submit name envelope current (ok u) = do
    accepted ← confirm c w name envelope current
    pure (answered envelope accepted readback_did_not_confirm_envelope none)
  after_submit name envelope current (err stale_publication) =
      pure (sent_result PublishStatus.stale envelope none (some conditional_publication_rejected))
  after_submit name envelope current (err expired_publication) =
      pure (sent_result PublishStatus.expired envelope none (some consent_expired))
  after_submit name envelope current (err e) = do
    accepted ← confirm c w name envelope current
    pure (
        answered envelope accepted independent_readback_required
          (some independent_readback_required))

  unfoldable pub put_signed :
      Bytes → Option IdentityState → Option Authorization → Bytes → Bytes → Handler SubmissionResult
  put_signed name current authorization update_bytes signature = do
    envelope ← lift (signed_envelope c x t authorization update_bytes signature)
    a ← attempt (put w name envelope (hash_of current) due)
    after_submit name envelope current a

  unfoldable pub finish_submission :
      Bytes → Option IdentityState → Option Authorization → Bytes → Bytes → Handler SubmissionResult
  finish_submission name current authorization update_bytes signature = elim x.draft [
    | some d ↦ lift (draft_proof c x t update_bytes signature d)
    | none ↦
        if needs_bundle authorization
        then lift (threshold_proof c x t current update_bytes signature)
        else put_signed name current authorization update_bytes signature
  ]

  abbrev pub refused_with : Bytes → PublishStatus → Reason → SubmissionResult
  refused_with update_bytes status reason = record (submission_refused t status (some reason)) {
    signed_update_bytes = some update_bytes;
  }

  -- After the signature: the state and the clock are read again.
  unfoldable pub complete_signed :
      Bytes
      → Option IdentityState
      → Option Authorization
      → Bytes
      → Result Refusal Bytes
      → Handler SubmissionResult
  complete_signed name current authorization update_bytes (err (status, reason)) =
      pure (submission_refused t status (some reason))
  complete_signed name current authorization update_bytes (ok signature) = do
    latest ← read_state c w name
    if not (same_state current latest)
        then pure (refused_with update_bytes PublishStatus.stale state_changed_before_publication)
        else (do
          now ← read_clock w
          if leb due now
              then pure (refused_with update_bytes PublishStatus.expired consent_expired)
              else finish_submission name current authorization update_bytes signature)

  -- `complete_submission`
  unfoldable pub complete_submission :
      Bytes → Option IdentityState → Option Authorization → Bytes → Handler SubmissionResult
  complete_submission name current authorization update_bytes = do
    latest ← read_state c w name
    if not (same_state current latest)
        then pure (submission_refused t PublishStatus.stale (some state_changed_before_signing))
        else (do
          now ← read_clock w
          if leb due now
              then pure (submission_refused t PublishStatus.expired (some consent_expired))
              else (do
                a ← sign c w x update_bytes
                complete_signed name current authorization update_bytes a))

  abbrev pub submit_locked :
      Bytes → Option IdentityState → Option Authorization → Bytes → Handler SubmissionResult
  submit_locked name current authorization update_bytes = do
    latched ← gets (λ r. is_owner_latched name r.latches)
    if latched
        then pure (submission_refused t PublishStatus.failed (some rotation_is_unresolved))
        else complete_submission name current authorization update_bytes

  abbrev pub submit_gated :
      Bytes
      → Option IdentityState
      → Option Authorization
      → Bytes
      → Option Refusal
      → Handler SubmissionResult
  submit_gated name current authorization update_bytes none =
      locked name (submit_locked name current authorization update_bytes)
  submit_gated name current authorization update_bytes (some (status, reason)) =
      pure (submission_refused t status (some reason))

module _ (c : Crypto) (w : World) where
  abbrev pub submit_prepared :
      Submission
      → Bytes
      → Option IdentityState
      → Option Authorization × Bytes × ConsentTranscript
      → Handler SubmissionResult
  submit_prepared x name current (authorization, update_bytes, t) = do
    refusal ← consent_gate c w name t
    submit_gated c w x t name current authorization update_bytes refusal

  unfoldable pub submit_identity : Submission → Handler SubmissionResult
  submit_identity x = do
    name ← lift (validate_owner_name x.owner_name)
    latched ← gets (λ r. is_owner_latched name r.latches)
    lift (reject_if latched invalid_request)
    lift (reject_if (length x.owner_public_key != key_length) invalid_request)
    lift (reject_if (length x.signer_public_key != key_length) invalid_request)
    current ← read_state c w name
    p ← lift (submission_checked c x name current)
    submit_prepared x name current p

  -- `sign_draft`: the submission of a draft under its own authorization.
  unfoldable pub sign_draft :
      IdentityDraft → Bytes → ConsentRequest → Option Str → Handler SubmissionResult
  sign_draft d signer_public_key q signer_id = do
    u ← lift (decode_signed_update c d.signed_update_bytes)
    name ← lift (require_bytes none false u.record_name)
    latched ← gets (λ r. is_owner_latched name r.latches)
    lift (reject_if latched invalid_request)
    k ← lift (require_bytes none false u.record_key)
    submit_identity (record {
      owner_name = name;
      owner_public_key = k;
      signer_public_key = signer_public_key;
      request = q;
      operation = operation_name u.authorization;
      authorization = Option.map authorization_value u.authorization;
      signer_id = signer_id;
      draft = some d;
    })
