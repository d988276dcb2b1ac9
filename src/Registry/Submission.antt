-- ===== src/Registry/Submission.antt =====
-- The checks of `RegistryAdapter.submit_identity` of identity.py before the consent, and its results.
use decent_wallet.Crypto.{Crypto}
use decent_wallet.Identity.Authorization.{
  Authorization, authorization_value, validate_authorization,
}
use decent_wallet.Identity.Bundle.Merge.{IdentityProof, draft_eq}
use decent_wallet.Identity.Draft.Create.{IdentityDraft}
use decent_wallet.Identity.Envelope.Operations.{has_value}
use decent_wallet.Identity.Error.{Checked, invalid_request}
use decent_wallet.Identity.Require.{key_length, zeros}
use decent_wallet.Identity.State.{IdentityState}
use decent_wallet.Identity.Transition.{validate_transition}
use decent_wallet.Identity.Update.{build_identity_update, decode_signed_update}
use decent_wallet.Prelude.{
  Bool, Option, err, false, is_empty, list_eq, nat_eq, none, not, ok, option_eq, pair_eq, reject_if,
  some, true, ◌!=◌, ◌&&◌, ◌==◌, ◌>>=◌, ◌>>◌, ◌||◌,
}
use decent_wallet.Python.Value.{Bytes, Str, Value, is_bytes}
use decent_wallet.Registry.Consent.{ConsentTranscript, check_transcript}
use decent_wallet.Registry.Drafts.{envelope_of, history_of, next_sequence}
use decent_wallet.Registry.Gate.{PublishStatus, Reason}
use decent_wallet.Registry.Request.{ConsentRequest, authorized_name, generation_of}

-- The arguments of a submission.
pub record Submission : Type 0 where
  pub owner_name : Bytes
  pub owner_public_key : Bytes
  pub signer_public_key : Bytes
  pub request : ConsentRequest
  pub operation : Str
  pub authorization : Option Value
  pub signer_id : Option Str
  pub draft : Option IdentityDraft

pub record SubmissionResult : Type 0 where
  pub status : PublishStatus
  pub transcript : ConsentTranscript
  pub envelope_bytes : Option Bytes
  pub signed_update_bytes : Option Bytes
  pub proof_bytes : Option Bytes
  pub accepted_state : Option IdentityState
  pub reason : Option Reason
  pub draft : Option IdentityDraft
  pub identity_proof : Option IdentityProof

abbrev pub submission_refused : ConsentTranscript → PublishStatus → Option Reason → SubmissionResult
submission_refused t status reason = record {
  status = status;
  transcript = t;
  envelope_bytes = none;
  signed_update_bytes = none;
  proof_bytes = none;
  accepted_state = none;
  reason = reason;
  draft = none;
  identity_proof = none;
}

abbrev is_absent : Option Str → Bool
is_absent none = true
is_absent (some s) = is_empty s

-- The record key may change only by a rotation.
abbrev changes_key : Option IdentityState → Bytes → Bool
changes_key none k = false
changes_key (some p) k = p.owner_public_key != k

abbrev is_governed : Option IdentityState → Bool
is_governed none = false
is_governed (some p) = not (is_empty p.signer_set)

-- `auth[7]` against the accepted state, or against zeros where there is none.
abbrev names_state : Authorization → Option IdentityState → Bool
names_state a none = a.predecessor == zeros key_length
names_state a (some p) = a.predecessor == p.state_hash

-- `legacy_owner_rotation_proof`
abbrev legacy_rotation : Authorization → Option IdentityState → Bool
legacy_rotation a none = false
legacy_rotation a (some p) = a.operation == 5 && is_empty p.signer_set

abbrev same_content : Authorization → Authorization → Bool
same_content a b =
    a.operation == b.operation
    && a.epoch == b.epoch
    && a.threshold == b.threshold
    && a.signer_set == b.signer_set
    && a.predecessor == b.predecessor

module _ (c : Crypto) where
  -- `draft.authorization == dict(authorization)`: a mapping that does not validate equals none that was
  -- decoded, and one that does equals its normal form.
  abbrev same_authorization : Option Authorization → Option Value → Bool
  same_authorization none none = true
  same_authorization (some a) (some v) = elim (validate_authorization v) [
    | ok b ↦ same_content a b
    | err e ↦ false
  ]
  same_authorization _ _ = false

  unfoldable pub check_submitted_draft :
      Submission → Bytes → Option IdentityState → Option IdentityDraft → Checked (Unit {0})
  check_submitted_draft x name current none = ok tt
  check_submitted_draft x name current (some d) = do
    reject_if (d.previous_state_envelope != envelope_of current) invalid_request
    reject_if (d.previous_state_history != history_of current) invalid_request
    u ← decode_signed_update c d.signed_update_bytes
    reject_if (not (is_bytes u.record_name name) || not (is_bytes u.record_key x.owner_public_key))
        invalid_request
    reject_if (not (same_authorization u.authorization x.authorization)) invalid_request
    reject_if (u.sequence != next_sequence current) invalid_request

  -- The branch with an authorization.
  unfoldable pub authorized_update :
      Submission → Bytes → Option IdentityState → Value → Checked (Authorization × Bytes)
  authorized_update x name current v = do
    a ← validate_authorization v
    reject_if (x.operation != authorized_name a) invalid_request
    reject_if (changes_key current x.owner_public_key && a.operation != 5) invalid_request
    reject_if (a.operation == 5 && not (has_value x.draft)) invalid_request
    reject_if (not (names_state a current)) invalid_request
    reject_if (not (legacy_rotation a current) && is_absent x.signer_id) invalid_request
    validate_transition current a x.signer_id x.signer_public_key
    update_bytes ←
        build_identity_update c name x.owner_public_key (next_sequence current)
          (some (authorization_value a))
    ok (a, update_bytes)

  -- The branch without one.
  unfoldable pub legacy_update : Submission → Bytes → Option IdentityState → Checked Bytes
  legacy_update x name current = do
    reject_if (changes_key current x.owner_public_key) invalid_request
    reject_if (is_governed current) invalid_request
    reject_if (x.signer_public_key != x.owner_public_key) invalid_request
    reject_if (has_value x.signer_id) invalid_request
    build_identity_update c name x.owner_public_key (next_sequence current) none

  -- The update that is to be signed, with its authorization.
  unfoldable pub update_to_sign :
      Submission → Bytes → Option IdentityState → Checked (Option Authorization × Bytes)
  update_to_sign x name current = elim x.authorization [
    | none ↦ do b ← legacy_update x name current; ok (none, b)
    | some v ↦ do p ← authorized_update x name current v; ok (some p.0, p.1)
  ]

  abbrev is_other_update : Option IdentityDraft → Bytes → Bool
  is_other_update none b = false
  is_other_update (some d) b = d.signed_update_bytes != b

  unfoldable pub submission_transcript :
      Submission → Option IdentityState → Option Authorization → Bytes → ConsentTranscript
  submission_transcript x current authorization b = record {
    authenticated_origin = x.request.authenticated_origin;
    environment = x.request.environment;
    operation = x.operation;
    payload_hash = c.sha256 b;
    purpose = x.request.purpose;
    capability = x.request.capability;
    expires_at = x.request.expires_at;
    replay_nonce = x.request.replay_nonce;
    sequence = next_sequence current;
    generation = generation_of authorization current;
    review_payload = b;
    signer_id = x.signer_id;
    signer_public_key = some x.signer_public_key;
  }

  -- All of it: the update, its authorization, and the transcript that asks for a signature.
  unfoldable pub submission_checked :
      Submission
      → Bytes
      → Option IdentityState
      → Checked (Option Authorization × Bytes × ConsentTranscript)
  submission_checked x name current = do
    check_submitted_draft x name current x.draft
    p ← update_to_sign x name current
    reject_if (is_other_update x.draft p.1) invalid_request
    t ← check_transcript c (submission_transcript x current p.0 p.1)
    ok (p.0, p.1, t)
