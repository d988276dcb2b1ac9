-- ===== src/Registry/Gate.antt =====
-- `PublishStatus`, the reasons of results, and `RegistryAdapter._consent_gate` of identity.py.
use decent_wallet.Crypto.{Crypto}
use decent_wallet.Identity.Error.{Checked}
use decent_wallet.Prelude.{Bool, Option, err, false, if◌then◌else◌, leb, none, ok, some, true}
use decent_wallet.Python.Value.{Bytes, Value}
use decent_wallet.Registry.Consent.{ConsentDecision, ConsentTranscript, normalize_consent}
use decent_wallet.Registry.Nonces.{consume_nonce, nonce_key}
use decent_wallet.Registry.State.{Handler, ask_consent, attempt, lift, pure, read_clock, ◌>>=◌}
use decent_wallet.Registry.World.{World}

pub data PublishStatus : Type 0 where
  ready confirmed proof_ready unknown failed stale denied cancelled expired : PublishStatus

-- The messages of the source; a decision is its own message.
pub data Reason : Type 0 where
  replay_protection_unavailable replay_rejected consent_expired : Reason
  decided : ConsentDecision → Reason
  rotation_is_unresolved state_changed_before_publication state_changed_before_signing : Reason
  conditional_publication_rejected readback_did_not_confirm_dispatch : Reason
  readback_did_not_confirm_envelope independent_readback_required : Reason
  rotation_capability_unavailable environment_mismatch : Reason
  readback_unavailable_after_rejection confirmation_incomplete : Reason
  outcome_cannot_clear_intent state_validation_failed : Reason
  signing_failed draft_proof_ready threshold_bundle_required : Reason

abbrev pub Refusal : Type 0
Refusal = PublishStatus × Reason

unfoldable pub status_of : ConsentDecision → PublishStatus
status_of ConsentDecision.denied = PublishStatus.denied
status_of ConsentDecision.cancelled = PublishStatus.cancelled
status_of ConsentDecision.expired = PublishStatus.expired
status_of _ = PublishStatus.failed

module _ (c : Crypto) (w : World) where
  abbrev pub reserve_replay_nonce : Bytes → ConsentTranscript → Handler Bool
  reserve_replay_nonce owner_name t = do k ← lift (nonce_key c owner_name t); consume_nonce w k

  -- After the handler's answer; none lets the caller go on.
  unfoldable pub decide : ConsentTranscript → ConsentDecision → Handler (Option Refusal)
  decide t ConsentDecision.approved = do
    now ← read_clock w
    pure (if leb t.expires_at now then some (PublishStatus.expired, consent_expired) else none)
  decide t d = pure (some (status_of d, decided d))

  unfoldable pub decision_of : Checked Value → ConsentDecision
  decision_of (ok v) = normalize_consent v
  decision_of (err e) = ConsentDecision.failed

  unfoldable pub ask : ConsentTranscript → Handler (Option Refusal)
  ask t = do
    now ← read_clock w
    if leb t.expires_at now
        then pure (some (PublishStatus.expired, consent_expired))
        else (do answer ← attempt (ask_consent w t); decide t (decision_of answer))

  unfoldable pub reserved : ConsentTranscript → Checked Bool → Handler (Option Refusal)
  reserved t (err e) = pure (some (PublishStatus.failed, replay_protection_unavailable))
  reserved t (ok false) = pure (some (PublishStatus.failed, replay_rejected))
  reserved t (ok true) = ask t

  unfoldable pub consent_gate : Bytes → ConsentTranscript → Handler (Option Refusal)
  unfolding reserved ask decide
  consent_gate owner_name t = do
    available ← attempt (reserve_replay_nonce owner_name t)
    reserved t available
