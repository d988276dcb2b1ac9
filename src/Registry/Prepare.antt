-- ===== src/Registry/Prepare.antt =====
-- `RegistryAdapter.prepare_owner_key_rotation_publication` of identity.py.
use decent_wallet.Crypto.{Crypto}
use decent_wallet.Identity.Bundle.Finalize.{draft_previous_state, finalize}
use decent_wallet.Identity.Bundle.Merge.{IdentityBundle, draft_eq}
use decent_wallet.Identity.Error.{invalid_request}
use decent_wallet.Identity.Latch.{is_owner_latched}
use decent_wallet.Identity.Require.{require_bytes}
use decent_wallet.Identity.State.{IdentityState, same_state}
use decent_wallet.Identity.Update.{SignedUpdate, decode_signed_update}
use decent_wallet.Prelude.{
  Bool, Option, false, if◌then◌else◌, leb, length, list_eq, nat_eq, none, not, ok, option_eq,
  or_raise, pair_eq, reject_if, some, ℕ, ◌∷◌,
}
use decent_wallet.Python.Value.{Bytes}
use decent_wallet.Registry.Consent.{check_transcript}
use decent_wallet.Registry.Gate.{
  PublishStatus, Refusal, consent_expired, consent_gate, environment_mismatch,
  rotation_capability_unavailable, rotation_is_unresolved, state_changed_before_publication,
}
use decent_wallet.Registry.Growth.{after}
use decent_wallet.Registry.Read.{
  read_state, rotation_environment_matches, rotation_transport_available,
}
use decent_wallet.Registry.Request.{
  ConsentRequest, PublicationResult, is_rotation, prepared, publication_transcript, refused,
}
use decent_wallet.Registry.State.{
  Handler, RotationPublication, gets, lift, pure, read_clock, ◌>>=◌, ◌>>◌,
}
use decent_wallet.Registry.World.{World}
use decent_wallet.Wallet.Intent.{valid_registry_environment}

abbrev pub environment_refused : PublicationResult
environment_refused = record {
  status = PublishStatus.failed;
  envelope_bytes = none;
  accepted_state = none;
  reason = some environment_mismatch;
  publication = none;
}

-- A new publication, under a handle that no other one has.
abbrev pub mint : RotationPublication → Handler ℕ
mint p r = (
  ok (length r.publications),
  record r { publications = (length r.publications, p) ∷ r.publications },
)

-- What is to be published, once the bundle has been checked.
pub record Candidate : Type 0 where
  pub bundle : IdentityBundle
  pub update : SignedUpdate
  pub owner_name : Bytes
  pub envelope : Bytes
  pub previous : IdentityState

module _ (c : Crypto) (w : World) where
  abbrev pub environment_is : ConsentRequest → Handler Bool
  environment_is q = rotation_environment_matches w (some q.environment)

  unfoldable pub mint_publication : ConsentRequest → Candidate → Handler PublicationResult
  mint_publication q x = do
    token ← gets (λ r. r.rotation_token)
    handle ← mint (record {
      environment = q.environment;
      bundle = x.bundle;
      envelope_bytes = x.envelope;
      previous_state = x.previous;
      expires_at = q.expires_at;
      adapter_token = token;
    })
    pure (prepared handle x.envelope)

  -- The part after the consent.
  unfoldable pub prepare_approved : ConsentRequest → Candidate → Handler PublicationResult
  prepare_approved q x = do
    before ← environment_is q
    if not before then pure environment_refused else (do
      current ← read_state c w x.owner_name
      after ← environment_is q
      if not after
          then pure environment_refused
          else if not (same_state (some x.previous) current)
          then pure (refused PublishStatus.stale (some x.envelope) state_changed_before_publication)
          else (do
            now ← read_clock w
            if leb q.expires_at now
                then pure (refused PublishStatus.expired (some x.envelope) consent_expired)
                else mint_publication q x))

  abbrev pub prepare_gated : ConsentRequest → Candidate → Option Refusal → Handler PublicationResult
  prepare_gated q x none = prepare_approved q x
  prepare_gated q x (some (status, reason)) = pure (refused status (some x.envelope) reason)

  unfoldable pub prepare_checked : ConsentRequest → Candidate → Handler PublicationResult
  prepare_checked q x = do
    current ← read_state c w x.owner_name
    holds ← environment_is q
    if not holds
        then pure environment_refused
        else if not (same_state (some x.previous) current)
        then pure (refused PublishStatus.stale (some x.envelope) state_changed_before_publication)
        else (do
          t ← lift (
              check_transcript c (
                publication_transcript c q x.update.authorization (some x.previous)
                  x.update.sequence x.envelope))
          refusal ← consent_gate c w x.owner_name t
          prepare_gated q x refusal)

  abbrev pub prepare_available :
      IdentityBundle → ConsentRequest → SignedUpdate → Bytes → Handler PublicationResult
  prepare_available b q u owner = do
    holds ← if valid_registry_environment q.environment then environment_is q else pure false
    if not holds then pure environment_refused else (do
      envelope ← lift (finalize c b)
      found ← lift (draft_previous_state c b.draft)
      previous ← lift (or_raise found invalid_request)
      prepare_checked q (record {
        bundle = b;
        update = u;
        owner_name = owner;
        envelope = envelope;
        previous = previous;
      }))

  unfoldable pub prepare_owner_key_rotation_publication :
      IdentityBundle → ConsentRequest → Handler PublicationResult
  prepare_owner_key_rotation_publication b q = do
    u ← lift (decode_signed_update c b.draft.signed_update_bytes)
    owner ← lift (require_bytes none false u.record_name)
    latched ← gets (λ r. is_owner_latched owner r.latches)
    if latched then pure (refused PublishStatus.failed none rotation_is_unresolved) else (do
      lift (reject_if (not (is_rotation u.authorization)) invalid_request)
      available ← rotation_transport_available w
      if not available
          then pure (refused PublishStatus.failed none rotation_capability_unavailable)
          else prepare_available b q u owner)
