-- ===== src/Tests/Registry.antt =====
-- The adapter of identity.py with an owner whose genesis is published: an ordinary update is approved
-- and published.
use decent_wallet.Identity.Authorization.{validate_authorization}
use decent_wallet.Identity.Bundle.Finalize.{draft_previous_state, finalize, verify_bundle_signature}
use decent_wallet.Identity.Bundle.Merge.{IdentityBundle, IdentityProof, draft_eq, proof_eq}
use decent_wallet.Identity.Draft.Chain.{parse_history, parse_previous_state_chain}
use decent_wallet.Identity.Draft.Create.{IdentityDraft}
use decent_wallet.Identity.Envelope.Operations.{check_operation, check_upgrade_proof}
use decent_wallet.Identity.Envelope.Parse.{
  check_proofs, check_threshold, owner_state, parse_identity_envelope, parse_versioned,
  predecessors,
}
use decent_wallet.Identity.Envelope.Signers.{verify_proofs}
use decent_wallet.Identity.Error.{Checked}
use decent_wallet.Identity.Latch.{is_owner_latched}
use decent_wallet.Identity.Proof.{validate_proof_list}
use decent_wallet.Identity.Require.{
  require_bytes, require_dict, require_exact_keys, require_text, require_uint, validate_owner_name,
}
use decent_wallet.Identity.State.{same_state}
use decent_wallet.Identity.Update.{decode_signed_update, require_canonical, verify_signature}
use decent_wallet.Prelude.{
  List, Option, [], err, list_eq, nat_eq, none, ok, option_eq, pair_eq, refl, some, true, ◌∷◌, ◌≡◌,
}
use decent_wallet.Python.Dict.{has, lookup}
use decent_wallet.Python.Order.{bytes_le, insert, sorted}
use decent_wallet.Python.Text.{encode, is_utf8}
use decent_wallet.Python.Value.{Bytes, Str, bytes, str}
use decent_wallet.Registry.Accepted.{publish_bundle-Honest}
use decent_wallet.Registry.Asking.{Ends}
use decent_wallet.Registry.Calls.{
  Request, create_registry, empty_registry, perform_all, perform_all-Guarded, publishing,
}
use decent_wallet.Registry.Consent.{check_transcript, normalize_consent}
use decent_wallet.Registry.Gate.{PublishStatus, ask, consent_gate, decide, decision_of, reserved}
use decent_wallet.Registry.Guards.{Guarded}
use decent_wallet.Registry.Nonces.{consume, consume_nonce, nonce_key}
use decent_wallet.Registry.Predecessor.{next_hash}
use decent_wallet.Registry.Publish.{publish_approved, publish_bundle, publish_checked}
use decent_wallet.Registry.Read.{follow_history, parse_state_with_history, read_state}
use decent_wallet.Registry.Request.{
  ConsentRequest, PublicationResult, authorized_name, confirm, confirm_publication, operation_name,
  publication_transcript,
}
use decent_wallet.Registry.State.{Registry, interfere}
use decent_wallet.Registry.World.{History, World, envelope_put}
use decent_wallet.Registry.Written.{Honest}
use decent_wallet.Tests.Chain.{crypto, genesis_envelope, key_a, key_b, ordinary_update}
use decent_wallet.Tests.Codec.{signed_by}

abbrev ordinary_draft : IdentityDraft
ordinary_draft = record {
  signed_update_bytes = ordinary_update;
  previous_state_envelope = some genesis_envelope;
  previous_state_history = [];
}

abbrev proof_by : Bytes → Str → IdentityProof
proof_by k i = record {
  signer_id = some i;
  signer_public_key = k;
  signature = signed_by k ordinary_update;
}

abbrev ordinary_bundle : IdentityBundle
ordinary_bundle = record {
  draft = ordinary_draft;
  proofs = proof_by key_a (97 ∷ []) ∷ proof_by key_b (98 ∷ []) ∷ [];
}

abbrev request : ConsentRequest
request = record {
  authenticated_origin = 111 ∷ [];
  environment = 101 ∷ [];
  purpose = 112 ∷ [];
  capability = 99 ∷ [];
  expires_at = 10;
  replay_nonce = 7 ∷ [];
}

-- What the transport accepts: the genesis, until there was a write.
abbrev accepted : History → Bytes
accepted [] = genesis_envelope
accepted (envelope_put name envelope expected until latch a ∷ h) = envelope
accepted (e ∷ h) = accepted h

abbrev pub world : World
world = record {
  get_identity_envelope = λ h name. ok (some (accepted h));
  get_identity_envelope_by_hash = λ h name hash. ok (some genesis_envelope);
  get_remote_identity_envelope = λ h name. ok (some (accepted h));
  put_identity_envelope = λ h name envelope expected until. ok tt;
  supports_owner_key_rotation = λ h. ok true;
  registry_environment = λ h. ok none;
  time = λ h. 5;
  consent = λ h t. ok (str (97 ∷ 112 ∷ 112 ∷ 114 ∷ 111 ∷ 118 ∷ 101 ∷ 100 ∷ []));
  replay_store = none;
  make_signer = λ h. ok tt;
  signer_public_key = λ h. ok key_a;
  signer_is_active = λ h. ok true;
  ask_signature = λ h update_bytes. ok (bytes (signed_by key_a update_bytes));
  invalidate_signer = λ h. ok tt;
  meanwhile = λ h. [];
}

abbrev start : Registry
start = empty_registry none 0

created : create_registry none 0 ≡ ok start
unfolding create_registry
created = refl

-- The same bundle is published twice with one nonce.
abbrev requests : List Request
requests = publishing ordinary_bundle request ∷ publishing ordinary_bundle request ∷ []

perform_all-Guarded_example : Guarded crypto world (perform_all crypto world requests start).history
perform_all-Guarded_example = perform_all-Guarded crypto world none 0 requests created

abbrev status_in : Checked PublicationResult → Option PublishStatus
status_in (ok a) = some a.status
status_in (err e) = none

-- The first publication is confirmed.
published :
    status_in (publish_bundle crypto world ordinary_bundle request start).0
    ≡ some PublishStatus.confirmed
unfolding publish_bundle publish_checked publish_approved read_state parse_state_with_history
    follow_history next_hash consent_gate reserved ask decide decision_of normalize_consent
    consume_nonce consume nonce_key publication_transcript check_transcript operation_name
    authorized_name confirm_publication confirm is_owner_latched finalize draft_previous_state
    parse_previous_state_chain parse_history same_state interfere verify_bundle_signature
    validate_owner_name parse_identity_envelope require_canonical require_dict parse_versioned
    require_bytes decode_signed_update require_exact_keys require_uint validate_authorization
    require_text encode sorted insert bytes_le check_operation validate_proof_list check_proofs
    verify_proofs verify_signature owner_state predecessors check_upgrade_proof check_threshold
    is_utf8 has lookup
published = refl

publish_bundle-Honest_example :
    Ends
      (Honest crypto ordinary_bundle request.expires_at)
      (λ r'. Unit)
      (publish_bundle crypto world ordinary_bundle request start)
publish_bundle-Honest_example = publish_bundle-Honest crypto ordinary_bundle world request start
