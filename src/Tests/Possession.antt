-- ===== src/Tests/Possession.antt =====
-- `prove_pending_signing_key_rotation` of container.py on the draft of a rotation.
use decent_wallet.Identity.Authorization.{authorization_value, validate_authorization}
use decent_wallet.Identity.Draft.Chain.{parse_history, parse_previous_state_chain}
use decent_wallet.Identity.Draft.Create.{IdentityDraft, check_draft}
use decent_wallet.Identity.Draft.Make.{rotates, validate_owner_key_rotation_binding}
use decent_wallet.Identity.Draft.Rules.{validate_draft_transition}
use decent_wallet.Identity.Envelope.Operations.{check_operation, check_upgrade_proof}
use decent_wallet.Identity.Envelope.Parse.{
  check_proofs, check_threshold, owner_state, parse_identity_envelope, parse_versioned,
  predecessors,
}
use decent_wallet.Identity.Envelope.Signers.{verify_proofs}
use decent_wallet.Identity.Proof.{validate_proof_list}
use decent_wallet.Identity.Require.{
  require_bytes, require_dict, require_exact_keys, require_text, require_uint, validate_owner_name,
  zeros,
}
use decent_wallet.Identity.Update.{
  decode_signed_update, require_canonical, update_value, verify_signature,
}
use decent_wallet.Prelude.{
  Bool, Option, [], err, false, list_eq, nat_eq, ok, option_eq, pair_eq, refl, some, true, ◌++◌,
  ◌∷◌, ◌≡◌,
}
use decent_wallet.Python.Dict.{has, lookup}
use decent_wallet.Python.Order.{bytes_le, insert, sorted}
use decent_wallet.Python.Text.{encode, is_utf8}
use decent_wallet.Python.Value.{Bytes}
use decent_wallet.Tests.Chain.{genesis_envelope, key_a, key_b}
use decent_wallet.Tests.Rotation.{rotation_crypto, rotation_update}
use decent_wallet.Tests.Session.{at, payload, session, vault}
use decent_wallet.Wallet.Intent.{Fallible}
use decent_wallet.Wallet.Possession.{prove_pending_signing_key_rotation, verify_possession}
use decent_wallet.Wallet.Proven.{Proven, prove_pending_signing_key_rotation-Proven}
use decent_wallet.Wallet.Returns.{Returns}
use decent_wallet.Wallet.Session.{
  check_inactivity, ensure_not_latched, public_key_for_secret, touch,
}
use decent_wallet.Wallet.State.{Wallet}

abbrev rotation_draft : IdentityDraft
rotation_draft = record {
  signed_update_bytes = rotation_update;
  previous_state_envelope = some genesis_envelope;
  previous_state_history = [];
}

abbrev owner_session : Wallet
owner_session = record session {
  active_seed = some (10 ∷ zeros 31);
  pending_seed = some (11 ∷ zeros 31);
  payload = record payload { public_key = some key_a; pending_public_key = some key_b };
}

-- The signature of the toy scheme is the public key before the message.
abbrev toy_sign : Bytes → Bytes → Option Bytes
toy_sign _ message = some (key_b ++ message)

abbrev proved : Fallible (Unit {0}) × Wallet
proved =
    prove_pending_signing_key_rotation rotation_crypto vault toy_sign (at 10 false) rotation_draft
      owner_session

abbrev is_proved : Fallible (Unit {0}) → Bool
is_proved (ok u) = true
is_proved (err e) = false

-- The proof succeeds.
possession_proved : is_proved proved.0 ≡ true
unfolding prove_pending_signing_key_rotation ensure_not_latched verify_possession
    public_key_for_secret touch check_inactivity validate_owner_key_rotation_binding check_draft
    rotates validate_draft_transition parse_previous_state_chain parse_history validate_owner_name
    is_utf8 update_value authorization_value parse_identity_envelope require_canonical require_dict
    parse_versioned require_bytes decode_signed_update require_exact_keys require_uint
    validate_authorization require_text encode sorted insert bytes_le check_operation
    validate_proof_list check_proofs verify_proofs verify_signature owner_state predecessors
    check_upgrade_proof check_threshold has lookup
possession_proved = refl

prove_pending_signing_key_rotation-Proven_example :
    Returns
      (λ u w'. Proven rotation_crypto vault toy_sign (at 10 false) rotation_draft owner_session w')
      proved
prove_pending_signing_key_rotation-Proven_example =
    prove_pending_signing_key_rotation-Proven rotation_crypto vault toy_sign (at 10 false)
      rotation_draft owner_session
