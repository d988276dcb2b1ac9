-- ===== src/Tests/Rotation.antt =====
-- The adapter of identity.py with an owner whose genesis is published, and a rotation of its key.
use decent_wallet.Crypto.{Crypto}
use decent_wallet.Identity.Authorization.{
  Authorization, authorization_value, validate_authorization,
}
use decent_wallet.Identity.Draft.Create.{max_predecessor_depth}
use decent_wallet.Identity.Envelope.Operations.{check_operation, check_upgrade_proof}
use decent_wallet.Identity.Envelope.Parse.{
  check_proofs, check_threshold, owner_state, parse_identity_envelope, parse_versioned,
  predecessors,
}
use decent_wallet.Identity.Envelope.Signers.{verify_proofs}
use decent_wallet.Identity.Error.{Checked}
use decent_wallet.Identity.Latch.{
  RotationBinding, binding_eq, register, rotation_binding, same_binding,
}
use decent_wallet.Identity.Proof.{validate_proof_list}
use decent_wallet.Identity.Require.{
  require_bytes, require_dict, require_exact_keys, require_text, require_uint,
}
use decent_wallet.Identity.Update.{
  decode_signed_update, require_canonical, update_value, verify_signature,
}
use decent_wallet.Prelude.{
  Bool, Option, [], false, list_eq, nat_eq, ok, option_eq, pair_eq, refl, some, true, ◌*◌, ◌∷◌, ◌≡◌,
}
use decent_wallet.Python.Dict.{assign, has, lookup}
use decent_wallet.Python.Order.{bytes_le, insert, sorted}
use decent_wallet.Python.Text.{encode}
use decent_wallet.Python.Value.{Bytes, Value}
use decent_wallet.Registry.Asking.{Ends}
use decent_wallet.Registry.Calls.{empty_registry}
use decent_wallet.Registry.Confirm.{
  RotationConfirmation, confirm_owner_key_rotation, is_predecessor, is_rotated_state,
  verify_successor,
}
use decent_wallet.Registry.Evidence.{Evidence, confirm_owner_key_rotation-Evidence}
use decent_wallet.Registry.History.{Chained, Within, parse_state_with_history-Good}
use decent_wallet.Registry.Predecessor.{next_hash}
use decent_wallet.Registry.Read.{
  follow_history, parse_state_with_history, rotation_environment_matches,
  rotation_transport_available,
}
use decent_wallet.Registry.State.{Registry, interfere}
use decent_wallet.Registry.World.{World}
use decent_wallet.Tests.Chain.{
  crypto, genesis_authorization, genesis_envelope, genesis_update, key_a, key_b, owner,
  write_envelope, write_update,
}
use decent_wallet.Tests.Codec.{codec, digest, written}
use decent_wallet.Tests.Registry.{world}

abbrev rotated_authorization : Authorization
rotated_authorization = record genesis_authorization {
  operation = 5;
  predecessor = digest genesis_update;
}

-- The update of the successor key.
abbrev rotated_value : Value
rotated_value = update_value crypto owner key_b 2 (some rotated_authorization)

abbrev pub rotation_update : Bytes
rotation_update = written rotated_value

abbrev rotation_envelope : Bytes
rotation_envelope = written (write_envelope rotation_update)

abbrev pub rotation_crypto : Crypto
rotation_crypto = codec (
    write_update 1 genesis_authorization
    ∷ write_envelope genesis_update
    ∷ rotated_value
    ∷ write_envelope rotation_update
    ∷ [])

abbrev rotation : RotationBinding
rotation = record {
  environment = some (101 ∷ []);
  owner_name = owner;
  predecessor_owner_public_key = key_a;
  successor_owner_public_key = key_b;
  predecessor_state_hash = digest genesis_update;
  sequence = 2;
  envelope_hash = digest rotation_envelope;
}

-- The remote source has the successor, and the transport has kept the predecessor.
abbrev rotation_world : World
rotation_world = record world {
  get_identity_envelope = λ h name. ok (some rotation_envelope);
  get_identity_envelope_by_hash = λ h name hash. ok (some genesis_envelope);
  get_remote_identity_envelope = λ h name. ok (some rotation_envelope);
}

abbrev rotation_start : Registry
rotation_start = empty_registry (some (101 ∷ [])) 0

abbrev is_confirmed : Checked (Option RotationConfirmation) → Bool
is_confirmed (ok (some x)) = true
is_confirmed _ = false

-- The rotation is confirmed.
rotation_confirmed :
    is_confirmed
      (confirm_owner_key_rotation rotation_crypto rotation_world rotation rotation_start).0
    ≡ true
unfolding confirm_owner_key_rotation register rotation_binding verify_successor is_rotated_state
    is_predecessor rotation_environment_matches rotation_transport_available
    parse_state_with_history follow_history next_hash interfere same_binding assign update_value
    authorization_value parse_identity_envelope require_canonical require_dict parse_versioned
    require_bytes decode_signed_update require_exact_keys require_uint validate_authorization
    require_text encode sorted insert bytes_le check_operation validate_proof_list check_proofs
    verify_proofs verify_signature owner_state predecessors check_upgrade_proof check_threshold has
    lookup
rotation_confirmed = refl

confirm_owner_key_rotation-Evidence_example :
    Ends
      (λ o r'.
        (x : RotationConfirmation)
        → o ≡ some x
        → Evidence rotation_crypto rotation_world rotation x rotation_start r')
      (λ r'. Unit)
      (confirm_owner_key_rotation rotation_crypto rotation_world rotation rotation_start)
confirm_owner_key_rotation-Evidence_example =
    confirm_owner_key_rotation-Evidence rotation_crypto rotation_world rotation rotation_start

parse_state_with_history-Good_example :
    Ends
      (λ s r'.
        Chained rotation_crypto owner rotation_envelope rotation_start s r'
        × Within (2 * max_predecessor_depth) rotation_start r')
      (Within (2 * max_predecessor_depth) rotation_start)
      (parse_state_with_history rotation_crypto rotation_world owner rotation.environment
        rotation_envelope rotation_start)
parse_state_with_history-Good_example =
    parse_state_with_history-Good rotation_crypto rotation_world owner rotation.environment
      rotation_envelope rotation_start
