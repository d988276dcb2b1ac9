-- ===== src/Tests/Chain.antt =====
-- An owner's first two envelopes: a genesis, and an ordinary update, each signed by two of three.
use decent_wallet.Crypto.{Crypto}
use decent_wallet.Identity.Authorization.{Authorization, validate_authorization}
use decent_wallet.Identity.Envelope.Operations.{check_operation, check_upgrade_proof}
use decent_wallet.Identity.Envelope.Parse.{
  check_proofs, check_threshold, owner_state, parse_identity_envelope, parse_versioned,
  predecessors,
}
use decent_wallet.Identity.Envelope.Signers.{verify_proofs}
use decent_wallet.Identity.Proof.{validate_proof_list}
use decent_wallet.Identity.Require.{
  require_bytes, require_dict, require_exact_keys, require_text, require_uint, zeros,
}
use decent_wallet.Identity.State.{IdentityState}
use decent_wallet.Identity.Update.{decode_signed_update, require_canonical, verify_signature}
use decent_wallet.Prelude.{List, [], none, ok, refl, some, ℕ, ◌∷◌, ◌≡◌}
use decent_wallet.Python.Order.{bytes_le, insert, sorted}
use decent_wallet.Python.Text.{encode}
use decent_wallet.Python.Value.{
  Bytes, Str, Value, bytes, cons, dict, end, entry, key, list, nil, str,
}
use decent_wallet.Tests.Codec.{codec, digest, signed_by, written}

abbrev pub key_a : Bytes
key_a = 11 ∷ zeros 31

abbrev pub key_b : Bytes
key_b = 12 ∷ zeros 31

abbrev key_c : Bytes
key_c = 13 ∷ zeros 31

abbrev pub owner : Bytes
owner = 97 ∷ []

abbrev pub signers : List (Str × Bytes)
signers = ((97 ∷ []), key_a) ∷ ((98 ∷ []), key_b) ∷ ((99 ∷ []), key_c) ∷ []

abbrev pub genesis_authorization : Authorization
genesis_authorization = record {
  operation = 1;
  epoch = 1;
  threshold = 2;
  signer_set = signers;
  predecessor = zeros 32;
}

abbrev pub write_update : ℕ → Authorization → Value
write_update sequence a = dict (
    entry (key 1) (dict (entry (key 1) (bytes owner) (entry (key 2) (bytes key_a) end))) (
      entry (key 2) (dict end) (
        entry (key 3) (key sequence) (
          entry (key 4)
            (dict (
              entry (key 1) (key 1) (
                entry (key 2) (key 1) (
                  entry (key 3) (key a.operation) (
                    entry (key 4) (key a.epoch) (
                      entry (key 5) (key a.threshold) (
                        entry (key 6)
                          (list (
                            cons
                              (dict
                                (entry (key 1) (str (97 ∷ [])) (entry (key 2) (bytes key_a) end)))
                              (cons
                                (dict
                                  (entry (key 1) (str (98 ∷ [])) (entry (key 2) (bytes key_b) end)))
                                (cons
                                  (dict (
                                    entry (key 1) (str (99 ∷ []))
                                      (entry (key 2) (bytes key_c) end)))
                                  nil))))
                          (entry (key 7) (bytes a.predecessor) end))))))))
            end))))

abbrev proof_value : Str → Bytes → Bytes → Value
proof_value i k b = dict (entry (key 1) (str i) (entry (key 2) (bytes (signed_by k b)) end))

-- Two signers sign.
abbrev pub write_envelope : Bytes → Value
write_envelope b = dict (
    entry (key 1) (key 1) (
      entry (key 2) (bytes b) (
        entry (key 3)
          (list (cons (proof_value (97 ∷ []) key_a b) (cons (proof_value (98 ∷ []) key_b b) nil)))
          end)))

abbrev pub genesis_update : Bytes
genesis_update = written (write_update 1 genesis_authorization)

abbrev pub genesis_envelope : Bytes
genesis_envelope = written (write_envelope genesis_update)

abbrev pub ordinary_authorization : Authorization
ordinary_authorization = record genesis_authorization {
  operation = 2;
  predecessor = digest genesis_update;
}

abbrev pub ordinary_update : Bytes
ordinary_update = written (write_update 2 ordinary_authorization)

abbrev pub ordinary_envelope : Bytes
ordinary_envelope = written (write_envelope ordinary_update)

abbrev pub crypto : Crypto
crypto = codec (
    write_update 1 genesis_authorization
    ∷ write_envelope genesis_update
    ∷ write_update 2 ordinary_authorization
    ∷ write_envelope ordinary_update
    ∷ [])

abbrev pub genesis_state : IdentityState
genesis_state = record {
  owner_name = owner;
  owner_public_key = key_a;
  sequence = 1;
  signed_update_bytes = genesis_update;
  envelope_bytes = genesis_envelope;
  state_hash = digest genesis_update;
  generation = some 1;
  threshold = some 2;
  signer_set = signers;
  predecessor_envelopes = [];
}

abbrev pub ordinary_state : IdentityState
ordinary_state = record genesis_state {
  sequence = 2;
  signed_update_bytes = ordinary_update;
  envelope_bytes = ordinary_envelope;
  state_hash = digest ordinary_update;
  predecessor_envelopes = genesis_envelope ∷ [];
}

pub ordinary_accepted :
    parse_identity_envelope crypto owner ordinary_envelope (some genesis_state) ≡ ok ordinary_state
unfolding parse_identity_envelope require_canonical require_dict parse_versioned require_bytes
    decode_signed_update require_exact_keys require_uint validate_authorization require_text encode
    sorted insert bytes_le check_operation validate_proof_list check_proofs verify_proofs
    verify_signature owner_state predecessors check_upgrade_proof check_threshold
ordinary_accepted = refl

pub genesis_accepted : parse_identity_envelope crypto owner genesis_envelope none ≡ ok genesis_state
unfolding parse_identity_envelope require_canonical require_dict parse_versioned require_bytes
    decode_signed_update require_exact_keys require_uint validate_authorization require_text encode
    sorted insert bytes_le check_operation validate_proof_list check_proofs verify_proofs
    verify_signature owner_state predecessors check_upgrade_proof check_threshold
genesis_accepted = refl
