-- ===== src/Identity/Envelope/Parse.antt =====
-- `_parse_identity_envelope` of identity.py.
use decent_wallet.Crypto.{Crypto}
use decent_wallet.Identity.Authorization.{Authorization}
use decent_wallet.Identity.Envelope.Operations.{check_operation, check_upgrade_proof, has_value}
use decent_wallet.Identity.Envelope.Signers.{verify_proofs}
use decent_wallet.Identity.Error.{Checked, invalid_state}
use decent_wallet.Identity.Proof.{validate_proof_list}
use decent_wallet.Identity.Require.{
  field, key_length, require_bytes, require_dict, signature_length,
}
use decent_wallet.Identity.State.{IdentityState}
use decent_wallet.Identity.Update.{decode_signed_update, require_canonical, verify_signature}
use decent_wallet.Prelude.{
  List, Option, [], err, false, if◌then◌else◌, is_empty, leb, length, list_eq, ltb, nat_eq, none,
  not, ok, option_eq, or_raise, pair_eq, reject_if, some, ℕ, ◌!=◌, ◌&&◌, ◌==◌, ◌>>=◌, ◌>>◌, ◌||◌,
  ◌∷◌,
}
use decent_wallet.Python.Value.{Bytes, Entries, Str, get, int, is_bytes, is_end, keys_are, pos}

module _ (c : Crypto) where
  unfoldable pub legacy_state : Bytes → Bytes → Bytes → ℕ → Bytes → IdentityState
  legacy_state name envelope update_bytes sequence public_key = record {
    owner_name = name;
    owner_public_key = public_key;
    sequence = sequence;
    signed_update_bytes = update_bytes;
    envelope_bytes = envelope;
    state_hash = c.sha256 update_bytes;
    generation = none;
    threshold = none;
    signer_set = [];
    predecessor_envelopes = [];
  }

  unfoldable pub parse_legacy : Bytes → Bytes → Entries → Checked IdentityState
  parse_legacy name envelope outer = do
    update_bytes ← require_bytes none false (← field 1 outer)
    signature ← require_bytes (some signature_length) false (← field 2 outer)
    update ← decode_signed_update c update_bytes
    reject_if
        (has_value update.authorization
          || not (is_end update.payload)
          || not (is_bytes update.record_name name))
        invalid_state
    public_key ← require_bytes (some key_length) false update.record_key
    verify_signature c public_key update_bytes signature
    ok (legacy_state name envelope update_bytes update.sequence public_key)

  -- `operation == 5 and previous_state is not None and not previous_state.signer_set`
  abbrev pub legacy_predecessor : ℕ → Option IdentityState → Option IdentityState
  legacy_predecessor operation none = none
  legacy_predecessor operation (some p) =
      if operation == 5 && is_empty p.signer_set then some p else none

  abbrev previous_keys : Option IdentityState → List (Str × Bytes)
  previous_keys none = []
  previous_keys (some p) = p.signer_set

  -- `verification_keys`
  abbrev pub verification_keys : Authorization → Option IdentityState → List (Str × Bytes)
  verification_keys a previous =
      if a.operation == 2 || a.operation == 3 || a.operation == 5
      then previous_keys previous
      else a.signer_set

  -- A rotation away from a legacy state: the one proof is the predecessor's own signature.
  check_legacy_rotation : IdentityState → Bytes → List (Option Str × Bytes) → Checked (Unit {0})
  check_legacy_rotation p update_bytes ((none, signature) ∷ []) =
      verify_signature c p.owner_public_key update_bytes signature
  check_legacy_rotation p update_bytes proofs = err invalid_state

  unfoldable pub check_threshold : Authorization → List Str → Checked (Unit {0})
  check_threshold a valid =
      if a.operation == 4
      then reject_if (length valid != 1) invalid_state
      else reject_if (ltb (length valid) a.threshold) invalid_state

  unfoldable pub check_proofs :
      Option IdentityState → Bytes → Authorization → List (Option Str × Bytes) → Checked (Unit {0})
  unfolding check_legacy_rotation check_threshold
  check_proofs previous update_bytes a proofs = elim (legacy_predecessor a.operation previous) [
    | some p ↦ check_legacy_rotation p update_bytes proofs
    | none ↦ do
      valid ← verify_proofs c (verification_keys a previous) update_bytes proofs []
      check_threshold a valid
  ]

  -- Newest first; a genesis has none.
  unfoldable pub predecessors : ℕ → Option IdentityState → List Bytes
  predecessors operation none = []
  predecessors operation (some p) =
      if leb 2 operation && leb operation 5 then p.envelope_bytes ∷ p.predecessor_envelopes else []

  unfoldable pub owner_state :
      Bytes → Bytes → Bytes → ℕ → Authorization → Bytes → Option IdentityState → IdentityState
  owner_state name envelope update_bytes sequence a public_key previous = record {
    owner_name = name;
    owner_public_key = public_key;
    sequence = sequence;
    signed_update_bytes = update_bytes;
    envelope_bytes = envelope;
    state_hash = c.sha256 update_bytes;
    generation = some a.epoch;
    threshold = some a.threshold;
    signer_set = a.signer_set;
    predecessor_envelopes = predecessors a.operation previous;
  }

  unfoldable pub parse_versioned :
      Bytes → Bytes → Option IdentityState → Entries → Checked IdentityState
  parse_versioned name envelope previous outer = do
    reject_if (not (elim (get 1 outer) [ some (int (pos n)) ↦ n == 1 | _ ↦ false ])) invalid_state
    update_bytes ← require_bytes none false (← field 2 outer)
    proofs ← field 3 outer
    update ← decode_signed_update c update_bytes
    a ← or_raise update.authorization invalid_state
    reject_if (not (is_end update.payload) || not (is_bytes update.record_name name)) invalid_state
    check_operation previous name update.record_key update.sequence a
    proof_list ← validate_proof_list proofs
    if a.operation == 4
        then check_upgrade_proof previous update.record_key update.sequence a proof_list
        else ok tt
    check_proofs previous update_bytes a proof_list
    public_key ← require_bytes (some key_length) false update.record_key
    ok (owner_state name envelope update_bytes update.sequence a public_key previous)

  unfoldable pub parse_identity_envelope :
      Bytes → Bytes → Option IdentityState → Checked IdentityState
  parse_identity_envelope name envelope previous = do
    decoded ← require_canonical c envelope
    outer ← require_dict decoded
    if keys_are (1 ∷ 2 ∷ []) outer
        then parse_legacy name envelope outer
        else if keys_are (1 ∷ 2 ∷ 3 ∷ []) outer
        then parse_versioned name envelope previous outer
        else err invalid_state
