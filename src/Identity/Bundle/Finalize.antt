-- ===== src/Identity/Bundle/Finalize.antt =====
-- `IdentityBundle.finalize` of identity.py.
use decent_wallet.Crypto.{Crypto}
use decent_wallet.Identity.Authorization.{Authorization}
use decent_wallet.Identity.Bundle.Merge.{IdentityBundle, IdentityProof}
use decent_wallet.Identity.Draft.Chain.{parse_previous_state_chain}
use decent_wallet.Identity.Draft.Create.{IdentityDraft}
use decent_wallet.Identity.Envelope.Operations.{has_value}
use decent_wallet.Identity.Envelope.Parse.{legacy_predecessor, parse_identity_envelope}
use decent_wallet.Identity.Envelope.Signers.{set_add}
use decent_wallet.Identity.Error.{Checked, IdentityError, invalid_request, invalid_state}
use decent_wallet.Identity.Require.{require_bytes}
use decent_wallet.Identity.State.{IdentityState}
use decent_wallet.Identity.Update.{SignedUpdate, canonical, decode_signed_update, verify_signature}
use decent_wallet.Prelude.{
  List, Option, [], dict_get, err, false, if◌then◌else◌, is_empty, length, list_eq, ltb, nat_eq,
  none, not, ok, option_eq, or_raise, pair_eq, reject_if, rethrow, some, ◌!=◌, ◌==◌, ◌>>=◌, ◌>>◌,
  ◌||◌, ◌∷◌,
}
use decent_wallet.Python.Value.{
  Bytes, Str, Value, Values, bytes, cons, dict, end, entry, is_bytes, is_end, key, list, nil, null,
  str,
}

abbrev pub proof_values : List (Option Str × Bytes) → Values
proof_values [] = nil
proof_values (p ∷ ps) =
    cons
      (dict
        (entry (key 1) (elim p.0 [ none ↦ null | some s ↦ str s ]) (entry (key 2) (bytes p.1) end)))
      (proof_values ps)

-- The envelope of a legacy update and that of a versioned one.
abbrev pub legacy_envelope_value : Bytes → Bytes → Value
legacy_envelope_value update signature =
    dict (entry (key 1) (bytes update) (entry (key 2) (bytes signature) end))

abbrev pub envelope_value : Bytes → List (Option Str × Bytes) → Value
envelope_value update proofs = dict (
    entry (key 1) (key 1)
      (entry (key 2) (bytes update) (entry (key 3) (list (proof_values proofs)) end)))

-- `InvalidIdentityState` becomes `InvalidIdentityRequest`; the rest passes.
abbrev pub as_request : IdentityError → IdentityError
as_request invalid_state = invalid_request
as_request e = e

module _ (c : Crypto) where
  unfoldable pub verify_bundle_signature : Bytes → Bytes → Bytes → Checked (Unit {0})
  verify_bundle_signature public_key update signature =
      rethrow (verify_signature c public_key update signature) as_request

  unfoldable pub draft_previous_state : IdentityDraft → Checked (Option IdentityState)
  draft_previous_state d = do
    update ← decode_signed_update c d.signed_update_bytes
    name ← require_bytes none false update.record_name
    parse_previous_state_chain c name d.previous_state_envelope d.previous_state_history

  -- A legacy update has one proof, by the owner's key and without an id.
  finalize_legacy : SignedUpdate → Bytes → List IdentityProof → Checked Bytes
  finalize_legacy update update_bytes (p ∷ []) = do
    reject_if (has_value p.signer_id || not (is_bytes update.record_key p.signer_public_key))
        invalid_request
    verify_bundle_signature p.signer_public_key update_bytes p.signature
    canonical c (legacy_envelope_value update_bytes p.signature)
  finalize_legacy update update_bytes proofs = err invalid_request

  -- The loop over the proofs for a rotation away from a legacy state.
  rotation_proofs : Bytes → Bytes → List IdentityProof → Checked (List (Option Str × Bytes))
  rotation_proofs owner_key update [] = ok []
  rotation_proofs owner_key update (p ∷ ps) = do
    reject_if (has_value p.signer_id || p.signer_public_key != owner_key) invalid_request
    verify_bundle_signature p.signer_public_key update p.signature
    rest ← rotation_proofs owner_key update ps
    ok ((none, p.signature) ∷ rest)

  -- The loop over the proofs of signers; the ids of a bundle differ, so they count themselves.
  signer_proofs :
      List (Str × Bytes)
      → Bytes
      → List IdentityProof
      → List Str
      → Checked (List Str × List (Option Str × Bytes))
  signer_proofs keys update [] valid = ok (valid, [])
  signer_proofs keys update (p ∷ ps) valid = do
    signer_id ← or_raise p.signer_id invalid_request
    expected ← or_raise (dict_get signer_id keys) invalid_request
    reject_if (expected != p.signer_public_key) invalid_request
    verify_bundle_signature expected update p.signature
    rest ← signer_proofs keys update ps (set_add signer_id valid)
    ok (rest.0, (some signer_id, p.signature) ∷ rest.1)

  -- The signers that may sign: the previous ones for operations 3 and 5, else the new ones.
  authorized_keys : Authorization → Option IdentityState → Checked (List (Str × Bytes))
  authorized_keys a previous =
      if a.operation == 3 || a.operation == 5
      then elim previous [
        | none ↦ err invalid_request
        | some p ↦ if is_empty p.signer_set then err invalid_request else ok p.signer_set
      ]
      else ok a.signer_set

  check_valid : SignedUpdate → Authorization → List IdentityProof → List Str → Checked (Unit {0})
  check_valid update a proofs valid =
      if a.operation == 4
      then elim proofs [
        | [] ↦ err invalid_request
        | p ∷ ps ↦
            reject_if
              (length (p ∷ ps) != 1
                || length valid != 1
                || not (is_bytes update.record_key p.signer_public_key))
              invalid_request
      ]
      else reject_if (ltb (length valid) a.threshold) invalid_request

  finalize_versioned :
      SignedUpdate
      → Authorization
      → Option IdentityState
      → Bytes
      → List IdentityProof
      → Checked Bytes
  finalize_versioned update a previous update_bytes proofs =
      elim (legacy_predecessor c a.operation previous) [
        | some p ↦ do
          values ← rotation_proofs p.owner_public_key update_bytes proofs
          reject_if (length proofs != 1) invalid_request
          canonical c (envelope_value update_bytes values)
        | none ↦ do
          keys ← authorized_keys a previous
          valid ← signer_proofs keys update_bytes proofs []
          check_valid update a proofs valid.0
          canonical c (envelope_value update_bytes valid.1)
      ]

  finalize_envelope : IdentityBundle → Option IdentityState → Checked Bytes
  finalize_envelope b previous = do
    reject_if (is_empty b.proofs) invalid_request
    update ← decode_signed_update c b.draft.signed_update_bytes
    reject_if (not (is_end update.payload)) invalid_request
    elim update.authorization [
      | none ↦ finalize_legacy update b.draft.signed_update_bytes b.proofs
      | some a ↦ finalize_versioned update a previous b.draft.signed_update_bytes b.proofs
    ]

  -- The envelope is returned only after it has been parsed again.
  unfoldable pub finalize : IdentityBundle → Checked Bytes
  unfolding finalize_envelope finalize_versioned finalize_legacy rotation_proofs authorized_keys
      signer_proofs check_valid
  finalize b = do
    previous ← draft_previous_state b.draft
    envelope ← finalize_envelope b previous
    update ← decode_signed_update c b.draft.signed_update_bytes
    name ← require_bytes none false update.record_name
    s ← rethrow (parse_identity_envelope c name envelope previous) as_request
    ok envelope
