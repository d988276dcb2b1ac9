-- ===== src/Wallet/Rotation.antt =====
-- `_update_payload`, `_prepare_signing_key_rotation`, `_cancel_signing_key_rotation`,
-- `finalize_signing_key_rotation` and `resolve_signing_key_rotation_rejection` of container.py.
use decent_wallet.Identity.Envelope.Operations.{has_value}
use decent_wallet.Identity.Latch.{RotationBinding, binding_eq, clear, is_latched, rotation_binding}
use decent_wallet.Identity.Require.{key_length}
use decent_wallet.Prelude.{
  Bool, Option, err, false, if◌then◌else◌, length, list_eq, nat_eq, none, not, ok, option_eq,
  or_raise, pair_eq, reject_if, some, true, ◌!=◌, ◌==◌, ◌||◌,
}
use decent_wallet.Python.Value.{Bytes, Entries}
use decent_wallet.Wallet.Commit.{commit}
use decent_wallet.Wallet.Intent.{
  Fallible, check_intent, invalid_request, key_generation, signer_unavailable,
}
use decent_wallet.Wallet.Session.{
  ensure_not_latched, invalidate_capabilities, pending_key, pending_signing_public_key,
  public_key_for_secret, touch,
}
use decent_wallet.Wallet.State.{Call, Method, Payload, Vault, Wallet, gets, lift, pure, ◌>>=◌, ◌>>◌}

module _ (v : Vault) (call : Call) where
  -- A public key that is taken over from the old payload, where there is a seed for it.
  abbrev pub taken_over : Option Bytes → Option Bytes → Option Bytes
  taken_over none stored = none
  taken_over (some seed) stored = stored

  -- The content holds none of the fields that a caller may not name.
  unfoldable pub update_payload : Entries → Method (Unit {0})
  update_payload content = do
    touch call.now
    w ← gets (λ w. w)
    let updated : Payload = record {
      public_key = taken_over w.active_seed w.payload.public_key;
      pending_public_key = taken_over w.pending_seed w.payload.pending_public_key;
      dispatch_intent = w.payload.dispatch_intent;
      content = content;
    }
    commit v call updated none none true w.active_seed w.pending_seed
    invalidate_capabilities

  -- `_generate_seed`, with what the system's random numbers give.
  unfoldable pub generate_seed : Option Bytes → Fallible Bytes
  generate_seed none = err key_generation
  generate_seed (some seed) = if length seed != key_length then err key_generation else ok seed

  unfoldable pub stage_successor : Option Bytes → Method Bytes
  stage_successor seed = do
    w ← gets (λ w. w)
    active_key ← lift (or_raise w.payload.public_key signer_unavailable)
    lift (or_raise w.active_seed signer_unavailable)
    pending_seed ← lift (generate_seed seed)
    pending_key ← lift (or_raise (v.derive pending_seed) key_generation)
    lift (reject_if (pending_key == active_key) key_generation)
    let updated : Payload = record w.payload { pending_public_key = some pending_key }
    commit v call updated (some pending_seed) none true w.active_seed (some pending_seed)
    invalidate_capabilities
    pure pending_key

  unfoldable pub prepare_signing_key_rotation : Option Bytes → Method Bytes
  prepare_signing_key_rotation seed = do
    touch call.now
    ensure_not_latched
    w ← gets (λ w. w)
    if has_value w.pending_seed
        then (do
          pending_key ← pending_signing_public_key v call
          lift (or_raise pending_key signer_unavailable))
        else stage_successor seed

  unfoldable pub cancel_signing_key_rotation : Method (Unit {0})
  cancel_signing_key_rotation = do
    touch call.now
    ensure_not_latched
    w ← gets (λ w. w)
    if not (has_value w.pending_seed)
        then lift (reject_if (has_value w.payload.pending_public_key) signer_unavailable)
        else (do
          let updated : Payload = record w.payload { pending_public_key = none }
          commit v call updated none none false w.active_seed none
          invalidate_capabilities)

  abbrev pub is_other_rotation : RotationBinding → Wallet → Bool
  is_other_rotation intent w =
      not (has_value w.active_seed)
      || not (has_value w.pending_seed)
      || w.payload.public_key != some intent.predecessor_owner_public_key
      || w.payload.pending_public_key != some intent.successor_owner_public_key

  -- The two keys of the intent are the session's, and each seed gives its key.
  unfoldable pub check_rotation_keys : RotationBinding → Method Bytes
  check_rotation_keys intent = do
    w ← gets (λ w. w)
    lift (reject_if (is_other_rotation intent w) signer_unavailable)
    lift (public_key_for_secret v call w.active_seed w.payload.public_key)
    lift (public_key_for_secret v call w.pending_seed w.payload.pending_public_key)

  -- The latched intent, which the capability names too.
  unfoldable pub matching_intent : RotationBinding → Method RotationBinding
  matching_intent capability = do
    w ← gets (λ w. w)
    intent ← lift (or_raise w.payload.dispatch_intent invalid_request)
    intent ← lift (check_intent intent)
    lift (reject_if (rotation_binding capability != rotation_binding intent) invalid_request)
    pure intent

  unfoldable pub clear_latch : RotationBinding → Method Bool
  clear_latch intent w =
      let (latches, cleared) = clear intent w.latches in
      (ok cleared, record w { latches = latches })

  -- What is done under the owner's lock: the pending key and seed become the active ones.
  unfoldable pub promote_successor : RotationBinding → Bytes → Method Bytes
  promote_successor intent successor_key = do
    w ← gets (λ w. w)
    lift (reject_if (not (is_latched intent w.latches)) invalid_request)
    invalidate_capabilities
    let updated : Payload = record w.payload {
      public_key = some successor_key;
      pending_public_key = none;
      dispatch_intent = none;
    }
    commit v call updated none w.pending_seed false w.pending_seed none
    cleared ← clear_latch intent
    lift (reject_if (not cleared) invalid_request)
    pure successor_key

  -- A confirmation is its binding here; only an adapter can make one.
  unfoldable pub finalize_signing_key_rotation : RotationBinding → Method Bytes
  finalize_signing_key_rotation confirmation = do
    touch call.now
    intent ← matching_intent confirmation
    successor_key ← check_rotation_keys intent
    lift (reject_if (successor_key != confirmation.successor_owner_public_key) signer_unavailable)
    promote_successor intent successor_key

  -- What is done under the owner's lock: the intent goes.
  unfoldable pub clear_rejected : RotationBinding → Bool → Method (Unit {0})
  clear_rejected intent claimed = do
    w ← gets (λ w. w)
    lift (reject_if (not (is_latched intent w.latches) || not claimed) invalid_request)
    let updated : Payload = record w.payload { dispatch_intent = none }
    commit v call updated none none true w.active_seed w.pending_seed
    invalidate_capabilities
    clear_latch intent
    pure tt

  -- The rejection's binding, and whether it could be claimed.
  unfoldable pub resolve_signing_key_rotation_rejection : RotationBinding → Bool → Method (Unit {0})
  resolve_signing_key_rotation_rejection rejection claimed = do
    touch call.now
    intent ← matching_intent rejection
    check_rotation_keys intent
    clear_rejected intent claimed
