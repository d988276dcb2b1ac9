-- ===== src/Registry/Dispatch.antt =====
-- `RegistryAdapter.dispatch_owner_key_rotation` of identity.py. A permit is its intent, with whether it
-- is authentic.
use decent_wallet.Crypto.{Crypto}
use decent_wallet.Identity.Error.{
  Checked, expired_publication, invalid_request, stale_publication, unexpected,
}
use decent_wallet.Identity.Latch.{RotationBinding, binding_eq, is_dispatch_ready, is_latched}
use decent_wallet.Identity.State.{IdentityState, same_state}
use decent_wallet.Prelude.{
  Bool, Option, err, false, if◌then◌else◌, leb, list_eq, nat_eq, none, not, ok, option_eq, or_raise,
  pair_eq, reject_if, some, ℕ, ◌==◌, ◌||◌,
}
use decent_wallet.Python.Dict.{lookup}
use decent_wallet.Python.Value.{Bytes}
use decent_wallet.Registry.Confirm.{RotationConfirmation, confirm_owner_key_rotation}
use decent_wallet.Registry.Gate.{
  PublishStatus, Reason, confirmation_incomplete, consent_expired, environment_mismatch,
  outcome_cannot_clear_intent, readback_did_not_confirm_dispatch, readback_did_not_confirm_envelope,
  readback_unavailable_after_rejection,
}
use decent_wallet.Registry.Publication.{consume_publication, matches_intent, publication_attributes}
use decent_wallet.Registry.Read.{
  read_state, rotation_environment_matches, rotation_transport_available,
}
use decent_wallet.Registry.State.{
  Handler, RotationPublication, attempt, gets, lift, locked, pure, put, raise, read_clock,
  read_remote, ◌>>=◌, ◌>>◌,
}
use decent_wallet.Registry.World.{World}

-- `RotationDispatchRejection`: the attributes of its publication, and its handle.
pub record RotationDispatchRejection : Type 0 where
  pub status : PublishStatus
  pub publication : ℕ

pub record RotationDispatchResult : Type 0 where
  pub status : PublishStatus
  pub confirmation : Option RotationConfirmation
  pub rejection : Option RotationDispatchRejection
  pub reason : Option Reason

pub record RotationDispatchPermit : Type 0 where
  pub intent : RotationBinding
  pub is_authentic : Bool

abbrev pub unresolved : Reason → RotationDispatchResult
unresolved reason = record {
  status = PublishStatus.unknown;
  confirmation = none;
  rejection = none;
  reason = some reason;
}

-- The answer of the confirmation, or that the outcome is unknown.
abbrev pub confirmed_or_unknown : Reason → Option RotationConfirmation → RotationDispatchResult
confirmed_or_unknown reason none = unresolved reason
confirmed_or_unknown reason (some x) = record {
  status = PublishStatus.confirmed;
  confirmation = some x;
  rejection = none;
  reason = none;
}

abbrev pub rejected : ℕ → Reason → RotationDispatchResult
rejected handle reason = record {
  status = PublishStatus.expired;
  confirmation = none;
  rejection = some (record { status = PublishStatus.expired; publication = handle });
  reason = some reason;
}

-- Why a dispatch ended before the write: only an expired consent can be cleared.
pub data Prewrite : Type 0 where
  not_clearable : Bool → Prewrite
  consent_has_expired : Prewrite

abbrev pub observed_locally : Prewrite → Bool
observed_locally (not_clearable b) = b
observed_locally consent_has_expired = false

module _ (c : Crypto) (w : World) (handle : ℕ) (intent : RotationBinding) where
  abbrev pub matches : Handler Bool
  matches = rotation_environment_matches w intent.environment

  unfoldable pub confirm_dispatch : Reason → Handler RotationDispatchResult
  confirm_dispatch reason = do
    x ← confirm_owner_key_rotation c w intent
    pure (confirmed_or_unknown reason x)

  abbrev pub clear_or_keep : Prewrite → Handler RotationDispatchResult
  clear_or_keep (not_clearable b) = pure (unresolved outcome_cannot_clear_intent)
  clear_or_keep consent_has_expired = do
    holds ← matches
    pure (if holds then rejected handle consent_expired else unresolved environment_mismatch)

  abbrev pub compare_remote : Prewrite → Bytes → Handler RotationDispatchResult
  compare_remote why envelope =
      if observed_locally why || c.sha256 envelope == intent.envelope_hash
      then confirm_dispatch confirmation_incomplete
      else clear_or_keep why

  abbrev pub remote_answer : Prewrite → Checked (Option Bytes) → Handler RotationDispatchResult
  remote_answer why (err e) = pure (unresolved readback_unavailable_after_rejection)
  remote_answer why (ok found) = do
    holds ← matches
    if not holds then pure (unresolved environment_mismatch) else elim found [
      | none ↦ pure (unresolved readback_unavailable_after_rejection)
      | some envelope ↦ compare_remote why envelope
    ]

  -- `prewrite_result`
  unfoldable pub prewrite_result : Prewrite → Handler RotationDispatchResult
  prewrite_result why = do
    holds ← matches
    if not holds
        then pure (unresolved environment_mismatch)
        else (do a ← attempt (read_remote w intent.owner_name); remote_answer why a)

  abbrev pub after_dispatch : Checked (Unit {0}) → Handler RotationDispatchResult
  after_dispatch (ok u) = confirm_dispatch readback_did_not_confirm_envelope
  after_dispatch (err stale_publication) = prewrite_result (not_clearable false)
  after_dispatch (err expired_publication) = prewrite_result consent_has_expired
  after_dispatch (err e) = confirm_dispatch readback_did_not_confirm_dispatch

  -- The write, once the environment has been looked at again.
  unfoldable pub send : RotationPublication → Bytes → Handler RotationDispatchResult
  send p owner = do
    holds ← matches
    if not holds then pure (unresolved environment_mismatch) else (do
      a ← attempt (put w owner p.envelope_bytes (some p.previous_state.state_hash) p.expires_at)
      after_dispatch a)

  -- The candidate is what the transport already accepts.
  abbrev pub is_candidate : Option IdentityState → Bool
  is_candidate none = false
  is_candidate (some s) = c.sha256 s.envelope_bytes == intent.envelope_hash

  -- An exception that is no `IdentityAdapterError` passes.
  abbrev pub state_found :
      RotationPublication → Bytes → Checked (Option IdentityState) → Handler RotationDispatchResult
  state_found p owner (err unexpected) = raise unexpected
  state_found p owner (err e) = prewrite_result (not_clearable false)
  state_found p owner (ok current) =
      if not (same_state (some p.previous_state) current)
      then prewrite_result (not_clearable (is_candidate current))
      else (do
        now ← read_clock w
        if leb p.expires_at now then prewrite_result consent_has_expired else send p owner)

  -- Under the owner's lock.
  unfoldable pub dispatch_locked : RotationPublication → Bytes → Handler RotationDispatchResult
  dispatch_locked p owner = do
    latched ← gets (λ r. is_latched intent r.latches)
    lift (reject_if (not latched) invalid_request)
    available ← rotation_transport_available w
    if not available
        then prewrite_result (not_clearable false)
        else (do current ← attempt (read_state c w owner); state_found p owner current)

module _ (c : Crypto) (w : World) where
  abbrev pub consume_for : ℕ → RotationPublication → Handler Bool
  consume_for handle p r =
      let a = consume_publication handle p r.rotation_token r.consumed in
      (ok a.0, record r { consumed = a.1 })

  unfoldable pub dispatch_owner_key_rotation :
      ℕ → RotationDispatchPermit → Handler RotationDispatchResult
  dispatch_owner_key_rotation handle permit = do
    known ← gets (λ r. lookup handle r.publications)
    p ← lift (or_raise known invalid_request)
    lift (reject_if (not permit.is_authentic) invalid_request)
    lift (reject_if (not (matches_intent c p permit.intent)) invalid_request)
    dispatchable ← gets (λ r. is_dispatch_ready permit.intent r.latches)
    lift (reject_if (not dispatchable) invalid_request)
    fresh ← consume_for handle p
    lift (reject_if (not fresh) invalid_request)
    holds ← rotation_environment_matches w permit.intent.environment
    if not holds then pure (unresolved environment_mismatch) else (do
      b ← lift (publication_attributes c p)
      locked b.owner_name (dispatch_locked c w handle permit.intent p b.owner_name))
