-- ===== src/Wallet/Session.antt =====
-- `_touch`, `lock`, `check_inactivity`, `_build_envelope`, `_persist_envelope` and the checks of the
-- keys. All the clock readings of one call are the same.
use mathlib.Core.Option
use decent_wallet.Identity.Envelope.Operations.{has_value}
use decent_wallet.Identity.Require.{key_length}
use decent_wallet.Prelude.{
  Bool, Option, Result, [], err, false, if◌then◌else◌, leb, length, list_eq, nat_eq, none, not, ok,
  option_eq, pair_eq, reject_if, some, true, ℕ, ◌!=◌, ◌-◌, ◌==◌, ◌||◌,
}
use decent_wallet.Python.Value.{Bytes, Value, bytes}
use decent_wallet.Storage.Atomic.{StorageError, Target, atomic_write, failure, outcome_unknown}
use decent_wallet.Wallet.Intent.{
  Fallible, invalid_container, rotation_in_progress, signer_unavailable, storage_failure,
  storage_outcome_unknown, unexpected, wallet_locked,
}
use decent_wallet.Wallet.State.{Call, Method, Payload, Stored, Vault, Wallet, no_payload, ◌>>◌}

unfoldable pub lock : Wallet → Wallet
lock w = record w {
  dek = none;
  active_seed = none;
  pending_seed = none;
  payload = no_payload;
  envelope = none;
  capabilities = [];
}

unfoldable pub check_inactivity : ℕ → Wallet → Bool × Wallet
check_inactivity now w =
    if not (has_value w.dek)
    then (true, w)
    else if leb w.inactivity_seconds (now - w.last_activity)
    then (true, lock w)
    else (false, w)

unfoldable pub touch : ℕ → Method (Unit {0})
touch now w =
    if not (has_value w.dek)
    then (err wallet_locked, w)
    else (let (expired, w') = check_inactivity now w in
        if expired then (err wallet_locked, w') else (ok tt, record w' { last_activity = now }))

unfoldable pub ensure_not_latched : Method (Unit {0})
ensure_not_latched w = (reject_if (has_value w.payload.dispatch_intent) rotation_in_progress, w)

unfoldable pub invalidate_capabilities : Method (Unit {0})
invalidate_capabilities w = (ok tt, record w { capabilities = [] })

abbrev pub stored_bytes : Option Bytes → Option Value
stored_bytes o = Option.map bytes o

-- An override that is given, else what the table holds.
abbrev pub or_else : Option Bytes → Option Bytes → Option Bytes
or_else (some a) o = some a
or_else none o = o

-- The public key that goes with the active seed.
unfoldable pub storage_key : Payload → Option Bytes → Wallet → Fallible (Option Bytes)
storage_key payload (some override) w = ok payload.public_key
storage_key payload none w = elim w.active_seed [
  | none ↦ ok payload.public_key
  | some seed ↦ elim w.payload.public_key [ none ↦ err unexpected | some k ↦ ok (some k) ]
]

-- The pending seed and its public key.
unfoldable pub storage_pending :
    Option Bytes → Option Bytes → Fallible (Option Bytes × Option Bytes)
storage_pending none public_key = ok (none, public_key)
storage_pending (some seed) none = err invalid_container
storage_pending (some seed) (some k) =
    if length k == key_length then ok (some seed, some k) else err invalid_container

-- The payload, with the seeds put back.
abbrev pub assemble :
    Payload
    → Option Bytes
    → Fallible (Option Bytes)
    → Fallible (Option Bytes × Option Bytes)
    → Fallible Stored
assemble payload seed (err e) q = err e
assemble payload seed (ok public_key) (err e) = err e
assemble payload seed (ok public_key) (ok (pending_seed, pending_key)) = ok (record {
  private_seed = stored_bytes seed;
  public_key = stored_bytes public_key;
  pending_private_seed = stored_bytes pending_seed;
  pending_public_key = stored_bytes pending_key;
  dispatch_intent = Option.map ok payload.dispatch_intent;
  content = payload.content;
})

-- `payload_for_storage` of `_build_envelope`.
unfoldable pub payload_for_storage :
    Payload → Option Bytes → Option Bytes → Bool → Wallet → Fallible Stored
payload_for_storage payload pending_override active_override include_pending w =
    assemble payload (or_else active_override w.active_seed) (storage_key payload active_override w)
      (if include_pending
        then storage_pending (or_else pending_override w.pending_seed) payload.pending_public_key
        else ok (none, none))

module _ (v : Vault) (call : Call) where
  abbrev pub seal_stored : Bytes → Bytes → Fallible Stored → Fallible Bytes
  seal_stored current dek (err e) = err e
  seal_stored current dek (ok stored) = v.seal call.nonce current dek stored

  unfoldable pub build_envelope : Payload → Option Bytes → Option Bytes → Bool → Method Bytes
  build_envelope payload pending_override active_override include_pending w = elim w.dek [
    | none ↦ (err wallet_locked, w)
    | some dek ↦ elim w.envelope [
      | none ↦ (err unexpected, w)
      | some current ↦ (
        seal_stored current dek
            (payload_for_storage payload pending_override active_override include_pending w),
        w,
      )
    ]
  ]

  abbrev pub persisted :
      Result StorageError (Unit {0}) × Target → Wallet → Fallible (Unit {0}) × Wallet
  persisted (ok u, t) w = (ok tt, record w { target = t })
  persisted (err failure, t) w = (err storage_failure, record w { target = t })
  persisted (err outcome_unknown, t) w =
      (err storage_outcome_unknown, lock (record w { target = t }))

  unfoldable pub persist_envelope : Bytes → Method (Unit {0})
  persist_envelope envelope w =
      persisted (atomic_write call.faults call.meddle call.fresh call.again true envelope w.target)
        w

  -- `_public_key_for_secret`
  unfoldable pub public_key_for_secret : Option Bytes → Option Bytes → Fallible Bytes
  public_key_for_secret (some seed) (some stored) =
      if length seed != key_length || length stored != key_length
      then err signer_unavailable
      else elim (v.derive seed) [
        | none ↦ err signer_unavailable
        | some derived ↦ if stored != derived then err signer_unavailable else ok derived
      ]
  public_key_for_secret _ _ = err signer_unavailable

  unfoldable pub public_key : Method Bytes
  public_key = do touch call.now; λ w. (public_key_for_secret w.active_seed w.payload.public_key, w)

  abbrev pub pending_key : Option Bytes → Option Bytes → Fallible (Option Bytes)
  pending_key none stored = if has_value stored then err signer_unavailable else ok none
  pending_key (some seed) stored = elim (public_key_for_secret (some seed) stored) [
    | err e ↦ err e
    | ok k ↦ ok (some k)
  ]

  unfoldable pub pending_signing_public_key : Method (Option Bytes)
  pending_signing_public_key = do
    touch call.now
    λ w. (pending_key w.pending_seed w.payload.pending_public_key, w)
