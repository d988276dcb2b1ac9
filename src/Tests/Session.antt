-- ===== src/Tests/Session.antt =====
-- `_atomic_write` and a session of container.py on small inputs.
use decent_wallet.Identity.Latch.{
  RotationBinding, binding_eq, clear, is_latched, rotation_binding, same_binding,
}
use decent_wallet.Identity.Require.{zeros}
use decent_wallet.Prelude.{
  Bool, List, Option, [], err, false, inr, list_eq, nat_eq, none, ok, option_eq, pair_eq, refl,
  some, true, ℕ, ◌+◌, ◌∷◌, ◌≡◌, ◌⊎◌,
}
use decent_wallet.Python.Dict.{delete, lookup}
use decent_wallet.Python.Text.{is_utf8}
use decent_wallet.Python.Value.{Bytes, end}
use decent_wallet.Storage.Atomic.{
  Faults, Meddling, Target, atomic_write, content_of, failure, stage_file,
}
use decent_wallet.Storage.Outcome.{atomic_write-content}
use decent_wallet.Wallet.Calls.{
  Operation, Reopens, cancel, perform_all, perform_all-Reopens, prepare, update,
}
use decent_wallet.Wallet.Commit.{commit}
use decent_wallet.Wallet.Finalize.{Promoted, finalize_signing_key_rotation-Promoted}
use decent_wallet.Wallet.Install.{install}
use decent_wallet.Wallet.Intent.{Fallible, check_intent, valid_registry_environment}
use decent_wallet.Wallet.Keys.{Keys, KeysOf, install-stored_of, stored_of}
use decent_wallet.Wallet.Opened.{payload_for_storage-install}
use decent_wallet.Wallet.Rotation.{
  check_rotation_keys, clear_latch, finalize_signing_key_rotation, matching_intent,
  promote_successor,
}
use decent_wallet.Wallet.Session.{
  build_envelope, check_inactivity, invalidate_capabilities, payload_for_storage, persist_envelope,
  public_key_for_secret, storage_key, storage_pending, touch,
}
use decent_wallet.Wallet.Sound.{IsLocked, Sound}
use decent_wallet.Wallet.State.{Call, Payload, Stored, Vault, Wallet}

abbrev pub seed : Bytes
seed = 21 ∷ zeros 31

abbrev pub public : Bytes
public = 22 ∷ zeros 31

-- The public key is the seed's first byte and one, and zeros.
abbrev derive_key : Bytes → Option Bytes
derive_key [] = none
derive_key (x ∷ b) = some ((x + 1) ∷ b)

abbrev pub vault : Vault
vault = record { derive = derive_key; seal = λ nonce current dek stored. ok (nonce ∷ dek) }

-- A sync that fails, and a restored file.
abbrev faults : Faults
faults = record {
  read_previous = false;
  stage = false;
  install = false;
  unlink_staged = false;
  roll_back = false;
  sync = true;
  inspect = false;
  restore = false;
  restore_missing = false;
  read_back = false;
  sync_again = false;
  read_again = false;
}

abbrev disk : Target
disk = some (record { identity = 7; content = 5 ∷ 9 ∷ [] })

abbrev meddle : Meddling
meddle t = t

atomic_write-content_example :
    ((atomic_write faults meddle 1 2 true (4 ∷ []) disk).0 ≡ ok tt
      → content_of (atomic_write faults meddle 1 2 true (4 ∷ []) disk).1 ≡ some (4 ∷ []))
    × ((atomic_write faults meddle 1 2 true (4 ∷ []) disk).0 ≡ err failure
        → content_of (atomic_write faults meddle 1 2 true (4 ∷ []) disk).1 ≡ content_of disk)
atomic_write-content_example = atomic_write-content faults meddle 1 2 (4 ∷ []) disk

abbrev pub payload : Payload
payload = record {
  public_key = some public;
  pending_public_key = none;
  dispatch_intent = none;
  content = end;
}

session_keys : KeysOf vault (some seed) none payload
unfolding Keys
session_keys = record { seed_length = refl; public_key_length = refl; derived = refl }

abbrev pub session : Wallet
session = record {
  dek = some (9 ∷ []);
  active_seed = some seed;
  pending_seed = none;
  payload = payload;
  envelope = some (5 ∷ 9 ∷ []);
  capabilities = [];
  inactivity_seconds = 300;
  last_activity = 0;
  target = disk;
  latches = [];
}

abbrev pub at : ℕ → Bool → Call
at now fails = record {
  now = now;
  faults = record faults { sync = fails };
  meddle = meddle;
  fresh = now;
  again = now + 1;
  nonce = now;
}

-- What the container held, and the same again.
payload_for_storage-install_example :
    (again : Stored) × (payload_for_storage session.payload none none true session ≡ ok again)
    × (install vault again ≡ install vault (stored_of (some seed) none payload))
payload_for_storage-install_example =
    payload_for_storage-install vault (stored_of (some seed) none payload) session
      (install-stored_of vault (some seed) none payload session_keys)

-- A successor is staged, a write fails, and the rotation is cancelled.
abbrev calls : List (Call × Operation)
calls =
    (at 10 false, prepare (some (31 ∷ zeros 31)))
    ∷ (at 20 true, update end)
    ∷ (at 30 false, cancel)
    ∷ []

session_stored : Sound vault session
session_stored = inr (record {
  data_key = 9 ∷ [];
  content = 5 ∷ 9 ∷ [];
  nonce = 5;
  current = [];
  has_dek = refl;
  on_disk = refl;
  in_memory = refl;
  sealed = refl;
  keys = session_keys;
})

perform_all-Reopens_example :
    IsLocked (perform_all vault calls session) ⊎ Reopens vault (perform_all vault calls session)
perform_all-Reopens_example = perform_all-Reopens vault calls session session_stored

abbrev pub successor_key : Bytes
successor_key = 32 ∷ zeros 31

abbrev pub intent : RotationBinding
intent = record {
  environment = some (100 ∷ []);
  owner_name = 97 ∷ [];
  predecessor_owner_public_key = public;
  successor_owner_public_key = successor_key;
  predecessor_state_hash = zeros 32;
  sequence = 2;
  envelope_hash = zeros 32;
}

-- A session whose rotation was dispatched.
abbrev rotating : Wallet
rotating = record session {
  pending_seed = some (31 ∷ zeros 31);
  payload = record payload {
    pending_public_key = some successor_key;
    dispatch_intent = some intent;
  };
  latches = ((97 ∷ []), (intent, true)) ∷ [];
}

abbrev finalized : Fallible Bytes × Wallet
finalized = finalize_signing_key_rotation vault (at 10 false) intent rotating

finalize_returns : finalized ≡ (ok successor_key, finalized.1)
unfolding finalize_signing_key_rotation touch check_inactivity matching_intent check_intent
    valid_registry_environment is_utf8 rotation_binding check_rotation_keys public_key_for_secret
    promote_successor is_latched same_binding lookup invalidate_capabilities commit build_envelope
    payload_for_storage storage_key storage_pending persist_envelope atomic_write stage_file
    clear_latch clear delete
finalize_returns = refl

finalize_signing_key_rotation-Promoted_example :
    Promoted vault (at 10 false) intent rotating successor_key finalized.1
finalize_signing_key_rotation-Promoted_example =
    finalize_signing_key_rotation-Promoted vault (at 10 false) intent rotating finalize_returns
