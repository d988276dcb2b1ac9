-- ===== src/Identity/Envelope/Operations.antt =====
-- The checks of `_parse_identity_envelope` that depend on the operation, before the proofs.
-- `name` is the owner's name, `record_key` the undecoded `record[2]`.
use decent_wallet.Identity.Authorization.{Authorization}
use decent_wallet.Identity.Error.{Checked, invalid_state, unexpected}
use decent_wallet.Identity.Require.{key_length, zeros}
use decent_wallet.Identity.State.{IdentityState, generation_or_zero}
use decent_wallet.Prelude.{
  Bool, List, Option, [], dict_get, err, false, if◌then◌else◌, is_empty, leb, length, list_eq,
  nat_eq, none, not, option_eq, pair_eq, reject_if, some, true, ℕ, ◌!=◌, ◌&&◌, ◌+◌, ◌==◌, ◌>>◌,
  ◌||◌, ◌∷◌,
}
use decent_wallet.Python.Value.{Bytes, Str, Value, dict, is_bytes, list}

abbrev pub has_value {ℓ} : {A : Type ℓ} → Option A → Bool
has_value none = false
has_value (some a) = true

-- `auth[4] == previous.generation and auth[5] == previous.threshold`
abbrev pub generation_is : IdentityState → Authorization → Bool
generation_is p a = some a.epoch == p.generation && some a.threshold == p.threshold

-- `v in {key for _, key in signers}`
abbrev pub is_signer_key : Value → List (Str × Bytes) → Bool
is_signer_key v [] = false
is_signer_key v (e ∷ es) = is_bytes v e.1 || is_signer_key v es

-- Looking a list or a dictionary up in a set raises `TypeError`.
abbrev pub is_hashable : Value → Bool
is_hashable (list vs) = false
is_hashable (dict d) = false
is_hashable _ = true

abbrev pub two_of_three : Authorization → Bool
two_of_three a = a.threshold == 2 && length a.signer_set == 3

check_genesis : Option IdentityState → ℕ → Authorization → Checked (Unit {0})
check_genesis previous sequence a = do
  reject_if
      (has_value previous || sequence != 1 || a.epoch != 1 || a.predecessor != zeros key_length)
      invalid_state
  reject_if (a.threshold != 2 || length a.signer_set != 3) invalid_state

check_upgrade : Authorization → Checked (Unit {0})
check_upgrade a =
    reject_if (a.epoch != 1 || a.threshold != 2 || length a.signer_set != 3) invalid_state

check_ordinary : Option IdentityState → Bytes → Value → ℕ → Authorization → Checked (Unit {0})
check_ordinary none name record_key sequence a = err invalid_state
check_ordinary (some p) name record_key sequence a =
    reject_if
      (is_empty p.signer_set
        || p.owner_name != name
        || not (is_bytes record_key p.owner_public_key)
        || p.state_hash != a.predecessor
        || sequence != p.sequence + 1
        || some a.epoch != p.generation
        || some a.threshold != p.threshold
        || a.signer_set != p.signer_set)
      invalid_state

check_replacement : Option IdentityState → Bytes → Value → ℕ → Authorization → Checked (Unit {0})
check_replacement none name record_key sequence a = err invalid_state
check_replacement (some p) name record_key sequence a = do
  reject_if (a.threshold != 2 || length a.signer_set != 3) invalid_state
  reject_if
      (is_empty p.signer_set
        || p.owner_name != name
        || not (is_bytes record_key p.owner_public_key)
        || p.state_hash != a.predecessor
        || sequence != p.sequence + 1
        || leb a.epoch (generation_or_zero p)
        || a.signer_set == p.signer_set)
      invalid_state

-- A legacy predecessor names the first signer set, which holds the successor key; any other keeps its own.
check_rotation_signers : IdentityState → Value → Authorization → Checked (Unit {0})
check_rotation_signers p record_key a =
    if is_empty p.signer_set
    then (do
      reject_if (a.epoch != 1 || a.threshold != 2 || length a.signer_set != 3) invalid_state
      reject_if (not (is_hashable record_key)) unexpected
      reject_if (not (is_signer_key record_key a.signer_set)) invalid_state)
    else reject_if
        (some a.epoch != p.generation
          || some a.threshold != p.threshold
          || a.signer_set != p.signer_set)
        invalid_state

check_rotation : Option IdentityState → Bytes → Value → ℕ → Authorization → Checked (Unit {0})
check_rotation none name record_key sequence a = err invalid_state
check_rotation (some p) name record_key sequence a = do
  reject_if
      (p.owner_name != name
        || is_bytes record_key p.owner_public_key
        || p.state_hash != a.predecessor
        || sequence != p.sequence + 1)
      invalid_state
  check_rotation_signers p record_key a

unfoldable pub check_operation :
    Option IdentityState → Bytes → Value → ℕ → Authorization → Checked (Unit {0})
unfolding check_rotation_signers check_genesis check_upgrade check_ordinary check_replacement
    check_rotation
check_operation previous name record_key sequence a =
    if a.operation == 1
    then check_genesis previous sequence a
    else if a.operation == 4
    then check_upgrade a
    else if a.operation == 2
    then check_ordinary previous name record_key sequence a
    else if a.operation == 3
    then check_replacement previous name record_key sequence a
    else if a.operation == 5
    then check_rotation previous name record_key sequence a
    else err invalid_state

-- The second test of operation 4, after the proof list has been read.
unfoldable pub check_upgrade_proof :
    Option IdentityState
    → Value
    → ℕ
    → Authorization
    → List (Option Str × Bytes)
    → Checked (Unit {0})
check_upgrade_proof (some p) record_key sequence a ((some signer_id, signature) ∷ []) =
    reject_if
      (not
          (elim (dict_get signer_id a.signer_set) [ none ↦ false | some k ↦ is_bytes record_key k ])
        || not (is_empty p.signer_set)
        || not (is_bytes record_key p.owner_public_key)
        || p.state_hash != a.predecessor
        || sequence != p.sequence + 1)
      invalid_state
check_upgrade_proof previous record_key sequence a proofs = err invalid_state
