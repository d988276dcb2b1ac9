-- ===== src/Identity/Transition.antt =====
-- `_validate_transition` of identity.py: whether one signer may sign an update now.
pub mod Authority
use decent_wallet.Identity.Authorization.{Authorization}
use decent_wallet.Identity.Draft.Rules.{require_complete_2_of_3}
use decent_wallet.Identity.Envelope.Operations.{has_value}
use decent_wallet.Identity.Error.{Checked, invalid_request}
use decent_wallet.Identity.Require.{key_length, zeros}
use decent_wallet.Identity.State.{IdentityState, generation_or_zero}
use decent_wallet.Prelude.{
  Bool, List, Option, dict_get, err, false, if◌then◌else◌, is_empty, leb, length, list_eq, nat_eq,
  none, not, option_eq, pair_eq, reject_if, some, ◌!=◌, ◌==◌, ◌>>=◌, ◌>>◌, ◌||◌,
}
use decent_wallet.Python.Value.{Bytes, Str}

-- `signers.get(signer_id) == signer_public_key`, for a signer id that is given.
abbrev pub is_signer : Option Str → Bytes → List (Str × Bytes) → Bool
is_signer none k signers = false
is_signer (some i) k signers = dict_get i signers == some k

transition_first : Authorization → Option Str → Bytes → Checked (Unit {0})
transition_first a signer_id signer_public_key = do
  reject_if (a.operation != 1 || a.epoch != 1 || a.predecessor != zeros key_length) invalid_request
  require_complete_2_of_3 a
  reject_if (not (is_signer signer_id signer_public_key a.signer_set)) invalid_request

transition_rotation : IdentityState → Authorization → Option Str → Bytes → Checked (Unit {0})
transition_rotation p a signer_id signer_public_key =
    if is_empty p.signer_set
    then reject_if
        (a.epoch != 1
          || a.threshold != 2
          || length a.signer_set != 3
          || has_value signer_id
          || signer_public_key != p.owner_public_key)
        invalid_request
    else reject_if
        (some a.epoch != p.generation
          || some a.threshold != p.threshold
          || a.signer_set != p.signer_set
          || not (is_signer signer_id signer_public_key p.signer_set))
        invalid_request

transition_upgrade : IdentityState → Authorization → Option Str → Bytes → Checked (Unit {0})
transition_upgrade p a signer_id signer_public_key = do
  reject_if (a.operation != 4 || a.epoch != 1 || a.predecessor != p.state_hash) invalid_request
  require_complete_2_of_3 a
  reject_if (signer_public_key != p.owner_public_key) invalid_request
  reject_if (not (is_signer signer_id signer_public_key a.signer_set)) invalid_request

transition_governed : IdentityState → Authorization → Option Str → Bytes → Checked (Unit {0})
transition_governed p a signer_id signer_public_key = do
  reject_if (not (has_value signer_id)) invalid_request
  if a.operation == 2
      then (do
        reject_if (some a.epoch != p.generation || some a.threshold != p.threshold) invalid_request
        reject_if (a.signer_set != p.signer_set) invalid_request
        reject_if (not (is_signer signer_id signer_public_key p.signer_set)) invalid_request)
      else if a.operation == 3
      then (do
        reject_if (leb a.epoch (generation_or_zero p)) invalid_request
        require_complete_2_of_3 a
        reject_if (a.signer_set == p.signer_set) invalid_request
        reject_if (not (is_signer signer_id signer_public_key p.signer_set)) invalid_request)
      else err invalid_request

unfoldable pub validate_transition :
    Option IdentityState → Authorization → Option Str → Bytes → Checked (Unit {0})
unfolding transition_first transition_rotation transition_upgrade transition_governed
    require_complete_2_of_3
validate_transition none a signer_id signer_public_key =
    transition_first a signer_id signer_public_key
validate_transition (some p) a signer_id signer_public_key =
    if a.operation == 5
    then transition_rotation p a signer_id signer_public_key
    else if is_empty p.signer_set
    then transition_upgrade p a signer_id signer_public_key
    else transition_governed p a signer_id signer_public_key
