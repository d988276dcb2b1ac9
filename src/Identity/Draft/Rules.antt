-- ===== src/Identity/Draft/Rules.antt =====
-- `_validate_draft_transition` of identity.py.
use decent_wallet.Identity.Authorization.{Authorization}
use decent_wallet.Identity.Error.{Checked, invalid_request}
use decent_wallet.Identity.Require.{key_length, zeros}
use decent_wallet.Identity.State.{IdentityState, generation_or_zero}
use decent_wallet.Prelude.{
  Bool, List, Option, [], err, false, if◌then◌else◌, is_empty, leb, length, list_eq, nat_eq, none,
  not, ok, option_eq, pair_eq, reject_if, some, ℕ, ◌!=◌, ◌+◌, ◌==◌, ◌>>◌, ◌||◌, ◌∷◌,
}
use decent_wallet.Python.Value.{Bytes, Str}

-- `_require_complete_2_of_3`
unfoldable pub require_complete_2_of_3 : Authorization → Checked (Unit {0})
require_complete_2_of_3 a = reject_if (a.threshold != 2 || length a.signer_set != 3) invalid_request

-- `k in _signer_map(entries).values()`, for the entries of an authorization, whose ids differ.
abbrev pub has_signer_key : Bytes → List (Str × Bytes) → Bool
has_signer_key k [] = false
has_signer_key k (e ∷ es) = e.1 == k || has_signer_key k es

draft_without_previous : ℕ → Option Authorization → Checked (Unit {0})
draft_without_previous sequence authorization = do
  reject_if (sequence != 1) invalid_request
  elim authorization [
    | none ↦ ok tt
    | some a ↦ do
      reject_if (a.operation != 1 || a.epoch != 1 || a.predecessor != zeros key_length)
          invalid_request
      require_complete_2_of_3 a
  ]

-- Operation 5: the owner key changes and the governance stays, or begins.
draft_rotation : Bytes → Authorization → IdentityState → Checked (Unit {0})
draft_rotation owner_public_key a p = do
  reject_if (owner_public_key == p.owner_public_key) invalid_request
  reject_if
      (if is_empty p.signer_set
        then a.epoch != 1
          || a.threshold != 2
          || length a.signer_set != 3
          || not (has_signer_key owner_public_key a.signer_set)
        else some a.epoch != p.generation
          || some a.threshold != p.threshold
          || a.signer_set != p.signer_set)
      invalid_request

-- The first signer set of a legacy owner.
draft_upgrade : Authorization → IdentityState → Checked (Unit {0})
draft_upgrade a p = do
  reject_if (a.operation != 4 || a.epoch != 1) invalid_request
  require_complete_2_of_3 a
  reject_if (not (has_signer_key p.owner_public_key a.signer_set)) invalid_request

draft_governed : Authorization → IdentityState → Checked (Unit {0})
draft_governed a p =
    if a.operation == 2
    then reject_if
        (some a.epoch != p.generation
          || some a.threshold != p.threshold
          || a.signer_set != p.signer_set)
        invalid_request
    else if a.operation == 3
    then (do
      reject_if (leb a.epoch (generation_or_zero p)) invalid_request
      require_complete_2_of_3 a
      reject_if (a.signer_set == p.signer_set) invalid_request)
    else err invalid_request

draft_authorized : Bytes → Authorization → IdentityState → Checked (Unit {0})
draft_authorized owner_public_key a p = do
  reject_if (a.predecessor != p.state_hash) invalid_request
  if a.operation == 5 then draft_rotation owner_public_key a p else (do
    reject_if (owner_public_key != p.owner_public_key) invalid_request
    if is_empty p.signer_set then draft_upgrade a p else draft_governed a p)

unfoldable pub validate_draft_transition :
    Bytes → Bytes → ℕ → Option Authorization → Option IdentityState → Checked (Unit {0})
unfolding draft_without_previous draft_authorized draft_rotation draft_upgrade draft_governed
    require_complete_2_of_3
validate_draft_transition owner_name owner_public_key sequence authorization none =
    draft_without_previous sequence authorization
validate_draft_transition owner_name owner_public_key sequence authorization (some p) = do
  reject_if (owner_name != p.owner_name || sequence != p.sequence + 1) invalid_request
  elim authorization [
    | none ↦
        reject_if (not (is_empty p.signer_set) || owner_public_key != p.owner_public_key)
          invalid_request
    | some a ↦ draft_authorized owner_public_key a p
  ]
