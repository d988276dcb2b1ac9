-- ===== src/Registry/Confirm.antt =====
-- `RegistryAdapter.confirm_owner_key_rotation` of identity.py. A confirmation has the attributes of
-- its intent, and the hash of the state that was read.
use decent_wallet.Crypto.{Crypto}
use decent_wallet.Identity.Error.{Checked, invalid_request}
use decent_wallet.Identity.Latch.{RotationBinding, binding_eq, register}
use decent_wallet.Identity.State.{IdentityState}
use decent_wallet.Identity.Update.{SignedUpdate, decode_signed_update}
use decent_wallet.Prelude.{
  Bool, Option, err, false, if◌then◌else◌, list_eq, nat_eq, none, not, ok, option_eq, pair_eq,
  reject_if, some, ◌&&◌, ◌+◌, ◌==◌,
}
use decent_wallet.Python.Value.{Bytes}
use decent_wallet.Registry.Read.{
  parse_state_with_history, rotation_environment_matches, rotation_transport_available,
}
use decent_wallet.Registry.State.{
  Handler, attempt, lift, pure, read_predecessor, read_remote, ◌>>=◌, ◌>>◌,
}
use decent_wallet.Registry.World.{World}

pub record RotationConfirmation : Type 0 where
  pub intent : RotationBinding
  pub state_hash : Bytes

abbrev pub register_intent : RotationBinding → Handler Bool
register_intent i r = let a = register i false r.latches in (ok a.1, record r { latches = a.0 })

abbrev pub both : Handler Bool → Handler Bool → Handler Bool
both m k = do b ← m; if b then k else pure false

module _ (c : Crypto) (w : World) where
  -- The test of the state that the remote envelope gives.
  unfoldable pub is_rotated_state : RotationBinding → IdentityState → SignedUpdate → Bool
  is_rotated_state i s u = elim u.authorization [
    | none ↦ false
    | some a ↦
        a.operation == 5
        && a.predecessor == i.predecessor_state_hash
        && s.owner_name == i.owner_name
        && s.owner_public_key == i.successor_owner_public_key
        && u.sequence == i.sequence
  ]

  -- The test of the predecessor that the transport has kept.
  unfoldable pub is_predecessor : RotationBinding → IdentityState → IdentityState → Bool
  is_predecessor i s p =
      p.owner_public_key == i.predecessor_owner_public_key
      && p.state_hash == i.predecessor_state_hash
      && s.sequence == p.sequence + 1

  abbrev pub judged : RotationBinding → IdentityState → IdentityState → Option IdentityState
  judged i s p = if is_predecessor i s p then some s else none

  abbrev pub predecessor_found :
      RotationBinding → IdentityState → Option Bytes → Handler (Option IdentityState)
  predecessor_found i s none = pure none
  predecessor_found i s (some envelope) = do
    p ← parse_state_with_history c w i.owner_name i.environment envelope
    pure (judged i s p)

  -- The `try` block; none is one of its early returns.
  unfoldable pub verify_successor : RotationBinding → Bytes → Handler (Option IdentityState)
  verify_successor i envelope = do
    s ← parse_state_with_history c w i.owner_name i.environment envelope
    u ← lift (decode_signed_update c s.signed_update_bytes)
    if not (is_rotated_state i s u) then pure none else (do
      holds ← rotation_environment_matches w i.environment
      if not holds then pure none else (do
        found ← read_predecessor w i.owner_name i.predecessor_state_hash
        predecessor_found i s found))

  abbrev pub confirmation : RotationBinding → IdentityState → RotationConfirmation
  confirmation i s = record { intent = i; state_hash = s.state_hash }

  abbrev pub verified :
      RotationBinding → Checked (Option IdentityState) → Handler (Option RotationConfirmation)
  verified i (ok (some s)) = do
    holds ← rotation_environment_matches w i.environment
    pure (if holds then some (confirmation i s) else none)
  verified i _ = pure none

  abbrev pub remote_found : RotationBinding → Option Bytes → Handler (Option RotationConfirmation)
  remote_found i none = pure none
  remote_found i (some envelope) =
      if c.sha256 envelope == i.envelope_hash
      then (do a ← attempt (verify_successor i envelope); verified i a)
      else pure none

  abbrev pub remote_confirmation :
      RotationBinding → Checked (Option Bytes) → Handler (Option RotationConfirmation)
  remote_confirmation i (err e) = pure none
  remote_confirmation i (ok found) = do
    holds ← rotation_environment_matches w i.environment
    if holds then remote_found i found else pure none

  unfoldable pub confirm_owner_key_rotation :
      RotationBinding → Handler (Option RotationConfirmation)
  confirm_owner_key_rotation i = do
    registered ← register_intent i
    lift (reject_if (not registered) invalid_request)
    reachable ← both (rotation_environment_matches w i.environment) (rotation_transport_available w)
    if not reachable
        then pure none
        else (do a ← attempt (read_remote w i.owner_name); remote_confirmation i a)
