-- ===== src/Wallet/Install.antt =====
-- `_validate_seed_public_key_pair` and `_install_secret_material` of container.py.
use mathlib.Core.Option
use decent_wallet.Identity.Envelope.Operations.{has_value}
use decent_wallet.Identity.Latch.{RotationBinding, binding_eq}
use decent_wallet.Identity.Require.{key_length}
use decent_wallet.Prelude.{
  Option, err, if◌then◌else◌, length, list_eq, nat_eq, none, ok, option_eq, or_raise, pair_eq,
  reject_if, some, ◌!=◌, ◌==◌, ◌>>=◌, ◌>>◌, ◌||◌,
}
use decent_wallet.Python.Value.{Bytes, Value, bytes, null}
use decent_wallet.Wallet.Intent.{Fallible, check_intent, invalid_container}
use decent_wallet.Wallet.State.{Payload, Stored, Vault, no_payload}

abbrev pub given : Option Value → Option Value
given (some null) = none
given o = o

abbrev pub key_bytes : Value → Option Bytes
key_bytes (bytes b) = if length b == key_length then some b else none
key_bytes _ = none

-- What a session is made of.
pub record Material : Type 0 where
  pub active_seed : Option Bytes
  pub pending_seed : Option Bytes
  pub payload : Payload

module _ (v : Vault) where
  -- The seed and its public key, if they are a pair.
  unfoldable pub validate_pair : Option Value → Option Value → Fallible (Bytes × Bytes)
  validate_pair (some seed_value) (some key_value) = do
    seed ← or_raise (key_bytes seed_value) invalid_container
    public_key ← or_raise (key_bytes key_value) invalid_container
    derived ← or_raise (v.derive seed) invalid_container
    reject_if (public_key != derived) invalid_container
    ok (seed, public_key)
  validate_pair _ _ = err invalid_container

  -- No active key: then nothing that goes with one.
  unfoldable pub install_keyless : Stored → Fallible Material
  install_keyless s = do
    reject_if
        (has_value (given s.public_key)
          || has_value (given s.pending_private_seed)
          || has_value (given s.pending_public_key)
          || has_value s.dispatch_intent)
        invalid_container
    ok (record {
      active_seed = none;
      pending_seed = none;
      payload = record no_payload { content = s.content };
    })

  -- The successor, which has another key.
  unfoldable pub install_pending :
      Option Value → Option Value → Bytes → Fallible (Option (Bytes × Bytes))
  install_pending none pending_key public_key = do
    reject_if (has_value pending_key) invalid_container
    ok none
  install_pending (some seed) pending_key public_key = do
    pair ← validate_pair (some seed) pending_key
    reject_if (pair.1 == public_key) invalid_container
    ok (some pair)

  -- A dispatch intent goes with a successor, and names both keys.
  unfoldable pub install_intent :
      Option (Fallible RotationBinding)
      → Bytes
      → Option (Bytes × Bytes)
      → Fallible (Option RotationBinding)
  install_intent none public_key pending = ok none
  install_intent (some raw) public_key none = err invalid_container
  install_intent (some raw) public_key (some pair) = do
    intent ← raw
    intent ← check_intent intent
    reject_if
        (intent.predecessor_owner_public_key != public_key
          || intent.successor_owner_public_key != pair.1)
        invalid_container
    ok (some intent)

  unfoldable pub install_keys : Stored → Option Value → Fallible Material
  install_keys s seed = do
    pair ← validate_pair seed (given s.public_key)
    pending ← install_pending (given s.pending_private_seed) (given s.pending_public_key) pair.1
    intent ← install_intent s.dispatch_intent pair.1 pending
    ok (record {
      active_seed = some pair.0;
      pending_seed = Option.map (λ (p : Bytes × Bytes). p.0) pending;
      payload = record {
        public_key = some pair.1;
        pending_public_key = Option.map (λ (p : Bytes × Bytes). p.1) pending;
        dispatch_intent = intent;
        content = s.content;
      };
    })

  unfoldable pub install : Stored → Fallible Material
  unfolding install_keyless install_keys install_pending install_intent
  install s =
      if has_value (given s.private_seed)
      then install_keys s (given s.private_seed)
      else install_keyless s
