-- ===== src/Identity/Draft/Chain.antt =====
-- `_parse_previous_state_chain` of identity.py. The history is newest first, so the source reverses it.
use decent_wallet.Crypto.{Crypto}
use decent_wallet.Identity.Envelope.Parse.{parse_identity_envelope}
use decent_wallet.Identity.Error.{Checked, invalid_request}
use decent_wallet.Identity.State.{IdentityState}
use decent_wallet.Prelude.{
  List, Option, [], is_empty, none, not, ok, reject_if, some, ◌>>=◌, ◌>>◌, ◌∷◌,
}
use decent_wallet.Python.Value.{Bytes}

module _ (c : Crypto) (owner_name : Bytes) where
  -- The loop over the reversed history: the oldest envelope is parsed with no previous state.
  unfoldable pub parse_history : List Bytes → Checked (Option IdentityState)
  parse_history [] = ok none
  parse_history (envelope ∷ older) = do
    previous ← parse_history older
    s ← parse_identity_envelope c owner_name envelope previous
    ok (some s)

  unfoldable pub parse_previous_state_chain :
      Option Bytes → List Bytes → Checked (Option IdentityState)
  unfolding parse_history
  parse_previous_state_chain none history = do
    reject_if (not (is_empty history)) invalid_request
    ok none
  parse_previous_state_chain (some envelope) history = do
    previous ← parse_history history
    s ← parse_identity_envelope c owner_name envelope previous
    ok (some s)
