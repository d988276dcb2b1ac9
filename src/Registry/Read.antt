-- ===== src/Registry/Read.antt =====
-- `RegistryAdapter.read_state`, `_parse_state_with_history` and the tests of the rotation's
-- environment and transport, of identity.py.
use decent_wallet.Crypto.{Crypto}
use decent_wallet.Identity.Draft.Create.{max_predecessor_depth}
use decent_wallet.Identity.Envelope.Parse.{parse_identity_envelope}
use decent_wallet.Identity.Error.{Checked, invalid_state, transport_failure}
use decent_wallet.Identity.Require.{validate_owner_name}
use decent_wallet.Identity.State.{IdentityState}
use decent_wallet.Prelude.{
  Bool, Option, err, false, if◌then◌else◌, list_eq, nat_eq, none, not, ok, option_eq, or_raise,
  pair_eq, reject_if, rethrow, some, suc, true, zero, ℕ, ◌==◌,
}
use decent_wallet.Python.Value.{Bytes, Str}
use decent_wallet.Registry.Predecessor.{next_hash}
use decent_wallet.Registry.State.{
  Handler, ask_environment, ask_rotation_support, attempt, gets, lift, pure, read_envelope,
  read_predecessor, ◌>>=◌, ◌>>◌,
}
use decent_wallet.Registry.World.{World}

module _ (w : World) where
  -- What `getattr(transport, "registry_environment", environment) == environment` gives.
  abbrev is_environment : Str → Checked (Option Str) → Bool
  is_environment e (ok none) = true
  is_environment e (ok (some a)) = a == e
  is_environment e (err x) = false

  unfoldable pub rotation_environment_matches : Option Str → Handler Bool
  rotation_environment_matches none = pure false
  rotation_environment_matches (some e) = do
    own ← gets (λ r. r.registry_environment)
    if own == some e
        then (do a ← attempt (ask_environment w); pure (is_environment e a))
        else pure false

  abbrev is_supported : Checked Bool → Bool
  is_supported (ok b) = b
  is_supported (err x) = false

  unfoldable pub rotation_transport_available : Handler Bool
  rotation_transport_available = do a ← attempt (ask_rotation_support w); pure (is_supported a)

module _ (c : Crypto) (w : World) (owner_name : Bytes) (rotation_environment : Option Str) where
  abbrev pub environment_holds : Handler (Unit {0})
  environment_holds = elim rotation_environment [
    | none ↦ pure tt
    | some e ↦ do
      holds ← rotation_environment_matches w (some e)
      lift (reject_if (not holds) invalid_state)
  ]

  -- The body of the `while` loop after the look for a predecessor, with the parsing that follows the
  -- loop; `rest` does the further turns.
  abbrev pub turn :
      Option (Bytes → Handler IdentityState) → Bytes → Option Bytes → Handler IdentityState
  turn rest envelope none = lift (parse_identity_envelope c owner_name envelope none)
  turn rest envelope (some state_hash) = do
    continue ← lift (or_raise rest invalid_state)
    environment_holds
    found ← attempt (read_predecessor w owner_name state_hash)
    fetched ← lift (rethrow found (λ _. transport_failure))
    predecessor ← lift (or_raise fetched invalid_state)
    p ← continue predecessor
    lift (parse_identity_envelope c owner_name envelope (some p))

  abbrev pub follow : Option (Bytes → Handler IdentityState) → Bytes → Handler IdentityState
  follow rest envelope = do next ← lift (next_hash c envelope); turn rest envelope next

  -- `room` is how many more envelopes the chain may hold: zero is `len(chain) >= _MAX_PREDECESSOR_DEPTH`.
  unfoldable pub follow_history : ℕ → Bytes → Handler IdentityState
  follow_history zero envelope = follow none envelope
  follow_history (suc room) envelope = follow (some (follow_history room)) envelope

  unfoldable pub parse_state_with_history : Bytes → Handler IdentityState
  parse_state_with_history envelope = follow_history max_predecessor_depth envelope

module _ (c : Crypto) (w : World) where
  abbrev pub read_found : Bytes → Option Bytes → Handler (Option IdentityState)
  read_found name none = pure none
  read_found name (some envelope) = do
    s ← parse_state_with_history c w name none envelope
    pure (some s)

  unfoldable pub read_state : Bytes → Handler (Option IdentityState)
  read_state owner_name = do
    name ← lift (validate_owner_name owner_name)
    found ← attempt (read_envelope w name)
    envelope ← lift (rethrow found (λ _. transport_failure))
    read_found name envelope
