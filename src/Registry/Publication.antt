-- ===== src/Registry/Publication.antt =====
-- The properties and methods of `RotationPublication` of identity.py.
use decent_wallet.Crypto.{Crypto}
use decent_wallet.Identity.Bundle.Merge.{draft_eq}
use decent_wallet.Identity.Error.{Checked}
use decent_wallet.Identity.Latch.{
  Latches, RotationBinding, binding_eq, clear, register, rotation_binding,
}
use decent_wallet.Identity.Require.{require_bytes}
use decent_wallet.Identity.Update.{decode_signed_update}
use decent_wallet.Prelude.{
  Bool, List, contains, err, false, if◌then◌else◌, list_eq, nat_eq, none, ok, option_eq, pair_eq,
  some, true, ℕ, ◌!=◌, ◌==◌, ◌>>=◌, ◌||◌, ◌∷◌,
}
use decent_wallet.Registry.State.{RotationPublication}

module _ (c : Crypto) where
  -- The attributes that `_rotation_binding` reads.
  unfoldable pub publication_attributes : RotationPublication → Checked RotationBinding
  publication_attributes p = do
    u ← decode_signed_update c p.bundle.draft.signed_update_bytes
    name ← require_bytes none false u.record_name
    successor ← require_bytes none false u.record_key
    ok (record {
      environment = some p.environment;
      owner_name = name;
      predecessor_owner_public_key = p.previous_state.owner_public_key;
      successor_owner_public_key = successor;
      predecessor_state_hash = p.previous_state.state_hash;
      sequence = u.sequence;
      envelope_hash = c.sha256 p.envelope_bytes;
    })

  -- `_rotation_binding(self) == _rotation_binding(intent)`; the update of a bundle decodes.
  abbrev pub same_bindings : Checked RotationBinding → RotationBinding → Bool
  same_bindings (ok b) intent = rotation_binding b == rotation_binding intent
  same_bindings (err e) intent = false

  -- `_matches_intent`
  unfoldable pub matches_intent : RotationPublication → RotationBinding → Bool
  matches_intent p intent = same_bindings (publication_attributes p) intent

  -- `_mark_latched`
  unfoldable pub mark_latched : RotationPublication → RotationBinding → Latches → Latches × Bool
  mark_latched p intent m = if matches_intent p intent then register intent true m else (m, false)

  -- `_clear_latch`
  unfoldable pub clear_publication_latch :
      RotationPublication → RotationBinding → Latches → Latches × Bool
  clear_publication_latch p intent m =
      if matches_intent p intent then clear intent m else (m, false)

-- `_consume_for`, for the publication with the handle; its lock makes it one step.
unfoldable pub consume_publication : ℕ → RotationPublication → ℕ → List ℕ → Bool × List ℕ
consume_publication handle p adapter_token consumed =
    if p.adapter_token != adapter_token || contains handle consumed
    then (false, consumed)
    else (true, handle ∷ consumed)
