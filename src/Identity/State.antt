-- ===== src/Identity/State.antt =====
-- `IdentityState` of identity.py, `_same_state`, and the limits that its checks share.
use decent_wallet.Prelude.{
  Bool, List, Option, false, list_eq, nat_eq, none, option_eq, pair_eq, some, true, ℕ, ◌&&◌, ◌==◌,
}
use decent_wallet.Python.Value.{Bytes, Str}

pub record IdentityState : Type 0 where
  pub owner_name : Bytes
  pub owner_public_key : Bytes
  pub sequence : ℕ
  pub signed_update_bytes : Bytes
  pub envelope_bytes : Bytes
  pub state_hash : Bytes
  pub generation : Option ℕ
  pub threshold : Option ℕ
  pub signer_set : List (Str × Bytes)
  pub predecessor_envelopes : List Bytes

unfoldable pub same_state : Option IdentityState → Option IdentityState → Bool
same_state none none = true
same_state (some l) (some r) = l.state_hash == r.state_hash && l.envelope_bytes == r.envelope_bytes
same_state _ _ = false

-- `previous_state.generation or 0`
abbrev pub generation_or_zero : IdentityState → ℕ
generation_or_zero p = elim p.generation [ some g ↦ g | none ↦ 0 ]
