-- ===== src/Identity/Envelope/Signers.antt =====
-- The loop of `_parse_identity_envelope` over the proofs, with the set of valid signers.
use decent_wallet.Crypto.{Crypto}
use decent_wallet.Identity.Error.{Checked, invalid_state}
use decent_wallet.Identity.Update.{verify_signature}
use decent_wallet.Prelude.{
  List, Option, [], contains, dict_get, if◌then◌else◌, list_eq, nat_eq, ok, option_eq, or_raise,
  pair_eq, ◌>>=◌, ◌>>◌, ◌∷◌,
}
use decent_wallet.Python.Value.{Bytes, Str}

-- `s.add(x)`, for a set as the list of its elements.
abbrev pub set_add : Str → List Str → List Str
set_add x s = if contains x s then s else x ∷ s

module _ (c : Crypto) where
  unfoldable pub verify_proofs :
      List (Str × Bytes) → Bytes → List (Option Str × Bytes) → List Str → Checked (List Str)
  verify_proofs keys update [] valid = ok valid
  verify_proofs keys update (p ∷ ps) valid = do
    signer_id ← or_raise p.0 invalid_state
    public_key ← or_raise (dict_get signer_id keys) invalid_state
    verify_signature c public_key update p.1
    verify_proofs keys update ps (set_add signer_id valid)
