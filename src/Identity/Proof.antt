-- ===== src/Identity/Proof.antt =====
-- `_validate_proof_list` of identity.py: pairs of a signer id, or `None`, and a signature.
use decent_wallet.Identity.Authorization.{encoded}
use decent_wallet.Identity.Error.{Checked, invalid_state}
use decent_wallet.Identity.Require.{
  field, require_bytes, require_exact_keys, require_text, signature_length,
}
use decent_wallet.Prelude.{
  Bool, List, Option, [], contains, err, false, list_eq, nat_eq, none, not, ok, option_eq, pair_eq,
  reject_if, some, true, ◌!=◌, ◌>>=◌, ◌>>◌, ◌∷◌,
}
use decent_wallet.Python.Order.{sorted}
use decent_wallet.Python.Text.{encode}
use decent_wallet.Python.Value.{Bytes, Str, Value, Values, cons, list, nil, null}

abbrev pub optional_text : Value → Checked (Option Str)
optional_text null = ok none
optional_text v = do s ← require_text invalid_state v; ok (some s)

-- Python's `b"" if id is None else id.encode("utf-8")`.
abbrev pub proof_key : Option Str × Bytes → Bytes
proof_key p = elim p.0 [ none ↦ [] | some s ↦ encoded s ]

abbrev encodable : Option Str → Bool
encodable none = true
encodable (some s) = elim (encode s) [ some b ↦ true | none ↦ false ]

validate_proof : List (Option Str) → Value → Checked (Option Str × Bytes)
validate_proof seen v = do
  d ← require_exact_keys (1 ∷ 2 ∷ []) v
  signer_id ← optional_text (← field 1 d)
  signature ← require_bytes (some signature_length) false (← field 2 d)
  reject_if (not (encodable signer_id)) invalid_state
  reject_if (contains signer_id seen) invalid_state
  ok (signer_id, signature)

validate_proofs : List (Option Str) → Values → Checked (List (Option Str × Bytes))
validate_proofs seen nil = ok []
validate_proofs seen (cons v vs) = do
  p ← validate_proof seen v
  rest ← validate_proofs (p.0 ∷ seen) vs
  ok (p ∷ rest)

require_list : Value → Checked Values
require_list (list vs) = ok vs
require_list _ = err invalid_state

unfoldable pub validate_proof_list : Value → Checked (List (Option Str × Bytes))
unfolding validate_proofs validate_proof require_list
validate_proof_list v = do
  proofs ← require_list v
  normalized ← validate_proofs [] proofs
  reject_if (normalized != sorted proof_key normalized) invalid_state
  ok normalized
