-- ===== src/Identity/Authorization.antt =====
-- `_validate_authorization` of identity.py. The dict that it returns is the record below: its keys
-- 1 and 2 are always 1.
use decent_wallet.Identity.Error.{Checked, invalid_state}
use decent_wallet.Identity.Require.{
  field, key_length, require_bytes, require_exact_keys, require_text, require_uint,
}
use decent_wallet.Prelude.{
  List, [], contains, err, false, leb, length, list_eq, ltb, nat_eq, none, not, ok, option_eq,
  or_raise, pair_eq, reject_if, some, ℕ, ◌!=◌, ◌&&◌, ◌>>=◌, ◌>>◌, ◌||◌, ◌∷◌,
}
use decent_wallet.Python.Order.{sorted}
use decent_wallet.Python.Text.{encode}
use decent_wallet.Python.Value.{
  Bytes, Str, Value, Values, bytes, cons, dict, end, entry, key, list, nil, str,
}

pub record Authorization : Type 0 where
  pub operation : ℕ
  pub epoch : ℕ
  pub threshold : ℕ
  pub signer_set : List (Str × Bytes)
  pub predecessor : Bytes

-- Key 1 of a signer entry, in bytes; `_validate_authorization` has made sure that it encodes.
abbrev pub encoded : Str → Bytes
encoded s = elim (encode s) [ some b ↦ b | none ↦ [] ]

abbrev pub entry_key : Str × Bytes → Bytes
entry_key e = encoded e.0

validate_entry : List Str → List Bytes → Value → Checked (Str × Bytes)
validate_entry seen_ids seen_keys v = do
  d ← require_exact_keys (1 ∷ 2 ∷ []) v
  id_value ← field 1 d
  key_value ← field 2 d
  public_key ← require_bytes (some key_length) false key_value
  signer_id ← require_text invalid_state id_value
  id_bytes ← or_raise (encode signer_id) invalid_state
  reject_if (ltb 256 (length id_bytes)) invalid_state
  reject_if (contains signer_id seen_ids || contains public_key seen_keys) invalid_state
  ok (signer_id, public_key)

validate_entries : List Str → List Bytes → Values → Checked (List (Str × Bytes))
validate_entries seen_ids seen_keys nil = ok []
validate_entries seen_ids seen_keys (cons v vs) = do
  e ← validate_entry seen_ids seen_keys v
  rest ← validate_entries (e.0 ∷ seen_ids) (e.1 ∷ seen_keys) vs
  ok (e ∷ rest)

-- A list with at least one item.
require_items : Value → Checked Values
require_items (list (cons v vs)) = ok (cons v vs)
require_items _ = err invalid_state

unfoldable pub validate_authorization : Value → Checked Authorization
unfolding validate_entries validate_entry require_items
validate_authorization v = do
  auth ← require_exact_keys (1 ∷ 2 ∷ 3 ∷ 4 ∷ 5 ∷ 6 ∷ 7 ∷ []) v
  one ← require_uint (← field 1 auth)
  reject_if (one != 1) invalid_state
  also_one ← require_uint (← field 2 auth)
  reject_if (also_one != 1) invalid_state
  operation ← require_uint (← field 3 auth)
  reject_if (not (leb 1 operation && leb operation 5)) invalid_state
  epoch ← require_uint (← field 4 auth)
  threshold ← require_uint (← field 5 auth)
  items ← require_items (← field 6 auth)
  normalized ← validate_entries [] [] items
  reject_if (normalized != sorted entry_key normalized) invalid_state
  reject_if (not (leb 1 threshold && leb threshold (length normalized))) invalid_state
  predecessor ← require_bytes (some key_length) false (← field 7 auth)
  ok (record {
    operation = operation;
    epoch = epoch;
    threshold = threshold;
    signer_set = normalized;
    predecessor = predecessor;
  })

entries_value : List (Str × Bytes) → Values
entries_value [] = nil
entries_value (e ∷ es) =
    cons (dict (entry (key 1) (str e.0) (entry (key 2) (bytes e.1) end))) (entries_value es)

-- The normalised dict as a value again.
unfoldable pub authorization_value : Authorization → Value
unfolding entries_value
authorization_value a = dict (
    entry (key 1) (key 1) (
      entry (key 2) (key 1) (
        entry (key 3) (key a.operation) (
          entry (key 4) (key a.epoch) (
            entry (key 5) (key a.threshold) (
              entry (key 6) (list (entries_value a.signer_set))
                (entry (key 7) (bytes a.predecessor) end)))))))
