-- ===== src/Identity/Update.antt =====
-- `_require_canonical`, `_decode_signed_update`, `build_identity_update` and the signature checks.
use decent_wallet.Crypto.{Crypto}
use decent_wallet.Identity.Authorization.{
  Authorization, authorization_value, validate_authorization,
}
use decent_wallet.Identity.Error.{Checked, invalid_state, unexpected}
use decent_wallet.Identity.Require.{
  field, key_length, require_bytes, require_dict, require_exact_keys, require_uint,
  validate_owner_name,
}
use decent_wallet.Prelude.{
  Option, [], false, is_empty, list_eq, nat_eq, none, not, ok, option_eq, or_raise, pair_eq,
  reject_if, some, ℕ, ◌!=◌, ◌>>=◌, ◌>>◌, ◌||◌, ◌∷◌,
}
use decent_wallet.Python.Value.{Bytes, Entries, Value, bytes, dict, end, entry, get, key, keys_are}

-- What `_decode_signed_update` returns; `record_name` and `record_key` are `record[1]` and
-- `record[2]`, which it does not look into.
pub record SignedUpdate : Type 0 where
  pub record_name : Value
  pub record_key : Value
  pub payload : Entries
  pub sequence : ℕ
  pub authorization : Option Authorization

module _ (c : Crypto) where
  -- `_canonical`; what the encoder raises is not caught.
  abbrev pub canonical : Value → Checked Bytes
  canonical v = or_raise (c.dumps v) unexpected

  unfoldable pub require_canonical : Bytes → Checked Value
  require_canonical b = do
    reject_if (is_empty b) invalid_state
    decoded ← or_raise (c.loads b) invalid_state
    again ← or_raise (c.dumps decoded) invalid_state
    reject_if (again != b) invalid_state
    ok decoded

  abbrev optional_authorization : Option Value → Checked (Option Authorization)
  optional_authorization none = ok none
  optional_authorization (some v) = do a ← validate_authorization v; ok (some a)

  decode_fields : Entries → Checked SignedUpdate
  decode_fields d = do
    reject_if (not (keys_are (1 ∷ 2 ∷ 3 ∷ []) d || keys_are (1 ∷ 2 ∷ 3 ∷ 4 ∷ []) d)) invalid_state
    rec ← require_exact_keys (1 ∷ 2 ∷ []) (← field 1 d)
    name ← field 1 rec
    public_key ← field 2 rec
    payload ← require_exact_keys [] (← field 2 d)
    sequence ← require_uint (← field 3 d)
    authorization ← optional_authorization (get 4 d)
    ok (record {
      record_name = name;
      record_key = public_key;
      payload = payload;
      sequence = sequence;
      authorization = authorization;
    })

  unfoldable pub decode_signed_update : Bytes → Checked SignedUpdate
  unfolding decode_fields
  decode_signed_update b = do
    decoded ← require_canonical b
    d ← require_dict decoded
    decode_fields d

  -- The update as the value that is encoded.
  unfoldable pub update_value : Bytes → Bytes → ℕ → Option Authorization → Value
  update_value owner_name owner_public_key sequence authorization = dict (
      entry (key 1)
        (dict (entry (key 1) (bytes owner_name) (entry (key 2) (bytes owner_public_key) end)))
        (entry (key 2) (dict end) (
          entry (key 3) (key sequence) (elim authorization [
            | none ↦ end
            | some a ↦ entry (key 4) (authorization_value a) end
          ]))))

  unfoldable pub build_identity_update : Bytes → Bytes → ℕ → Option Value → Checked Bytes
  build_identity_update owner_name owner_public_key sequence authorization = do
    name ← validate_owner_name owner_name
    require_bytes (some key_length) false (bytes owner_public_key)
    auth ← optional_authorization authorization
    canonical (update_value name owner_public_key sequence auth)

  unfoldable pub verify_signature : Bytes → Bytes → Bytes → Checked (Unit {0})
  verify_signature public_key update signature =
      reject_if (not (c.verifies public_key (c.sha256 update) signature)) invalid_state
