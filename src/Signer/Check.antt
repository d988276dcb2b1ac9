-- ===== src/Signer/Check.antt =====
-- `_validate_authorization` and `_validate_identity_update` of signer.py.
use decent_wallet.Crypto.{Crypto}
use decent_wallet.Identity.Require.{key_length}
use decent_wallet.Prelude.{
  Bool, List, Option, [], contains, err, false, is_empty, leb, length, list_eq, ltb, nat_eq, none,
  not, ok, option_eq, or_raise, pair_eq, reject_if, some, true, ℕ, ◌!=◌, ◌&&◌, ◌==◌, ◌>>=◌, ◌>>◌,
  ◌||◌, ◌∷◌,
}
use decent_wallet.Python.Order.{bytes_le}
use decent_wallet.Python.Text.{encode}
use decent_wallet.Python.Value.{
  Bytes, Entries, Str, Value, Values, bytes, cons, dict, end, get, int, keys_are, list, nil, pos,
  str,
}
use decent_wallet.Signer.Error.{Signing, invalid_input, unexpected}
use decent_wallet.Wallet.Session.{public_key}

unfoldable pub exact_int_keys : List ℕ → Value → Signing Entries
exact_int_keys expected (dict d) = do reject_if (not (keys_are expected d)) invalid_input; ok d
exact_int_keys expected _ = err invalid_input

unfoldable pub uint : Value → Signing ℕ
uint (int (pos n)) = ok n
uint _ = err invalid_input

unfoldable pub byte_string : Value → Signing Bytes
byte_string (bytes b) = ok b
byte_string _ = err invalid_input

-- Bytes of the length of a key.
unfoldable pub key_string : Value → Signing Bytes
unfolding byte_string
key_string v = do b ← byte_string v; reject_if (length b != key_length) invalid_input; ok b

-- A `str` with a character.
unfoldable pub text : Value → Signing Str
text (str s) = do reject_if (is_empty s) invalid_input; ok s
text _ = err invalid_input

unfoldable pub at : ℕ → Entries → Signing Value
at n d = or_raise (get n d) unexpected

-- `previous_id is not None and signer_id_bytes <= previous_id`
abbrev pub not_after : Option Bytes → Bytes → Bool
not_after none b = false
not_after (some previous) b = bytes_le b previous

unfoldable pub check_signer_entry :
    Option Bytes → List Str → List Bytes → Value → Signing (Str × (Bytes × Bytes))
check_signer_entry previous seen_ids seen_keys v = do
  d ← exact_int_keys (1 ∷ 2 ∷ []) v
  id_value ← at 1 d
  key_value ← at 2 d
  signer_id ← text id_value
  id_bytes ← or_raise (encode signer_id) unexpected
  reject_if (ltb 256 (length id_bytes)) invalid_input
  reject_if (not_after previous id_bytes) invalid_input
  public_key ← key_string key_value
  reject_if (contains signer_id seen_ids || contains public_key seen_keys) invalid_input
  ok (signer_id, (id_bytes, public_key))

unfoldable pub check_signer_entries :
    Option Bytes → List Str → List Bytes → Values → Signing (List (Str × Bytes))
check_signer_entries previous seen_ids seen_keys nil = ok []
check_signer_entries previous seen_ids seen_keys (cons v vs) = do
  e ← check_signer_entry previous seen_ids seen_keys v
  rest ← check_signer_entries (some e.1.0) (e.0 ∷ seen_ids) (e.1.1 ∷ seen_keys) vs
  ok ((e.0, e.1.1) ∷ rest)

-- A list with at least one item.
unfoldable pub some_items : Value → Signing Values
some_items (list (cons v vs)) = ok (cons v vs)
some_items _ = err invalid_input

abbrev pub signer_keys_of : List (Str × Bytes) → List Bytes
signer_keys_of [] = []
signer_keys_of (e ∷ es) = e.1 ∷ signer_keys_of es

-- The predecessor's signers authorise operations 3 and 5.
abbrev pub may_sign_for_others : ℕ → Bool
may_sign_for_others operation = operation == 3 || operation == 5

unfoldable pub check_authorization : Value → Bytes → Signing (Unit {0})
check_authorization v signer_public_key = do
  auth ← exact_int_keys (1 ∷ 2 ∷ 3 ∷ 4 ∷ 5 ∷ 6 ∷ 7 ∷ []) v
  one ← uint (← at 1 auth)
  reject_if (one != 1) invalid_input
  also_one ← uint (← at 2 auth)
  reject_if (also_one != 1) invalid_input
  operation ← uint (← at 3 auth)
  reject_if (not (leb 1 operation && leb operation 5)) invalid_input
  epoch ← uint (← at 4 auth)
  threshold ← uint (← at 5 auth)
  items ← some_items (← at 6 auth)
  entries ← check_signer_entries none [] [] items
  reject_if (not (leb 1 threshold && leb threshold (length entries))) invalid_input
  predecessor ← key_string (← at 7 auth)
  reject_if
      (not (contains signer_public_key (signer_keys_of entries))
        && not (may_sign_for_others operation))
      invalid_input
  ok tt

abbrev pub check_optional : Option Value → Bytes → Bytes → Signing (Unit {0})
check_optional (some auth) owner_key signer_public_key = check_authorization auth signer_public_key
check_optional none owner_key signer_public_key =
    reject_if (owner_key != signer_public_key) invalid_input

-- `decoded.get(2) != {}`
abbrev is_empty_dict : Value → Bool
is_empty_dict (dict end) = true
is_empty_dict _ = false

module _ (c : Crypto) where
  unfoldable pub check_fields : Entries → Bytes → Signing (Unit {0})
  check_fields d signer_public_key = do
    reject_if (not (keys_are (1 ∷ 2 ∷ 3 ∷ []) d || keys_are (1 ∷ 2 ∷ 3 ∷ 4 ∷ []) d)) invalid_input
    rec ← exact_int_keys (1 ∷ 2 ∷ []) (← at 1 d)
    owner_name ← byte_string (← at 1 rec)
    reject_if (is_empty owner_name) invalid_input
    owner_key ← key_string (← at 2 rec)
    payload ← at 2 d
    reject_if (not (is_empty_dict payload)) invalid_input
    sequence ← uint (← at 3 d)
    check_optional (get 4 d) owner_key signer_public_key

  unfoldable pub dict_only : Value → Signing Entries
  dict_only (dict d) = ok d
  dict_only _ = err invalid_input

  unfoldable pub check_identity_update : Bytes → Bytes → Signing (Unit {0})
  check_identity_update update signer_public_key = do
    reject_if (is_empty update) invalid_input
    decoded ← or_raise (c.loads update) invalid_input
    again ← or_raise (c.dumps decoded) invalid_input
    reject_if (again != update) invalid_input
    d ← dict_only decoded
    check_fields d signer_public_key
