-- ===== src/Identity/Require.antt =====
-- The `_require_*` helpers of identity.py, and `_validate_owner_name`.
use decent_wallet.Identity.Error.{
  Checked, IdentityError, invalid_request, invalid_state, unexpected,
}
use decent_wallet.Prelude.{
  Bool, List, Option, [], err, false, is_empty, length, list_eq, nat_eq, none, not, ok, option_eq,
  or_raise, pair_eq, reject_if, some, suc, zero, ℕ, ◌!=◌, ◌&&◌, ◌>>◌, ◌∷◌,
}
use decent_wallet.Python.Text.{is_utf8}
use decent_wallet.Python.Value.{
  Bytes, Entries, Str, Value, bytes, dict, get, int, keys_are, pos, str,
}

abbrev pub key_length : ℕ
key_length = 32

abbrev pub signature_length : ℕ
signature_length = 64

-- `bytes(_KEY_LENGTH)`
abbrev pub zeros : ℕ → Bytes
zeros zero = []
zeros (suc n) = 0 ∷ zeros n

-- A `bool` is no number here, and a negative number is refused.
unfoldable pub require_uint : Value → Checked ℕ
require_uint (int (pos n)) = ok n
require_uint _ = err invalid_request

abbrev wrong_length : Option ℕ → Bytes → Bool
wrong_length none b = false
wrong_length (some n) b = length b != n

unfoldable pub require_bytes : Option ℕ → Bool → Value → Checked Bytes
require_bytes expected nonempty (bytes b) = do
  reject_if (wrong_length expected b) invalid_request
  reject_if (nonempty && is_empty b) invalid_request
  ok b
require_bytes expected nonempty _ = err invalid_request

unfoldable pub require_dict : Value → Checked Entries
require_dict (dict d) = ok d
require_dict _ = err invalid_state

unfoldable pub require_exact_keys : List ℕ → Value → Checked Entries
require_exact_keys expected (dict d) = do reject_if (not (keys_are expected d)) invalid_state; ok d
require_exact_keys expected _ = err invalid_state

-- `d[n]`; a missing key is a `KeyError`.
abbrev pub field : ℕ → Entries → Checked Value
field n d = or_raise (get n d) unexpected

unfoldable pub validate_owner_name : Bytes → Checked Bytes
validate_owner_name b = do
  reject_if (is_empty b) invalid_request
  reject_if (not (is_utf8 b)) invalid_request
  ok b

-- A `str` with at least one character, or the error.
unfoldable pub require_text : IdentityError → Value → Checked Str
require_text e (str s) = do reject_if (is_empty s) e; ok s
require_text e _ = err e
