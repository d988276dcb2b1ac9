-- ===== src/Identity/Draft/Create.antt =====
-- `IdentityDraft`: its fields, the checks of `__post_init__`, `to_cbor` and `from_cbor`.
use decent_wallet.Crypto.{Crypto}
use decent_wallet.Identity.Authorization.{Authorization}
use decent_wallet.Identity.Draft.Chain.{parse_previous_state_chain}
use decent_wallet.Identity.Draft.Rules.{validate_draft_transition}
use decent_wallet.Identity.Error.{Checked, invalid_request}
use decent_wallet.Identity.Require.{
  field, key_length, require_bytes, require_exact_keys, validate_owner_name,
}
use decent_wallet.Identity.State.{IdentityState}
use decent_wallet.Identity.Update.{canonical, decode_signed_update, require_canonical}
use decent_wallet.Prelude.{
  List, Option, [], err, false, if◌then◌else◌, length, list_eq, ltb, nat_eq, none, not, ok,
  option_eq, pair_eq, reject_if, rethrow, some, ℕ, ◌==◌, ◌>>=◌, ◌>>◌, ◌||◌, ◌∷◌,
}
use decent_wallet.Python.Value.{
  Bytes, Value, Values, bytes, cons, dict, end, entry, int, is_end, key, list, nil, null, pos,
}

pub record IdentityDraft : Type 0 where
  pub signed_update_bytes : Bytes
  pub previous_state_envelope : Option Bytes
  pub previous_state_history : List Bytes

abbrev pub max_predecessor_depth : ℕ
max_predecessor_depth = 1024

-- What the properties of a draft read, once the update is decoded.
pub record DraftView : Type 0 where
  pub owner_name : Bytes
  pub owner_public_key : Bytes
  pub sequence : ℕ
  pub authorization : Option Authorization
  pub previous : Option IdentityState

optional_bytes_value : Option Bytes → Value
optional_bytes_value none = null
optional_bytes_value (some b) = bytes b

history_value : List Bytes → Values
history_value [] = nil
history_value (b ∷ bs) = cons (bytes b) (history_value bs)

require_optional_bytes : Value → Checked (Option Bytes)
require_optional_bytes null = ok none
require_optional_bytes (bytes b) = ok (some b)
require_optional_bytes _ = err invalid_request

require_history : Values → Checked (List Bytes)
require_history nil = ok []
require_history (cons (bytes b) vs) = do rest ← require_history vs; ok (b ∷ rest)
require_history (cons _ vs) = err invalid_request

-- Version 1 held at most one predecessor, version 2 holds the list.
read_history : ℕ → Value → Checked (List Bytes)
read_history version null = if version == 1 then ok [] else err invalid_request
read_history version (bytes b) = if version == 1 then ok (b ∷ []) else err invalid_request
read_history version (list vs) = if version == 2 then require_history vs else err invalid_request
read_history version _ = err invalid_request

require_version : Value → Checked ℕ
require_version (int (pos n)) = do reject_if (not (n == 1 || n == 2)) invalid_request; ok n
require_version _ = err invalid_request

-- `IdentityDraft(bytes_value, …)` requires the update's bytes to decode, so they are bytes.
require_update : Value → Checked Bytes
require_update (bytes b) = ok b
require_update _ = err invalid_request

unfoldable pub draft_value : IdentityDraft → Value
unfolding optional_bytes_value history_value
draft_value d = dict (
    entry (key 1) (key 2) (
      entry (key 2) (bytes d.signed_update_bytes) (
        entry (key 3) (optional_bytes_value d.previous_state_envelope)
          (entry (key 4) (list (history_value d.previous_state_history)) end))))

module _ (c : Crypto) where
  -- `__post_init__`; the view is what the checks have computed.
  unfoldable pub check_draft : IdentityDraft → Checked DraftView
  check_draft d = do
    update ← decode_signed_update c d.signed_update_bytes
    reject_if
        (not (is_end update.payload) || ltb max_predecessor_depth (length d.previous_state_history))
        invalid_request
    name_bytes ← require_bytes none false update.record_name
    name ← validate_owner_name name_bytes
    public_key ← require_bytes (some key_length) false update.record_key
    previous ← parse_previous_state_chain c name d.previous_state_envelope d.previous_state_history
    validate_draft_transition name public_key update.sequence update.authorization previous
    ok (record {
      owner_name = name;
      owner_public_key = public_key;
      sequence = update.sequence;
      authorization = update.authorization;
      previous = previous;
    })

  unfoldable pub draft_to_cbor : IdentityDraft → Checked Bytes
  draft_to_cbor d = canonical c (draft_value d)

  read_draft : Value → Checked IdentityDraft
  read_draft v = do
    d ← require_exact_keys (1 ∷ 2 ∷ 3 ∷ 4 ∷ []) v
    version ← require_version (← field 1 d)
    previous ← require_optional_bytes (← field 3 d)
    history ← read_history version (← field 4 d)
    update ← require_update (← field 2 d)
    ok (record {
      signed_update_bytes = update;
      previous_state_envelope = previous;
      previous_state_history = history;
    })

  -- Every failure is `InvalidIdentityRequest`.
  unfoldable pub draft_from_cbor : Bytes → Checked IdentityDraft
  unfolding read_draft require_version require_optional_bytes read_history require_history
      require_update
  draft_from_cbor data_bytes =
      rethrow
        (do
          decoded ← require_canonical c data_bytes
          d ← read_draft decoded
          view ← check_draft d
          ok d)
        (λ _. invalid_request)
