-- ===== src/Registry/Predecessor.antt =====
-- The part of `_parse_state_with_history` of identity.py that looks for the predecessor of an envelope.
use decent_wallet.Crypto.{Crypto}
use decent_wallet.Identity.Authorization.{Authorization}
use decent_wallet.Identity.Error.{Checked}
use decent_wallet.Identity.Update.{decode_signed_update, require_canonical}
use decent_wallet.Prelude.{
  Option, if◌then◌else◌, leb, list_eq, nat_eq, none, ok, option_eq, pair_eq, some, ◌&&◌, ◌==◌,
  ◌>>=◌,
}
use decent_wallet.Python.Value.{Bytes, Value, bytes, dict, get, int, pos}

-- The part of an envelope that names its predecessor: the authorization of a versioned envelope
-- whose version and update have the right types.
module _ (c : Crypto) where
  envelope_authorization : Value → Checked (Option Authorization)
  envelope_authorization (dict d) = elim (get 1 d) [
    | some (int (pos n)) ↦ elim (get 2 d) [
      | some (bytes update) ↦
          if n == 1 then (do u ← decode_signed_update c update; ok u.authorization) else ok none
      | _ ↦ ok none
    ]
    | _ ↦ ok none
  ]
  envelope_authorization _ = ok none

  abbrev names_predecessor : Option Authorization → Option Bytes
  names_predecessor none = none
  names_predecessor (some a) =
      if leb 2 a.operation && leb a.operation 5 then some a.predecessor else none

  -- The hash of the predecessor that the loop looks up, or none where it ends.
  unfoldable pub next_hash : Bytes → Checked (Option Bytes)
  unfolding envelope_authorization
  next_hash envelope = do
    v ← require_canonical c envelope
    a ← envelope_authorization v
    ok (names_predecessor a)
