-- ===== src/Registry/Drafts.antt =====
-- `RegistryAdapter.create_draft` and `create_owner_key_rotation_draft` of identity.py.
use decent_wallet.Crypto.{Crypto}
use decent_wallet.Identity.Draft.Create.{IdentityDraft}
use decent_wallet.Identity.Draft.Make.{create}
use decent_wallet.Identity.Envelope.Operations.{has_value}
use decent_wallet.Identity.Error.{Checked, invalid_request}
use decent_wallet.Identity.Latch.{is_owner_latched}
use decent_wallet.Identity.Require.{key_length, require_bytes, validate_owner_name}
use decent_wallet.Identity.State.{IdentityState}
use decent_wallet.Prelude.{
  Bool, List, Option, [], all, err, false, if◌then◌else◌, is_empty, list_eq, map, nat_eq, none, ok,
  option_eq, or_raise, pair_eq, reject_if, some, ℕ, ◌!=◌, ◌&&◌, ◌+◌, ◌==◌, ◌∷◌,
}
use decent_wallet.Python.Order.{sorted}
use decent_wallet.Python.Text.{encode}
use decent_wallet.Python.Value.{
  Bytes, Str, Value, Values, bytes, cons, dict, end, entry, get, key, list, nil, null, str,
}
use decent_wallet.Registry.Read.{read_state}
use decent_wallet.Registry.State.{Handler, gets, lift, ◌>>=◌, ◌>>◌}
use decent_wallet.Registry.World.{World}

-- `entry[1].encode("utf-8")`, where it does not raise.
abbrev signer_entry_key : Value → Option Bytes
signer_entry_key (dict d) = elim (get 1 d) [ some (str s) ↦ encode s | _ ↦ none ]
signer_entry_key _ = none

abbrev sorting_key : Value → Bytes
sorting_key v = elim (signer_entry_key v) [ some b ↦ b | none ↦ [] ]

abbrev has_sorting_key : Value → Bool
has_sorting_key v = has_value (signer_entry_key v)

value_list : List Value → Values
value_list [] = nil
value_list (v ∷ vs) = cons v (value_list vs)

signer_entry_value : Str × Bytes → Value
signer_entry_value e = dict (entry (key 1) (str e.0) (entry (key 2) (bytes e.1) end))

optional_key : Option ℕ → Value
optional_key none = null
optional_key (some n) = key n

rotation_value : Value → Value → List Value → Bytes → Value
rotation_value epoch threshold items predecessor = dict (
    entry (key 1) (key 1) (
      entry (key 2) (key 1) (
        entry (key 3) (key 5) (
          entry (key 4) epoch (
            entry (key 5) threshold
              (entry (key 6) (list (value_list items)) (entry (key 7) (bytes predecessor) end)))))))

-- The authorization of a rotation: a governed predecessor keeps its signers, a legacy one is given them.
unfoldable pub rotation_authorization : IdentityState → Option (List Value) → Checked Value
unfolding rotation_value optional_key value_list signer_entry_value
rotation_authorization p none =
    if is_empty p.signer_set
    then err invalid_request
    else ok (
        rotation_value (optional_key p.generation) (optional_key p.threshold)
          (map signer_entry_value p.signer_set) p.state_hash)
rotation_authorization p (some items) =
    if is_empty p.signer_set && all has_sorting_key items
    then ok (rotation_value (key 1) (key 2) (sorted sorting_key items) p.state_hash)
    else err invalid_request

abbrev pub other_key : Bytes → Option IdentityState → Bool
other_key k none = false
other_key k (some s) = s.owner_public_key != k

-- `1 if current is None else current.sequence + 1`
abbrev pub next_sequence : Option IdentityState → ℕ
next_sequence none = 1
next_sequence (some s) = s.sequence + 1

abbrev pub envelope_of : Option IdentityState → Option Bytes
envelope_of none = none
envelope_of (some s) = some s.envelope_bytes

abbrev pub history_of : Option IdentityState → List Bytes
history_of none = []
history_of (some s) = s.predecessor_envelopes

module _ (c : Crypto) (w : World) where
  unfoldable pub create_draft : Bytes → Bytes → Option Value → Handler IdentityDraft
  create_draft owner_name owner_public_key authorization = do
    name ← lift (validate_owner_name owner_name)
    k ← lift (require_bytes (some key_length) false (bytes owner_public_key))
    current ← read_state c w name
    lift (reject_if (other_key k current) invalid_request)
    lift (
        create c name k (next_sequence current) authorization (envelope_of current)
          (history_of current))

  unfoldable pub create_owner_key_rotation_draft :
      Bytes → Bytes → Option (List Value) → Handler IdentityDraft
  create_owner_key_rotation_draft owner_name successor_owner_public_key successor_signer_set = do
    name ← lift (validate_owner_name owner_name)
    latched ← gets (λ r. is_owner_latched name r.latches)
    lift (reject_if latched invalid_request)
    k ← lift (require_bytes (some key_length) false (bytes successor_owner_public_key))
    current ← read_state c w name
    p ← lift (or_raise current invalid_request)
    lift (reject_if (k == p.owner_public_key) invalid_request)
    authorization ← lift (rotation_authorization p successor_signer_set)
    lift (
        create c name k (p.sequence + 1) (some authorization) (some p.envelope_bytes)
          p.predecessor_envelopes)
