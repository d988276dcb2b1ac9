-- ===== src/Wallet/Intent.antt =====
-- `valid_registry_environment` and the checks of `RotationDispatchIntent` in container.py. An intent
-- has the fields of a `RotationBinding`.
use decent_wallet.Identity.Latch.{RotationBinding, binding_eq}
use decent_wallet.Identity.Require.{key_length}
use decent_wallet.Prelude.{
  Bool, Option, Result, [], all, false, if◌then◌else◌, is_empty, leb, length, list_eq, ltb, nat_eq,
  none, not, ok, option_eq, pair_eq, reject_if, some, ℕ, ◌!=◌, ◌&&◌, ◌+◌, ◌==◌, ◌>>◌, ◌||◌, ◌∷◌,
}
use decent_wallet.Python.Text.{is_utf8}
use decent_wallet.Python.Value.{Str}

pub data WalletError : Type 0 where
  wallet_locked password_policy unlock_failed invalid_container : WalletError
  unsupported_format storage_failure storage_outcome_unknown rotation_in_progress : WalletError
  signer_unavailable key_generation invalid_request unexpected : WalletError

abbrev pub Fallible {ℓ} : Type ℓ → Type ℓ
Fallible A = Result WalletError A

-- UTF-16 code units; `none` for a lone surrogate, which does not encode.
unfoldable pub utf16_length : Str → Option ℕ
utf16_length [] = some 0
utf16_length (ch ∷ s) =
    let rest = utf16_length s in
    if leb 0xD800 ch && ltb ch 0xE000
    then none
    else elim rest [ none ↦ none | some n ↦ some ((if ltb ch 0x10000 then 1 else 2) + n) ]

-- The `White_Space` characters that the source lists.
abbrev is_whitespace : ℕ → Bool
is_whitespace ch =
    (leb 0x9 ch && leb ch 0xD)
    || ch == 0x20
    || ch == 0x85
    || ch == 0xA0
    || ch == 0x1680
    || (leb 0x2000 ch && leb ch 0x200A)
    || ch == 0x2028
    || ch == 0x2029
    || ch == 0x202F
    || ch == 0x205F
    || ch == 0x3000

unfoldable pub valid_registry_environment : Str → Bool
unfolding utf16_length
valid_registry_environment s = elim (utf16_length s) [
  | none ↦ false
  | some n ↦ leb 1 n && leb n 256 && not (all is_whitespace s)
]

-- `RotationDispatchIntent.__post_init__`
unfoldable pub check_intent : RotationBinding → Fallible RotationBinding
check_intent i = do
  reject_if (elim i.environment [ none ↦ false | some e ↦ not (valid_registry_environment e) ])
      invalid_container
  reject_if (is_empty i.owner_name || ltb 1048576 (length i.owner_name)) invalid_container
  reject_if (not (is_utf8 i.owner_name)) invalid_container
  reject_if
      (length i.predecessor_owner_public_key != key_length
        || length i.successor_owner_public_key != key_length
        || length i.predecessor_state_hash != key_length
        || length i.envelope_hash != key_length)
      invalid_container
  reject_if (i.sequence == 0) invalid_container
  ok i
