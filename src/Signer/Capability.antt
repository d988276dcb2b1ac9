-- ===== src/Signer/Capability.antt =====
-- `SignerCapability` of signer.py: `_handle`, `_PRIVATE_KEYS` at it, `_active` and `_expires_at`. Its lock
-- makes each method one step; `now` is the clock at it.
use decent_wallet.Crypto.{Crypto}
use decent_wallet.Identity.Envelope.Operations.{has_value}
use decent_wallet.Identity.Require.{key_length, signature_length}
use decent_wallet.Prelude.{
  Bool, Option, err, false, if◌then◌else◌, leb, length, list_eq, ltb, nat_eq, none, not, ok,
  option_eq, pair_eq, some, suc, true, ℕ, ◌!=◌, ◌&&◌, ◌+◌, ◌==◌, ◌||◌,
}
use decent_wallet.Python.Value.{Bytes}
use decent_wallet.Signer.Check.{check_identity_update}
use decent_wallet.Signer.Error.{Signing, invalid_input, signer_unavailable, signing_failed}

-- The private key is gone with the handle.
pub record SignerCapability : Type 0 where
  pub private_key : Option Bytes
  pub public_key : Bytes
  pub active : Bool
  pub expires_at : ℕ
  -- how often `_on_invalidate` was called
  pub notified : ℕ
  -- how many signatures the private key has made
  pub signatures : ℕ

-- Key derivation and signing, and what the library gives back in place of a signature.
pub record KeyRing : Type 0 where
  pub derive : Bytes → Option Bytes
  pub sign : Bytes → Bytes → Option Bytes

-- `_invalidate_unlocked`
unfoldable pub invalidate : SignerCapability → SignerCapability
invalidate s =
    if not s.active && not (has_value s.private_key)
    then s
    else record s { private_key = none; active = false; expires_at = 0; notified = suc s.notified }

unfoldable pub is_active : ℕ → SignerCapability → Bool × SignerCapability
is_active now s = if s.active && leb s.expires_at now then (false, invalidate s) else (s.active, s)

unfoldable pub assert_active : ℕ → SignerCapability → Signing (Unit {0}) × SignerCapability
assert_active now s =
    if not s.active
    then (err signer_unavailable, s)
    else if leb s.expires_at now
    then (err signer_unavailable, invalidate s)
    else if not (has_value s.private_key)
    then (err signer_unavailable, s)
    else (ok tt, s)

module _ (c : Crypto) (r : KeyRing) where
  -- `_create_capability_from_seed`; `timeout` in the clock's unit, 900 seconds long at most.
  unfoldable pub create_capability : ℕ → ℕ → Bytes → ℕ → Signing SignerCapability
  create_capability longest now seed timeout =
      if length seed != key_length || timeout == 0 || ltb longest timeout
      then err signer_unavailable
      else elim (r.derive seed) [
        | none ↦ err signer_unavailable
        | some k ↦ ok (record {
          private_key = some seed;
          public_key = k;
          active = true;
          expires_at = now + timeout;
          notified = 0;
          signatures = 0;
        })
      ]

  -- The body of the `try`.
  unfoldable pub sign_checked : Bytes → SignerCapability → Signing Bytes × SignerCapability
  sign_checked update s = elim (check_identity_update c update s.public_key) [
    | err invalid_input ↦ (err invalid_input, s)
    | err _ ↦ (err signing_failed, s)
    | ok u ↦ elim s.private_key [
      | none ↦ (err signer_unavailable, s)
      | some seed ↦ elim (r.sign seed (c.sha256 update)) [
        | none ↦ (err signing_failed, s)
        | some signature ↦
            let s' = record s { signatures = suc s.signatures } in
            if length signature != signature_length
            then (err signing_failed, s')
            else (ok signature, s')
      ]
    ]
  ]

  -- The `finally` comes after every end of the `try`, but not after a failed `_assert_active`.
  unfoldable pub sign_after :
      Bytes → Signing (Unit {0}) × SignerCapability → Signing Bytes × SignerCapability
  sign_after update (err e, s) = (err e, s)
  sign_after update (ok u, s) = let (signed, s') = sign_checked update s in (signed, invalidate s')

  unfoldable pub sign_identity_update :
      ℕ → Bytes → SignerCapability → Signing Bytes × SignerCapability
  sign_identity_update now update s = sign_after update (assert_active now s)
