-- ===== src/Registry/Signing.antt =====
-- The part of `RegistryAdapter.submit_identity` of identity.py that asks the signer.
use decent_wallet.Crypto.{Crypto}
use decent_wallet.Identity.Error.{Checked, invalid_request}
use decent_wallet.Identity.Require.{require_bytes, signature_length}
use decent_wallet.Identity.Update.{verify_signature}
use decent_wallet.Prelude.{
  Bool, Result, err, false, if◌then◌else◌, leb, list_eq, nat_eq, ok, option_eq, pair_eq, reject_if,
  some, true, ◌!=◌,
}
use decent_wallet.Python.Value.{Bytes}
use decent_wallet.Registry.Gate.{PublishStatus, Refusal, consent_expired, signing_failed}
use decent_wallet.Registry.State.{
  Handler, ask_signer, attempt, invalidate_signer, lift, make_signer, pure, read_clock,
  read_signer_key, sign_update, ◌>>=◌, ◌>>◌,
}
use decent_wallet.Registry.Submission.{Submission}
use decent_wallet.Registry.World.{World}

module _ (c : Crypto) (w : World) (x : Submission) where
  -- The signature of a signer that is active; one that is not is invalidated.
  abbrev pub with_active : Bytes → Bool → Handler (Result Refusal Bytes)
  with_active update_bytes false = do
    invalidate_signer w
    pure (err (PublishStatus.expired, consent_expired))
  with_active update_bytes true = do
    v ← sign_update w update_bytes
    signature ← lift (require_bytes (some signature_length) false v)
    lift (verify_signature c x.signer_public_key update_bytes signature)
    pure (ok signature)

  -- Inside the `try`: a signature, or the result that ends the submission.
  unfoldable pub try_sign : Bytes → Handler (Result Refusal Bytes)
  try_sign update_bytes = do
    k ← read_signer_key w
    lift (reject_if (k != x.signer_public_key) invalid_request)
    now ← read_clock w
    active ← if leb x.request.expires_at now then pure false else ask_signer w
    with_active update_bytes active

  abbrev pub recover : Checked (Result Refusal Bytes) → Handler (Result Refusal Bytes)
  recover (ok a) = pure a
  recover (err e) = do invalidate_signer w; pure (err (PublishStatus.failed, signing_failed))

  abbrev pub with_signer : Bytes → Checked (Unit {0}) → Handler (Result Refusal Bytes)
  with_signer update_bytes (err e) = pure (err (PublishStatus.failed, signing_failed))
  with_signer update_bytes (ok u) = do a ← attempt (try_sign update_bytes); recover a

  unfoldable pub sign : Bytes → Handler (Result Refusal Bytes)
  sign update_bytes = do made ← attempt (make_signer w); with_signer update_bytes made
