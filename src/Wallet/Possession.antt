-- ===== src/Wallet/Possession.antt =====
-- `prove_pending_signing_key_rotation` of container.py. `sign` is the library's, `none` where it raises.
use decent_wallet.Crypto.{Crypto}
use decent_wallet.Identity.Draft.Create.{IdentityDraft}
use decent_wallet.Identity.Draft.Make.{validate_owner_key_rotation_binding}
use decent_wallet.Identity.Envelope.Operations.{has_value}
use decent_wallet.Identity.Error.{Checked}
use decent_wallet.Prelude.{Bool, Option, err, none, not, ok, or_raise, reject_if, some, ◌||◌}
use decent_wallet.Python.Value.{Bytes}
use decent_wallet.Wallet.Intent.{Fallible, invalid_request, signer_unavailable}
use decent_wallet.Wallet.Session.{ensure_not_latched, public_key_for_secret, touch}
use decent_wallet.Wallet.State.{Call, Method, Vault, Wallet, gets, lift, ◌>>=◌, ◌>>◌}

-- `except Exception: raise InvalidIdentityRequest()`
abbrev pub checked_request : Checked (Unit {0}) → Fallible (Unit {0})
checked_request (ok u) = ok u
checked_request (err e) = err invalid_request

module _ (c : Crypto) (v : Vault) (sign : Bytes → Bytes → Option Bytes) (call : Call) where
  -- What is signed is verified and dropped.
  unfoldable pub verify_possession : Bytes → Bytes → Bytes → Fallible (Unit {0})
  verify_possession seed successor signed = elim (sign seed (c.sha256 signed)) [
    | none ↦ err signer_unavailable
    | some signature ↦
        reject_if (not (c.verifies successor (c.sha256 signed) signature)) signer_unavailable
  ]

  abbrev pub is_unprepared : Wallet → Bool
  is_unprepared w =
      not (has_value w.pending_seed)
      || not (has_value w.active_seed)
      || not (has_value w.payload.pending_public_key)
      || not (has_value w.payload.public_key)

  unfoldable pub prove_pending_signing_key_rotation : IdentityDraft → Method (Unit {0})
  prove_pending_signing_key_rotation draft = do
    touch call.now
    ensure_not_latched
    w ← gets (λ w. w)
    lift (reject_if (is_unprepared w) signer_unavailable)
    pending_seed ← lift (or_raise w.pending_seed signer_unavailable)
    active ← lift (public_key_for_secret v call w.active_seed w.payload.public_key)
    pending ← lift (public_key_for_secret v call w.pending_seed w.payload.pending_public_key)
    lift (checked_request (validate_owner_key_rotation_binding c draft active pending))
    lift (verify_possession pending_seed pending draft.signed_update_bytes)
