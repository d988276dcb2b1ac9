-- ===== src/Wallet/Commit.antt =====
-- How `_update_payload` and the rotation methods of container.py store a payload: `_build_envelope`,
-- `_persist_envelope`, and then the assignments to the session.
use decent_wallet.Prelude.{Bool, Option, some}
use decent_wallet.Python.Value.{Bytes}
use decent_wallet.Wallet.Session.{build_envelope, persist_envelope}
use decent_wallet.Wallet.State.{Call, Method, Payload, Vault, modify, ◌>>=◌, ◌>>◌}

module _ (v : Vault) (call : Call) where
  -- The overrides and the flag are those of `_build_envelope`; the last two are the seeds that the
  -- session has after it.
  unfoldable pub commit :
      Payload → Option Bytes → Option Bytes → Bool → Option Bytes → Option Bytes → Method (Unit {0})
  commit payload pending_override active_override include_pending active pending = do
    envelope ← build_envelope v call payload pending_override active_override include_pending
    persist_envelope v call envelope
    modify (λ w. record w {
      active_seed = active;
      pending_seed = pending;
      payload = payload;
      envelope = some envelope;
    })
