-- ===== src/Signer/Error.antt =====
-- The exceptions of signer.py; `unexpected` is any exception of Python's own.
use decent_wallet.Prelude.{Result}

pub data SignerError : Type 0 where
  signing_failed key_generation signer_unavailable invalid_input unexpected : SignerError

abbrev pub Signing {ℓ} : Type ℓ → Type ℓ
Signing A = Result SignerError A
