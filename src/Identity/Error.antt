-- ===== src/Identity/Error.antt =====
-- The exceptions of identity.py (lines 34 to 55); `unexpected` is any exception of Python's own.
use decent_wallet.Prelude.{Result}

pub data IdentityError : Type 0 where
  invalid_state invalid_request transport_failure stale_publication expired_publication :
      IdentityError
  unexpected : IdentityError

abbrev pub Checked {ℓ} : Type ℓ → Type ℓ
Checked A = Result IdentityError A
