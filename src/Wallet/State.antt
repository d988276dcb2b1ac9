-- ===== src/Wallet/State.antt =====
-- The attributes of a `Wallet`, with the two secret tables at its handle, the file at its path, and
-- the latch registry of the adapter whose capabilities it is given.
use decent_wallet.Identity.Latch.{Latches, RotationBinding}
use decent_wallet.Prelude.{List, Option, err, none, ok, ℕ}
use decent_wallet.Python.Value.{Bytes, Entries, Value, end}
use decent_wallet.Storage.Atomic.{Faults, Meddling, Target}
use decent_wallet.Wallet.Intent.{Fallible, WalletError}

-- The payload of a session: the seeds are kept apart, and the names that `update_payload` refuses are
-- fields of their own.
pub record Payload : Type 0 where
  pub public_key : Option Bytes
  pub pending_public_key : Option Bytes
  pub dispatch_intent : Option RotationBinding
  pub content : Entries

-- The payload as the container holds it, before its types are checked.
pub record Stored : Type 0 where
  pub private_seed : Option Value
  pub public_key : Option Value
  pub pending_private_seed : Option Value
  pub pending_public_key : Option Value
  -- the decoded intent, or a value that is none
  pub dispatch_intent : Option (Fallible RotationBinding)
  pub content : Entries

abbrev pub no_payload : Payload
no_payload = record {
  public_key = none;
  pending_public_key = none;
  dispatch_intent = none;
  content = end;
}

pub record Wallet : Type 0 where
  pub dek : Option Bytes
  -- `_WALLET_SECRETS` and `_PENDING_WALLET_SECRETS` at the wallet's handle
  pub active_seed : Option Bytes
  pub pending_seed : Option Bytes
  pub payload : Payload
  -- the container that the session takes to be current; none stands for `{}`
  pub envelope : Option Bytes
  pub capabilities : List ℕ
  pub inactivity_seconds : ℕ
  pub last_activity : ℕ
  pub target : Target
  pub latches : Latches

-- One call: the clock, and what the storage does in it.
pub record Call : Type 0 where
  pub now : ℕ
  pub faults : Faults
  pub meddle : Meddling
  pub fresh : ℕ
  pub again : ℕ
  pub nonce : ℕ

-- Key derivation, and the sealing of a payload with a fresh nonce under a data key: the bytes of the
-- container that takes over the key header and the wrapped key of the current one.
pub record Vault : Type 0 where
  pub derive : Bytes → Option Bytes
  pub seal : ℕ → Bytes → Bytes → Stored → Fallible Bytes

-- A method: what was written stays written when it raises.
abbrev pub Method : Type 0 → Type 0
Method A = Wallet → Fallible A × Wallet

abbrev pub pure : {A : Type 0} → A → Method A
pure a w = (ok a, w)

abbrev pub raise : {A : Type 0} → WalletError → Method A
raise e w = (err e, w)

abbrev pub lift : {A : Type 0} → Fallible A → Method A
lift r w = (r, w)

abbrev pub gets : {A : Type 0} → (Wallet → A) → Method A
gets f w = (ok (f w), w)

abbrev pub modify : (Wallet → Wallet) → Method (Unit {0})
modify f w = (ok tt, f w)

abbrev pub bind : {A B : Type 0} → Fallible A × Wallet → (A → Method B) → Fallible B × Wallet
bind (ok a, w) f = f a w
bind (err e, w) f = (err e, w)

infixl 5 ◌>>=◌ ◌>>◌
abbrev pub ◌>>=◌ : {A B : Type 0} → Method A → (A → Method B) → Method B
◌>>=◌ m f w = bind (m w) f

abbrev pub ◌>>◌ : {A B : Type 0} → Method A → Method B → Method B
m >> k = m >>= λ _. k
