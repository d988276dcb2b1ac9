-- ===== src/Crypto.antt =====
-- What the program takes from `hashlib`, `cryptography` and `cbor2`. `loads` and `dumps` give
-- `none` where the library raises, `verifies` gives `false` where `verify` or the key's
-- constructor raises. `dumps` is the canonical encoder.
use decent_wallet.Prelude.{Bool, Option}
use decent_wallet.Python.Value.{Bytes, Value}

pub record Crypto : Type 0 where
  pub sha256 : Bytes → Bytes
  pub verifies : Bytes → Bytes → Bytes → Bool
  pub loads : Bytes → Option Value
  pub dumps : Value → Option Bytes
