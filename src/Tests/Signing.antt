-- ===== src/Tests/Signing.antt =====
-- A run of the capability of signer.py.
use decent_wallet.Identity.Require.{zeros}
use decent_wallet.Prelude.{List, Option, [], leb, none, ok, refl, some, true, ◌++◌, ◌+◌, ◌∷◌, ◌≡◌}
use decent_wallet.Python.Value.{Bytes}
use decent_wallet.Signer.Capability.{KeyRing, SignerCapability, create_capability}
use decent_wallet.Signer.Once.{
  SignerCall, Spent, cancel, look, perform_all, perform_all-once, sign, signs,
}
use decent_wallet.Tests.Chain.{crypto, genesis_update}

abbrev seed : Bytes
seed = 21 ∷ zeros 31

abbrev successor : Bytes
successor = 22 ∷ zeros 31

-- The public key is the seed's first byte and one, and zeros.
abbrev derive_key : Bytes → Option Bytes
derive_key [] = none
derive_key (x ∷ b) = some ((x + 1) ∷ b)

abbrev ring : KeyRing
ring = record { derive = derive_key; sign = λ s h. some (s ++ h) }

abbrev capability : SignerCapability
capability = record {
  private_key = some seed;
  public_key = 22 ∷ zeros 31;
  active = true;
  expires_at = 70;
  notified = 0;
  signatures = 0;
}

created : create_capability crypto ring 900 10 seed 60 ≡ ok capability
unfolding create_capability
created = refl

abbrev signer_calls : List SignerCall
signer_calls = look 20 ∷ sign 30 genesis_update ∷ sign 31 genesis_update ∷ cancel ∷ []

perform_all-once_example :
    (leb (perform_all crypto ring signer_calls capability).signatures 1 ≡ true)
    × (leb (perform_all crypto ring signer_calls capability).notified 1 ≡ true)
    × (signs signer_calls ≡ true → Spent (perform_all crypto ring signer_calls capability))
perform_all-once_example =
    perform_all-once crypto ring 900 10 seed 60 capability signer_calls created
