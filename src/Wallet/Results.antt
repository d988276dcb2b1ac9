-- ===== src/Wallet/Results.antt =====
-- Outcomes of the checks of container.py that raise.
use decent_wallet.Prelude.{
  Bool, Option, err, false, none, ok, or_raise, refl, reject_if, some, true, ◌≡◌,
}
use decent_wallet.Wallet.Intent.{Fallible, WalletError}
use decent_wallet.Wallet.Sound.{Outcome, Sound}
use decent_wallet.Wallet.State.{Method, Vault, Wallet, bind}

module _ (v : Vault) where
  pub lift-Outcome :
      {A : Type 0} (Q : A → Wallet → Type 0) (r : Fallible A) (w : Wallet)
      → Sound v w
      → ((a : A) → r ≡ ok a → Q a w)
      → Outcome v Q (r, w)
  lift-Outcome Q (err e) w s k = s
  lift-Outcome Q (ok a) w s k = k a refl

  pub reject_if-Outcome :
      {B : Type 0} (R : B → Wallet → Type 0) (b : Bool) (e : WalletError) (w : Wallet)
      (f : Method B)
      → Sound v w
      → (b ≡ false → Outcome v R (f w))
      → Outcome v R (bind (reject_if b e, w) (λ u. f))
  reject_if-Outcome R true e w f s k = s
  reject_if-Outcome R false e w f s k = k refl

  pub or_raise-Outcome :
      {A B : Type 0} (R : B → Wallet → Type 0) (o : Option A) (e : WalletError) (w : Wallet)
      (f : A → Method B)
      → Sound v w
      → ((a : A) → o ≡ some a → Outcome v R (f a w))
      → Outcome v R (bind (or_raise o e, w) f)
  or_raise-Outcome R none e w f s k = s
  or_raise-Outcome R (some a) e w f s k = k a refl

  -- Any result of a call that does not change the session.
  pub step-Outcome :
      {A B : Type 0} (R : B → Wallet → Type 0) (r : Fallible A) (w : Wallet) (f : A → Method B)
      → Sound v w
      → ((a : A) → r ≡ ok a → Outcome v R (f a w))
      → Outcome v R (bind (r, w) f)
  step-Outcome R (err e) w f s k = s
  step-Outcome R (ok a) w f s k = k a refl
