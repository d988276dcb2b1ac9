-- ===== src/Wallet/Moves.antt =====
-- How the rotation methods change a session's keys.
use decent_wallet.Identity.Envelope.Operations.{has_value}
use decent_wallet.Identity.Latch.{RotationBinding, binding_eq}
use decent_wallet.Prelude.{
  Option, false, list_eq, nat_eq, none, option_eq, pair_eq, some, ◌==◌, ◌≡◌,
}
use decent_wallet.Python.Value.{Bytes}
use decent_wallet.Wallet.Keys.{IsIntent, Keys, Pair}
use decent_wallet.Wallet.State.{Vault}

module _ (v : Vault) where
  pub Keys-stage :
      (a k p j : Option Bytes) (i : Option RotationBinding) {s0 k0 s' k' : Bytes}
      → Keys v a k p j i
      → a ≡ some s0
      → k ≡ some k0
      → has_value p ≡ false
      → Pair v s' k'
      → (k' == k0) ≡ false
      → Keys v a k (some s') (some k') i
  unfolding Keys IsIntent
  Keys-stage (some s) (some k) none none none {k0 = k0} h ea ek ep q d =
      let e : k ≡ k0 = cc in (h, q, rw e d, tt)
  Keys-stage (some s) (some k) (some s') j i h ea ek ep q d = cc
  Keys-stage none k p j i h ea ek ep q d = cc
  Keys-stage (some s) none p j i h ea ek ep q d = cc
  Keys-stage (some s) (some k) none (some j) i h ea ek ep q d = elim h [ ]
  Keys-stage (some s) (some k) none none (some i) h ea ek ep q d = elim h [ ]

  pub Keys-cancel :
      (a k p j : Option Bytes) (i : Option RotationBinding)
      → Keys v a k p j i
      → has_value i ≡ false
      → Keys v a k none none i
  unfolding Keys
  Keys-cancel none none none none none h e = tt
  Keys-cancel (some s) (some k) none none none h e = h
  Keys-cancel (some s) (some k) (some s') (some k') none (h, _, _, _) e = h
  Keys-cancel a k p j (some i) h e = cc
  Keys-cancel none none none (some k') none h e = elim h [ ]
  Keys-cancel none none (some s') j none h e = elim h [ ]
  Keys-cancel none (some k) p j none h e = elim h [ ]
  Keys-cancel (some s) none p j none h e = elim h [ ]
  Keys-cancel (some s) (some k) none (some k') none h e = elim h [ ]
  Keys-cancel (some s) (some k) (some s') none none h e = elim h [ ]

  pub Keys-finalize :
      (a k p j : Option Bytes) (i : Option RotationBinding) {t l : Bytes}
      → Keys v a k p j i
      → p ≡ some t
      → j ≡ some l
      → Keys v p (some l) none none none
  unfolding Keys
  Keys-finalize (some s) (some k) (some s') (some k') i {l = l} (h, q, _, _) ep ej =
      let e : k' ≡ l = cc in rw (← e) q
  Keys-finalize a k none j i h ep ej = cc
  Keys-finalize a k (some s') none i h ep ej = cc
  Keys-finalize none none (some s') (some k') i h ep ej = elim h [ ]
  Keys-finalize none (some k) (some s') (some k') i h ep ej = elim h [ ]
  Keys-finalize (some s) none (some s') (some k') i h ep ej = elim h [ ]

  pub Keys-resolve :
      (a k p j : Option Bytes) (i : Option RotationBinding) → Keys v a k p j i → Keys v a k p j none
  unfolding Keys IsIntent
  Keys-resolve none none none none none h = tt
  Keys-resolve (some s) (some k) none none none h = h
  Keys-resolve (some s) (some k) (some s') (some k') i (h, q, d, _) = (h, q, d, tt)
  Keys-resolve none none none none (some i) h = elim h [ ]
  Keys-resolve none none none (some k') i h = elim h [ ]
  Keys-resolve none none (some s') j i h = elim h [ ]
  Keys-resolve none (some k) p j i h = elim h [ ]
  Keys-resolve (some s) none p j i h = elim h [ ]
  Keys-resolve (some s) (some k) none none (some i) h = elim h [ ]
  Keys-resolve (some s) (some k) none (some k') i h = elim h [ ]
  Keys-resolve (some s) (some k) (some s') none i h = elim h [ ]
