-- ===== src/Wallet/Returns.antt =====
-- What the helpers of the methods of container.py return, and what they leave of the session.
use decent_wallet.Identity.Envelope.Operations.{has_value}
use decent_wallet.Identity.Latch.{Latches, RotationBinding}
use decent_wallet.Prelude.{
  Bool, Bool-cases, Option, Result, arith, err, false, inl, inr, leb, not, ok, refl, reject_if,
  true, ℕ, ◌-◌, ◌≡◌,
}
use decent_wallet.Python.Value.{Bytes}
use decent_wallet.Storage.Atomic.{StorageError, Target, atomic_write, failure, outcome_unknown}
use decent_wallet.Wallet.Commit.{commit}
use decent_wallet.Wallet.Intent.{Fallible, WalletError, check_intent, wallet_locked}
use decent_wallet.Wallet.Session.{
  build_envelope, check_inactivity, lock, persist_envelope, persisted, touch,
}
use decent_wallet.Wallet.State.{Call, Method, Payload, Vault, Wallet, bind}

-- A property of what a method returns, and of the session then.
abbrev pub Returns : {A : Type 0} → (A → Wallet → Type 0) → Fallible A × Wallet → Type 0
Returns Q (ok a, w) = Q a w
Returns Q (err e, w) = Unit

pub bind-Returns :
    {A B : Type 0} (Q : A → Wallet → Type 0) (R : B → Wallet → Type 0) (q : Fallible A × Wallet)
    (f : A → Method B)
    → Returns Q q
    → ((a : A) (w : Wallet) → Q a w → Returns R (f a w))
    → Returns R (bind q f)
bind-Returns Q R (ok a, w) f h k = k a w h
bind-Returns Q R (err e, w) f h k = tt

pub result-Returns :
    {A : Type 0} (r : Fallible A) (w : Wallet) → Returns (λ a w'. (w' ≡ w) × (r ≡ ok a)) (r, w)
result-Returns (ok a) w = (refl, refl)
result-Returns (err e) w = tt

pub reject-Returns :
    {B : Type 0} (R : B → Wallet → Type 0) (b : Bool) (e : WalletError) (w : Wallet) (f : Method B)
    → (b ≡ false → Returns R (f w))
    → Returns R (bind (reject_if b e, w) (λ u. f))
reject-Returns R true e w f k = tt
reject-Returns R false e w f k = k refl

-- A session with the same keys, payload and latches as another.
abbrev pub SameKeys : Wallet → Wallet → Type 0
SameKeys w w' =
    (w'.active_seed ≡ w.active_seed)
    × (w'.pending_seed ≡ w.pending_seed)
    × (w'.payload ≡ w.payload)
    × (w'.latches ≡ w.latches)

pub touch-Returns :
    (now : ℕ) (w : Wallet) → Returns (λ (u : Unit {0}) w'. SameKeys w w') (touch now w)
unfolding touch check_inactivity
touch-Returns now w = elim (Bool-cases (not (has_value w.dek))) [
  | inl p ↦ let e : touch now w ≡ (err wallet_locked, w) = simp p refl in rw e tt
  | inr p ↦ elim (Bool-cases (leb w.inactivity_seconds (now - w.last_activity))) [
    | inl q ↦ let e : touch now w ≡ (err wallet_locked, lock w) = simp (p, q) refl in rw e tt
    | inr q ↦
        let e : touch now w ≡ (ok tt, record w { last_activity = now }) = simp (p, q) refl in
        rw e (refl, refl, refl, refl)
  ]
]

pub check_intent-same : (i j : RotationBinding) → check_intent i ≡ ok j → j ≡ i
unfolding check_intent
check_intent-same i j h = ground arith

module _ (v : Vault) (call : Call) where
  persist_envelope-Returns :
      (b : Bytes) (w : Wallet)
      → Returns (λ (u : Unit {0}) w'. SameKeys w w') (persist_envelope v call b w)
  unfolding persist_envelope
  persist_envelope-Returns b w =
      go (atomic_write call.faults call.meddle call.fresh call.again true b w.target)
    where
      go :
          (q : Result StorageError (Unit {0}) × Target)
          → Returns (λ (u : Unit {0}) w'. SameKeys w w') (persisted v call q w)
      go (ok u, t) = (refl, refl, refl, refl)
      go (err failure, t) = tt
      go (err outcome_unknown, t) = tt

  build_envelope-Returns :
      (payload : Payload) (po ao : Option Bytes) (b : Bool) (w : Wallet)
      → Returns (λ x w'. w' ≡ w) (build_envelope v call payload po ao b w)
  unfolding build_envelope
  build_envelope-Returns payload po ao b w =
      same (build_envelope v call payload po ao b w) (ground arith)
    where
      same : (q : Fallible Bytes × Wallet) → q.1 ≡ w → Returns (λ x w'. w' ≡ w) q
      same (ok x, w') e = e
      same (err x, w') e = tt

  -- The session after a commit.
  abbrev pub Holds : Payload → Option Bytes → Option Bytes → Latches → Wallet → Type 0
  Holds payload active pending m w =
      (w.active_seed ≡ active)
      × (w.pending_seed ≡ pending)
      × (w.payload ≡ payload)
      × (w.latches ≡ m)

  pub commit-Returns :
      (payload : Payload) (po ao : Option Bytes) (b : Bool) (active pending : Option Bytes)
      (w : Wallet)
      → Returns
          (λ (u : Unit {0}) w'. Holds payload active pending w.latches w')
          (commit v call payload po ao b active pending w)
  unfolding commit
  commit-Returns payload po ao b active pending w =
      bind-Returns (λ x w'. w' ≡ w) _ (build_envelope v call payload po ao b w) _
        (build_envelope-Returns payload po ao b w)
        (λ x w' same. rw same (
          bind-Returns (λ (u : Unit {0}) w'. SameKeys w w') _ (persist_envelope v call x w) _
            (persist_envelope-Returns x w) (λ u w' s. (refl, refl, refl, s.3))))
