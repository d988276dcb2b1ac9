-- ===== src/Signer/Once.antt =====
-- How often a capability signs, over any sequence of its calls.
use decent_wallet.Crypto.{Crypto}
use decent_wallet.Identity.Envelope.Operations.{has_value}
use decent_wallet.Prelude.{
  Bool, Bool-cases, List, [], ap, arith, err, false, inl, inr, leb, list_eq, nat_eq, none, ok,
  option_eq, pair_eq, refl, suc, true, ℕ, ◌∷◌, ◌≡◌, ◌⊎◌,
}
use decent_wallet.Python.Value.{Bytes}
use decent_wallet.Signer.Capability.{
  KeyRing, SignerCapability, assert_active, create_capability, invalidate, is_active, sign_after,
  sign_checked, sign_identity_update,
}
use decent_wallet.Signer.Error.{Signing, signer_unavailable}

-- A capability that was not used yet.
pub record Fresh (s : SignerCapability) : Type 0 where
  pub is_on : s.active ≡ true
  pub has_key : has_value s.private_key ≡ true
  pub unused : s.signatures ≡ 0
  pub unnotified : s.notified ≡ 0

-- One that is over: it has no key, and its wallet was told of it once.
pub record Spent (s : SignerCapability) : Type 0 where
  pub inactive : s.active ≡ false
  pub no_key : s.private_key ≡ none
  pub at_most_once : leb s.signatures 1 ≡ true
  pub notified_once : s.notified ≡ 1

pub data SignerCall : Type 0 where
  sign : ℕ → Bytes → SignerCall
  look : ℕ → SignerCall
  cancel : SignerCall

-- Whether one of the calls is to sign.
unfoldable pub signs : List SignerCall → Bool
signs [] = false
signs (sign _ _ ∷ xs) = true
signs (_ ∷ xs) = signs xs

invalidate-Spent :
    (s : SignerCapability)
    → leb s.signatures 1 ≡ true
    → s.notified ≡ 0
    → s.active ≡ true
    → Spent (invalidate s)
unfolding invalidate
invalidate-Spent s h n a =
    rw a (record { inactive = refl; no_key = refl; at_most_once = h; notified_once = ap suc n })

Spent-invalidate : (s : SignerCapability) → Spent s → invalidate s ≡ s
unfolding invalidate
Spent-invalidate s p = rw (p.inactive, p.no_key) refl

Fresh-invalidate : (s : SignerCapability) → Fresh s → Spent (invalidate s)
Fresh-invalidate s p = invalidate-Spent s (rw p.unused refl) p.unnotified p.is_on

module _ (c : Crypto) (r : KeyRing) where
  unfoldable pub perform : SignerCall → SignerCapability → SignerCapability
  perform (sign now update) s = (sign_identity_update c r now update s).1
  perform (look now) s = (is_active now s).1
  perform cancel s = invalidate s

  unfoldable pub perform_all : List SignerCall → SignerCapability → SignerCapability
  perform_all [] s = s
  perform_all (x ∷ xs) s = perform_all xs (perform x s)

  -- The signing itself leaves the capability on, and signs once at most.
  signed-once :
      (update : Bytes) (s : SignerCapability)
      → Fresh s
      → (leb (sign_checked c r update s).1.signatures 1 ≡ true)
        × ((sign_checked c r update s).1.notified ≡ 0)
        × ((sign_checked c r update s).1.active ≡ true)
  unfolding sign_checked
  signed-once update s p =
      let q = p.unused in let n = p.unnotified in let a = p.is_on in ground arith

  assert_active-late :
      (now : ℕ) (s : SignerCapability)
      → Fresh s
      → leb s.expires_at now ≡ true
      → assert_active now s ≡ (err signer_unavailable, invalidate s)
  unfolding assert_active
  assert_active-late now s p late = simp (p.is_on, late) refl

  assert_active-early :
      (now : ℕ) (s : SignerCapability)
      → Fresh s
      → leb s.expires_at now ≡ false
      → assert_active now s ≡ (ok tt, s)
  unfolding assert_active
  assert_active-early now s p early = simp (p.is_on, early, p.has_key) refl

  sign-Spent :
      (now : ℕ) (update : Bytes) (s : SignerCapability)
      → Fresh s
      → Spent (sign_identity_update c r now update s).1
  unfolding sign_identity_update sign_after
  sign-Spent now update s p = elim (Bool-cases (leb s.expires_at now)) [
    | inl late ↦ rw (sign_identity_update, assert_active-late now s p late) (Fresh-invalidate s p)
    | inr early ↦
        let (once, silent, on) = signed-once update s p in
        rw (sign_identity_update, assert_active-early now s p early)
          (invalidate-Spent (sign_checked c r update s).1 once silent on)
  ]

  Spent-sign :
      (now : ℕ) (update : Bytes) (s : SignerCapability)
      → Spent s
      → sign_identity_update c r now update s ≡ (err signer_unavailable, s)
  unfolding sign_identity_update assert_active sign_after
  Spent-sign now update s p = rw p.inactive refl

  perform-Spent : (x : SignerCall) (s : SignerCapability) → Spent s → perform x s ≡ s
  unfolding perform is_active
  perform-Spent (sign now update) s p =
      ap (λ (q : Signing Bytes × SignerCapability). q.1) (Spent-sign now update s p)
  perform-Spent (look now) s p = rw p.inactive refl
  perform-Spent cancel s p = Spent-invalidate s p

  look-Alive :
      (now : ℕ) (s : SignerCapability)
      → Fresh s
      → Fresh (is_active now s).1 ⊎ Spent (is_active now s).1
  unfolding is_active
  look-Alive now s p = elim (Bool-cases (leb s.expires_at now)) [
    | inl late ↦ inr (simp (p.is_on, late) (Fresh-invalidate s p))
    | inr early ↦ inl (simp (p.is_on, early) p)
  ]

  pub perform_all-Spent :
      (xs : List SignerCall) (s : SignerCapability) → Spent s → perform_all xs s ≡ s
  unfolding perform_all
  perform_all-Spent [] s p = refl
  perform_all-Spent (x ∷ xs) s p = rw (perform-Spent x s p) (perform_all-Spent xs s p)

  perform_all-Alive :
      (xs : List SignerCall) (s : SignerCapability)
      → Fresh s
      → (Fresh (perform_all xs s) × (signs xs ≡ false)) ⊎ Spent (perform_all xs s)
  unfolding perform_all perform signs
  perform_all-Alive [] s p = inl (p, refl)
  perform_all-Alive (sign now update ∷ xs) s p =
      let t = (sign_identity_update c r now update s).1 in
      let q = sign-Spent now update s p in inr (rw (perform_all-Spent xs t q) q)
  perform_all-Alive (look now ∷ xs) s p = elim (look-Alive now s p) [
    | inl q ↦ perform_all-Alive xs (is_active now s).1 q
    | inr q ↦ inr (rw (perform_all-Spent xs (is_active now s).1 q) q)
  ]
  perform_all-Alive (cancel ∷ xs) s p =
      let q = Fresh-invalidate s p in inr (rw (perform_all-Spent xs (invalidate s) q) q)

  create_capability-Fresh :
      (longest now : ℕ) (seed : Bytes) (timeout : ℕ) (s : SignerCapability)
      → create_capability c r longest now seed timeout ≡ ok s
      → Fresh s
  unfolding create_capability
  create_capability-Fresh longest now seed timeout s h = record {
    is_on = ground arith;
    has_key = ground arith;
    unused = ground arith;
    unnotified = ground arith;
  }

  -- A capability that was just created and is then called in any order, at any times: it makes at most
  -- one signature, and its owner is told at most once that it is over. Once one of the calls was to
  -- sign, whether that succeeded or not, the capability is off, has no key, and its owner was told.
  pub perform_all-once :
      (longest now : ℕ) (seed : Bytes) (timeout : ℕ) (s : SignerCapability) (xs : List SignerCall)
      → create_capability c r longest now seed timeout ≡ ok s
      → (leb (perform_all xs s).signatures 1 ≡ true)
        × (leb (perform_all xs s).notified 1 ≡ true)
        × (signs xs ≡ true → Spent (perform_all xs s))
  perform_all-once longest now seed timeout s xs h =
      elim (perform_all-Alive xs s (create_capability-Fresh longest now seed timeout s h)) [
        | inl (p, q) ↦ (rw p.unused refl, rw p.unnotified refl, λ g. absurd (ground arith))
        | inr p ↦ (p.at_most_once, rw p.notified_once refl, λ g. p)
      ]
