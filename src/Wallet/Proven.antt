-- ===== src/Wallet/Proven.antt =====
-- What `prove_pending_signing_key_rotation` of container.py has shown where it returns.
use decent_wallet.Crypto.{Crypto}
use decent_wallet.Identity.Bundle.Merge.{draft_eq}
use decent_wallet.Identity.Draft.Create.{DraftView, IdentityDraft, check_draft}
use decent_wallet.Identity.Draft.Make.{validate_owner_key_rotation_binding}
use decent_wallet.Identity.Envelope.Operations.{has_value}
use decent_wallet.Identity.Require.{key_length}
use decent_wallet.Prelude.{
  Bool, Option, ap, arith, bne→eq, err, false, if◌then◌else◌, length, list_eq, nat_eq, none, not,
  ok, ok-injective, option_eq, or_raise, pair_eq, refl, reject_if, some, subst, sym, true, ◌!=◌,
  ◌||◌, ◌∙◌, ◌≡◌,
}
use decent_wallet.Python.Value.{Bytes}
use decent_wallet.Wallet.Ends.{public_key_for_secret-ok}
use decent_wallet.Wallet.Intent.{Fallible, WalletError, rotation_in_progress, signer_unavailable}
use decent_wallet.Wallet.Possession.{
  checked_request, is_unprepared, prove_pending_signing_key_rotation, verify_possession,
}
use decent_wallet.Wallet.Returns.{Returns, SameKeys, bind-Returns, reject-Returns, touch-Returns}
use decent_wallet.Wallet.Rotates.{IsRotation, validate_owner_key_rotation_binding-IsRotation}
use decent_wallet.Wallet.Session.{ensure_not_latched, public_key_for_secret, touch}
use decent_wallet.Wallet.State.{Call, Method, Payload, Vault, Wallet, bind}

module _ (c : Crypto) (v : Vault) (sign : Bytes → Bytes → Option Bytes) (call : Call) where
  public_key_for_secret-derived :
      (seed stored : Option Bytes) (s k : Bytes)
      → seed ≡ some s
      → public_key_for_secret v call seed stored ≡ ok k
      → (stored ≡ some k) × (v.derive s ≡ some k)
  unfolding public_key_for_secret
  public_key_for_secret-derived (some s') (some j) s k es h =
      let e : s' ≡ s = cc in
      subst (λ (x : Bytes). (◌≡◌ {A = Option Bytes} (some j) (some k)) × (v.derive x ≡ some k)) e
        (go (v.derive s') h)
    where
      go :
          (o : Option Bytes)
          → (if length s' != key_length || length j != key_length
              then err signer_unavailable
              else elim o [
                | none ↦ err signer_unavailable
                | some d ↦ if j != d then err signer_unavailable else ok d
              ])
            ≡ ok k
          → (◌≡◌ {A = Option Bytes} (some j) (some k)) × (o ≡ some k)
      go none q = ground arith
      go (some d) q = ground (arith, bne→eq j d)
  public_key_for_secret-derived none stored s k es h = cc
  public_key_for_secret-derived (some x) none s k es h = cc

  -- The draft is a rotation from the session's key to its staged one, and the staged seed has made a
  -- signature of the draft that verifies.
  pub record Proven (draft : IdentityDraft) (before after : Wallet) : Type 0 where
    pub active : Bytes
    pub successor : Bytes
    pub seed : Bytes
    pub signature : Bytes
    pub view : DraftView
    pub free : has_value before.payload.dispatch_intent ≡ false
    pub active_key : before.payload.public_key ≡ some active
    pub successor_key : before.payload.pending_public_key ≡ some successor
    pub pending : before.pending_seed ≡ some seed
    pub derived : v.derive seed ≡ some successor
    pub checked : check_draft c draft ≡ ok view
    pub rotation : IsRotation view active successor
    pub signed : sign seed (c.sha256 draft.signed_update_bytes) ≡ some signature
    pub valid_signature : c.verifies successor (c.sha256 draft.signed_update_bytes) signature ≡ true
    pub unchanged : SameKeys before after

  verify_possession-ok :
      (seed successor message : Bytes) (u : Unit {0})
      → verify_possession c v sign call seed successor message ≡ ok u
      → (signature : Bytes) × (sign seed (c.sha256 message) ≡ some signature)
        × (c.verifies successor (c.sha256 message) signature ≡ true)
  unfolding verify_possession
  verify_possession-ok seed successor message u h = go (sign seed (c.sha256 message)) h
    where
      last : (b : Bool) (e : WalletError) → reject_if (not b) e ≡ ok u → b ≡ true
      last true e h = refl
      last false e h = cc

      go :
          (o : Option Bytes)
          → elim o [
            | none ↦ err signer_unavailable
            | some signature ↦
                reject_if
                  (not (c.verifies successor (c.sha256 message) signature))
                  signer_unavailable
          ]
            ≡ ok u
          → (signature : Bytes) × (o ≡ some signature)
            × (c.verifies successor (c.sha256 message) signature ≡ true)
      go none q = cc
      go (some x) q = (x, refl, last (c.verifies successor (c.sha256 message) x) _ q)

  step-Returns :
      {A B : Type 0} (R : B → Wallet → Type 0) (r : Fallible A) (w : Wallet) (f : A → Method B)
      → ((a : A) → r ≡ ok a → Returns R (f a w))
      → Returns R (bind (r, w) f)
  step-Returns R (ok a) w f k = k a refl
  step-Returns R (err e) w f k = tt

  or_raise-some :
      {A : Type 0} (o : Option A) (e : WalletError) (a : A) → or_raise o e ≡ ok a → o ≡ some a
  or_raise-some none e a h = cc
  or_raise-some (some x) e a h = ap some (ok-injective h)

  -- Where the possession of the staged successor is proved for a draft, the session holds no dispatch
  -- intent; the draft passes its checks and is a rotation, by an update of operation 5, from the
  -- session's own public key to its staged one; the staged seed derives that key, and the signature that it
  -- made of the hash of the draft's update verifies under it; and the session has the same seeds, payload
  -- and latches as before.
  pub prove_pending_signing_key_rotation-Proven :
      (draft : IdentityDraft) (w : Wallet)
      → Returns
          (λ u w'. Proven draft w w')
          (prove_pending_signing_key_rotation c v sign call draft w)
  unfolding prove_pending_signing_key_rotation ensure_not_latched
  prove_pending_signing_key_rotation-Proven draft w =
      let R : Unit {0} → Wallet → Type 0 = λ u w'. Proven draft w w' in
      bind-Returns (λ (u : Unit {0}) w'. SameKeys w w') R (touch call.now w) _
        (touch-Returns call.now w)
        (λ u w1 s.
          let (ea, ep, el, em) = s in
          reject-Returns R (has_value w1.payload.dispatch_intent) rotation_in_progress w1 _ (λ free.
            step-Returns R (reject_if (is_unprepared c v sign call w1) signer_unavailable) w1 _
              (λ u e0. step-Returns R (or_raise w1.pending_seed signer_unavailable) w1 _ (λ seed e1.
                step-Returns R (public_key_for_secret v call w1.active_seed w1.payload.public_key)
                  w1 _
                  (λ k e2.
                    step-Returns R
                      (public_key_for_secret v call w1.pending_seed w1.payload.pending_public_key)
                      w1 _
                      (λ j e3.
                        step-Returns R
                          (checked_request (validate_owner_key_rotation_binding c draft k j)) w1 _
                          (λ u e4.
                            finish w1 s free seed k j u e1 e2 e3 e4
                              (verify_possession c v sign call seed j draft.signed_update_bytes)
                              refl)))))))
    where
      finish :
          (w1 : Wallet)
          → SameKeys w w1
          → has_value w1.payload.dispatch_intent ≡ false
          → (seed k j : Bytes) (u : Unit {0})
          → or_raise w1.pending_seed signer_unavailable ≡ ok seed
          → public_key_for_secret v call w1.active_seed w1.payload.public_key ≡ ok k
          → public_key_for_secret v call w1.pending_seed w1.payload.pending_public_key ≡ ok j
          → checked_request (validate_owner_key_rotation_binding c draft k j) ≡ ok u
          → (r : Fallible (Unit {0}))
          → verify_possession c v sign call seed j draft.signed_update_bytes ≡ r
          → Returns (λ u w'. Proven draft w w') (r, w1)
      finish w1 s free seed k j u e1 e2 e3 e4 (err e) q = tt
      finish w1 s free seed k j u e1 e2 e3 e4 (ok t) q =
          let (ea, ep, el, em) = s in
          let pending = or_raise-some w1.pending_seed signer_unavailable seed e1 in
          let (s0, ea0, ek) =
            public_key_for_secret-ok v call w1.active_seed w1.payload.public_key k e2 in
          let (ej, derived) =
            public_key_for_secret-derived w1.pending_seed w1.payload.pending_public_key seed j
              pending e3 in
          let (view, checked, rotation) =
            validate_owner_key_rotation_binding-IsRotation c draft k j u e4 in
          let (x, signed, verified) = verify_possession-ok seed j draft.signed_update_bytes t q in
          record {
            active = k;
            successor = j;
            seed = seed;
            signature = x;
            view = view;
            free = subst (λ (p : Payload). has_value p.dispatch_intent ≡ false) el free;
            active_key = subst (λ (p : Payload). p.public_key ≡ some k) el ek;
            successor_key = subst (λ (p : Payload). p.pending_public_key ≡ some j) el ej;
            pending = sym ep ∙ pending;
            derived = derived;
            checked = checked;
            rotation = rotation;
            signed = signed;
            valid_signature = verified;
            unchanged = s;
          }
