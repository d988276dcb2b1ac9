-- ===== src/Wallet/Ends.antt =====
-- `finalize_signing_key_rotation` and `resolve_signing_key_rotation_rejection` on a sound session.
use decent_wallet.Identity.Latch.{RotationBinding, binding_eq, clear, is_latched, rotation_binding}
use decent_wallet.Identity.Require.{key_length}
use decent_wallet.Prelude.{
  Bool, Option, [], arith, bne→eq, err, false, if◌then◌else◌, inr, length, list_eq, nat_eq, none,
  not, ok, option_eq, or_raise, pair_eq, refl, some, true, ◌!=◌, ◌||◌, ◌≡◌,
}
use decent_wallet.Python.Value.{Bytes}
use decent_wallet.Wallet.Commit.{commit}
use decent_wallet.Wallet.Intent.{check_intent, invalid_request, signer_unavailable}
use decent_wallet.Wallet.Moves.{Keys-finalize, Keys-resolve}
use decent_wallet.Wallet.Results.{lift-Outcome, reject_if-Outcome, step-Outcome}
use decent_wallet.Wallet.Rotation.{
  check_rotation_keys, clear_latch, clear_rejected, finalize_signing_key_rotation,
  is_other_rotation, matching_intent, promote_successor, resolve_signing_key_rotation_rejection,
}
use decent_wallet.Wallet.Session.{invalidate_capabilities, public_key_for_secret, touch}
use decent_wallet.Wallet.Sound.{
  IsStored, Outcome, Sound, Stays, bind-Outcome, commit-Outcome, touch-Outcome,
}
use decent_wallet.Wallet.State.{Call, Vault, Wallet, bind}
use decent_wallet.Wallet.Storing.{payload_for_storage-kept, payload_for_storage-promoted}

module _ (v : Vault) (call : Call) where
  pub public_key_for_secret-ok :
      (seed stored : Option Bytes) (k : Bytes)
      → public_key_for_secret v call seed stored ≡ ok k
      → (s : Bytes) × (seed ≡ some s) × (stored ≡ some k)
  unfolding public_key_for_secret
  public_key_for_secret-ok (some s) (some j) k h = (s, refl, go (v.derive s) h)
    where
      go :
          (o : Option Bytes)
          → (if length s != key_length || length j != key_length
              then err signer_unavailable
              else elim o [
                | none ↦ err signer_unavailable
                | some d ↦ if j != d then err signer_unavailable else ok d
              ])
            ≡ ok k
          → ◌≡◌ {A = Option Bytes} (some j) (some k)
      go none q = ground arith
      go (some d) q = ground (arith, bne→eq j d)
  public_key_for_secret-ok none j k h = cc
  public_key_for_secret-ok (some s) none k h = cc

  -- The successor's key, of which the session has the seed.
  abbrev pub Promotes : Wallet → Bytes → Wallet → Type 0
  Promotes w0 k w =
      (w ≡ w0)
      × ((s : Bytes) × (w0.pending_seed ≡ some s) × (w0.payload.pending_public_key ≡ some k))

  check_rotation_keys-Outcome :
      (intent : RotationBinding) (w : Wallet)
      → IsStored v w
      → Outcome v (Promotes w) (check_rotation_keys v call intent w)
  unfolding check_rotation_keys
  check_rotation_keys-Outcome intent w s =
      reject_if-Outcome v (Promotes w) (is_other_rotation v call intent w) signer_unavailable w
        (λ x.
          bind (public_key_for_secret v call w.active_seed w.payload.public_key, x)
            (λ a y. (public_key_for_secret v call w.pending_seed w.payload.pending_public_key, y)))
        (inr s)
        (λ q.
          step-Outcome v (Promotes w)
            (public_key_for_secret v call w.active_seed w.payload.public_key) w
            (λ a y. (public_key_for_secret v call w.pending_seed w.payload.pending_public_key, y))
            (inr s)
            (λ a e.
              lift-Outcome v (Promotes w)
                (public_key_for_secret v call w.pending_seed w.payload.pending_public_key) w (inr s)
                (λ k h.
                  let (t, et, ek) =
                    public_key_for_secret-ok w.pending_seed w.payload.pending_public_key k h in
                  (refl, (t, et, ek)))))

  matching_intent-Outcome :
      (capability : RotationBinding) (w : Wallet)
      → IsStored v w
      → Outcome v (λ i w'. w' ≡ w) (matching_intent v call capability w)
  unfolding matching_intent
  matching_intent-Outcome capability w s =
      step-Outcome v _ (or_raise w.payload.dispatch_intent invalid_request) w _ (inr s) (λ i e.
        step-Outcome v _ (check_intent i) w _ (inr s) (λ j e.
          reject_if-Outcome v _ (rotation_binding capability != rotation_binding j) invalid_request
            w _ (inr s) (λ q. refl)))

  promote_successor-Outcome :
      (intent : RotationBinding) (k t : Bytes) (w : Wallet)
      → IsStored v w
      → w.pending_seed ≡ some t
      → w.payload.pending_public_key ≡ some k
      → Outcome v (Stays v) (promote_successor v call intent k w)
  unfolding promote_successor invalidate_capabilities clear_latch
  promote_successor-Outcome intent k t w s et ek =
      reject_if-Outcome v (Stays v) (not (is_latched intent w.latches)) invalid_request w _ (inr s)
        (λ b.
          bind-Outcome v (Stays v) (Stays v)
            (commit v call
              (record w.payload {
                public_key = some k;
                pending_public_key = none;
                dispatch_intent = none;
              })
              none w.pending_seed false w.pending_seed none (record w { capabilities = [] }))
            _
            (commit-Outcome v call _ none w.pending_seed false w.pending_seed none
              (record w { capabilities = [] }) s
              (λ x h. (
                payload_for_storage-promoted _ w.pending_seed t (record w { capabilities = [] }) x
                    et refl h,
                Keys-finalize v w.active_seed w.payload.public_key w.pending_seed
                    w.payload.pending_public_key w.payload.dispatch_intent s.keys et ek,
              )))
            (λ u w s.
              reject_if-Outcome v (Stays v) (not (clear intent w.latches).1) invalid_request
                (record w { latches = (clear intent w.latches).0 }) _ (inr s) (λ e. s)))

  clear_rejected-Outcome :
      (intent : RotationBinding) (claimed : Bool) (w : Wallet)
      → IsStored v w
      → Outcome v (Stays v) (clear_rejected v call intent claimed w)
  unfolding clear_rejected invalidate_capabilities clear_latch
  clear_rejected-Outcome intent claimed w s =
      reject_if-Outcome v (Stays v) (not (is_latched intent w.latches) || not claimed)
        invalid_request w _ (inr s)
        (λ b.
          bind-Outcome v (Stays v) (Stays v)
            (commit v call (record w.payload { dispatch_intent = none }) none none true
              w.active_seed w.pending_seed w)
            _
            (commit-Outcome v call _ none none true w.active_seed w.pending_seed w s (λ x h. (
              payload_for_storage-kept _ none w x refl h,
              Keys-resolve v w.active_seed w.payload.public_key w.pending_seed
                  w.payload.pending_public_key w.payload.dispatch_intent s.keys,
            )))
            (λ u w s. s))

  pub finalize_signing_key_rotation-Outcome :
      (confirmation : RotationBinding) (w : Wallet)
      → Sound v w
      → Outcome v (Stays v) (finalize_signing_key_rotation v call confirmation w)
  unfolding finalize_signing_key_rotation
  finalize_signing_key_rotation-Outcome confirmation w s =
      bind-Outcome v (Stays v) (Stays v) (touch call.now w) _ (touch-Outcome v call.now w s)
        (λ u w s.
          bind-Outcome v (λ i w'. w' ≡ w) (Stays v) (matching_intent v call confirmation w) _
            (matching_intent-Outcome confirmation w s)
            (λ intent w' same. rw same (
              bind-Outcome v (Promotes w) (Stays v) (check_rotation_keys v call intent w) _
                (check_rotation_keys-Outcome intent w s)
                (λ k w' (same, (t, et, ek)). rw same (
                  reject_if-Outcome v (Stays v) (k != confirmation.successor_owner_public_key)
                    signer_unavailable w _ (inr s)
                    (λ a. promote_successor-Outcome intent k t w s et ek))))))

  pub resolve_signing_key_rotation_rejection-Outcome :
      (rejection : RotationBinding) (claimed : Bool) (w : Wallet)
      → Sound v w
      → Outcome v (Stays v) (resolve_signing_key_rotation_rejection v call rejection claimed w)
  unfolding resolve_signing_key_rotation_rejection
  resolve_signing_key_rotation_rejection-Outcome rejection claimed w s =
      bind-Outcome v (Stays v) (Stays v) (touch call.now w) _ (touch-Outcome v call.now w s)
        (λ u w s.
          bind-Outcome v (λ i w'. w' ≡ w) (Stays v) (matching_intent v call rejection w) _
            (matching_intent-Outcome rejection w s)
            (λ intent w' same. rw same (
              bind-Outcome v (Promotes w) (Stays v) (check_rotation_keys v call intent w) _
                (check_rotation_keys-Outcome intent w s)
                (λ k w' (same, d). rw same (clear_rejected-Outcome intent claimed w s)))))
