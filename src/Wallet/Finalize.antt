-- ===== src/Wallet/Finalize.antt =====
-- What `finalize_signing_key_rotation` of container.py has done where it returns.
use decent_wallet.Identity.Latch.{RotationBinding, binding_eq, clear, is_latched, rotation_binding}
use decent_wallet.Prelude.{
  [], ap, bne→eq, err, false, list_eq, nat_eq, none, not, not-false, ok, option_eq, or_raise,
  or_raise-eq-ok, pair_eq, refl, some, subst, sym, true, ◌!=◌, ◌∙◌, ◌≡◌,
}
use decent_wallet.Python.Value.{Bytes}
use decent_wallet.Wallet.Commit.{commit}
use decent_wallet.Wallet.Ends.{Promotes, public_key_for_secret-ok}
use decent_wallet.Wallet.Intent.{Fallible, check_intent, invalid_request, signer_unavailable}
use decent_wallet.Wallet.Returns.{
  Holds, Returns, SameKeys, bind-Returns, check_intent-same, commit-Returns, reject-Returns,
  result-Returns, touch-Returns,
}
use decent_wallet.Wallet.Rotation.{
  check_rotation_keys, clear_latch, finalize_signing_key_rotation, is_other_rotation,
  matching_intent, promote_successor,
}
use decent_wallet.Wallet.Session.{invalidate_capabilities, public_key_for_secret, touch}
use decent_wallet.Wallet.State.{Call, Vault, Wallet, bind}

module _ (v : Vault) (call : Call) where
  -- The latched intent, with the binding of the capability.
  matching_intent-Returns :
      (capability : RotationBinding) (w : Wallet)
      → Returns
          (λ i w'.
            (w' ≡ w)
            × (w.payload.dispatch_intent ≡ some i)
            × (rotation_binding capability ≡ rotation_binding i))
          (matching_intent v call capability w)
  unfolding matching_intent
  matching_intent-Returns capability w =
      bind-Returns (λ i w'. (w' ≡ w) × (or_raise w.payload.dispatch_intent invalid_request ≡ ok i))
        _ _ _ (result-Returns (or_raise w.payload.dispatch_intent invalid_request) w)
        (λ i w' (same, e). rw same (
          bind-Returns (λ j w'. (w' ≡ w) × (check_intent i ≡ ok j)) _ _ _
            (result-Returns (check_intent i) w)
            (λ j w' (same', c). rw same' (
              reject-Returns _ (rotation_binding capability != rotation_binding j) invalid_request w
                _
                (λ q. (
                  refl,
                  or_raise-eq-ok w.payload.dispatch_intent invalid_request e
                      ∙ ap some (sym (check_intent-same i j c)),
                  bne→eq (rotation_binding capability) (rotation_binding j) q,
                ))))))

  check_rotation_keys-Returns :
      (intent : RotationBinding) (w : Wallet)
      → Returns (Promotes v call w) (check_rotation_keys v call intent w)
  unfolding check_rotation_keys
  check_rotation_keys-Returns intent w =
      reject-Returns (Promotes v call w) (is_other_rotation v call intent w) signer_unavailable w
        (λ x.
          bind (public_key_for_secret v call w.active_seed w.payload.public_key, x)
            (λ a y. (public_key_for_secret v call w.pending_seed w.payload.pending_public_key, y)))
        (λ q.
          bind-Returns
            (λ a w'.
              (w' ≡ w) × (public_key_for_secret v call w.active_seed w.payload.public_key ≡ ok a))
            _ _ _
            (result-Returns (public_key_for_secret v call w.active_seed w.payload.public_key) w)
            (λ a w' (same, e). rw same (
              last (public_key_for_secret v call w.pending_seed w.payload.pending_public_key)
                refl)))
    where
      last :
          (r : Fallible Bytes)
          → public_key_for_secret v call w.pending_seed w.payload.pending_public_key ≡ r
          → Returns (Promotes v call w) (r, w)
      last (ok k) h =
          let (t, et, ek) =
            public_key_for_secret-ok v call w.pending_seed w.payload.pending_public_key k h in
          (refl, (t, et, ek))
      last (err e) h = tt

  abbrev Finalized : Wallet → Bytes → Wallet → Type 0
  Finalized w k w' =
      (w.payload.pending_public_key ≡ some k)
      × (w'.active_seed ≡ w.pending_seed)
      × (w'.pending_seed ≡ none)
      × (w'.payload ≡ record w.payload {
        public_key = some k;
        pending_public_key = none;
        dispatch_intent = none;
      })

  promote_successor-Returns :
      (intent : RotationBinding) (k : Bytes) (w : Wallet)
      → w.payload.pending_public_key ≡ some k
      → Returns
          (λ k' w'.
            (k' ≡ k)
            × Finalized w k w'
            × (is_latched intent w.latches ≡ true)
            × (w'.latches ≡ (clear intent w.latches).0)
            × ((clear intent w.latches).1 ≡ true))
          (promote_successor v call intent k w)
  unfolding promote_successor invalidate_capabilities clear_latch
  promote_successor-Returns intent k w ek =
      reject-Returns _ (not (is_latched intent w.latches)) invalid_request w _ (λ on.
        bind-Returns
          (λ (u : Unit {0}) w'.
            Holds v call
              (record w.payload {
                public_key = some k;
                pending_public_key = none;
                dispatch_intent = none;
              })
              w.pending_seed none w.latches w')
          _
          (commit v call
            (record w.payload {
              public_key = some k;
              pending_public_key = none;
              dispatch_intent = none;
            })
            none w.pending_seed false w.pending_seed none (record w { capabilities = [] }))
          _
          (commit-Returns v call _ none w.pending_seed false w.pending_seed none
            (record w { capabilities = [] }))
          (λ u w' (ha, hp, hl, hm).
            reject-Returns _ (not (clear intent w'.latches).1) invalid_request
              (record w' { latches = (clear intent w'.latches).0 }) _
              (λ off.
                (refl, (ek, ha, hp, hl), not-false _ on, rw hm refl, not-false _ (rw hm at off)))))

  -- The dispatch was confirmed for exactly the intent that the session and the registry hold.
  pub record Promoted (confirmation : RotationBinding) (w : Wallet) (k : Bytes) (w' : Wallet)
      : Type 0 where
    pub intent : RotationBinding
    pub held : w.payload.dispatch_intent ≡ some intent
    pub confirmed : rotation_binding confirmation ≡ rotation_binding intent
    pub latched : is_latched intent w.latches ≡ true
    pub released : clear intent w.latches ≡ (w'.latches, true)
    pub is_successor : k ≡ confirmation.successor_owner_public_key
    pub was_pending : w.payload.pending_public_key ≡ some k
    pub seed : w'.active_seed ≡ w.pending_seed
    pub no_pending : w'.pending_seed ≡ none
    pub payload : w'.payload ≡ record w.payload {
      public_key = some k;
      pending_public_key = none;
      dispatch_intent = none;
    }

  finalize_signing_key_rotation-Returns :
      (confirmation : RotationBinding) (w : Wallet)
      → Returns (Promoted confirmation w) (finalize_signing_key_rotation v call confirmation w)
  unfolding finalize_signing_key_rotation
  finalize_signing_key_rotation-Returns confirmation w =
      bind-Returns (λ (u : Unit {0}) w'. SameKeys w w') _ (touch call.now w) _
        (touch-Returns call.now w)
        (λ u w1 (sa, sp, sl, sm).
          bind-Returns
            (λ i w'.
              (w' ≡ w1)
              × (w1.payload.dispatch_intent ≡ some i)
              × (rotation_binding confirmation ≡ rotation_binding i))
            _ (matching_intent v call confirmation w1) _ (matching_intent-Returns confirmation w1)
            (λ i w' (same, hi, hb). rw same (
              bind-Returns (Promotes v call w1) _ (check_rotation_keys v call i w1) _
                (check_rotation_keys-Returns i w1)
                (λ k w' (same', (t, et, ek)). rw same' (
                  reject-Returns _ (k != confirmation.successor_owner_public_key) signer_unavailable
                    w1 _
                    (λ q.
                      done k w1 i sl sp sm hi hb
                        (bne→eq k confirmation.successor_owner_public_key q)
                        (promote_successor v call i k w1)
                        (promote_successor-Returns i k w1 ek)))))))
    where
      done :
          (k : Bytes) (w1 : Wallet) (i : RotationBinding)
          → w1.payload ≡ w.payload
          → w1.pending_seed ≡ w.pending_seed
          → w1.latches ≡ w.latches
          → w1.payload.dispatch_intent ≡ some i
          → rotation_binding confirmation ≡ rotation_binding i
          → k ≡ confirmation.successor_owner_public_key
          → (q : Fallible Bytes × Wallet)
          → Returns
              (λ k' w'.
                (k' ≡ k)
                × Finalized w1 k w'
                × (is_latched i w1.latches ≡ true)
                × (w'.latches ≡ (clear i w1.latches).0)
                × ((clear i w1.latches).1 ≡ true))
              q
          → Returns (Promoted confirmation w) q
      done k w1 i sl sp sm hi hb hk (err e, w') h = tt
      done k w1 i sl sp sm hi hb hk (ok k', w') (ek, (pk, ha, hp, hl), on, hm, off) = record {
        intent = i;
        held = rw (← sl) hi;
        confirmed = hb;
        latched = rw (← sm) on;
        released = rw (← sm, hm) (λ n. ((clear i w1.latches).0, off n));
        is_successor = ek ∙ hk;
        was_pending = rw (← sl, ek) pk;
        seed = ha ∙ sp;
        no_pending = hp;
        payload = rw (← sl, ek) hl;
      }

  -- Where `finalize_signing_key_rotation` returns, the confirmation named the intent that the session
  -- held and that the registry had latched; the latch is released, the pending seed is the active one
  -- and its public key, which is the confirmed successor, the wallet's; no pending key and no intent
  -- is left, and the content is the same.
  pub finalize_signing_key_rotation-Promoted :
      (confirmation : RotationBinding) (w : Wallet) {k : Bytes} {w' : Wallet}
      → finalize_signing_key_rotation v call confirmation w ≡ (ok k, w')
      → Promoted confirmation w k w'
  finalize_signing_key_rotation-Promoted confirmation w h =
      subst (Returns (Promoted confirmation w)) h
        (finalize_signing_key_rotation-Returns confirmation w)
