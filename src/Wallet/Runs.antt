-- ===== src/Wallet/Runs.antt =====
-- `_update_payload`, `_prepare_signing_key_rotation` and `_cancel_signing_key_rotation` on a sound session.
use decent_wallet.Identity.Envelope.Operations.{has_value}
use decent_wallet.Identity.Latch.{RotationBinding, binding_eq}
use decent_wallet.Identity.Require.{key_length}
use decent_wallet.Prelude.{
  Bool-cases, Option, arith, false, inl, inr, length, list_eq, nat_eq, none, ok, option_eq,
  or_raise, pair_eq, refl, reject_if, some, true, ◌==◌, ◌≡◌,
}
use decent_wallet.Python.Value.{Bytes, Entries}
use decent_wallet.Wallet.Commit.{commit}
use decent_wallet.Wallet.Intent.{key_generation, rotation_in_progress, signer_unavailable}
use decent_wallet.Wallet.Keys.{Keys}
use decent_wallet.Wallet.Moves.{Keys-cancel, Keys-stage}
use decent_wallet.Wallet.Results.{lift-Outcome, or_raise-Outcome, reject_if-Outcome}
use decent_wallet.Wallet.Rotation.{
  cancel_signing_key_rotation, generate_seed, prepare_signing_key_rotation, stage_successor,
  taken_over, update_payload,
}
use decent_wallet.Wallet.Session.{
  ensure_not_latched, invalidate_capabilities, pending_key, pending_signing_public_key, touch,
}
use decent_wallet.Wallet.Sound.{
  IsStored, Outcome, Sound, Stays, bind-Outcome, commit-Outcome, touch-Outcome,
}
use decent_wallet.Wallet.State.{Call, Vault, Wallet}
use decent_wallet.Wallet.Storing.{
  payload_for_storage-dropped, payload_for_storage-kept, payload_for_storage-length,
}

module _ (v : Vault) (call : Call) where
  -- A public key is there only with its seed.
  taken_over-Keys :
      (a k p j : Option Bytes) (i : Option RotationBinding)
      → Keys v a k p j i
      → (taken_over v call a k ≡ k) × (taken_over v call p j ≡ j)
  unfolding Keys
  taken_over-Keys (some s) k (some s') j i h = (refl, refl)
  taken_over-Keys (some s) k none none i h = (refl, refl)
  taken_over-Keys (some s) (some k) none (some j) i h = elim h [ ]
  taken_over-Keys (some s) none none (some j) i h = elim h [ ]
  taken_over-Keys none none none none i h = (refl, refl)
  taken_over-Keys none (some k) p j i h = elim h [ ]
  taken_over-Keys none none none (some j) i h = elim h [ ]
  taken_over-Keys none none (some s') j i h = elim h [ ]

  commit-content :
      (content : Entries) (k j : Option Bytes) (w : Wallet)
      → IsStored v w
      → k ≡ w.payload.public_key
      → j ≡ w.payload.pending_public_key
      → Outcome v (Stays v) (
          commit v call
            (record w.payload { public_key = k; pending_public_key = j; content = content })
            none
            none
            true
            w.active_seed
            w.pending_seed
            w)
  commit-content content k j w s ek ej =
      commit-Outcome v call _ none none true w.active_seed w.pending_seed w s
        (λ x h. (payload_for_storage-kept _ none w x ek h, rw (ek, ej) s.keys))

  pub update_payload-Outcome :
      (content : Entries) (w : Wallet)
      → Sound v w
      → Outcome v (Stays v) (update_payload v call content w)
  unfolding update_payload invalidate_capabilities
  update_payload-Outcome content w s =
      bind-Outcome v (Stays v) (Stays v) (touch call.now w) _ (touch-Outcome v call.now w s)
        (λ u w s.
          let (ek, ej) =
            taken_over-Keys w.active_seed w.payload.public_key w.pending_seed
              w.payload.pending_public_key w.payload.dispatch_intent s.keys in
          let k = taken_over v call w.active_seed w.payload.public_key in
          let j = taken_over v call w.pending_seed w.payload.pending_public_key in
          bind-Outcome v (Stays v) (Stays v)
            (commit v call
              (record w.payload { public_key = k; pending_public_key = j; content = content }) none
              none true w.active_seed w.pending_seed w)
            _ (commit-content content k j w s ek ej) (λ u w s. s))

  pub cancel_signing_key_rotation-Outcome :
      (w : Wallet) → Sound v w → Outcome v (Stays v) (cancel_signing_key_rotation v call w)
  unfolding cancel_signing_key_rotation ensure_not_latched invalidate_capabilities
  cancel_signing_key_rotation-Outcome w s =
      bind-Outcome v (Stays v) (Stays v) (touch call.now w) _ (touch-Outcome v call.now w s)
        (λ u w s.
          reject_if-Outcome v (Stays v) (has_value w.payload.dispatch_intent) rotation_in_progress w
            _ (inr s)
            (λ free. elim (Bool-cases (has_value w.pending_seed)) [
              | inl p ↦ rw p (
                  bind-Outcome v (Stays v) (Stays v)
                    (commit v call (record w.payload { pending_public_key = none }) none none false
                      w.active_seed none w)
                    _
                    (commit-Outcome v call _ none none false w.active_seed none w s (λ x h. (
                      payload_for_storage-dropped _ w x refl refl h,
                      Keys-cancel v w.active_seed w.payload.public_key w.pending_seed
                          w.payload.pending_public_key w.payload.dispatch_intent s.keys free,
                    )))
                    (λ u w s. s))
              | inr p ↦ rw p (
                  lift-Outcome v (Stays v)
                    (reject_if (has_value w.payload.pending_public_key) signer_unavailable) w
                    (inr s) (λ u e. s))
            ]))

  pending_signing_public_key-Outcome :
      (w : Wallet) → Sound v w → Outcome v (Stays v) (pending_signing_public_key v call w)
  unfolding pending_signing_public_key
  pending_signing_public_key-Outcome w s =
      bind-Outcome v (Stays v) (Stays v) (touch call.now w) _ (touch-Outcome v call.now w s)
        (λ u w s.
          lift-Outcome v (Stays v) (pending_key v call w.pending_seed w.payload.pending_public_key)
            w (inr s) (λ a e. s))

  generate_seed-length :
      (o : Option Bytes) (seed : Bytes)
      → generate_seed v call o ≡ ok seed
      → (length seed == key_length) ≡ true
  unfolding generate_seed
  generate_seed-length none seed h = cc
  generate_seed-length (some x) seed h = ground arith

  stage_successor-Outcome :
      (seed : Option Bytes) (w : Wallet)
      → IsStored v w
      → has_value w.pending_seed ≡ false
      → Outcome v (Stays v) (stage_successor v call seed w)
  unfolding stage_successor invalidate_capabilities
  stage_successor-Outcome seed w s empty =
      or_raise-Outcome v (Stays v) w.payload.public_key signer_unavailable w _ (inr s) (λ k0 ek.
        or_raise-Outcome v (Stays v) w.active_seed signer_unavailable w _ (inr s) (λ s0 es.
          bind-Outcome v (λ t w'. (w' ≡ w) × ((length t == key_length) ≡ true)) (Stays v)
            (generate_seed v call seed, w) _
            (lift-Outcome v _ (generate_seed v call seed) w (inr s)
              (λ t e. (refl, generate_seed-length seed t e)))
            (λ t w' (same, lt). rw same (
              or_raise-Outcome v (Stays v) (v.derive t) key_generation w _ (inr s) (λ k' ek'.
                reject_if-Outcome v (Stays v) (k' == k0) key_generation w _ (inr s) (λ differs.
                  bind-Outcome v (Stays v) (Stays v)
                    (commit v call (record w.payload { pending_public_key = some k' }) (some t) none
                      true w.active_seed (some t) w)
                    _
                    (commit-Outcome v call _ (some t) none true w.active_seed (some t) w s (λ x h. (
                      payload_for_storage-kept _ (some t) w x refl h,
                      Keys-stage v w.active_seed w.payload.public_key w.pending_seed
                          w.payload.pending_public_key w.payload.dispatch_intent s.keys es ek empty
                          (record {
                            seed_length = lt;
                            public_key_length = payload_for_storage-length _ t k' w x refl h;
                            derived = ek';
                          })
                          differs,
                    )))
                    (λ u w s. s)))))))

  pub prepare_signing_key_rotation-Outcome :
      (seed : Option Bytes) (w : Wallet)
      → Sound v w
      → Outcome v (Stays v) (prepare_signing_key_rotation v call seed w)
  unfolding prepare_signing_key_rotation ensure_not_latched
  prepare_signing_key_rotation-Outcome seed w s =
      bind-Outcome v (Stays v) (Stays v) (touch call.now w) _ (touch-Outcome v call.now w s)
        (λ u w s.
          reject_if-Outcome v (Stays v) (has_value w.payload.dispatch_intent) rotation_in_progress w
            _ (inr s)
            (λ free. elim (Bool-cases (has_value w.pending_seed)) [
              | inl p ↦ rw p (
                  bind-Outcome v (Stays v) (Stays v) (pending_signing_public_key v call w) _
                    (pending_signing_public_key-Outcome w (inr s))
                    (λ o w s.
                      lift-Outcome v (Stays v) (or_raise o signer_unavailable) w (inr s)
                        (λ u e. s)))
              | inr p ↦ rw p (stage_successor-Outcome seed w s p)
            ]))
