-- ===== src/Wallet/Bound.antt =====
-- What `bind_legacy_rotation_dispatch_environment` of container.py stores, and on whose consent.
use decent_wallet.Identity.Envelope.Operations.{has_value}
use decent_wallet.Identity.Latch.{RotationBinding, binding_eq}
use decent_wallet.Prelude.{
  Bool, Option, ap, bne→eq, err, false, inr, list_eq, nat_eq, not, not-false, ok, option_eq,
  pair_eq, refl, some, subst, sym, true, ◌!=◌, ◌∙◌, ◌≡◌,
}
use decent_wallet.Python.Value.{Str}
use decent_wallet.Wallet.Binding.{
  Has, Kept, Keys-rebind, Reads, legacy_intent-ok, signing_key_rotation_dispatch_intent-Outcome,
  store_bound-Outcome, touch-Kept,
}
use decent_wallet.Wallet.Calls.{perform_all, perform_all-Sound}
use decent_wallet.Wallet.Intent.{
  Fallible, check_intent, invalid_request, valid_registry_environment,
}
use decent_wallet.Wallet.Keys.{Keys}
use decent_wallet.Wallet.Legacy.{
  BindingHandler, approve_binding, bind_environment, bind_legacy_rotation_dispatch_environment,
  consent_answer, legacy_intent, signing_key_rotation_dispatch_intent, store_bound,
}
use decent_wallet.Wallet.Results.{reject_if-Outcome, step-Outcome}
use decent_wallet.Wallet.Returns.{check_intent-same}
use decent_wallet.Wallet.Session.{touch}
use decent_wallet.Wallet.Sound.{IsStored, Outcome, Sound, bind-Outcome}
use decent_wallet.Wallet.State.{Call, Payload, Vault, Wallet}

weaken-Outcome :
    {A : Type 0} (v : Vault) (Q R : A → Wallet → Type 0) (q : Fallible A × Wallet)
    → Outcome v Q q
    → ((a : A) (w : Wallet) → Q a w → R a w)
    → Outcome v R q
weaken-Outcome v Q R (ok a, w) h k = k a w h
weaken-Outcome v Q R (err e, w) h k = h

module _ (v : Vault) where
  -- The intent of the session is stored again with the environment.
  pub record BoundTo (i : RotationBinding) (environment : Str) (before : Wallet)
      (b : RotationBinding) (w : Wallet) : Type 0 where
    pub held : before.payload.dispatch_intent ≡ some i
    pub returned : b ≡ record i { environment = some environment }
    pub payload : w.payload ≡ record before.payload { dispatch_intent = some b }
    pub stored : IsStored v w

  bind_environment-Outcome :
      (call : Call) (i : RotationBinding) (environment : Str) (approved : Bool) (w : Wallet)
      → Sound v w
      → Outcome v
          (λ b w'. (approved ≡ true) × BoundTo i environment w b w')
          (bind_environment v call i environment approved w)
  unfolding bind_environment
  bind_environment-Outcome call i environment approved w s =
      let R : RotationBinding → Wallet → Type 0 =
        λ b w'. (approved ≡ true) × BoundTo i environment w b w' in
      bind-Outcome v (Kept v w) R (touch call.now w) _ (touch-Kept v call.now w s) (λ u w1 (s1, e1).
        reject_if-Outcome v R (not approved) invalid_request w1 _ (inr s1) (λ agreed.
          bind-Outcome v (Reads v w1) R (signing_key_rotation_dispatch_intent v call w1) _
            (signing_key_rotation_dispatch_intent-Outcome v call w1 (inr s1))
            (λ o w2 (s2, e2, eo).
              reject_if-Outcome v R (o != some i) invalid_request w2 _ (inr s2) (λ ne.
                step-Outcome v R (check_intent (record i { environment = some environment })) w2 _
                  (inr s2)
                  (λ b eb.
                    let eq = check_intent-same (record i { environment = some environment }) b eb in
                    let checked : check_intent b ≡ ok b =
                      subst (λ (x : RotationBinding). check_intent x ≡ ok b) (sym eq) eb in
                    let ei : o ≡ some i = bne→eq o (some i) ne in
                    let e : w2.payload ≡ w.payload = e2 ∙ e1 in
                    let held : w.payload.dispatch_intent ≡ some i =
                      ap (λ (x : Payload). x.dispatch_intent) (sym e1) ∙ sym eo ∙ ei in
                    let held2 : w2.payload.dispatch_intent ≡ some i =
                      ap (λ (x : Payload). x.dispatch_intent) e ∙ held in
                    bind-Outcome v
                      (Has v call (record w2.payload { dispatch_intent = some b }) w2 s2) R
                      (store_bound v call (record w2.payload { dispatch_intent = some b }) w2) _
                      (store_bound-Outcome v call (record w2.payload { dispatch_intent = some b })
                        w2 s2 refl
                        (Keys-rebind v w2.active_seed w2.payload.public_key w2.pending_seed
                          w2.payload.pending_public_key i b
                          (subst
                            (λ (x : Option RotationBinding).
                              Keys v w2.active_seed w2.payload.public_key w2.pending_seed
                                w2.payload.pending_public_key x)
                            held2 s2.keys)
                          checked (ap (λ (x : RotationBinding). x.predecessor_owner_public_key) eq)
                          (ap (λ (x : RotationBinding). x.successor_owner_public_key) eq)))
                      (λ u w3 (s3, e3). (
                        not-false approved agreed,
                        record {
                          held = held;
                          returned = eq;
                          payload =
                              e3 ∙ ap (λ (x : Payload). record x { dispatch_intent = some b }) e;
                          stored = s3;
                        },
                      )))))))

  module _ (consent : BindingHandler) (environment : Str) where
    -- The handler was asked in a session with the payload of the one at the start, and approved.
    pub record Rebound (start : Wallet) (b : RotationBinding) (w : Wallet) : Type 0 where
      pub intent : RotationBinding
      pub asked : Wallet
      pub same_payload : asked.payload ≡ start.payload
      pub legacy : has_value intent.environment ≡ false
      pub valid : valid_registry_environment environment ≡ true
      pub held : start.payload.dispatch_intent ≡ some intent
      pub approved : (consent intent environment asked).0 ≡ ok true
      pub bound :
          BoundTo intent environment (perform_all v (consent intent environment asked).1 asked) b w

    -- The answer, and the session that the handler's calls leave.
    abbrev Answers : RotationBinding → Wallet → Bool → Wallet → Type 0
    Answers i w0 b w =
        Sound v w
        × ((consent i environment w0).0 ≡ ok b)
        × (w ≡ perform_all v (consent i environment w0).1 w0)

    approve_binding-Outcome :
        (i : RotationBinding) (w : Wallet)
        → Sound v w
        → Outcome v (Answers i w) (approve_binding v consent i environment w)
    unfolding approve_binding
    approve_binding-Outcome i w s = go (consent i environment w).0 refl
      where
        go :
            (r : Fallible Bool)
            → (consent i environment w).0 ≡ r
            → Outcome v
                (Answers i w)
                (consent_answer r, perform_all v (consent i environment w).1 w)
        go (ok b) e = (perform_all-Sound v (consent i environment w).1 w s, e, refl)
        go (err x) e = perform_all-Sound v (consent i environment w).1 w s

    -- From a sound session, binding an environment to a legacy intent either raises, and leaves the
    -- session sound, or the intent was the session's and named no environment, the environment is a valid
    -- one, the handler was asked about these and approved, and after all calls on the session that the
    -- handler made the intent was still there; what is stored and returned is that intent with the
    -- environment, the rest of the payload as the handler left it, in the container on disk.
    pub bind_legacy_rotation_dispatch_environment-Rebound :
        (call next : Call) (w : Wallet)
        → Sound v w
        → Outcome v
            (Rebound w)
            (bind_legacy_rotation_dispatch_environment v call next environment consent w)
    unfolding bind_legacy_rotation_dispatch_environment
    bind_legacy_rotation_dispatch_environment-Rebound call next w s =
        bind-Outcome v (Kept v w) (Rebound w) (touch call.now w) _ (touch-Kept v call.now w s)
          (λ u w1 (s1, e1).
            bind-Outcome v (Reads v w1) (Rebound w) (signing_key_rotation_dispatch_intent v call w1)
              _ (signing_key_rotation_dispatch_intent-Outcome v call w1 (inr s1))
              (λ o w2 (s2, e2, eo).
                step-Outcome v (Rebound w) (legacy_intent o environment) w2 _ (inr s2) (λ i ei.
                  let (held, legacy, valid) = legacy_intent-ok o environment i ei in
                  bind-Outcome v (Answers i w2) (Rebound w)
                    (approve_binding v consent i environment w2) _
                    (approve_binding-Outcome i w2 (inr s2))
                    (λ approved w3 (s3, answer, e3).
                      weaken-Outcome v (λ b w'. (approved ≡ true) × BoundTo i environment w3 b w')
                        (Rebound w) (bind_environment v next i environment approved w3)
                        (bind_environment-Outcome next i environment approved w3 s3)
                        (λ b w4 (agreed, bound). record {
                          intent = i;
                          asked = w2;
                          same_payload = e2 ∙ e1;
                          legacy = legacy;
                          valid = valid;
                          held = ap (λ (x : Payload). x.dispatch_intent) (sym e1) ∙ sym eo ∙ held;
                          approved = answer ∙ ap ok agreed;
                          bound = subst (λ (x : Wallet). BoundTo i environment x b w4) e3 bound;
                        })))))
