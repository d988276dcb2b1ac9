-- ===== src/Wallet/Binding.antt =====
-- `bind_legacy_rotation_dispatch_environment` of container.py on a sound session.
use decent_wallet.Identity.Envelope.Operations.{has_value}
use decent_wallet.Identity.Latch.{RotationBinding}
use decent_wallet.Prelude.{
  Option, Result, [], ap, arith, err, false, inl, inr, none, ok, ok-injective, refl, some, sym,
  true, ℕ, ◌∙◌, ◌≡◌,
}
use decent_wallet.Python.Value.{Bytes, Str}
use decent_wallet.Storage.Atomic.{
  StorageError, Target, atomic_write, content_of, failure, outcome_unknown,
}
use decent_wallet.Storage.Outcome.{atomic_write-content}
use decent_wallet.Wallet.Intent.{Fallible, check_intent, valid_registry_environment}
use decent_wallet.Wallet.Keys.{IsIntent, Keys, KeysOf}
use decent_wallet.Wallet.Legacy.{
  decode_intent, legacy_intent, present, signing_key_rotation_dispatch_intent, store_bound,
}
use decent_wallet.Wallet.Results.{lift-Outcome}
use decent_wallet.Wallet.Returns.{Returns, SameKeys, check_intent-same, touch-Returns}
use decent_wallet.Wallet.Session.{
  build_envelope, invalidate_capabilities, payload_for_storage, persist_envelope, persisted, touch,
}
use decent_wallet.Wallet.Sound.{
  Built, IsStored, Next, Outcome, Sound, Stays, bind-Outcome, build_envelope-eq, lock-IsLocked,
  seal_stored-Outcome, touch-Outcome,
}
use decent_wallet.Wallet.State.{Call, Payload, Vault, Wallet, bind, modify}
use decent_wallet.Wallet.Storing.{payload_for_storage-kept}

both :
    {A : Type 0} (v : Vault) (Q R : A → Wallet → Type 0) (q : Fallible A × Wallet)
    → Outcome v Q q
    → Returns R q
    → Outcome v (λ a w. Q a w × R a w) q
both v Q R (ok a, w) h r = (h, r)
both v Q R (err e, w) h r = h

decode_intent-same :
    (o : Option RotationBinding) (r : Option RotationBinding) → decode_intent o ≡ ok r → r ≡ o
unfolding decode_intent
decode_intent-same none r h = sym (ok-injective h)
decode_intent-same (some i) r h = go (check_intent i) refl h
  where
    go : (q : Fallible RotationBinding) → check_intent i ≡ q → present q ≡ ok r → r ≡ some i
    go (err e) c h = cc
    go (ok j) c h = let e = check_intent-same i j c in rw (← e) (sym (ok-injective h))

pub legacy_intent-ok :
    (o : Option RotationBinding) (environment : Str) (i : RotationBinding)
    → legacy_intent o environment ≡ ok i
    → (o ≡ some i)
      × (has_value i.environment ≡ false)
      × (valid_registry_environment environment ≡ true)
unfolding legacy_intent
legacy_intent-ok none environment i h = cc
legacy_intent-ok (some j) environment i h = ground arith

-- The intent may be another one that names the same two keys.
pub Keys-rebind :
    (v : Vault) (a k p j : Option Bytes) (i b : RotationBinding)
    → Keys v a k p j (some i)
    → check_intent b ≡ ok b
    → b.predecessor_owner_public_key ≡ i.predecessor_owner_public_key
    → b.successor_owner_public_key ≡ i.successor_owner_public_key
    → Keys v a k p j (some b)
unfolding Keys IsIntent
Keys-rebind v (some s) (some k) (some s') (some k') i b (h, q, d, (c, x, y)) e ep es =
    (h, q, d, (e, ep ∙ x, es ∙ y))
Keys-rebind v none none none none i b h e ep es = elim h [ ]
Keys-rebind v none none none (some j) i b h e ep es = elim h [ ]
Keys-rebind v none none (some s') j i b h e ep es = elim h [ ]
Keys-rebind v none (some k) p j i b h e ep es = elim h [ ]
Keys-rebind v (some s) none p j i b h e ep es = elim h [ ]
Keys-rebind v (some s) (some k) none none i b h e ep es = elim h [ ]
Keys-rebind v (some s) (some k) none (some k') i b h e ep es = elim h [ ]
Keys-rebind v (some s) (some k) (some s') none i b h e ep es = elim h [ ]

module _ (v : Vault) where
  -- A stored session with the payload of another.
  abbrev pub Kept : {A : Type 0} → Wallet → A → Wallet → Type 0
  Kept w0 a w = IsStored v w × (w.payload ≡ w0.payload)

  pub touch-Kept : (now : ℕ) (w : Wallet) → Sound v w → Outcome v (Kept w) (touch now w)
  touch-Kept now w s = weaken (touch now w) (
      both v (Stays v) (λ u w'. SameKeys w w') (touch now w) (touch-Outcome v now w s)
        (touch-Returns now w))
    where
      weaken :
          (q : Fallible (Unit {0}) × Wallet)
          → Outcome v (λ u w'. IsStored v w' × SameKeys w w') q
          → Outcome v (Kept w) q
      weaken (ok u, w') (s, (_, _, e, _)) = (s, e)
      weaken (err e, w') s = s

  -- The intent that is read is the payload's.
  abbrev pub Reads : Wallet → Option RotationBinding → Wallet → Type 0
  Reads w0 o w = IsStored v w × (w.payload ≡ w0.payload) × (o ≡ w0.payload.dispatch_intent)

  pub signing_key_rotation_dispatch_intent-Outcome :
      (call : Call) (w : Wallet)
      → Sound v w
      → Outcome v (Reads w) (signing_key_rotation_dispatch_intent v call w)
  unfolding signing_key_rotation_dispatch_intent
  signing_key_rotation_dispatch_intent-Outcome call w s =
      bind-Outcome v (Kept w) (Reads w) (touch call.now w) _ (touch-Kept call.now w s)
        (λ u w' (s, e).
          lift-Outcome v (Reads w) (decode_intent w'.payload.dispatch_intent) w' (inr s) (λ o h. (
            s,
            e,
            decode_intent-same w'.payload.dispatch_intent o h
                ∙ ap (λ (x : Payload). x.dispatch_intent) e,
          )))

  module _ (call : Call) (payload : Payload) (w : Wallet) (s : IsStored v w) where
    abbrev pub Has : Unit {0} → Wallet → Type 0
    Has u w' = IsStored v w' × (w'.payload ≡ payload)

    write-Outcome :
        (b : Bytes) (q : Result StorageError (Unit {0}) × Target)
        → Built v w.dek w.active_seed w.pending_seed payload b
        → (q.0 ≡ ok tt → content_of q.1 ≡ some b)
        → (q.0 ≡ err failure → content_of q.1 ≡ content_of w.target)
        → Outcome v Has (
            bind
              (persisted v call q (record w { capabilities = [] }))
              (λ _. modify (λ w. record w { payload = payload; envelope = some b })))
    write-Outcome b (ok u, t) d done kept = (
      record {
        data_key = d.data_key;
        content = b;
        nonce = d.nonce;
        current = d.current;
        has_dek = d.has_dek;
        on_disk = done refl;
        in_memory = refl;
        sealed = d.sealed;
        keys = d.keys;
      },
      refl,
    )
    write-Outcome b (err failure, t) d done kept = inr (record {
      data_key = s.data_key;
      content = s.content;
      nonce = s.nonce;
      current = s.current;
      has_dek = s.has_dek;
      on_disk = kept refl ∙ s.on_disk;
      in_memory = s.in_memory;
      sealed = s.sealed;
      keys = s.keys;
    })
    write-Outcome b (err outcome_unknown, t) d done kept =
        inl (lock-IsLocked (record w { target = t; capabilities = [] }))

    pub store_bound-Outcome :
        payload.public_key ≡ w.payload.public_key
        → KeysOf v w.active_seed w.pending_seed payload
        → Outcome v Has (store_bound v call payload w)
    unfolding store_bound persist_envelope invalidate_capabilities
    store_bound-Outcome ek keys =
        bind-Outcome v (Next v call payload w.active_seed w.pending_seed w s) Has
          (build_envelope v call payload none none true w) _
          (rw (build_envelope-eq v call payload none none true w s) (
            seal_stored-Outcome v call payload w.active_seed w.pending_seed w s
              (payload_for_storage payload none none true w)
              (λ x h. (payload_for_storage-kept payload none w x ek h, keys))))
          (λ b w' (eq, d).
            let (done, kept) =
              atomic_write-content call.faults call.meddle call.fresh call.again b w.target in
            rw eq (
              write-Outcome b
                (atomic_write call.faults call.meddle call.fresh call.again true b w.target) d done
                kept))
