-- ===== src/Wallet/Opened.antt =====
-- `_install_secret_material` of container.py and then `payload_for_storage` of `_build_envelope`.
use mathlib.Core.Option
use decent_wallet.Identity.Envelope.Operations.{has_value}
use decent_wallet.Identity.Latch.{RotationBinding, binding_eq}
use decent_wallet.Identity.Require.{key_length}
use decent_wallet.Prelude.{
  >>=-eq-ok, Bool, Option, ap, arith, bne→eq, false, if◌then◌else◌, length, list_eq, nat_eq, none,
  ok, ok-injective, option_eq, or_false, or_raise, or_raise-eq-ok, pair_eq, refl, reject_if-eq-ok,
  some, subst, sym, true, ◌!=◌, ◌==◌, ◌||◌, ◌∙◌, ◌≡◌,
}
use decent_wallet.Python.Value.{Bytes, Value, bytes}
use decent_wallet.Wallet.Install.{
  Material, given, install, install_intent, install_keyless, install_keys, install_pending,
  key_bytes, validate_pair,
}
use decent_wallet.Wallet.Intent.{Fallible, check_intent, invalid_container}
use decent_wallet.Wallet.Keys.{IsIntent, Keys, KeysOf, Pair, install-stored_of, stored_of}
use decent_wallet.Wallet.Returns.{check_intent-same}
use decent_wallet.Wallet.Session.{payload_for_storage, storage_key, storage_pending}
use decent_wallet.Wallet.State.{Payload, Stored, Vault, Wallet}

module _ (v : Vault) where
  key_bytes-length :
      (x : Value) (b : Bytes) → key_bytes x ≡ some b → (length b == key_length) ≡ true
  key_bytes-length (bytes y) b h = ground arith
  key_bytes-length _ b h = cc

  validate_pair-Pair :
      (o p : Option Value) (q : Bytes × Bytes) → validate_pair v o p ≡ ok q → Pair v q.0 q.1
  unfolding validate_pair
  validate_pair-Pair none p q h = cc
  validate_pair-Pair (some x) none q h = cc
  validate_pair-Pair (some x) (some y) q h =
      let (seed, e1, h1) = >>=-eq-ok (or_raise (key_bytes x) invalid_container) _ h in
      let (public, e2, h2) = >>=-eq-ok (or_raise (key_bytes y) invalid_container) _ h1 in
      let (derived, e3, h3) = >>=-eq-ok (or_raise (v.derive seed) invalid_container) _ h2 in
      let (same_key, h4) = reject_if-eq-ok (public != derived) invalid_container _ h3 in
      subst (λ (r : Bytes × Bytes). Pair v r.0 r.1) (ok-injective h4)
        (record {
          seed_length = key_bytes-length x seed (or_raise-eq-ok (key_bytes x) _ e1);
          public_key_length = key_bytes-length y public (or_raise-eq-ok (key_bytes y) _ e2);
          derived =
              or_raise-eq-ok (v.derive seed) _ e3 ∙ ap some (sym (bne→eq public derived same_key));
        })

  abbrev IsSuccessor : Bytes → Option (Bytes × Bytes) → Type 0
  IsSuccessor k none = Unit
  IsSuccessor k (some q) = Pair v q.0 q.1 × ((q.1 == k) ≡ false)

  install_pending-IsSuccessor :
      (o p : Option Value) (k : Bytes) (r : Option (Bytes × Bytes))
      → install_pending v o p k ≡ ok r
      → IsSuccessor k r
  unfolding install_pending
  install_pending-IsSuccessor none p k r h =
      let (free, h1) = reject_if-eq-ok (has_value p) invalid_container _ h in
      subst (IsSuccessor k) (ok-injective h1) tt
  install_pending-IsSuccessor (some x) p k r h =
      let (q, e1, h1) = >>=-eq-ok (validate_pair v (some x) p) _ h in
      let (differs, h2) = reject_if-eq-ok (q.1 == k) invalid_container _ h1 in
      subst (IsSuccessor k) (ok-injective h2) (validate_pair-Pair (some x) p q e1, differs)

  abbrev IntentOf : Bytes → Option (Bytes × Bytes) → Option RotationBinding → Type 0
  IntentOf k none i = i ≡ none
  IntentOf k (some q) i = IsIntent i k q.1

  install_intent-IntentOf :
      (raw : Option (Fallible RotationBinding)) (k : Bytes) (r : Option (Bytes × Bytes))
      (i : Option RotationBinding)
      → install_intent v raw k r ≡ ok i
      → IntentOf k r i
  unfolding install_intent IsIntent
  install_intent-IntentOf none k none i h = sym (ok-injective h)
  install_intent-IntentOf none k (some q) i h = subst (IntentOf k (some q)) (ok-injective h) tt
  install_intent-IntentOf (some raw) k none i h = cc
  install_intent-IntentOf (some raw) k (some q) i h =
      let (x, e1, h1) = >>=-eq-ok raw _ h in
      let (y, e2, h2) = >>=-eq-ok (check_intent x) _ h1 in
      let (named, h3) =
        reject_if-eq-ok (y.predecessor_owner_public_key != k || y.successor_owner_public_key != q.1)
          invalid_container _ h2 in
      let (a, b) = or_false _ _ named in
      let here = check_intent-same x y e2 in
      subst (IntentOf k (some q)) (ok-injective h3) (
        subst (λ z. check_intent z ≡ ok y) (sym here) e2,
        bne→eq y.predecessor_owner_public_key k a,
        bne→eq y.successor_owner_public_key q.1 b,
      )

  -- The keys of what is installed are consistent.
  pub install-KeysOf :
      (s : Stored) (m : Material)
      → install v s ≡ ok m
      → KeysOf v m.active_seed m.pending_seed m.payload
  unfolding install install_keys install_keyless Keys
  install-KeysOf s m h = go (has_value (given s.private_seed)) h
    where
      keyed :
          (q : Bytes × Bytes) (r : Option (Bytes × Bytes)) (i : Option RotationBinding)
          → Pair v q.0 q.1
          → IsSuccessor q.1 r
          → IntentOf q.1 r i
          → Keys v
              (some q.0)
              (some q.1)
              (Option.map (λ (p : Bytes × Bytes). p.0) r)
              (Option.map (λ (p : Bytes × Bytes). p.1) r)
              i
      keyed q none i a b e = subst (Keys v (some q.0) (some q.1) none none) (sym e) a
      keyed q (some p) i a b e = (a, b.0, b.1, e)

      go :
          (b : Bool)
          → (if b then install_keys v s (given s.private_seed) else install_keyless v s) ≡ ok m
          → KeysOf v m.active_seed m.pending_seed m.payload
      go true h =
          let (q, e1, h1) =
            >>=-eq-ok (validate_pair v (given s.private_seed) (given s.public_key)) _ h in
          let (r, e2, h2) =
            >>=-eq-ok
              (install_pending v (given s.pending_private_seed) (given s.pending_public_key) q.1) _
              h1 in
          let (i, e3, h3) = >>=-eq-ok (install_intent v s.dispatch_intent q.1 r) _ h2 in
          subst (λ (x : Material). KeysOf v x.active_seed x.pending_seed x.payload)
            (ok-injective h3)
            (keyed q r i (validate_pair-Pair _ _ q e1) (install_pending-IsSuccessor _ _ q.1 r e2)
              (install_intent-IntentOf s.dispatch_intent q.1 r i e3))
      go false h =
          let (free, h1) = reject_if-eq-ok _ invalid_container _ h in
          subst (λ (x : Material). KeysOf v x.active_seed x.pending_seed x.payload)
            (ok-injective h1) tt

  -- A session with consistent keys is stored as it is.
  payload_for_storage-stored_of :
      (w : Wallet)
      → KeysOf v w.active_seed w.pending_seed w.payload
      → payload_for_storage w.payload none none true w
        ≡ ok (stored_of w.active_seed w.pending_seed w.payload)
  unfolding payload_for_storage storage_key storage_pending stored_of Keys
  payload_for_storage-stored_of w h =
      go w.active_seed w.payload.public_key w.pending_seed w.payload.pending_public_key
        w.payload.dispatch_intent h
    where
      go :
          (a k p j : Option Bytes) (i : Option RotationBinding)
          → Keys v a k p j i
          → let stored : Payload = record w.payload {
            public_key = k;
            pending_public_key = j;
            dispatch_intent = i;
          } in
            payload_for_storage stored none none true
              (record w { active_seed = a; pending_seed = p; payload = stored })
            ≡ ok (stored_of a p stored)
      go none none none none none h = refl
      go (some s) (some k) none none none h = refl
      go (some s) (some k) (some s') (some k') i (p, p', d, n) = rw (p'.public_key_length) refl
      go none none none none (some _) h = elim h [ ]
      go none none none (some k') i h = elim h [ ]
      go none none (some s') j i h = elim h [ ]
      go none (some k) p j i h = elim h [ ]
      go (some s) none p j i h = elim h [ ]
      go (some s) (some k) none none (some _) h = elim h [ ]
      go (some s) (some k) none (some k') i h = elim h [ ]
      go (some s) (some k) (some s') none i h = elim h [ ]

  -- What is installed from any stored payload can be stored again from the session that it makes, and
  -- installing that gives the same seeds, keys, intent and content.
  pub payload_for_storage-install :
      (stored : Stored) (w : Wallet)
      → install v stored
        ≡ ok (record {
          active_seed = w.active_seed;
          pending_seed = w.pending_seed;
          payload = w.payload;
        })
      → (again : Stored) × (payload_for_storage w.payload none none true w ≡ ok again)
        × (install v again ≡ install v stored)
  payload_for_storage-install stored w h =
      let keys = install-KeysOf stored _ h in
      (
        stored_of w.active_seed w.pending_seed w.payload,
        payload_for_storage-stored_of w keys,
        install-stored_of v w.active_seed w.pending_seed w.payload keys ∙ sym h,
      )
