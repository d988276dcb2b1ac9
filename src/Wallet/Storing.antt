-- ===== src/Wallet/Storing.antt =====
-- What `_build_envelope` stores for each combination of its overrides.
use decent_wallet.Identity.Require.{key_length}
use decent_wallet.Prelude.{
  Option, ap, arith, err, false, length, list_eq, nat_eq, none, ok, ok-injective, option_eq,
  pair_eq, refl, some, subst, sym, true, ◌==◌, ◌∙◌, ◌≡◌,
}
use decent_wallet.Python.Value.{Bytes}
use decent_wallet.Wallet.Intent.{Fallible}
use decent_wallet.Wallet.Keys.{stored_of}
use decent_wallet.Wallet.Session.{
  assemble, or_else, payload_for_storage, storage_key, storage_pending,
}
use decent_wallet.Wallet.State.{Payload, Stored, Wallet}

assemble-ok :
    (payload : Payload) (seed : Option Bytes) (p : Fallible (Option Bytes))
    (q : Fallible (Option Bytes × Option Bytes)) (s : Stored)
    → assemble payload seed p q ≡ ok s
    → (k : Option Bytes) × (r : Option Bytes × Option Bytes) × (p ≡ ok k)
      × (q ≡ ok r)
      × (s ≡ stored_of seed r.0 (record payload { public_key = k; pending_public_key = r.1 }))
unfolding stored_of
assemble-ok payload seed (err e) q s h = cc
assemble-ok payload seed (ok k) (err e) s h = cc
assemble-ok payload seed (ok k) (ok r) s h = (k, r, refl, refl, sym (ok-injective h))

storage_key-kept :
    (payload : Payload) (w : Wallet) (k : Option Bytes)
    → payload.public_key ≡ w.payload.public_key
    → storage_key payload none w ≡ ok k
    → k ≡ payload.public_key
unfolding storage_key
storage_key-kept payload w k e h = ground arith

storage_pending-ok :
    (seed k : Option Bytes) (r : Option Bytes × Option Bytes)
    → storage_pending seed k ≡ ok r
    → r ≡ (seed, k)
unfolding storage_pending
storage_pending-ok none k r h = sym (ok-injective h)
storage_pending-ok (some seed) none r h = cc
storage_pending-ok (some seed) (some k) r h = ground arith

-- The active key stays.
pub payload_for_storage-kept :
    (payload : Payload) (pending_override : Option Bytes) (w : Wallet) (s : Stored)
    → payload.public_key ≡ w.payload.public_key
    → payload_for_storage payload pending_override none true w ≡ ok s
    → s ≡ stored_of w.active_seed (or_else pending_override w.pending_seed) payload
unfolding payload_for_storage
payload_for_storage-kept payload po w s e h =
    let seed = or_else po w.pending_seed in
    let (k, r, hk, hr, hs) =
      assemble-ok payload w.active_seed (storage_key payload none w)
        (storage_pending seed payload.pending_public_key) s h in
    let ek = storage_key-kept payload w k e hk in
    let er = storage_pending-ok seed payload.pending_public_key r hr in rw (hs, ek, er) refl

-- The pending key goes.
pub payload_for_storage-dropped :
    (payload : Payload) (w : Wallet) (s : Stored)
    → payload.public_key ≡ w.payload.public_key
    → payload.pending_public_key ≡ none
    → payload_for_storage payload none none false w ≡ ok s
    → s ≡ stored_of w.active_seed none payload
unfolding payload_for_storage
payload_for_storage-dropped payload w s e n h =
    let (k, r, hk, hr, hs) =
      assemble-ok payload w.active_seed (storage_key payload none w) (ok (none, none)) s h in
    let ek = storage_key-kept payload w k e hk in
    let er : r ≡ (none, none) = sym (ok-injective hr) in
    rw (hs, ek, er)
      (ap
        (λ (j : Option Bytes).
          stored_of w.active_seed none (record payload { pending_public_key = j }))
        (sym n))

-- The successor takes the active key's place.
pub payload_for_storage-promoted :
    (payload : Payload) (active : Option Bytes) (seed : Bytes) (w : Wallet) (s : Stored)
    → active ≡ some seed
    → payload.pending_public_key ≡ none
    → payload_for_storage payload none active false w ≡ ok s
    → s ≡ stored_of active none payload
unfolding payload_for_storage storage_key stored_of
payload_for_storage-promoted payload (some seed') seed w s e n h =
    sym (ok-injective h)
    ∙ ap
        (λ (j : Option Bytes).
          stored_of (some seed') none (record payload { pending_public_key = j }))
        (sym n)
payload_for_storage-promoted payload none seed w s e n h = cc

-- A pending key that is stored has the length of a key.
pub payload_for_storage-length :
    (payload : Payload) (seed k : Bytes) (w : Wallet) (s : Stored)
    → payload.pending_public_key ≡ some k
    → payload_for_storage payload (some seed) none true w ≡ ok s
    → (length k == key_length) ≡ true
unfolding payload_for_storage storage_pending
payload_for_storage-length payload seed k w s e h =
    let (k', r, hk, hr, hs) =
      assemble-ok payload w.active_seed (storage_key payload none w)
        (storage_pending (some seed) payload.pending_public_key) s h in
    go k (subst (λ (j : Option Bytes). storage_pending (some seed) j ≡ ok r) e hr)
  where
    go :
        (k : Bytes) {r : Option Bytes × Option Bytes}
        → storage_pending (some seed) (some k) ≡ ok r
        → (length k == key_length) ≡ true
    go k h = ground arith
