-- ===== src/Wallet/Sound.antt =====
-- Invariants of a session of container.py between two calls, and `_persist_envelope` on them.
use decent_wallet.Prelude.{
  Bool, Bool-cases, Option, Result, [], err, inl, inr, leb, none, ok, refl, some, sym, true, ℕ, ◌-◌,
  ◌∙◌, ◌≡◌, ◌⊎◌,
}
use decent_wallet.Python.Value.{Bytes}
use decent_wallet.Storage.Atomic.{
  StorageError, Target, atomic_write, content_of, failure, outcome_unknown,
}
use decent_wallet.Storage.Outcome.{atomic_write-content}
use decent_wallet.Wallet.Commit.{commit}
use decent_wallet.Wallet.Intent.{Fallible, wallet_locked}
use decent_wallet.Wallet.Keys.{KeysOf, stored_of}
use decent_wallet.Wallet.Session.{
  build_envelope, check_inactivity, lock, payload_for_storage, persist_envelope, persisted,
  seal_stored, touch,
}
use decent_wallet.Wallet.State.{
  Call, Method, Payload, Stored, Vault, Wallet, bind, modify, no_payload,
}

-- The target holds the container that the session takes to be current: its own payload and seeds,
-- sealed under its data key.
pub record StoredAs (v : Vault) (dek active pending : Option Bytes) (payload : Payload)
    (envelope : Option Bytes) (target : Target) : Type 0 where
  pub data_key : Bytes
  pub content : Bytes
  pub nonce : ℕ
  pub current : Bytes
  pub has_dek : dek ≡ some data_key
  pub on_disk : content_of target ≡ some content
  pub in_memory : envelope ≡ some content
  pub sealed : v.seal nonce current data_key (stored_of active pending payload) ≡ ok content
  pub keys : KeysOf v active pending payload

abbrev pub IsStored : Vault → Wallet → Type 0
IsStored v w = StoredAs v w.dek w.active_seed w.pending_seed w.payload w.envelope w.target

-- Nothing secret is left.
pub record IsLocked (w : Wallet) : Type 0 where
  pub no_dek : w.dek ≡ none
  pub no_seed : w.active_seed ≡ none
  pub no_successor : w.pending_seed ≡ none
  pub empty : w.payload ≡ no_payload
  pub no_envelope : w.envelope ≡ none
  pub no_capability : w.capabilities ≡ []

abbrev pub Sound : Vault → Wallet → Type 0
Sound v w = IsLocked w ⊎ IsStored v w

-- A call that raises leaves a sound session; one that returns has the given property.
abbrev pub Outcome : {A : Type 0} → Vault → (A → Wallet → Type 0) → Fallible A × Wallet → Type 0
Outcome v Q (ok a, w) = Q a w
Outcome v Q (err e, w) = Sound v w

pub bind-Outcome :
    {A B : Type 0} (v : Vault) (Q : A → Wallet → Type 0) (R : B → Wallet → Type 0)
    (q : Fallible A × Wallet) (f : A → Method B)
    → Outcome v Q q
    → ((a : A) (w : Wallet) → Q a w → Outcome v R (f a w))
    → Outcome v R (bind q f)
bind-Outcome v Q R (ok a, w) f h k = k a w h
bind-Outcome v Q R (err e, w) f h k = h

pub lock-IsLocked : (w : Wallet) → IsLocked (lock w)
unfolding lock
lock-IsLocked w = record {
  no_dek = refl;
  no_seed = refl;
  no_successor = refl;
  empty = refl;
  no_envelope = refl;
  no_capability = refl;
}

-- A returned value, and a stored session.
abbrev pub Stays : {A : Type 0} → Vault → A → Wallet → Type 0
Stays v a w = IsStored v w

pub touch-Outcome :
    (v : Vault) (now : ℕ) (w : Wallet) → Sound v w → Outcome v (Stays v) (touch now w)
unfolding touch check_inactivity
touch-Outcome v now w (inl l) = simp (l.no_dek) (inl l)
touch-Outcome v now w (inr s) =
    elim (Bool-cases (leb w.inactivity_seconds (now - w.last_activity))) [
      | inl late ↦
          let e : touch now w ≡ (err wallet_locked, lock w) = simp (s.has_dek, late) refl in
          rw e (inl (lock-IsLocked w))
      | inr early ↦
          let e : touch now w ≡ (ok tt, record w { last_activity = now }) =
            simp (s.has_dek, early) refl in
          rw e s
    ]

-- What a commit stores is what the session has after it.
abbrev pub Fits :
    Vault
    → Payload
    → Option Bytes
    → Option Bytes
    → Bool
    → Option Bytes
    → Option Bytes
    → Wallet
    → Type 0
Fits v payload pending_override active_override include_pending active pending w =
    (s : Stored)
    → payload_for_storage payload pending_override active_override include_pending w ≡ ok s
    → (s ≡ stored_of active pending payload) × KeysOf v active pending payload

-- A container with the payload and seeds that the session is about to have.
pub record Built (v : Vault) (dek active pending : Option Bytes) (payload : Payload) (b : Bytes)
    : Type 0 where
  pub data_key : Bytes
  pub nonce : ℕ
  pub current : Bytes
  pub has_dek : dek ≡ some data_key
  pub sealed : v.seal nonce current data_key (stored_of active pending payload) ≡ ok b
  pub keys : KeysOf v active pending payload

module _ (v : Vault) (call : Call) where
  pub build_envelope-eq :
      (payload : Payload) (po ao : Option Bytes) (include : Bool) (w : Wallet) (s : IsStored v w)
      → build_envelope v call payload po ao include w
        ≡ (seal_stored v call s.content s.data_key (payload_for_storage payload po ao include w), w)
  unfolding build_envelope
  build_envelope-eq payload po ao include w s = simp (build_envelope, s.has_dek, s.in_memory) refl

  module _ (payload : Payload) (active pending : Option Bytes) (w : Wallet) (s : IsStored v w) where
    abbrev pub Next : Bytes → Wallet → Type 0
    Next b w' = (w' ≡ w) × Built v w.dek active pending payload b

    pub seal_stored-Outcome :
        (r : Fallible Stored)
        → ((x : Stored)
            → r ≡ ok x
            → (x ≡ stored_of active pending payload) × KeysOf v active pending payload)
        → Outcome v Next (seal_stored v call s.content s.data_key r, w)
    seal_stored-Outcome (err e) fits = inr s
    seal_stored-Outcome (ok x) fits = go (v.seal call.nonce s.content s.data_key x) refl
      where
        go :
            (q : Fallible Bytes)
            → v.seal call.nonce s.content s.data_key x ≡ q
            → Outcome v Next (q, w)
        go (err e) h = inr s
        go (ok b) h =
            let (same, keys) = fits x refl in
            (
              refl,
              record {
                data_key = s.data_key;
                nonce = call.nonce;
                current = s.content;
                has_dek = s.has_dek;
                sealed = rw (sym same) h;
                keys = keys;
              },
            )

    -- The write, and the assignments after it.
    abbrev finish : Bytes → Result StorageError (Unit {0}) × Target → Fallible (Unit {0}) × Wallet
    finish b q = bind (persisted v call q w) (λ _. modify (λ w. record w {
      active_seed = active;
      pending_seed = pending;
      payload = payload;
      envelope = some b;
    }))

    finish-Outcome :
        (b : Bytes) (q : Result StorageError (Unit {0}) × Target)
        → Built v w.dek active pending payload b
        → (q.0 ≡ ok tt → content_of q.1 ≡ some b)
        → (q.0 ≡ err failure → content_of q.1 ≡ content_of w.target)
        → Outcome v (Stays v) (finish b q)
    finish-Outcome b (ok u, t) d done kept = record {
      data_key = d.data_key;
      content = b;
      nonce = d.nonce;
      current = d.current;
      has_dek = d.has_dek;
      on_disk = done refl;
      in_memory = refl;
      sealed = d.sealed;
      keys = d.keys;
    }
    finish-Outcome b (err failure, t) d done kept = inr (record {
      data_key = s.data_key;
      content = s.content;
      nonce = s.nonce;
      current = s.current;
      has_dek = s.has_dek;
      on_disk = kept refl ∙ s.on_disk;
      in_memory = s.in_memory;
      sealed = s.sealed;
      keys = s.keys;
    })
    finish-Outcome b (err outcome_unknown, t) d done kept =
        inl (lock-IsLocked (record w { target = t }))

  pub commit-Outcome :
      (payload : Payload) (po ao : Option Bytes) (include : Bool) (active pending : Option Bytes)
      (w : Wallet)
      → IsStored v w
      → Fits v payload po ao include active pending w
      → Outcome v (Stays v) (commit v call payload po ao include active pending w)
  unfolding commit persist_envelope
  commit-Outcome payload po ao include active pending w s fits =
      bind-Outcome v (Next payload active pending w s) (Stays v)
        (build_envelope v call payload po ao include w) _
        (rw (build_envelope-eq payload po ao include w s) (
          seal_stored-Outcome payload active pending w s
            (payload_for_storage payload po ao include w) fits))
        (λ b w' (same, d).
          let (done, kept) =
            atomic_write-content call.faults call.meddle call.fresh call.again b w.target in
          rw same (
            finish-Outcome payload active pending w s b
              (atomic_write call.faults call.meddle call.fresh call.again true b w.target) d done
              kept))
