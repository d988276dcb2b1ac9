-- ===== src/Wallet/Calls.antt =====
-- Sequences of the calls of container.py that change a session.
use decent_wallet.Identity.Envelope.Operations.{has_value}
use decent_wallet.Identity.Latch.{RotationBinding, binding_eq}
use decent_wallet.Prelude.{
  Bool, Bool-cases, List, Option, [], err, inl, inr, leb, list_eq, nat_eq, not, ok, option_eq,
  pair_eq, some, ℕ, ◌-◌, ◌∷◌, ◌≡◌, ◌⊎◌,
}
use decent_wallet.Python.Value.{Bytes, Entries}
use decent_wallet.Registry.Confirm.{confirmation}
use decent_wallet.Storage.Atomic.{content_of}
use decent_wallet.Wallet.Ends.{
  finalize_signing_key_rotation-Outcome, resolve_signing_key_rotation_rejection-Outcome,
}
use decent_wallet.Wallet.Install.{install}
use decent_wallet.Wallet.Intent.{Fallible}
use decent_wallet.Wallet.Keys.{install-stored_of, stored_of}
use decent_wallet.Wallet.Rotation.{
  cancel_signing_key_rotation, finalize_signing_key_rotation, prepare_signing_key_rotation,
  resolve_signing_key_rotation_rejection, update_payload,
}
use decent_wallet.Wallet.Runs.{
  cancel_signing_key_rotation-Outcome, prepare_signing_key_rotation-Outcome, update_payload-Outcome,
}
use decent_wallet.Wallet.Session.{check_inactivity, lock}
use decent_wallet.Wallet.Sound.{IsLocked, Outcome, Sound, Stays, lock-IsLocked}
use decent_wallet.Wallet.State.{Call, Stored, Vault, Wallet}

pub data Operation : Type 0 where
  update : Entries → Operation
  prepare : Option Bytes → Operation
  cancel : Operation
  finalize : RotationBinding → Operation
  resolve : RotationBinding → Bool → Operation
  background : Operation
  look : Operation

module _ (v : Vault) where
  unfoldable pub perform : Call → Operation → Wallet → Wallet
  perform call (update content) w = (update_payload v call content w).1
  perform call (prepare seed) w = (prepare_signing_key_rotation v call seed w).1
  perform call cancel w = (cancel_signing_key_rotation v call w).1
  perform call (finalize confirmation) w = (finalize_signing_key_rotation v call confirmation w).1
  perform call (resolve rejection claimed) w =
      (resolve_signing_key_rotation_rejection v call rejection claimed w).1
  perform call background w = lock w
  perform call look w = (check_inactivity call.now w).1

  unfoldable pub perform_all : List (Call × Operation) → Wallet → Wallet
  perform_all [] w = w
  perform_all (x ∷ xs) w = perform_all xs (perform x.0 x.1 w)

  Outcome-Sound : {A : Type 0} (q : Fallible A × Wallet) → Outcome v (Stays v) q → Sound v q.1
  Outcome-Sound (ok a, w) h = inr h
  Outcome-Sound (err e, w) h = h

  look-Sound : (now : ℕ) (w : Wallet) → Sound v w → Sound v (check_inactivity now w).1
  unfolding check_inactivity
  look-Sound now w s = elim (Bool-cases (not (has_value w.dek))) [
    | inl p ↦ rw p s
    | inr p ↦ elim (Bool-cases (leb w.inactivity_seconds (now - w.last_activity))) [
      | inl q ↦ rw (p, q) (inl (lock-IsLocked w))
      | inr q ↦ rw (p, q) s
    ]
  ]

  perform-Sound :
      (call : Call) (x : Operation) (w : Wallet) → Sound v w → Sound v (perform call x w)
  unfolding perform
  perform-Sound call (update content) w s =
      Outcome-Sound _ (update_payload-Outcome v call content w s)
  perform-Sound call (prepare seed) w s =
      Outcome-Sound _ (prepare_signing_key_rotation-Outcome v call seed w s)
  perform-Sound call cancel w s = Outcome-Sound _ (cancel_signing_key_rotation-Outcome v call w s)
  perform-Sound call (finalize confirmation) w s =
      Outcome-Sound _ (finalize_signing_key_rotation-Outcome v call confirmation w s)
  perform-Sound call (resolve rejection claimed) w s =
      Outcome-Sound _ (resolve_signing_key_rotation_rejection-Outcome v call rejection claimed w s)
  perform-Sound call background w s = inl (lock-IsLocked w)
  perform-Sound call look w s = look-Sound call.now w s

  pub perform_all-Sound :
      (xs : List (Call × Operation)) (w : Wallet) → Sound v w → Sound v (perform_all xs w)
  unfolding perform_all
  perform_all-Sound [] w s = s
  perform_all-Sound (x ∷ xs) w s =
      perform_all-Sound xs (perform x.0 x.1 w) (perform-Sound x.0 x.1 w s)

  -- The container at the wallet's path is the session's own: it is sealed under the session's data key,
  -- and a session that is opened from it has the same seeds and the same payload.
  pub Reopens : Wallet → Type 0
  Reopens w =
      (content data_key current : Bytes) × (nonce : ℕ) × (stored : Stored) × (content_of w.target
        ≡ some content)
      × (w.dek ≡ some data_key)
      × (v.seal nonce current data_key stored ≡ ok content)
      × (install v stored
          ≡ ok (record {
            active_seed = w.active_seed;
            pending_seed = w.pending_seed;
            payload = w.payload;
          }))

  -- A session that starts sound is, after any sequence of calls, whatever they are given and whatever
  -- the storage does, either locked, with no seed, payload or capability left, or its container on disk
  -- gives back exactly its seeds and its payload. Updates, the staging, cancelling and finalising of a
  -- rotation, the clearing of a rejected one, locking and the inactivity check are the calls.
  pub perform_all-Reopens :
      (xs : List (Call × Operation)) (w : Wallet)
      → Sound v w
      → IsLocked (perform_all xs w) ⊎ Reopens (perform_all xs w)
  unfolding Reopens
  perform_all-Reopens xs w s = elim (perform_all-Sound xs w s) [
    | inl l ↦ inl l
    | inr t ↦
        let after = perform_all xs w in
        inr (
          t.content,
          t.data_key,
          t.current,
          t.nonce,
          stored_of after.active_seed after.pending_seed after.payload,
          t.on_disk,
          t.has_dek,
          t.sealed,
          install-stored_of v after.active_seed after.pending_seed after.payload t.keys,
        )
  ]
