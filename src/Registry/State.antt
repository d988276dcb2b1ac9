-- ===== src/Registry/State.antt =====
-- The attributes of `RegistryAdapter` of identity.py with the history of its calls, and the calls.
-- `RotationPublication`; the adapter keeps those that it has made, under the handle by which a caller
-- gives one back, since a caller cannot make one.
use decent_wallet.Identity.Bundle.Merge.{IdentityBundle}
use decent_wallet.Identity.Error.{Checked, IdentityError}
use decent_wallet.Identity.Latch.{Latches}
use decent_wallet.Identity.Latch.Entries.{LatchOp, clearing, latch_step, registering}
use decent_wallet.Identity.State.{IdentityState}
use decent_wallet.Prelude.{
  Bool, List, Option, [], err, if◌then◌else◌, list_eq, nat_eq, ok, option_eq, pair_eq, some, ℕ,
  ◌==◌, ◌∷◌,
}
use decent_wallet.Python.Dict.{Dict, lookup}
use decent_wallet.Python.Value.{Bytes, Str, Value}
use decent_wallet.Registry.Consent.{ConsentTranscript}
use decent_wallet.Registry.World.{
  Event, History, World, clock_read, consent_asked, envelope_put, envelope_read, environment_asked,
  predecessor_read, remote_read, rotation_support_asked, signer_asked, signer_invalidated,
  signer_key_read, signer_made, update_signed,
}

pub record RotationPublication : Type 0 where
  pub environment : Str
  pub bundle : IdentityBundle
  pub envelope_bytes : Bytes
  pub previous_state : IdentityState
  pub expires_at : ℕ
  pub adapter_token : ℕ

pub record Registry : Type 0 where
  pub registry_environment : Option Str
  pub rotation_token : ℕ
  pub latches : Latches
  -- the set of `InMemoryReplayNonceStore`
  pub nonces : List Bytes
  pub publications : Dict ℕ RotationPublication
  -- the handles of the publications that were consumed
  pub consumed : List ℕ
  -- the owner whose lock this thread holds
  pub held : Option Bytes
  pub history : History

-- Code that raises keeps what it has done.
abbrev pub Handler : Type 0 → Type 0
Handler A = Registry → Checked A × Registry

abbrev pub pure : {A : Type 0} → A → Handler A
pure a r = (ok a, r)

abbrev pub raise : {A : Type 0} → IdentityError → Handler A
raise e r = (err e, r)

abbrev pub lift : {A : Type 0} → Checked A → Handler A
lift x r = (x, r)

abbrev pub gets : {A : Type 0} → (Registry → A) → Handler A
gets f r = (ok (f r), r)

abbrev pub modify : (Registry → Registry) → Handler (Unit {0})
modify f r = (ok tt, f r)

abbrev pub bind : {A B : Type 0} → Checked A × Registry → (A → Handler B) → Checked B × Registry
bind (ok a, r) f = f a r
bind (err e, r) f = (err e, r)

infixl 5 ◌>>=◌ ◌>>◌
abbrev pub ◌>>=◌ : {A B : Type 0} → Handler A → (A → Handler B) → Handler B
◌>>=◌ m f r = bind (m r) f

abbrev pub ◌>>◌ : {A B : Type 0} → Handler A → Handler B → Handler B
m >> k = m >>= λ _. k

-- `try: … except`, with what was raised as a value.
abbrev pub attempt : {A : Type 0} → Handler A → Handler (Checked A)
attempt m r = (ok (m r).0, (m r).1)

-- An operation of another thread waits where this one holds the owner's lock.
abbrev pub is_blocked : Option Bytes → LatchOp → Bool
is_blocked held (registering v ready) = held == some v.owner_name
is_blocked held (clearing v) = held == some v.owner_name

unfoldable pub interfere : Option Bytes → List LatchOp → Latches → Latches
interfere held [] m = m
interfere held (op ∷ ops) m = interfere held ops (if is_blocked held op then m else latch_step op m)

module _ (w : World) where
  abbrev pub observe : Event → Registry → Registry
  observe e r = record r {
    latches = interfere r.held (w.meanwhile (e ∷ r.history)) r.latches;
    history = e ∷ r.history;
  }

  -- The calls.
  abbrev pub read_envelope : Bytes → Handler (Option Bytes)
  read_envelope owner r =
      let a = w.get_identity_envelope r.history owner in (a, observe (envelope_read owner a) r)

  abbrev pub read_predecessor : Bytes → Bytes → Handler (Option Bytes)
  read_predecessor owner state_hash r =
      let a = w.get_identity_envelope_by_hash r.history owner state_hash in
      (a, observe (predecessor_read owner state_hash a) r)

  abbrev pub read_remote : Bytes → Handler (Option Bytes)
  read_remote owner r =
      let a = w.get_remote_identity_envelope r.history owner in (a, observe (remote_read owner a) r)

  abbrev pub put : Bytes → Bytes → Option Bytes → ℕ → Handler (Unit {0})
  put owner envelope expected expires_at r =
      let a = w.put_identity_envelope r.history owner envelope expected expires_at in
      (a, observe (envelope_put owner envelope expected expires_at (lookup owner r.latches) a) r)

  abbrev pub ask_rotation_support : Handler Bool
  ask_rotation_support r =
      let a = w.supports_owner_key_rotation r.history in (a, observe (rotation_support_asked a) r)

  abbrev pub ask_environment : Handler (Option Str)
  ask_environment r =
      let a = w.registry_environment r.history in (a, observe (environment_asked a) r)

  abbrev pub read_clock : Handler ℕ
  read_clock r = let a = w.time r.history in (ok a, observe (clock_read a) r)

  abbrev pub ask_consent : ConsentTranscript → Handler Value
  ask_consent t r = let a = w.consent r.history t in (a, observe (consent_asked t a) r)

  abbrev pub make_signer : Handler (Unit {0})
  make_signer r = let a = w.make_signer r.history in (a, observe (signer_made a) r)

  abbrev pub read_signer_key : Handler Bytes
  read_signer_key r = let a = w.signer_public_key r.history in (a, observe (signer_key_read a) r)

  abbrev pub ask_signer : Handler Bool
  ask_signer r = let a = w.signer_is_active r.history in (a, observe (signer_asked a) r)

  abbrev pub sign_update : Bytes → Handler Value
  sign_update update r =
      let a = w.ask_signature r.history update in (a, observe (update_signed update a) r)

  abbrev pub invalidate_signer : Handler (Unit {0})
  invalidate_signer r =
      let a = w.invalidate_signer r.history in (a, observe (signer_invalidated a) r)

-- `with self._rotation_latches.owner_lock(owner):` The lock is given back on every path.
abbrev pub hold : Option Bytes → Registry → Registry
hold owner r = record r { held = owner }

abbrev pub release : {A : Type 0} → Option Bytes → Checked A × Registry → Checked A × Registry
release held (a, r) = (a, hold held r)

abbrev pub locked : {A : Type 0} → Bytes → Handler A → Handler A
locked owner m r = release r.held (m (hold (some owner) r))
