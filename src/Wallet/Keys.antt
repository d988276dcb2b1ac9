-- ===== src/Wallet/Keys.antt =====
-- The keys of a session, and what `_install_secret_material` makes of a stored payload.
use mathlib.Core.Option
use decent_wallet.Identity.Latch.{RotationBinding, binding_eq}
use decent_wallet.Identity.Require.{key_length}
use decent_wallet.Prelude.{
  Option, beq_refl, false, length, list_eq, nat_eq, none, ok, option_eq, pair_eq, refl, some, true,
  ◌==◌, ◌≡◌,
}
use decent_wallet.Python.Value.{Bytes, bytes}
use decent_wallet.Wallet.Install.{
  install, install_intent, install_keyless, install_keys, install_pending, validate_pair,
}
use decent_wallet.Wallet.Intent.{check_intent}
use decent_wallet.Wallet.Session.{public_key, stored_bytes}
use decent_wallet.Wallet.State.{Payload, Stored, Vault}

pub record Pair (v : Vault) (seed public_key : Bytes) : Type 0 where
  pub seed_length : (length seed == key_length) ≡ true
  pub public_key_length : (length public_key == key_length) ≡ true
  pub derived : v.derive seed ≡ some public_key

-- The two keys that a dispatch intent names.
unfoldable pub IsIntent : Option RotationBinding → Bytes → Bytes → Type 0
IsIntent none k j = Unit
IsIntent (some i) k j =
    (check_intent i ≡ ok i)
    × (i.predecessor_owner_public_key ≡ k)
    × (i.successor_owner_public_key ≡ j)

-- No key; an active one; an active one and its successor, another key, with the intent if there is one.
unfoldable pub Keys :
    Vault
    → Option Bytes
    → Option Bytes
    → Option Bytes
    → Option Bytes
    → Option RotationBinding
    → Type 0
Keys v none none none none none = Unit
Keys v (some seed) (some k) none none none = Pair v seed k
Keys v (some seed) (some k) (some seed') (some k') i =
    Pair v seed k × Pair v seed' k' × ((k' == k) ≡ false) × IsIntent i k k'
Keys _ _ _ _ _ _ = ⊥

-- The keys of a session.
abbrev pub KeysOf : Vault → Option Bytes → Option Bytes → Payload → Type 0
KeysOf v active pending payload =
    Keys v active payload.public_key pending payload.pending_public_key payload.dispatch_intent

-- The stored form of a session's payload.
unfoldable pub stored_of : Option Bytes → Option Bytes → Payload → Stored
stored_of active pending payload = record {
  private_seed = stored_bytes active;
  public_key = stored_bytes payload.public_key;
  pending_private_seed = stored_bytes pending;
  pending_public_key = stored_bytes payload.pending_public_key;
  dispatch_intent = Option.map ok payload.dispatch_intent;
  content = payload.content;
}

validate_pair-ok :
    (v : Vault) (seed k : Bytes)
    → Pair v seed k
    → validate_pair v (some (bytes seed)) (some (bytes k)) ≡ ok (seed, k)
unfolding validate_pair
validate_pair-ok v seed k p = simp (p.seed_length, p.public_key_length, p.derived, beq_refl k) refl

install_pending-ok :
    (v : Vault) (seed k public_key : Bytes)
    → Pair v seed k
    → (k == public_key) ≡ false
    → install_pending v (some (bytes seed)) (some (bytes k)) public_key ≡ ok (some (seed, k))
unfolding install_pending
install_pending-ok v seed k public_key p d = rw (validate_pair-ok v seed k p, d) refl

install_intent-ok :
    (v : Vault) (i : Option RotationBinding) (k seed' k' : Bytes)
    → IsIntent i k k'
    → install_intent v (Option.map ok i) k (some (seed', k')) ≡ ok i
unfolding install_intent IsIntent
install_intent-ok v none k seed' k' h = refl
install_intent-ok v (some i) k seed' k' (q, p, s) = rw (q, p, s, beq_refl k, beq_refl k') refl

-- A session's keys, stored and installed again, are the same session's.
pub install-stored_of :
    (v : Vault) (active pending : Option Bytes) (payload : Payload)
    → KeysOf v active pending payload
    → install v (stored_of active pending payload)
      ≡ ok (record { active_seed = active; pending_seed = pending; payload = payload })
unfolding install install_keys install_keyless stored_of Keys
install-stored_of v active pending payload h =
    go active payload.public_key pending payload.pending_public_key payload.dispatch_intent h
  where
    go :
        (a k p j : Option Bytes) (i : Option RotationBinding)
        → Keys v a k p j i
        → install v (
            stored_of a p
              (record payload { public_key = k; pending_public_key = j; dispatch_intent = i }))
          ≡ ok (record {
            active_seed = a;
            pending_seed = p;
            payload = record payload {
              public_key = k;
              pending_public_key = j;
              dispatch_intent = i;
            };
          })
    go none none none none none h = refl
    go (some s) (some k) none none none h = rw (validate_pair-ok v s k h) refl
    go (some s) (some k) (some s') (some k') i (p, p', d, n) =
        rw
          (
            validate_pair-ok v s k p,
            install_pending-ok v s' k' k p' d,
            install_intent-ok v i k s' k' n,
          )
          refl
    go none none none none (some _) h = elim h [ ]
    go none none none (some k') i h = elim h [ ]
    go none none (some s') j i h = elim h [ ]
    go none (some k) p j i h = elim h [ ]
    go (some s) none p j i h = elim h [ ]
    go (some s) (some k) none none (some _) h = elim h [ ]
    go (some s) (some k) none (some k') i h = elim h [ ]
    go (some s) (some k) (some s') none i h = elim h [ ]
