-- ===== src/Registry/World.antt =====
-- What the adapter of identity.py is connected to: the transport, the replay store, the clock, the
-- consent handler and the signers. Each answer may depend on every call so far, so that anything may
-- change between two calls; an `err` is an exception.
use decent_wallet.Identity.Error.{Checked}
use decent_wallet.Identity.Latch.{RotationBinding}
use decent_wallet.Identity.Latch.Entries.{LatchOp}
use decent_wallet.Prelude.{Bool, List, Option, ℕ}
use decent_wallet.Python.Value.{Bytes, Str, Value}
use decent_wallet.Registry.Consent.{ConsentTranscript}

pub data Event : Type 0 where
  envelope_read : Bytes → Checked (Option Bytes) → Event
  predecessor_read : Bytes → Bytes → Checked (Option Bytes) → Event
  remote_read : Bytes → Checked (Option Bytes) → Event
  -- the owner, the envelope, the expected hash and the deadline; then the owner's latch at the time
  envelope_put :
      Bytes
      → Bytes
      → Option Bytes
      → ℕ
      → Option (RotationBinding × Bool)
      → Checked (Unit {0})
      → Event
  rotation_support_asked : Checked Bool → Event
  environment_asked : Checked (Option Str) → Event
  clock_read : ℕ → Event
  consent_asked : ConsentTranscript → Checked Value → Event
  nonce_consumed : Bytes → Checked Bool → Event
  signer_made : Checked (Unit {0}) → Event
  signer_key_read : Checked Bytes → Event
  signer_asked : Checked Bool → Event
  update_signed : Bytes → Checked Value → Event
  signer_invalidated : Checked (Unit {0}) → Event

-- Newest first.
abbrev pub History : Type 0
History = List Event

pub record World : Type 0 where
  -- `IdentityTransport`; an owner's name stands for its `hex()`
  pub get_identity_envelope : History → Bytes → Checked (Option Bytes)
  pub get_identity_envelope_by_hash : History → Bytes → Bytes → Checked (Option Bytes)
  pub get_remote_identity_envelope : History → Bytes → Checked (Option Bytes)
  pub put_identity_envelope : History → Bytes → Bytes → Option Bytes → ℕ → Checked (Unit {0})
  -- the flag is `True` and the remote read is there
  pub supports_owner_key_rotation : History → Checked Bool
  -- none: the transport has no such attribute
  pub registry_environment : History → Checked (Option Str)
  -- `int(time.time())`
  pub time : History → ℕ
  pub consent : History → ConsentTranscript → Checked Value
  -- none: the adapter has made an `InMemoryReplayNonceStore`
  pub replay_store : Option (History → Bytes → Checked Bool)
  -- `signer_factory()`, and the calls of that signer
  pub make_signer : History → Checked (Unit {0})
  pub signer_public_key : History → Checked Bytes
  pub signer_is_active : History → Checked Bool
  pub ask_signature : History → Bytes → Checked Value
  pub invalidate_signer : History → Checked (Unit {0})
  -- the registrations and clearings of other threads during a call
  pub meanwhile : History → List LatchOp
