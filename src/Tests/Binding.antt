-- ===== src/Tests/Binding.antt =====
-- `bind_legacy_rotation_dispatch_environment` of container.py on a session with a legacy intent.
use decent_wallet.Identity.Latch.{RotationBinding, binding_eq}
use decent_wallet.Identity.Require.{zeros}
use decent_wallet.Prelude.{
  Option, [], err, false, inr, list_eq, nat_eq, none, ok, option_eq, pair_eq, refl, some, true, ◌∷◌,
  ◌≡◌,
}
use decent_wallet.Python.Text.{is_utf8}
use decent_wallet.Python.Value.{end}
use decent_wallet.Storage.Atomic.{atomic_write, content_of, stage_file}
use decent_wallet.Tests.Session.{at, intent, payload, seed, session, successor_key, vault}
use decent_wallet.Wallet.Bound.{Rebound, bind_legacy_rotation_dispatch_environment-Rebound}
use decent_wallet.Wallet.Calls.{update}
use decent_wallet.Wallet.Commit.{commit}
use decent_wallet.Wallet.Intent.{Fallible, check_intent, valid_registry_environment}
use decent_wallet.Wallet.Keys.{IsIntent, Keys, KeysOf}
use decent_wallet.Wallet.Legacy.{
  BindingHandler, approve_binding, bind_environment, bind_legacy_rotation_dispatch_environment,
  decode_intent, legacy_intent, signing_key_rotation_dispatch_intent, store_bound,
}
use decent_wallet.Wallet.Rotation.{update_payload}
use decent_wallet.Wallet.Session.{
  build_envelope, check_inactivity, invalidate_capabilities, payload_for_storage, persist_envelope,
  storage_key, storage_pending, touch,
}
use decent_wallet.Wallet.Sound.{Outcome, Sound}
use decent_wallet.Wallet.State.{Wallet}

abbrev legacy : RotationBinding
legacy = record intent { environment = none }

abbrev legacy_session : Wallet
legacy_session = record session {
  pending_seed = some (31 ∷ zeros 31);
  payload = record payload {
    pending_public_key = some successor_key;
    dispatch_intent = some legacy;
  };
}

-- The handler updates the payload and approves.
abbrev approving : BindingHandler
approving i environment w = (ok true, (at 20 false, update end) ∷ [])

abbrev bound_run : Fallible RotationBinding × Wallet
bound_run =
    bind_legacy_rotation_dispatch_environment vault (at 10 false) (at 30 false) (100 ∷ []) approving
      legacy_session

abbrev returned : Fallible RotationBinding → Option RotationBinding
returned (ok i) = some i
returned (err e) = none

bind_legacy_returns :
    (returned bound_run.0 ≡ some intent) × (content_of bound_run.1.target ≡ some (30 ∷ 9 ∷ []))
unfolding bind_legacy_rotation_dispatch_environment signing_key_rotation_dispatch_intent
    decode_intent legacy_intent approve_binding bind_environment store_bound
    decent_wallet.Wallet.Calls.perform_all decent_wallet.Wallet.Calls.perform update_payload touch
    check_inactivity check_intent valid_registry_environment is_utf8 invalidate_capabilities commit
    build_envelope payload_for_storage storage_key storage_pending persist_envelope atomic_write
    stage_file
bind_legacy_returns = (refl, refl)

legacy_checked : check_intent legacy ≡ ok legacy
unfolding check_intent is_utf8
legacy_checked = refl

legacy_keys : KeysOf vault (some seed) (some (31 ∷ zeros 31)) legacy_session.payload
unfolding Keys IsIntent
legacy_keys = (
  record { seed_length = refl; public_key_length = refl; derived = refl },
  record { seed_length = refl; public_key_length = refl; derived = refl },
  refl,
  (legacy_checked, refl, refl),
)

legacy_stored : Sound vault legacy_session
legacy_stored = inr (record {
  data_key = 9 ∷ [];
  content = 5 ∷ 9 ∷ [];
  nonce = 5;
  current = [];
  has_dek = refl;
  on_disk = refl;
  in_memory = refl;
  sealed = refl;
  keys = legacy_keys;
})

bind_legacy_rotation_dispatch_environment-Rebound_example :
    Outcome vault (Rebound vault approving (100 ∷ []) legacy_session) bound_run
bind_legacy_rotation_dispatch_environment-Rebound_example =
    bind_legacy_rotation_dispatch_environment-Rebound vault approving (100 ∷ []) (at 10 false)
      (at 30 false) legacy_session legacy_stored
