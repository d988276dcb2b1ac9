-- ===== src/Wallet/Legacy.antt =====
-- `signing_key_rotation_dispatch_intent` and `bind_legacy_rotation_dispatch_environment` of container.py.
-- The consent handler is given by what it answers and by the calls on the session that it makes.
use decent_wallet.Identity.Envelope.Operations.{has_value}
use decent_wallet.Identity.Latch.{RotationBinding, binding_eq}
use decent_wallet.Prelude.{
  Bool, List, Option, err, if◌then◌else◌, list_eq, nat_eq, none, not, ok, option_eq, pair_eq,
  reject_if, some, true, ◌!=◌, ◌||◌,
}
use decent_wallet.Python.Value.{Str}
use decent_wallet.Registry.Growth.{after}
use decent_wallet.Wallet.Calls.{Operation, perform_all}
use decent_wallet.Wallet.Intent.{
  Fallible, check_intent, invalid_request, valid_registry_environment,
}
use decent_wallet.Wallet.Session.{build_envelope, invalidate_capabilities, persist_envelope, touch}
use decent_wallet.Wallet.State.{
  Call, Method, Payload, Vault, Wallet, gets, lift, modify, pure, ◌>>=◌, ◌>>◌,
}

-- Whether the answer `is True`, or an exception.
abbrev pub BindingHandler : Type 0
BindingHandler = RotationBinding → Str → Wallet → Fallible Bool × List (Call × Operation)

abbrev pub present : Fallible RotationBinding → Fallible (Option RotationBinding)
present (err e) = err e
present (ok i) = ok (some i)

-- `RotationDispatchIntent._from_payload` of the payload's intent, where there is one.
unfoldable pub decode_intent : Option RotationBinding → Fallible (Option RotationBinding)
decode_intent none = ok none
decode_intent (some i) = present (check_intent i)

-- The intent without an environment, to which a valid one may be bound.
unfoldable pub legacy_intent : Option RotationBinding → Str → Fallible RotationBinding
legacy_intent none environment = err invalid_request
legacy_intent (some i) environment =
    if has_value i.environment || not (valid_registry_environment environment)
    then err invalid_request
    else ok i

abbrev pub consent_answer : Fallible Bool → Fallible Bool
consent_answer (ok b) = ok b
consent_answer (err e) = err invalid_request

module _ (v : Vault) where
  unfoldable pub signing_key_rotation_dispatch_intent : Call → Method (Option RotationBinding)
  signing_key_rotation_dispatch_intent call = do
    touch call.now
    λ w. (decode_intent w.payload.dispatch_intent, w)

  unfoldable pub approve_binding : BindingHandler → RotationBinding → Str → Method Bool
  approve_binding consent intent environment w =
      let (answer, calls) = consent intent environment w in
      (consent_answer answer, perform_all v calls w)

  -- Sealed, then no capability is left, then written.
  unfoldable pub store_bound : Call → Payload → Method (Unit {0})
  store_bound call updated = do
    envelope ← build_envelope v call updated none none true
    invalidate_capabilities
    persist_envelope v call envelope
    modify (λ w. record w { payload = updated; envelope = some envelope })

  -- What comes after the consent.
  unfoldable pub bind_environment : Call → RotationBinding → Str → Bool → Method RotationBinding
  bind_environment call intent environment approved = do
    touch call.now
    lift (reject_if (not approved) invalid_request)
    held ← signing_key_rotation_dispatch_intent call
    lift (reject_if (held != some intent) invalid_request)
    bound ← lift (check_intent (record intent { environment = some environment }))
    w ← gets (λ w. w)
    store_bound call (record w.payload { dispatch_intent = some bound })
    pure bound

  -- The first call is the one before the consent, the second the one after it.
  unfoldable pub bind_legacy_rotation_dispatch_environment :
      Call → Call → Str → BindingHandler → Method RotationBinding
  bind_legacy_rotation_dispatch_environment call after environment consent = do
    touch call.now
    held ← signing_key_rotation_dispatch_intent call
    intent ← lift (legacy_intent held environment)
    approved ← approve_binding consent intent environment
    bind_environment after intent environment approved
