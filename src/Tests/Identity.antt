-- ===== src/Tests/Identity.antt =====
-- The properties of identity.py on the two envelopes of an owner, on two bundles, and on a latch.
use mathlib.Core.List.{Perm}
use decent_wallet.Identity.Bundle.Merge.{
  IdentityBundle, check_bundle, draft_eq, merge, proof_eq, proof_order, signer_ids,
}
use decent_wallet.Identity.Bundle.Sorted.{merge_lem, merge_sound}
use decent_wallet.Identity.Draft.Chain.{parse_previous_state_chain}
use decent_wallet.Identity.Draft.Create.{IdentityDraft}
use decent_wallet.Identity.Draft.Lineage.{
  Governed, Lineage, Origin, parse_previous_state_chain-Origin,
}
use decent_wallet.Identity.Envelope.Inversion.{Passed}
use decent_wallet.Identity.Envelope.Rules.{IsBound, Verdict}
use decent_wallet.Identity.Envelope.Verdict.{parse_identity_envelope_sound}
use decent_wallet.Identity.Error.{invalid_request}
use decent_wallet.Identity.Latch.{
  Latches, RotationBinding, binding_eq, is_dispatch_ready, register, rotation_binding, same_binding,
}
use decent_wallet.Identity.Latch.Entries.{LatchOp, clearing, latch_step, registering, run_latches}
use decent_wallet.Identity.Latch.Laws.{Granted, is_dispatch_ready-Granted, latch_step-keeps}
use decent_wallet.Identity.Transition.{validate_transition}
use decent_wallet.Identity.Transition.Authority.{Names, validate_transition-signer}
use decent_wallet.Prelude.{
  Bool, List, [], ap, arith, err, false, if◌then◌else◌, is_distinct, list_eq, nat_eq, none, ok,
  option_eq, pair_eq, refl, some, true, ℕ, ◌&&◌, ◌++◌, ◌==◌, ◌∷◌, ◌≡◌, ◌≢◌, ◌⊎◌,
}
use decent_wallet.Python.Dict.{assign, lookup}
use decent_wallet.Python.Order.{bytes_le, insert, sorted}
use decent_wallet.Python.Sorting.{IsOrdered}
use decent_wallet.Python.Text.{encode}
use decent_wallet.Python.Value.{Bytes}
use decent_wallet.Tests.Chain.{
  crypto, genesis_accepted, genesis_envelope, genesis_state, genesis_update, key_a, key_b,
  ordinary_accepted, ordinary_authorization, ordinary_envelope, ordinary_state, owner,
}
use decent_wallet.Tests.Codec.{digest, signed_by}

chain_accepted :
    parse_previous_state_chain crypto owner (some ordinary_envelope) (genesis_envelope ∷ [])
    ≡ ok (some ordinary_state)
unfolding parse_previous_state_chain
chain_accepted = rw (genesis_accepted, ordinary_accepted) refl

parse_identity_envelope_sound_example :
    IsBound crypto owner ordinary_envelope ordinary_state
    × Verdict crypto (some genesis_state) ordinary_state
parse_identity_envelope_sound_example =
    parse_identity_envelope_sound crypto owner ordinary_envelope (some genesis_state) refl
      ordinary_accepted

parse_previous_state_chain-Origin_example :
    (newest : Bytes) × (some ordinary_envelope ≡ some newest)
    × Lineage crypto owner (newest ∷ genesis_envelope ∷ []) (some ordinary_state)
    × Governed crypto ordinary_state
    × Origin crypto owner (newest ∷ genesis_envelope ∷ []) ordinary_state
parse_previous_state_chain-Origin_example =
    parse_previous_state_chain-Origin crypto owner (some ordinary_envelope) (genesis_envelope ∷ [])
      chain_accepted

next-Passed :
    Passed (validate_transition (some genesis_state) ordinary_authorization (some (97 ∷ [])) key_a)
unfolding validate_transition
next-Passed = refl

validate_transition-signer_example :
    ((genesis_state.signer_set ≡ []) × (key_a ≡ genesis_state.owner_public_key))
    ⊎ Names (some (97 ∷ [])) key_a genesis_state.signer_set
validate_transition-signer_example =
    validate_transition-signer genesis_state ordinary_authorization (some (97 ∷ [])) key_a
      next-Passed

abbrev draft : IdentityDraft
draft = record {
  signed_update_bytes = genesis_update;
  previous_state_envelope = none;
  previous_state_history = [];
}

abbrev first_bundle : IdentityBundle
first_bundle = record {
  draft = draft;
  proofs =
      record {
        signer_id = some (98 ∷ []);
        signer_public_key = key_b;
        signature = signed_by key_b genesis_update;
      }
      ∷ [];
}

abbrev second_bundle : IdentityBundle
second_bundle = record {
  draft = draft;
  proofs =
      record {
        signer_id = some (97 ∷ []);
        signer_public_key = key_a;
        signature = signed_by key_a genesis_update;
      }
      ∷ [];
}

abbrev merged_bundle : IdentityBundle
merged_bundle = record { draft = draft; proofs = second_bundle.proofs ++ first_bundle.proofs }

bundles_merged : merge first_bundle second_bundle ≡ ok merged_bundle
unfolding merge check_bundle sorted insert bytes_le encode
bundles_merged = refl

merge_lem_example : merge first_bundle second_bundle ≡ (
    if first_bundle.draft == second_bundle.draft
      && is_distinct (signer_ids (first_bundle.proofs ++ second_bundle.proofs))
    then ok (record {
      draft = draft;
      proofs = sorted proof_order (first_bundle.proofs ++ second_bundle.proofs);
    })
    else err invalid_request)
merge_lem_example = merge_lem first_bundle second_bundle

merge_sound_example :
    (merged_bundle.draft ≡ first_bundle.draft)
    × (first_bundle.draft ≡ second_bundle.draft)
    × Perm merged_bundle.proofs (first_bundle.proofs ++ second_bundle.proofs)
    × IsOrdered proof_order merged_bundle.proofs
    × (is_distinct (signer_ids merged_bundle.proofs) ≡ true)
merge_sound_example = merge_sound first_bundle second_bundle bundles_merged

abbrev binding : RotationBinding
binding = record {
  environment = some (100 ∷ []);
  owner_name = owner;
  predecessor_owner_public_key = key_a;
  successor_owner_public_key = key_b;
  predecessor_state_hash = digest genesis_update;
  sequence = 2;
  envelope_hash = digest ordinary_envelope;
}

abbrev latch_ops : List LatchOp
latch_ops = registering binding true ∷ registering binding false ∷ []

dispatch_ready : is_dispatch_ready binding (run_latches latch_ops) ≡ true
unfolding is_dispatch_ready run_latches register rotation_binding same_binding lookup assign
dispatch_ready = refl

is_dispatch_ready-Granted_example : Granted binding latch_ops
is_dispatch_ready-Granted_example = is_dispatch_ready-Granted binding latch_ops dispatch_ready

abbrev other_binding : RotationBinding
other_binding = record binding { sequence = 3 }

abbrev held : Latches
held = (owner, (binding, true)) ∷ []

latched : lookup owner held ≡ some (binding, true)
unfolding lookup
latched = refl

named : binding.environment ≢ none
named q = cc

abbrev op_sequence : LatchOp → ℕ
op_sequence (registering b ready) = b.sequence
op_sequence (clearing b) = b.sequence

is_other : clearing other_binding ≢ clearing binding
is_other q = let e : 3 ≡ 2 = ap op_sequence q in omega (arith, e)

latch_step-keeps_example :
    (later : Bool) × (lookup owner (latch_step (clearing other_binding) held)
      ≡ some (binding, later))
    × (true ≡ true → later ≡ true)
latch_step-keeps_example =
    latch_step-keeps (clearing other_binding) held owner binding true latched named is_other
