-- ===== src/Registry/Calls.antt =====
-- Sequences of calls of `RegistryAdapter` of identity.py, with those that the wallet makes through a
-- publication.
use decent_wallet.Crypto.{Crypto}
use decent_wallet.Identity.Bundle.Merge.{IdentityBundle}
use decent_wallet.Identity.Draft.Create.{IdentityDraft}
use decent_wallet.Identity.Draft.Make.{create}
use decent_wallet.Identity.Error.{Checked, invalid_request}
use decent_wallet.Identity.Latch.{Latches, RotationBinding, binding_eq, is_owner_latched}
use decent_wallet.Identity.Require.{key_length, require_bytes, validate_owner_name}
use decent_wallet.Prelude.{
  Bool, List, Option, [], false, list_eq, nat_eq, none, not, ok, ok-injective, option_eq, or_raise,
  pair_eq, reject_if, reject_if-eq-ok, some, subst, ℕ, ◌+◌, ◌==◌, ◌>>=◌, ◌∷◌, ◌≡◌,
}
use decent_wallet.Python.Dict.{lookup}
use decent_wallet.Python.Value.{Bytes, Str, Value, bytes}
use decent_wallet.Registry.Accepting.{sign_draft-Safe, submit_identity-Safe}
use decent_wallet.Registry.Confirm.{confirm_owner_key_rotation}
use decent_wallet.Registry.Dispatch.{RotationDispatchPermit, dispatch_owner_key_rotation}
use decent_wallet.Registry.Drafts.{
  create_draft, create_owner_key_rotation_draft, envelope_of, history_of, next_sequence, other_key,
  rotation_authorization,
}
use decent_wallet.Registry.Growth.{Leaves, leave, left, lift-Leaves}
use decent_wallet.Registry.Guards.{Guarded, Leaves-Safe, Safe, Safe-Grows}
use decent_wallet.Registry.Prepare.{prepare_owner_key_rotation_publication}
use decent_wallet.Registry.Preparing.{prepare-Safe}
use decent_wallet.Registry.Publication.{clear_publication_latch, mark_latched}
use decent_wallet.Registry.Publish.{confirm_bundle, publish_bundle}
use decent_wallet.Registry.Publishing.{confirm_bundle-Safe, publish_bundle-Safe, read-then}
use decent_wallet.Registry.Quiet.{read_state-Grows}
use decent_wallet.Registry.Read.{read_state}
use decent_wallet.Registry.Request.{ConsentRequest}
use decent_wallet.Registry.Rotating.{confirm_rotation-Safe, with_latches}
use decent_wallet.Registry.Sending.{dispatch-Safe}
use decent_wallet.Registry.State.{Registry, RotationPublication}
use decent_wallet.Registry.Submission.{Submission}
use decent_wallet.Registry.Submit.{sign_draft, submit_identity}
use decent_wallet.Registry.World.{World}
use decent_wallet.Wallet.Intent.{valid_registry_environment}

abbrev pub empty_registry : Option Str → ℕ → Registry
empty_registry environment token = record {
  registry_environment = environment;
  rotation_token = token;
  latches = [];
  nonces = [];
  publications = [];
  consumed = [];
  held = none;
  history = [];
}

abbrev is_bad_environment : Option Str → Bool
is_bad_environment none = false
is_bad_environment (some e) = not (valid_registry_environment e)

-- `RegistryAdapter.__init__`
unfoldable pub create_registry : Option Str → ℕ → Checked Registry
create_registry environment token =
    reject_if (is_bad_environment environment) invalid_request >>= λ _.
    ok (empty_registry environment token)

pub data Request : Type 0 where
  reading : Bytes → Request
  drafting : Bytes → Bytes → Option Value → Request
  drafting_rotation : Bytes → Bytes → Option (List Value) → Request
  submitting : Submission → Request
  signing : IdentityDraft → Bytes → ConsentRequest → Option Str → Request
  publishing : IdentityBundle → ConsentRequest → Request
  confirming : IdentityBundle → Request
  preparing : IdentityBundle → ConsentRequest → Request
  dispatching : ℕ → RotationDispatchPermit → Request
  confirming_rotation : RotationBinding → Request
  -- the wallet's calls, for a publication
  latching : ℕ → RotationBinding → Request
  unlatching : ℕ → RotationBinding → Request

module _ (c : Crypto) (w : World) where
  abbrev with_publication :
      (RotationPublication → Latches → Latches × Bool)
      → Option RotationPublication
      → Registry
      → Registry
  with_publication f none r = r
  with_publication f (some p) r = record r { latches = (f p r.latches).0 }

  unfoldable pub perform : Request → Registry → Registry
  perform (reading owner) r = (read_state c w owner r).1
  perform (drafting owner k authorization) r = (create_draft c w owner k authorization r).1
  perform (drafting_rotation owner k items) r =
      (create_owner_key_rotation_draft c w owner k items r).1
  perform (submitting x) r = (submit_identity c w x r).1
  perform (signing d k q i) r = (sign_draft c w d k q i r).1
  perform (publishing b q) r = (publish_bundle c w b q r).1
  perform (confirming b) r = (confirm_bundle c w b r).1
  perform (preparing b q) r = (prepare_owner_key_rotation_publication c w b q r).1
  perform (dispatching handle permit) r = (dispatch_owner_key_rotation c w handle permit r).1
  perform (confirming_rotation i) r = (confirm_owner_key_rotation c w i r).1
  perform (latching handle i) r =
      with_publication (λ p. mark_latched c p i) (lookup handle r.publications) r
  perform (unlatching handle i) r =
      with_publication (λ p. clear_publication_latch c p i) (lookup handle r.publications) r

  unfoldable pub perform_all : List Request → Registry → Registry
  perform_all [] r = r
  perform_all (x ∷ xs) r = perform_all xs (perform x r)

  create_draft-Safe :
      (owner k : Bytes) (a : Option Value) (r : Registry)
      → Safe c w r
      → Leaves (Safe c w) (create_draft c w owner k a r)
  unfolding create_draft
  create_draft-Safe owner k a r s =
      lift-Leaves (Safe c w) (validate_owner_name owner) r _ s (λ name e1.
        lift-Leaves (Safe c w) (require_bytes (some key_length) false (bytes k)) r _ s (λ j e2.
          read-then c w name r _ s (λ o r1 g.
            let s1 = Safe-Grows c w g s in
            lift-Leaves (Safe c w) (reject_if (other_key j o) invalid_request) r1 _ s1 (λ u e3.
              leave (Safe c w)
                (create c name j (next_sequence o) a (envelope_of o) (history_of o), r1) s1))))

  create_rotation-Safe :
      (owner k : Bytes) (items : Option (List Value)) (r : Registry)
      → Safe c w r
      → Leaves (Safe c w) (create_owner_key_rotation_draft c w owner k items r)
  unfolding create_owner_key_rotation_draft
  create_rotation-Safe owner k items r s =
      lift-Leaves (Safe c w) (validate_owner_name owner) r _ s (λ name e1.
        lift-Leaves (Safe c w) (reject_if (is_owner_latched name r.latches) invalid_request) r _ s
          (λ u e2.
            lift-Leaves (Safe c w) (require_bytes (some key_length) false (bytes k)) r _ s (λ j e3.
              read-then c w name r _ s (λ o r1 g.
                let s1 = Safe-Grows c w g s in
                lift-Leaves (Safe c w) (or_raise o invalid_request) r1 _ s1 (λ p e4.
                  lift-Leaves (Safe c w) (reject_if (j == p.owner_public_key) invalid_request) r1 _
                    s1
                    (λ u1 e5.
                      lift-Leaves (Safe c w) (rotation_authorization p items) r1 _ s1 (λ a e6.
                        leave (Safe c w)
                          (
                            create c name j (p.sequence + 1) (some a) (some p.envelope_bytes)
                                p.predecessor_envelopes,
                            r1,
                          )
                          s1)))))))

  with_publication-Safe :
      (f : RotationPublication → Latches → Latches × Bool) (o : Option RotationPublication)
      (r : Registry)
      → Safe c w r
      → Safe c w (with_publication f o r)
  with_publication-Safe f none r s = s
  with_publication-Safe f (some p) r s = with_latches c w (f p r.latches).0 r s

  perform-Safe : (x : Request) (r : Registry) → Safe c w r → Safe c w (perform x r)
  unfolding perform
  perform-Safe (reading owner) r s =
      left (Safe c w) _ (Leaves-Safe c w (read_state c w owner r) s (read_state-Grows c w owner r))
  perform-Safe (drafting owner k a) r s = left (Safe c w) _ (create_draft-Safe owner k a r s)
  perform-Safe (drafting_rotation owner k items) r s =
      left (Safe c w) _ (create_rotation-Safe owner k items r s)
  perform-Safe (submitting x) r s = left (Safe c w) _ (submit_identity-Safe c w x r s)
  perform-Safe (signing d k q i) r s = left (Safe c w) _ (sign_draft-Safe c w d k q i r s)
  perform-Safe (publishing b q) r s = left (Safe c w) _ (publish_bundle-Safe c w b q r s)
  perform-Safe (confirming b) r s = left (Safe c w) _ (confirm_bundle-Safe c w b r s)
  perform-Safe (preparing b q) r s = left (Safe c w) _ (prepare-Safe c w b q r s)
  perform-Safe (dispatching handle permit) r s =
      left (Safe c w) _ (dispatch-Safe c w handle permit r s)
  perform-Safe (confirming_rotation i) r s = left (Safe c w) _ (confirm_rotation-Safe c w i r s)
  perform-Safe (latching handle i) r s =
      with_publication-Safe (λ p. mark_latched c p i) (lookup handle r.publications) r s
  perform-Safe (unlatching handle i) r s =
      with_publication-Safe (λ p. clear_publication_latch c p i) (lookup handle r.publications) r s

  perform_all-Safe : (xs : List Request) (r : Registry) → Safe c w r → Safe c w (perform_all xs r)
  unfolding perform_all
  perform_all-Safe [] r s = s
  perform_all-Safe (x ∷ xs) r s = perform_all-Safe xs (perform x r) (perform-Safe x r s)

  create_registry-Safe :
      (environment : Option Str) (token : ℕ) (r : Registry)
      → create_registry environment token ≡ ok r
      → Safe c w r
  unfolding create_registry
  create_registry-Safe environment token r h =
      let (good, h1) =
        reject_if-eq-ok (is_bad_environment environment) invalid_request
          (ok (empty_registry environment token)) h in
      subst (Safe c w) (ok-injective h1)
        (record { guarded = tt; approved = tt; known = λ own k o. absurd o })

  -- Whatever is asked of a new adapter, in any order, with any answers of the transport, the clock, the
  -- handlers and the signers: each write is of an envelope that a consent handler has approved, up to a
  -- deadline that the clock had not reached when it was last read, and was made while the owner had no
  -- latched rotation or one that waits for that very envelope; each question to a consent handler came
  -- right after its nonce was taken; and the adapter's own store gave no nonce away twice.
  pub perform_all-Guarded :
      (environment : Option Str) (token : ℕ) (xs : List Request) {r : Registry}
      → create_registry environment token ≡ ok r
      → Guarded c w (perform_all xs r).history
  perform_all-Guarded environment token xs {r} h =
      (perform_all-Safe xs r (create_registry-Safe environment token r h)).guarded
