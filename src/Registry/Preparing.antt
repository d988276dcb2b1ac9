-- ===== src/Registry/Preparing.antt =====
-- `RegistryAdapter.prepare_owner_key_rotation_publication` of identity.py in a safe adapter.
use decent_wallet.Crypto.{Crypto}
use decent_wallet.Identity.Bundle.Finalize.{draft_previous_state, finalize}
use decent_wallet.Identity.Bundle.Merge.{IdentityBundle, draft_eq}
use decent_wallet.Identity.Error.{invalid_request}
use decent_wallet.Identity.Latch.{is_owner_latched}
use decent_wallet.Identity.Require.{require_bytes}
use decent_wallet.Identity.State.{same_state}
use decent_wallet.Identity.Update.{SignedUpdate, decode_signed_update}
use decent_wallet.Prelude.{
  Option, false, if◌then◌else◌, leb, list_eq, nat_eq, none, not, option_eq, or_raise, pair_eq, refl,
  reject_if, some, ◌≡◌,
}
use decent_wallet.Python.Value.{Bytes}
use decent_wallet.Registry.Asking.{Gated, bind-Ends, consent_gate-Gated}
use decent_wallet.Registry.Consent.{ConsentTranscript, check_transcript}
use decent_wallet.Registry.Gate.{Refusal, consent_gate}
use decent_wallet.Registry.Growth.{
  Grows, Grows-refl, Grows-trans, Leaves, bind-Leaves, if-Leaves, lift-Leaves, observe-Grows,
}
use decent_wallet.Registry.Guards.{Approved, Approved-Quietly, Safe, Safe-Grows}
use decent_wallet.Registry.Prepare.{
  Candidate, environment_is, mint_publication, prepare_approved, prepare_available, prepare_checked,
  prepare_gated, prepare_owner_key_rotation_publication,
}
use decent_wallet.Registry.Publishing.{asked_for, check_transcript-same, read-then}
use decent_wallet.Registry.Quiet.{environment_matches-Grows, transport_available-Grows}
use decent_wallet.Registry.Read.{rotation_environment_matches, rotation_transport_available}
use decent_wallet.Registry.Request.{ConsentRequest, is_rotation, publication_transcript}
use decent_wallet.Registry.Rotating.{quiet-then}
use decent_wallet.Registry.State.{Registry, observe, pure}
use decent_wallet.Registry.World.{World, clock_read}
use decent_wallet.Wallet.Intent.{valid_registry_environment}

module _ (c : Crypto) (w : World) where
  mint-Safe :
      (q : ConsentRequest) (x : Candidate) (r : Registry)
      → Safe c w r
      → Approved c w x.envelope q.expires_at r.history
      → Leaves (Safe c w) (mint_publication c w q x r)
  unfolding mint_publication
  mint-Safe q x r s yea = record {
    guarded = s.guarded;
    approved = (yea, s.approved);
    known = s.known;
  }

  prepare_approved-Safe :
      (q : ConsentRequest) (x : Candidate) (r : Registry)
      → Safe c w r
      → Approved c w x.envelope q.expires_at r.history
      → Leaves (Safe c w) (prepare_approved c w q x r)
  unfolding prepare_approved
  prepare_approved-Safe q x r s yea =
      bind-Leaves (Grows r) (Safe c w) (rotation_environment_matches w (some q.environment) r) _
        (environment_matches-Grows w (some q.environment) r) (λ r1 g. Safe-Grows c w g s)
        (λ before r1 e1 g1.
          if-Leaves (Safe c w) (not before) _ _ r1 (λ p. Safe-Grows c w g1 s)
            (λ p. read-then c w x.owner_name r1 _ (Safe-Grows c w g1 s) (λ current r2 g2.
              bind-Leaves (Grows r2) (Safe c w)
                (rotation_environment_matches w (some q.environment) r2) _
                (environment_matches-Grows w (some q.environment) r2)
                (λ r3 g3. Safe-Grows c w (Grows-trans g1 (Grows-trans g2 g3)) s)
                (λ holds r3 e3 g3.
                  let g = Grows-trans g1 (Grows-trans g2 g3) in
                  let s3 = Safe-Grows c w g s in
                  if-Leaves (Safe c w) (not holds) _ _ r3 (λ a. s3)
                    (λ a.
                      if-Leaves (Safe c w) (not (same_state (some x.previous) current)) _ _ r3
                        (λ b. s3)
                        (λ b.
                          let now = w.time r3.history in
                          let r4 = observe w (clock_read now) r3 in
                          let g4 = Grows-trans g (observe-Grows w (clock_read now) r3 tt) in
                          let s4 = Safe-Grows c w g4 s in
                          if-Leaves (Safe c w) (leb q.expires_at now) _ _ r4 (λ d. s4)
                            (λ d.
                              mint-Safe q x r4 s4
                                (Approved-Quietly c w x.envelope q.expires_at g4.quietly yea))))))))

  abbrev asked : ConsentRequest → Candidate → ConsentTranscript
  asked q x =
      publication_transcript c q x.update.authorization (some x.previous) x.update.sequence
        x.envelope

  prepare_gated-Safe :
      (q : ConsentRequest) (x : Candidate) (refusal : Option Refusal) (t : ConsentTranscript)
      (r : Registry)
      → t ≡ asked q x
      → Gated c w t refusal r
      → Leaves (Safe c w) (prepare_gated c w q x refusal r)
  prepare_gated-Safe q x (some (status, reason)) t r e gate = gate.0
  prepare_gated-Safe q x none t r e gate = prepare_approved-Safe q x r gate.0 (
      asked_for c w q x.update.authorization (some x.previous) x.update.sequence x.envelope t
        r.history e (gate.1 refl))

  prepare_checked-Safe :
      (q : ConsentRequest) (x : Candidate) (r : Registry)
      → Safe c w r
      → Leaves (Safe c w) (prepare_checked c w q x r)
  unfolding prepare_checked
  prepare_checked-Safe q x r s = read-then c w x.owner_name r _ s (λ current r1 g1.
      quiet-then c w (rotation_environment_matches w (some q.environment) r1) _
        (Safe-Grows c w g1 s) (environment_matches-Grows w (some q.environment) r1)
        (λ holds r2 s2.
          if-Leaves (Safe c w) (not holds) _ _ r2 (λ a. s2)
            (λ a.
              if-Leaves (Safe c w) (not (same_state (some x.previous) current)) _ _ r2 (λ b. s2)
                (λ b. lift-Leaves (Safe c w) (check_transcript c (asked q x)) r2 _ s2 (λ t e.
                  bind-Ends (Gated c w t) (Safe c w) (Safe c w) (consent_gate c w x.owner_name t r2)
                    _ (consent_gate-Gated c w x.owner_name t r2 s2) (λ r3 s3. s3)
                    (λ refusal r3 gate.
                      prepare_gated-Safe q x refusal t r3
                        (check_transcript-same c w (asked q x) t e) gate))))))

  prepare_available-Safe :
      (b : IdentityBundle) (q : ConsentRequest) (u : SignedUpdate) (owner : Bytes) (r : Registry)
      → Safe c w r
      → Leaves (Safe c w) (prepare_available c w b q u owner r)
  prepare_available-Safe b q u owner r s =
      quiet-then c w
        ((if valid_registry_environment q.environment then environment_is c w q else pure false) r)
        _ s
        (if-Leaves (Grows r) (valid_registry_environment q.environment) _ _ r
          (λ a. environment_matches-Grows w (some q.environment) r) (λ a. Grows-refl r))
        (λ holds r1 s1.
          if-Leaves (Safe c w) (not holds) _ _ r1 (λ a. s1)
            (λ a. lift-Leaves (Safe c w) (finalize c b) r1 _ s1 (λ envelope e1.
              lift-Leaves (Safe c w) (draft_previous_state c b.draft) r1 _ s1 (λ found e2.
                lift-Leaves (Safe c w) (or_raise found invalid_request) r1 _ s1
                  (λ previous e3. prepare_checked-Safe q _ r1 s1)))))

  pub prepare-Safe :
      (b : IdentityBundle) (q : ConsentRequest) (r : Registry)
      → Safe c w r
      → Leaves (Safe c w) (prepare_owner_key_rotation_publication c w b q r)
  unfolding prepare_owner_key_rotation_publication
  prepare-Safe b q r s =
      lift-Leaves (Safe c w) (decode_signed_update c b.draft.signed_update_bytes) r _ s (λ u e1.
        lift-Leaves (Safe c w) (require_bytes none false u.record_name) r _ s (λ owner e2.
          if-Leaves (Safe c w) (is_owner_latched owner r.latches) _ _ r (λ a. s)
            (λ a.
              lift-Leaves (Safe c w) (reject_if (not (is_rotation u.authorization)) invalid_request)
                r _ s
                (λ x e3.
                  quiet-then c w (rotation_transport_available w r) _ s
                    (transport_available-Grows w r)
                    (λ available r1 s1.
                      if-Leaves (Safe c w) (not available) _ _ r1 (λ d. s1)
                        (λ d. prepare_available-Safe b q u owner r1 s1))))))
