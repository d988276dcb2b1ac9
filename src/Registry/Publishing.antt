-- ===== src/Registry/Publishing.antt =====
-- `RegistryAdapter.publish_bundle` and `confirm_bundle` of identity.py in a safe adapter.
use decent_wallet.Crypto.{Crypto}
use decent_wallet.Identity.Authorization.{Authorization}
use decent_wallet.Identity.Bundle.Finalize.{draft_previous_state, finalize}
use decent_wallet.Identity.Bundle.Merge.{IdentityBundle, draft_eq, proof_eq}
use decent_wallet.Identity.Error.{
  Checked, expired_publication, invalid_request, invalid_state, stale_publication,
  transport_failure, unexpected,
}
use decent_wallet.Identity.Latch.{Latches, is_owner_latched}
use decent_wallet.Identity.Require.{require_bytes}
use decent_wallet.Identity.State.{IdentityState, same_state}
use decent_wallet.Identity.Update.{SignedUpdate, decode_signed_update}
use decent_wallet.Prelude.{
  Option, ap, arith, err, false, inl, is_empty, leb, list_eq, nat_eq, none, not, ok, option_eq,
  pair_eq, refl, reject_if, some, true, ℕ, ◌≡◌, ◌≢◌,
}
use decent_wallet.Python.Dict.{has, lookup}
use decent_wallet.Python.Value.{Bytes}
use decent_wallet.Registry.Asking.{Gated, bind-Ends, consent_gate-Gated}
use decent_wallet.Registry.Consent.{ConsentTranscript, check_transcript}
use decent_wallet.Registry.Gate.{
  Reason, Refusal, consent_gate, readback_did_not_confirm_dispatch,
  readback_did_not_confirm_envelope,
}
use decent_wallet.Registry.Growth.{
  Grows, Grows-trans, Leaves, bind-Leaves, if-Leaves, lift-Leaves, observe-Grows,
}
use decent_wallet.Registry.Guards.{
  Approved, Approved-Quietly, Consented, Free, Fresh, Leaves-Safe, Safe, Safe-Grows, Safe-hold,
  step-Safe,
}
use decent_wallet.Registry.Publish.{
  confirm_bundle, gated, guarded_put, publish_approved, publish_bundle, publish_checked, sent,
}
use decent_wallet.Registry.Quiet.{confirm_publication-Grows, read_state-Grows}
use decent_wallet.Registry.Read.{read_state}
use decent_wallet.Registry.Request.{
  ConsentRequest, confirm_publication, hash_of, is_rotation, publication_transcript,
}
use decent_wallet.Registry.State.{Handler, Registry, bind, hold, locked, observe, put, release}
use decent_wallet.Registry.World.{History, World, clock_read, envelope_put, nonce_consumed}

-- The lock's owner is no part of what makes the adapter safe.
pub locked-Safe :
    {A : Type 0} (c : Crypto) (w : World) (owner : Bytes) (m : Handler A) (r : Registry)
    → Leaves (Safe c w) (m (hold (some owner) r))
    → Leaves (Safe c w) (locked owner m r)
locked-Safe {A} c w owner m r h = given (m (hold (some owner) r)) h
  where
    given : (q : Checked A × Registry) → Leaves (Safe c w) q → Leaves (Safe c w) (release r.held q)
    given (ok a, r') s = Safe-hold c w r.held r' s
    given (err e, r') s = Safe-hold c w r.held r' s

pub not_latched :
    (owner : Bytes) (m : Latches) → is_owner_latched owner m ≡ false → lookup owner m ≡ none
unfolding is_owner_latched has
not_latched owner m h = ground arith

module _ (c : Crypto) (w : World) where
  pub put-Safe :
      (owner envelope : Bytes) (expected : Option Bytes) (deadline : ℕ) (r : Registry)
      → Safe c w r
      → Approved c w envelope deadline r.history
      → Fresh c w deadline r.history
      → Free c w envelope (lookup owner r.latches)
      → Safe c w (put w owner envelope expected deadline r).1
  put-Safe owner envelope expected deadline r s yea soon free =
      step-Safe c w (envelope_put owner envelope expected deadline (lookup owner r.latches) _) r s
        (yea, soon, free) not_nonce
    where
      not_nonce :
          (k : Bytes)
          → envelope_put owner envelope expected deadline
              (lookup owner r.latches)
              (w.put_identity_envelope r.history owner envelope expected deadline)
            ≢ nonce_consumed k (ok true)
      not_nonce k p = cc

  guarded_put-Safe :
      (owner envelope : Bytes) (current : Option IdentityState) (deadline : ℕ) (r : Registry)
      → Safe c w r
      → Approved c w envelope deadline r.history
      → Fresh c w deadline r.history
      → Leaves (Safe c w) (guarded_put c w owner envelope current deadline r)
  guarded_put-Safe owner envelope current deadline r s yea soon =
      if-Leaves (Safe c w) (is_owner_latched owner r.latches) _ _ r (λ p. s)
        (λ p.
          put-Safe owner envelope (hash_of current) deadline r s yea soon
            (inl (not_latched owner r.latches p)))

  pub confirm_publication-Safe :
      (owner envelope : Bytes) (previous : Option IdentityState) (why : Reason) (r : Registry)
      → Safe c w r
      → Leaves (Safe c w) (confirm_publication c w owner envelope previous why r)
  confirm_publication-Safe owner envelope previous why r s =
      Leaves-Safe c w (confirm_publication c w owner envelope previous why r) s
        (confirm_publication-Grows c w owner envelope previous why r)

  sent-Safe :
      (owner envelope : Bytes) (previous : Option IdentityState) (a : Option (Checked (Unit {0})))
      (r : Registry)
      → Safe c w r
      → Leaves (Safe c w) (sent c w owner envelope previous a r)
  sent-Safe owner envelope previous none r s = s
  sent-Safe owner envelope previous (some (ok u)) r s =
      confirm_publication-Safe owner envelope previous readback_did_not_confirm_envelope r s
  sent-Safe owner envelope previous (some (err stale_publication)) r s = s
  sent-Safe owner envelope previous (some (err expired_publication)) r s = s
  sent-Safe owner envelope previous (some (err invalid_state)) r s =
      confirm_publication-Safe owner envelope previous readback_did_not_confirm_dispatch r s
  sent-Safe owner envelope previous (some (err invalid_request)) r s =
      confirm_publication-Safe owner envelope previous readback_did_not_confirm_dispatch r s
  sent-Safe owner envelope previous (some (err transport_failure)) r s =
      confirm_publication-Safe owner envelope previous readback_did_not_confirm_dispatch r s
  sent-Safe owner envelope previous (some (err unexpected)) r s =
      confirm_publication-Safe owner envelope previous readback_did_not_confirm_dispatch r s

  -- The accepted state is read, and then there is more to do.
  pub read-then :
      {B : Type 0} (owner : Bytes) (r : Registry) (f : Option IdentityState → Handler B)
      → Safe c w r
      → ((current : Option IdentityState) (r1 : Registry)
          → Grows r r1
          → Leaves (Safe c w) (f current r1))
      → Leaves (Safe c w) (bind (read_state c w owner r) f)
  read-then owner r f s k =
      bind-Leaves (Grows r) (Safe c w) (read_state c w owner r) f (read_state-Grows c w owner r)
        (λ r1 g. Safe-Grows c w g s) (λ current r1 e g. k current r1 g)

  publish_approved-Safe :
      (owner envelope : Bytes) (previous : Option IdentityState) (deadline : ℕ) (r : Registry)
      → Safe c w r
      → Approved c w envelope deadline r.history
      → Leaves (Safe c w) (publish_approved c w owner envelope previous deadline r)
  unfolding publish_approved
  publish_approved-Safe owner envelope previous deadline r s yea =
      read-then owner r _ s (λ current r1 g.
        if-Leaves (Safe c w) (not (same_state previous current)) _ _ r1 (λ p. Safe-Grows c w g s)
          (λ p.
            let now = w.time r1.history in
            let r2 = observe w (clock_read now) r1 in
            let g2 = Grows-trans g (observe-Grows w (clock_read now) r1 tt) in
            let s2 = Safe-Grows c w g2 s in
            if-Leaves (Safe c w) (leb deadline now) _ _ r2 (λ q. s2)
              (λ q.
                bind-Leaves (Safe c w) (Safe c w)
                  (locked owner (guarded_put c w owner envelope current deadline) r2) _
                  (locked-Safe c w owner (guarded_put c w owner envelope current deadline) r2 (
                    guarded_put-Safe owner envelope current deadline (hold (some owner) r2)
                      (Safe-hold c w (some owner) r2 s2)
                      (Approved-Quietly c w envelope deadline g2.quietly yea) (ground arith)))
                  (λ r3 s3. s3) (λ a r3 e3 s3. sent-Safe owner envelope previous a r3 s3))))

  -- The transcript that the caller has built, checked.
  pub check_transcript-same : (t u : ConsentTranscript) → check_transcript c t ≡ ok u → u ≡ t
  unfolding check_transcript
  check_transcript-same t u h = ground arith

  -- An approval of the transcript of a publication.
  pub asked_for :
      (q : ConsentRequest) (authorization : Option Authorization) (previous : Option IdentityState)
      (sequence : ℕ) (envelope : Bytes) (t : ConsentTranscript) (h : History)
      → t ≡ publication_transcript c q authorization previous sequence envelope
      → Consented c w t h
      → Approved c w envelope q.expires_at h
  unfolding publication_transcript
  asked_for q authorization previous sequence envelope t h e agreed = (
    t,
    agreed,
    ap (λ (x : ConsentTranscript). x.expires_at) e,
    inl (ap (λ (x : ConsentTranscript). x.review_payload) e),
  )

  publish_checked-Safe :
      (q : ConsentRequest) (u : SignedUpdate) (owner envelope : Bytes)
      (previous : Option IdentityState) (r : Registry)
      → Safe c w r
      → Leaves (Safe c w) (publish_checked c w q u owner envelope previous r)
  unfolding publish_checked
  publish_checked-Safe q u owner envelope previous r s = read-then owner r _ s (λ current r1 g.
      let s1 = Safe-Grows c w g s in
      let asked = publication_transcript c q u.authorization previous u.sequence envelope in
      if-Leaves (Safe c w) (not (same_state previous current)) _ _ r1 (λ p. s1)
        (λ p. lift-Leaves (Safe c w) (check_transcript c asked) r1 _ s1 (λ t e.
          bind-Ends (Gated c w t) (Safe c w) (Safe c w) (consent_gate c w owner t r1) _
            (consent_gate-Gated c w owner t r1 s1) (λ r2 s2. s2)
            (λ refusal r2 gate. gated-Safe refusal t r2 (check_transcript-same asked t e) gate))))
    where
      gated-Safe :
          (refusal : Option Refusal) (t : ConsentTranscript) (r2 : Registry)
          → t ≡ publication_transcript c q u.authorization previous u.sequence envelope
          → Gated c w t refusal r2
          → Leaves (Safe c w) (gated c w owner envelope previous q.expires_at refusal r2)
      gated-Safe (some (status, reason)) t r2 e gate = gate.0
      gated-Safe none t r2 e gate =
          publish_approved-Safe owner envelope previous q.expires_at r2 gate.0
            (asked_for q u.authorization previous u.sequence envelope t r2.history e (gate.1 refl))

  pub publish_bundle-Safe :
      (b : IdentityBundle) (q : ConsentRequest) (r : Registry)
      → Safe c w r
      → Leaves (Safe c w) (publish_bundle c w b q r)
  unfolding publish_bundle
  publish_bundle-Safe b q r s =
      lift-Leaves (Safe c w) (reject_if (is_empty b.proofs) invalid_request) r _ s (λ x0 e0.
        lift-Leaves (Safe c w) (decode_signed_update c b.draft.signed_update_bytes) r _ s (λ u e1.
          lift-Leaves (Safe c w) (reject_if (is_rotation u.authorization) invalid_request) r _ s
            (λ x2 e2. lift-Leaves (Safe c w) (finalize c b) r _ s (λ envelope e3.
              lift-Leaves (Safe c w) (require_bytes none false u.record_name) r _ s (λ owner e4.
                if-Leaves (Safe c w) (is_owner_latched owner r.latches) _ _ r (λ p. s)
                  (λ p.
                    lift-Leaves (Safe c w) (draft_previous_state c b.draft) r _ s
                      (λ previous e5. publish_checked-Safe q u owner envelope previous r s)))))))

  pub confirm_bundle-Safe :
      (b : IdentityBundle) (r : Registry) → Safe c w r → Leaves (Safe c w) (confirm_bundle c w b r)
  unfolding confirm_bundle
  confirm_bundle-Safe b r s =
      lift-Leaves (Safe c w) (decode_signed_update c b.draft.signed_update_bytes) r _ s (λ u e1.
        lift-Leaves (Safe c w) (reject_if (is_rotation u.authorization) invalid_request) r _ s
          (λ x2 e2. lift-Leaves (Safe c w) (finalize c b) r _ s (λ envelope e3.
            lift-Leaves (Safe c w) (draft_previous_state c b.draft) r _ s (λ previous e5.
              lift-Leaves (Safe c w) (require_bytes none false u.record_name) r _ s (λ owner e4.
                confirm_publication-Safe owner envelope previous readback_did_not_confirm_envelope r
                  s)))))
