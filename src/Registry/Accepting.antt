-- ===== src/Registry/Accepting.antt =====
-- `RegistryAdapter.submit_identity` and `sign_draft` of identity.py in a safe adapter.
use decent_wallet.Crypto.{Crypto}
use decent_wallet.Identity.Authorization.{Authorization}
use decent_wallet.Identity.Bundle.Merge.{draft_eq}
use decent_wallet.Identity.Draft.Create.{IdentityDraft}
use decent_wallet.Identity.Error.{invalid_request}
use decent_wallet.Identity.Latch.{is_owner_latched}
use decent_wallet.Identity.Require.{key_length, require_bytes, validate_owner_name}
use decent_wallet.Identity.State.{IdentityState, same_state}
use decent_wallet.Identity.Update.{decode_signed_update}
use decent_wallet.Prelude.{
  >>=-eq-ok, Option, Result, ap, arith, err, false, if◌then◌else◌, leb, length, list_eq, nat_eq,
  none, not, ok, ok-injective, option_eq, pair_eq, refl, reject_if, reject_if-eq-ok, some, subst,
  ◌!=◌, ◌≡◌,
}
use decent_wallet.Python.Value.{Bytes, Str}
use decent_wallet.Registry.Artifact.{draft_proof, needs_bundle, threshold_proof}
use decent_wallet.Registry.Asking.{Gated, bind-Ends, consent_gate-Gated}
use decent_wallet.Registry.Completing.{AsksFor, Ready, Ready-Grows, put_signed-Safe}
use decent_wallet.Registry.Consent.{ConsentTranscript, check_transcript}
use decent_wallet.Registry.Gate.{Refusal, consent_gate}
use decent_wallet.Registry.Growth.{Grows, Leaves, if-Leaves, leave, lift-Leaves, observe-Grows}
use decent_wallet.Registry.Guards.{Fresh, Safe, Safe-Grows, Safe-hold}
use decent_wallet.Registry.Publishing.{check_transcript-same, locked-Safe, not_latched, read-then}
use decent_wallet.Registry.Read.{read_state}
use decent_wallet.Registry.Request.{ConsentRequest}
use decent_wallet.Registry.Signing.{sign}
use decent_wallet.Registry.State.{
  Handler, Registry, bind, hold, lift, observe, pure, read_clock, ◌>>=◌,
}
use decent_wallet.Registry.Submission.{
  Submission, SubmissionResult, check_submitted_draft, submission_checked, submission_transcript,
  update_to_sign,
}
use decent_wallet.Registry.Submit.{
  complete_signed, complete_submission, finish_submission, put_signed, sign_draft, submit_gated,
  submit_identity, submit_locked, submit_prepared,
}
use decent_wallet.Registry.Submitting.{Signing, Signs, sign-Signing}
use decent_wallet.Registry.World.{World, clock_read}

module _ (c : Crypto) (w : World) (x : Submission) (t : ConsentTranscript) where
  finish_submission-Safe :
      (name : Bytes) (current : Option IdentityState) (authorization : Option Authorization)
      (update_bytes signature : Bytes) (r : Registry)
      → Ready c w x t name update_bytes r
      → Fresh c w x.request.expires_at r.history
      → AsksFor c w x t update_bytes
      → Signs c w x update_bytes signature
      → Leaves
          (Safe c w)
          (finish_submission c w x t name current authorization update_bytes signature r)
  unfolding finish_submission
  finish_submission-Safe name current authorization update_bytes signature r s soon asks signs =
      of x.draft
    where
      of :
          (o : Option IdentityDraft)
          → Leaves (Safe c w) (
              (elim o as (λ _. Handler SubmissionResult) [
                | some d ↦ lift (draft_proof c x t update_bytes signature d)
                | none ↦
                    if needs_bundle authorization
                    then lift (threshold_proof c x t current update_bytes signature)
                    else put_signed c w x t name current authorization update_bytes signature
              ])
                r)
      of (some d) = leave (Safe c w) (draft_proof c x t update_bytes signature d, r) s.safe
      of none =
          if-Leaves (Safe c w) (needs_bundle authorization) _ _ r
            (λ p. leave (Safe c w) (threshold_proof c x t current update_bytes signature, r) s.safe)
            (λ p.
              put_signed-Safe c w x t name current authorization update_bytes signature r s soon
                asks signs)

  -- The accepted state and the clock are read, and then there is more to do.
  checked-then :
      (name update_bytes : Bytes) (current : Option IdentityState) (r : Registry)
      (stale late : SubmissionResult) (k : Handler SubmissionResult)
      → Ready c w x t name update_bytes r
      → ((r1 : Registry)
          → Ready c w x t name update_bytes r1
          → Fresh c w x.request.expires_at r1.history
          → Leaves (Safe c w) (k r1))
      → Leaves (Safe c w) (
          bind (read_state c w name r) (λ latest.
            if not (same_state current latest)
            then pure stale
            else (do now ← read_clock w; if leb x.request.expires_at now then pure late else k)))
  checked-then name update_bytes current r stale late k s more =
      read-then c w name r _ s.safe (λ latest r1 g.
        let s1 = Ready-Grows c w x t name update_bytes g s in
        if-Leaves (Safe c w) (not (same_state current latest)) _ _ r1 (λ p. s1.safe)
          (λ p.
            let now = w.time r1.history in
            let r2 = observe w (clock_read now) r1 in
            let s2 =
              Ready-Grows c w x t name update_bytes (observe-Grows w (clock_read now) r1 tt) s1 in
            if-Leaves (Safe c w) (leb x.request.expires_at now) _ _ r2 (λ q. s2.safe)
              (λ q. more r2 s2 (ground arith))))

  complete_signed-Safe :
      (name : Bytes) (current : Option IdentityState) (authorization : Option Authorization)
      (update_bytes : Bytes) (r0 r : Registry) (a : Result Refusal Bytes)
      → Ready c w x t name update_bytes r0
      → AsksFor c w x t update_bytes
      → Signing c w x update_bytes r0 a r
      → Leaves (Safe c w) (complete_signed c w x t name current authorization update_bytes a r)
  unfolding complete_signed
  complete_signed-Safe name current authorization update_bytes r0 r (err (status, reason)) s asks
        g =
      Safe-Grows c w g s.safe
  complete_signed-Safe name current authorization update_bytes r0 r (ok signature) s asks g =
      checked-then name update_bytes current r _ _ _ (Ready-Grows c w x t name update_bytes g.0 s)
        (λ r1 s1 soon.
          finish_submission-Safe name current authorization update_bytes signature r1 s1 soon asks
            g.1)

  complete_submission-Safe :
      (name : Bytes) (current : Option IdentityState) (authorization : Option Authorization)
      (update_bytes : Bytes) (r : Registry)
      → Ready c w x t name update_bytes r
      → AsksFor c w x t update_bytes
      → Leaves (Safe c w) (complete_submission c w x t name current authorization update_bytes r)
  unfolding complete_submission
  complete_submission-Safe name current authorization update_bytes r s asks =
      checked-then name update_bytes current r _ _ _ s (λ r1 s1 soon.
        bind-Ends (Signing c w x update_bytes r1) (Grows r1) (Safe c w) (sign c w x update_bytes r1)
          _ (sign-Signing c w x r1 update_bytes) (λ r2 g. Safe-Grows c w g s1.safe)
          (λ a r2 g.
            complete_signed-Safe name current authorization update_bytes r1 r2 a s1 asks g))

  pub submit_gated-Safe :
      (name : Bytes) (current : Option IdentityState) (authorization : Option Authorization)
      (update_bytes : Bytes) (refusal : Option Refusal) (r : Registry)
      → AsksFor c w x t update_bytes
      → Gated c w t refusal r
      → Leaves (Safe c w) (submit_gated c w x t name current authorization update_bytes refusal r)
  submit_gated-Safe name current authorization update_bytes (some (status, reason)) r asks gate =
      gate.0
  submit_gated-Safe name current authorization update_bytes none r asks gate =
      let m = submit_locked c w x t name current authorization update_bytes in
      let r1 = hold (some name) r in
      let s1 = Safe-hold c w (some name) r gate.0 in
      locked-Safe c w name m r (
        if-Leaves (Safe c w) (is_owner_latched name r.latches) _ _ r1 (λ p. s1)
          (λ p.
            complete_submission-Safe name current authorization update_bytes r1
              (record {
                safe = s1;
                agreed = gate.1 refl;
                locked_owner = refl;
                unlatched = not_latched name r.latches p;
              })
              asks))

module _ (c : Crypto) (w : World) where
  submission_checked-AsksFor :
      (x : Submission) (name : Bytes) (current : Option IdentityState)
      (p : Option Authorization × Bytes × ConsentTranscript)
      → submission_checked c x name current ≡ ok p
      → AsksFor c w x p.2 p.1
  unfolding submission_checked submission_transcript
  submission_checked-AsksFor x name current p h =
      let (u1, e1, h1) = >>=-eq-ok (check_submitted_draft c x name current x.draft) _ h in
      let (y, e2, h2) = >>=-eq-ok (update_to_sign c x name current) _ h1 in
      let (b, h3) = reject_if-eq-ok _ invalid_request _ h2 in
      let (t, e4, h4) =
        >>=-eq-ok (check_transcript c (submission_transcript c x current y.0 y.1)) _ h3 in
      let built = check_transcript-same c w (submission_transcript c x current y.0 y.1) t e4 in
      subst (λ (q : Option Authorization × Bytes × ConsentTranscript). AsksFor c w x q.2 q.1)
        (ok-injective h4)
        (record {
          text = ap (λ (a : ConsentTranscript). a.review_payload) built;
          expires = ap (λ (a : ConsentTranscript). a.expires_at) built;
          signer = ap (λ (a : ConsentTranscript). a.signer_public_key) built;
          named = ap (λ (a : ConsentTranscript). a.signer_id) built;
        })

  submit_prepared-Safe :
      (x : Submission) (name : Bytes) (current : Option IdentityState)
      (p : Option Authorization × Bytes × ConsentTranscript) (r : Registry)
      → Safe c w r
      → AsksFor c w x p.2 p.1
      → Leaves (Safe c w) (submit_prepared c w x name current p r)
  submit_prepared-Safe x name current (authorization, update_bytes, t) r s asks =
      bind-Ends (Gated c w t) (Safe c w) (Safe c w) (consent_gate c w name t r) _
        (consent_gate-Gated c w name t r s) (λ r1 s1. s1)
        (λ refusal r1 gate.
          submit_gated-Safe c w x t name current authorization update_bytes refusal r1 asks gate)

  pub submit_identity-Safe :
      (x : Submission) (r : Registry) → Safe c w r → Leaves (Safe c w) (submit_identity c w x r)
  unfolding submit_identity
  submit_identity-Safe x r s =
      lift-Leaves (Safe c w) (validate_owner_name x.owner_name) r _ s (λ name e1.
        lift-Leaves (Safe c w) (reject_if (is_owner_latched name r.latches) invalid_request) r _ s
          (λ u2 e2.
            lift-Leaves (Safe c w)
              (reject_if (length x.owner_public_key != key_length) invalid_request) r _ s
              (λ u3 e3.
                lift-Leaves (Safe c w)
                  (reject_if (length x.signer_public_key != key_length) invalid_request) r _ s
                  (λ u4 e4. read-then c w name r _ s (λ current r1 g.
                    let s1 = Safe-Grows c w g s in
                    lift-Leaves (Safe c w) (submission_checked c x name current) r1 _ s1 (λ p e5.
                      submit_prepared-Safe x name current p r1 s1
                        (submission_checked-AsksFor x name current p e5)))))))

  pub sign_draft-Safe :
      (d : IdentityDraft) (k : Bytes) (q : ConsentRequest) (i : Option Str) (r : Registry)
      → Safe c w r
      → Leaves (Safe c w) (sign_draft c w d k q i r)
  unfolding sign_draft
  sign_draft-Safe d k q i r s =
      lift-Leaves (Safe c w) (decode_signed_update c d.signed_update_bytes) r _ s (λ u e1.
        lift-Leaves (Safe c w) (require_bytes none false u.record_name) r _ s (λ name e2.
          lift-Leaves (Safe c w) (reject_if (is_owner_latched name r.latches) invalid_request) r _ s
            (λ u3 e3.
              lift-Leaves (Safe c w) (require_bytes none false u.record_key) r _ s
                (λ owner_key e4. submit_identity-Safe _ r s))))
