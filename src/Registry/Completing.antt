-- ===== src/Registry/Completing.antt =====
-- The writing of a signed update by `RegistryAdapter.submit_identity` of identity.py, in a safe adapter.
use decent_wallet.Crypto.{Crypto}
use decent_wallet.Identity.Authorization.{Authorization}
use decent_wallet.Identity.Bundle.Finalize.{envelope_value, legacy_envelope_value}
use decent_wallet.Identity.Error.{
  Checked, expired_publication, invalid_request, invalid_state, stale_publication,
  transport_failure, unexpected,
}
use decent_wallet.Identity.State.{IdentityState}
use decent_wallet.Identity.Update.{canonical}
use decent_wallet.Prelude.{
  Option, [], err, inl, inr, list_eq, nat_eq, none, ok, option_eq, or_raise-eq-ok, pair_eq, refl,
  some, subst, sym, true, ◌∙◌, ◌∷◌, ◌≡◌,
}
use decent_wallet.Python.Dict.{lookup}
use decent_wallet.Python.Value.{Bytes, Str}
use decent_wallet.Registry.Artifact.{signed_envelope}
use decent_wallet.Registry.Consent.{ConsentTranscript}
use decent_wallet.Registry.Growth.{Grows, Leaves, lift-Leaves}
use decent_wallet.Registry.Guards.{Carries, Consented, Consented-Quietly, Fresh, Safe, Safe-Grows}
use decent_wallet.Registry.Publishing.{put-Safe}
use decent_wallet.Registry.Quiet.{confirm-Grows}
use decent_wallet.Registry.Request.{confirm, hash_of}
use decent_wallet.Registry.Rotating.{quiet-then}
use decent_wallet.Registry.State.{Handler, Registry, bind}
use decent_wallet.Registry.Submission.{Submission, SubmissionResult}
use decent_wallet.Registry.Submit.{after_submit, put_signed}
use decent_wallet.Registry.Submitting.{Signs}
use decent_wallet.Registry.World.{World}

module _ (c : Crypto) (w : World) (x : Submission) (t : ConsentTranscript) where
  answered-Safe :
      (name envelope : Bytes) (current : Option IdentityState) (a : Checked (Unit {0}))
      (r : Registry)
      → Safe c w r
      → Leaves (Safe c w) (after_submit c w x t name envelope current a r)
  answered-Safe name envelope current a r s = of a
    where
      looked :
          (f : Option IdentityState → Handler SubmissionResult)
          → ((o : Option IdentityState) (r1 : Registry) → Safe c w r1 → Leaves (Safe c w) (f o r1))
          → Leaves (Safe c w) (bind (confirm c w name envelope current r) f)
      looked f k =
          quiet-then c w (confirm c w name envelope current r) f s
            (confirm-Grows c w name envelope current r) k

      of :
          (a : Checked (Unit {0}))
          → Leaves (Safe c w) (after_submit c w x t name envelope current a r)
      of (ok u) = looked _ (λ o r1 s1. s1)
      of (err stale_publication) = s
      of (err expired_publication) = s
      of (err invalid_state) = looked _ (λ o r1 s1. s1)
      of (err invalid_request) = looked _ (λ o r1 s1. s1)
      of (err transport_failure) = looked _ (λ o r1 s1. s1)
      of (err unexpected) = looked _ (λ o r1 s1. s1)

  -- What the submission has made sure of, under the owner's lock.
  pub record Ready (name update_bytes : Bytes) (r : Registry) : Type 0 where
    pub safe : Safe c w r
    pub agreed : Consented c w t r.history
    pub locked_owner : r.held ≡ some name
    pub unlatched : lookup name r.latches ≡ none

  pub Ready-Grows :
      (name update_bytes : Bytes) {r r1 : Registry}
      → Grows r r1
      → Ready name update_bytes r
      → Ready name update_bytes r1
  Ready-Grows name update_bytes g s = record {
    safe = Safe-Grows c w g s.safe;
    agreed = Consented-Quietly c w t g.quietly s.agreed;
    locked_owner = g.held ∙ s.locked_owner;
    unlatched = g.entry name s.locked_owner ∙ s.unlatched;
  }

  -- The transcript asks for a signature of the update by the signer of the submission.
  pub record AsksFor (update_bytes : Bytes) : Type 0 where
    pub text : t.review_payload ≡ update_bytes
    pub expires : t.expires_at ≡ x.request.expires_at
    pub signer : t.signer_public_key ≡ some x.signer_public_key
    pub named : t.signer_id ≡ x.signer_id

  signed_envelope-Carries :
      (authorization : Option Authorization) (update_bytes signature envelope : Bytes)
      → AsksFor update_bytes
      → Signs c w x update_bytes signature
      → signed_envelope c x t authorization update_bytes signature ≡ ok envelope
      → Carries c w t envelope
  unfolding signed_envelope
  signed_envelope-Carries none update_bytes signature envelope asks signs h = (
    x.signer_public_key,
    signature,
    asks.signer,
    subst (λ b. c.verifies x.signer_public_key (c.sha256 b) signature ≡ true) (sym asks.text) signs,
    inl (
        subst (λ b. c.dumps (legacy_envelope_value b signature) ≡ some envelope) (sym asks.text)
          (or_raise-eq-ok _ unexpected h)),
  )
  signed_envelope-Carries (some a) update_bytes signature envelope asks signs h =
      named x.signer_id refl h
    where
      named :
          (o : Option Str)
          → x.signer_id ≡ o
          → (elim o as (λ _. Checked Bytes) [
            | none ↦ err invalid_request
            | some i ↦ canonical c (envelope_value update_bytes ((some i, signature) ∷ []))
          ])
            ≡ ok envelope
          → Carries c w t envelope
      named none e h = cc
      named (some i) e h = (
        x.signer_public_key,
        signature,
        asks.signer,
        subst (λ b. c.verifies x.signer_public_key (c.sha256 b) signature ≡ true) (sym asks.text)
            signs,
        inr (
          i,
          asks.named ∙ e,
          subst (λ b. c.dumps (envelope_value b ((some i, signature) ∷ [])) ≡ some envelope)
              (sym asks.text) (or_raise-eq-ok _ unexpected h),
        ),
      )

  pub put_signed-Safe :
      (name : Bytes) (current : Option IdentityState) (authorization : Option Authorization)
      (update_bytes signature : Bytes) (r : Registry)
      → Ready name update_bytes r
      → Fresh c w x.request.expires_at r.history
      → AsksFor update_bytes
      → Signs c w x update_bytes signature
      → Leaves (Safe c w) (put_signed c w x t name current authorization update_bytes signature r)
  unfolding put_signed
  put_signed-Safe name current authorization update_bytes signature r s soon asks signs =
      lift-Leaves (Safe c w) (signed_envelope c x t authorization update_bytes signature) r _ s.safe
        (λ envelope e.
          let due = x.request.expires_at in
          let a = w.put_identity_envelope r.history name envelope (hash_of current) due in
          answered-Safe name envelope current a _ (
            put-Safe c w name envelope (hash_of current) due r s.safe
              (
                t,
                s.agreed,
                asks.expires,
                inr (
                    signed_envelope-Carries authorization update_bytes signature envelope asks signs
                      e),
              )
              soon (inl s.unlatched)))
