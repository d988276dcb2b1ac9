-- ===== src/Registry/Submitting.antt =====
-- `RegistryAdapter.submit_identity` and `sign_draft` of identity.py in a safe adapter.
use decent_wallet.Crypto.{Crypto}
use decent_wallet.Identity.Error.{Checked, invalid_request}
use decent_wallet.Identity.Require.{require_bytes, signature_length}
use decent_wallet.Identity.Update.{verify_signature}
use decent_wallet.Prelude.{
  Bool, Result, arith, err, false, if◌then◌else◌, leb, list_eq, nat_eq, ok, option_eq, pair_eq,
  refl, reject_if, some, true, ◌!=◌, ◌≡◌,
}
use decent_wallet.Python.Value.{Bytes}
use decent_wallet.Registry.Asking.{Ends}
use decent_wallet.Registry.Gate.{Refusal}
use decent_wallet.Registry.Growth.{Grows, Grows-trans, IsPlain, observe-Grows}
use decent_wallet.Registry.Signing.{recover, sign, try_sign, with_active, with_signer}
use decent_wallet.Registry.State.{Handler, Registry, ask_signer, bind, observe, pure}
use decent_wallet.Registry.Submission.{Submission}
use decent_wallet.Registry.World.{
  Event, World, clock_read, signer_asked, signer_invalidated, signer_key_read, signer_made,
  update_signed,
}

module _ (c : Crypto) (w : World) (x : Submission) where
  -- The signature verifies under the key that was named.
  abbrev pub Signs : Bytes → Bytes → Type 0
  Signs update_bytes signature =
      c.verifies x.signer_public_key (c.sha256 update_bytes) signature ≡ true

  abbrev pub Signing : Bytes → Registry → Result Refusal Bytes → Registry → Type 0
  Signing update_bytes r (ok signature) r' = Grows r r' × Signs update_bytes signature
  Signing update_bytes r (err e) r' = Grows r r'

  verify_signature-Signs :
      (update_bytes signature : Bytes) {u : Unit {0}}
      → verify_signature c x.signer_public_key update_bytes signature ≡ ok u
      → Signs update_bytes signature
  unfolding verify_signature
  verify_signature-Signs update_bytes signature h = ground arith

  module _ (r : Registry) where
    -- A step of the signing, and the further ones.
    sign-step :
        {A B : Type 0} (Q : B → Registry → Type 0) (a : Checked A) (r1 : Registry)
        (f : A → Handler B)
        → Grows r r1
        → ((v : A) → a ≡ ok v → Ends Q (Grows r) (f v r1))
        → Ends Q (Grows r) (bind (a, r1) f)
    sign-step Q (ok v) r1 f g k = k v refl
    sign-step Q (err e) r1 f g k = g

    sign-if :
        {B : Type 0} (Q : B → Registry → Type 0) (b : Bool) (m k : Handler B) (r1 : Registry)
        → Ends Q (Grows r) (m r1)
        → Ends Q (Grows r) (k r1)
        → Ends Q (Grows r) ((if b then m else k) r1)
    sign-if Q true m k r1 f g = f
    sign-if Q false m k r1 f g = g

    sees : (e : Event) (r1 : Registry) → IsPlain e → Grows r r1 → Grows r (observe w e r1)
    sees e r1 plain g = Grows-trans g (observe-Grows w e r1 plain)

    -- The signer is asked, or has expired.
    asked-Signing :
        (update_bytes : Bytes) (active : Bool) (r1 : Registry)
        → Grows r r1
        → Ends (Signing update_bytes r) (Grows r) (with_active c w x update_bytes active r1)
    asked-Signing update_bytes false r1 g =
        let a = w.invalidate_signer r1.history in
        let g1 = sees (signer_invalidated a) r1 tt g in
        sign-step (Signing update_bytes r) a (observe w (signer_invalidated a) r1) _ g1 (λ u e. g1)
    asked-Signing update_bytes true r1 g =
        let a = w.ask_signature r1.history update_bytes in
        let r2 = observe w (update_signed update_bytes a) r1 in
        let g2 = sees (update_signed update_bytes a) r1 tt g in
        sign-step (Signing update_bytes r) a r2 _ g2 (λ v e.
          sign-step (Signing update_bytes r) (require_bytes (some signature_length) false v) r2 _ g2
            (λ signature e1.
              sign-step (Signing update_bytes r)
                (verify_signature c x.signer_public_key update_bytes signature) r2 _ g2
                (λ u e2. (g2, verify_signature-Signs update_bytes signature e2))))

    try_sign-Signing :
        (update_bytes : Bytes) (r0 : Registry)
        → Grows r r0
        → Ends (Signing update_bytes r) (Grows r) (try_sign c w x update_bytes r0)
    unfolding try_sign
    try_sign-Signing update_bytes r0 g =
        let a = w.signer_public_key r0.history in
        let r1 = observe w (signer_key_read a) r0 in
        let g1 = sees (signer_key_read a) r0 tt g in
        sign-step (Signing update_bytes r) a r1 _ g1 (λ k e.
          sign-step (Signing update_bytes r) (reject_if (k != x.signer_public_key) invalid_request)
            r1 _ g1
            (λ u e1.
              let now = w.time r1.history in
              let r2 = observe w (clock_read now) r1 in
              let g2 = sees (clock_read now) r1 tt g1 in
              clocked update_bytes (leb x.request.expires_at now) r2 g2))
      where
        clocked :
            (update_bytes : Bytes) (late : Bool) (r2 : Registry)
            → Grows r r2
            → Ends (Signing update_bytes r) (Grows r) (
                bind
                  ((if late then pure false else ask_signer w) r2)
                  (with_active c w x update_bytes))
        clocked update_bytes true r2 g2 = asked-Signing update_bytes false r2 g2
        clocked update_bytes false r2 g2 =
            let b = w.signer_is_active r2.history in
            let g3 = sees (signer_asked b) r2 tt g2 in
            sign-step (Signing update_bytes r) b (observe w (signer_asked b) r2) _ g3
              (λ active e2. asked-Signing update_bytes active (observe w (signer_asked b) r2) g3)

    recover-Signing :
        (update_bytes : Bytes) (q : Checked (Result Refusal Bytes) × Registry)
        → Ends (Signing update_bytes r) (Grows r) q
        → Ends (Signing update_bytes r) (Grows r) (recover c w x q.0 q.1)
    recover-Signing update_bytes (ok a, r1) h = h
    recover-Signing update_bytes (err e, r1) h =
        let a = w.invalidate_signer r1.history in
        let g1 = sees (signer_invalidated a) r1 tt h in
        sign-step (Signing update_bytes r) a (observe w (signer_invalidated a) r1) _ g1 (λ u e1. g1)

    pub sign-Signing :
        (update_bytes : Bytes) → Ends (Signing update_bytes r) (Grows r) (sign c w x update_bytes r)
    unfolding sign
    sign-Signing update_bytes = made (w.make_signer r.history)
      where
        made :
            (a : Checked (Unit {0}))
            → Ends
                (Signing update_bytes r)
                (Grows r)
                (with_signer c w x update_bytes a (observe w (signer_made a) r))
        made (err e) = observe-Grows w (signer_made (err e)) r tt
        made (ok u) =
            let r1 = observe w (signer_made (ok u)) r in
            recover-Signing update_bytes (try_sign c w x update_bytes r1)
              (try_sign-Signing update_bytes r1 (observe-Grows w (signer_made (ok u)) r tt))
