-- ===== src/Registry/Accepted.antt =====
-- The accepted state that `RegistryAdapter.publish_bundle` of identity.py returns.
use decent_wallet.Crypto.{Crypto}
use decent_wallet.Identity.Bundle.Finalize.{draft_previous_state, finalize}
use decent_wallet.Identity.Bundle.Merge.{IdentityBundle, draft_eq, proof_eq}
use decent_wallet.Identity.Error.{
  Checked, expired_publication, invalid_request, invalid_state, stale_publication,
  transport_failure, unexpected,
}
use decent_wallet.Identity.Latch.{is_owner_latched}
use decent_wallet.Identity.Require.{require_bytes, validate_owner_name}
use decent_wallet.Identity.State.{IdentityState, same_state}
use decent_wallet.Identity.Update.{SignedUpdate, decode_signed_update}
use decent_wallet.Prelude.{
  Bool, Option, ap, arith, beq→eq, err, false, if◌then◌else◌, is_empty, leb, list_eq, nat_eq, none,
  not, ok, option_eq, pair_eq, refl, reject_if, some, subst, sym, true, ◌∷◌, ◌≡◌,
}
use decent_wallet.Python.Dict.{lookup}
use decent_wallet.Python.Value.{Bytes}
use decent_wallet.Registry.Asking.{Ends}
use decent_wallet.Registry.Consent.{check_transcript}
use decent_wallet.Registry.Gate.{
  Reason, Refusal, consent_gate, readback_did_not_confirm_dispatch,
  readback_did_not_confirm_envelope,
}
use decent_wallet.Registry.History.{step-Ends}
use decent_wallet.Registry.Publish.{
  after_put, gated, guarded_put, publish_approved, publish_bundle, publish_checked, sent,
}
use decent_wallet.Registry.Read.{read_state}
use decent_wallet.Registry.Request.{
  ConsentRequest, PublicationResult, confirm, confirm_publication, confirmed_or, hash_of,
  is_rotation, judge, publication_transcript,
}
use decent_wallet.Registry.State.{
  Handler, Registry, attempt, bind, hold, locked, observe, pure, put, read_envelope, release, ◌>>=◌,
}
use decent_wallet.Registry.World.{World, clock_read, envelope_put, envelope_read}
use decent_wallet.Registry.Written.{
  Candidacy, Confirmed, Honest, Written, judge-Confirmed, owner_itself, previous-OfOwner,
  unaccepted,
}

module _ (c : Crypto) (b : IdentityBundle) where
  abbrev Any : Registry → Type 0
  Any r = Unit

  module _ (w : World) (q : ConsentRequest) where
    abbrev Result : PublicationResult → Registry → Type 0
    Result = Honest c b q.expires_at

    abbrev Wrote : Bytes → Bytes → Option IdentityState → Registry → Type 0
    Wrote owner envelope previous r = Written c b q.expires_at owner envelope previous r.history

    confirm_publication-Honest :
        (owner envelope : Bytes) (previous : Option IdentityState) (why : Reason) (r : Registry)
        → Candidacy c b owner envelope previous
        → Wrote owner envelope previous r
        → Ends Result Any (confirm_publication c w owner envelope previous why r)
    unfolding confirm_publication confirm
    confirm_publication-Honest owner envelope previous why r k wrote =
        named (validate_owner_name owner) refl
      where
        told :
            (r : Registry) (o : Option IdentityState)
            → ((s : IdentityState) → o ≡ some s → Confirmed c b q.expires_at r.history s)
            → Result (confirmed_or c w envelope why o) r
        told r none f s e = f s e
        told r (some x) f s e = f s e

        named :
            (q : Checked Bytes)
            → validate_owner_name owner ≡ q
            → Ends Result Any (
                bind
                  (bind
                    (q, r)
                    (λ name. do
                      candidate ← attempt (read_envelope w name)
                      pure (judge c w name envelope previous candidate)))
                  (λ accepted. pure (confirmed_or c w envelope why accepted)))
        named (err e) p = tt
        named (ok name) p =
            let a = w.get_identity_envelope r.history name in
            let here = sym (owner_itself c b owner name p) in
            told (observe w (envelope_read name a) r) (judge c w name envelope previous a) (λ s e.
              judge-Confirmed c b w name envelope previous a s q.expires_at r.history
                (subst (λ n. Candidacy c b n envelope previous) here k)
                (subst (λ n. Wrote n envelope previous r) here wrote) e)

    sent-Honest :
        (owner envelope : Bytes) (previous : Option IdentityState) (a : Option (Checked (Unit {0})))
        (r : Registry)
        → Candidacy c b owner envelope previous
        → ((x : Checked (Unit {0})) → a ≡ some x → Wrote owner envelope previous r)
        → Ends Result Any (sent c w owner envelope previous a r)
    sent-Honest owner envelope previous none r k wrote = unaccepted c b
    sent-Honest owner envelope previous (some x) r k wrote = go x (wrote x refl)
      where
        read_again :
            (why : Reason)
            → Wrote owner envelope previous r
            → Ends Result Any (confirm_publication c w owner envelope previous why r)
        read_again why u = confirm_publication-Honest owner envelope previous why r k u

        go :
            (x : Checked (Unit {0}))
            → Wrote owner envelope previous r
            → Ends Result Any (after_put c w owner envelope previous x r)
        go (ok y) u = read_again readback_did_not_confirm_envelope u
        go (err stale_publication) u = unaccepted c b
        go (err expired_publication) u = unaccepted c b
        go (err invalid_state) u = read_again readback_did_not_confirm_dispatch u
        go (err invalid_request) u = read_again readback_did_not_confirm_dispatch u
        go (err transport_failure) u = read_again readback_did_not_confirm_dispatch u
        go (err unexpected) u = read_again readback_did_not_confirm_dispatch u

    -- A step whose result says nothing of the accepted state.
    step-Honest :
        {A : Type 0} (x : Checked A × Registry) (f : A → Handler PublicationResult)
        → ((a : A) (r : Registry) → Ends Result Any (f a r))
        → Ends Result Any (bind x f)
    step-Honest (ok a, r) f k = k a r
    step-Honest (err e, r) f k = tt

    lift-Honest :
        {A : Type 0} (x : Checked A) (r : Registry) (f : A → Handler PublicationResult)
        → ((a : A) → x ≡ ok a → Ends Result Any (f a r))
        → Ends Result Any (bind (x, r) f)
    lift-Honest (ok a) r f k = k a refl
    lift-Honest (err e) r f k = tt

    if-Honest :
        (t : Bool) (m k : Handler PublicationResult) (r : Registry)
        → Ends Result Any (m r)
        → (t ≡ false → Ends Result Any (k r))
        → Ends Result Any ((if t then m else k) r)
    if-Honest true m k r f g = f
    if-Honest false m k r f g = g refl

    same_state-hash :
        (previous current : Option IdentityState)
        → not (same_state previous current) ≡ false
        → hash_of current ≡ hash_of previous
    unfolding same_state
    same_state-hash none none h = refl
    same_state-hash (some l) (some x) h = ground (arith, beq→eq l.state_hash x.state_hash)
    same_state-hash none (some x) h = cc
    same_state-hash (some l) none h = cc

    -- Where the guarded write was not held back, the envelope was written.
    guarded_put-Wrote :
        (owner envelope : Bytes) (previous current : Option IdentityState) (r : Registry)
        → hash_of current ≡ hash_of previous
        → Ends
            (λ a r'. (x : Checked (Unit {0})) → a ≡ some x → Wrote owner envelope previous r')
            Any
            (locked owner (guarded_put c w owner envelope current q.expires_at) r)
    guarded_put-Wrote owner envelope previous current r same_hash =
        go (is_owner_latched owner r.latches)
      where
        go :
            (b : Bool)
            → Ends
                (λ a r'. (x : Checked (Unit {0})) → a ≡ some x → Wrote owner envelope previous r')
                Any
                (release r.held (
                  (if b then pure none else (do
                    a ← attempt (put w owner envelope (hash_of current) q.expires_at)
                    pure (some a)))
                    (hold (some owner) r)))
        go true = λ x e. cc
        go false = λ x e.
            let answer =
              w.put_identity_envelope r.history owner envelope (hash_of current) q.expires_at in
            record {
              latch = lookup owner r.latches;
              answer = answer;
              before = r.history;
              wrote =
                  ap
                    (λ (n : Option Bytes).
                      envelope_put owner envelope n q.expires_at (lookup owner r.latches) answer
                      ∷ r.history)
                    same_hash;
            }

    publish_checked-Honest :
        (u : SignedUpdate) (owner envelope : Bytes) (previous : Option IdentityState) (r : Registry)
        → Candidacy c b owner envelope previous
        → Ends Result Any (publish_checked c w q u owner envelope previous r)
    unfolding publish_checked publish_approved
    publish_checked-Honest u owner envelope previous r k =
        step-Honest (read_state c w owner r) _ (λ current r1.
          if-Honest (not (same_state previous current)) _ _ r1 (unaccepted c b) (λ p.
            lift-Honest
              (check_transcript c
                (publication_transcript c q u.authorization previous u.sequence envelope))
              r1 _
              (λ t e2.
                step-Honest (consent_gate c w owner t r1) _ (λ refusal r2. approved refusal r2))))
      where
        approved :
            (refusal : Option Refusal) (r2 : Registry)
            → Ends Result Any (gated c w owner envelope previous q.expires_at refusal r2)
        approved (some (status, why)) r2 = unaccepted c b
        approved none r2 = step-Honest (read_state c w owner r2) _ (λ current r3.
            if-Honest (not (same_state previous current)) _ _ r3 (unaccepted c b) (λ p.
              let r4 = observe w (clock_read (w.time r3.history)) r3 in
              if-Honest (leb q.expires_at (w.time r3.history)) _ _ r4 (unaccepted c b) (λ early.
                step-Ends
                  (λ a r'. (x : Checked (Unit {0})) → a ≡ some x → Wrote owner envelope previous r')
                  Result Any (locked owner (guarded_put c w owner envelope current q.expires_at) r4)
                  _
                  (guarded_put-Wrote owner envelope previous current r4
                    (same_state-hash previous current p))
                  (λ a r5 wrote. sent-Honest owner envelope previous a r5 k wrote))))

    -- Where publish_bundle reports a state as accepted, the last two calls were the write of the bundle's
    -- finalized envelope, over the hash of the bundle's own predecessor and up to the consent's
    -- deadline, and a read that gave back that very envelope. The state is bound to the envelope, and
    -- follows the bundle's own predecessor by a step of the protocol that names its hash, or is a legacy
    -- state.
    pub publish_bundle-Honest :
        (r : Registry) → Ends (Honest c b q.expires_at) (λ r'. Unit) (publish_bundle c w b q r)
    unfolding publish_bundle
    publish_bundle-Honest r =
        lift-Honest (reject_if (is_empty b.proofs) invalid_request) r _ (λ x0 e0.
          lift-Honest (decode_signed_update c b.draft.signed_update_bytes) r _ (λ u e1.
            lift-Honest (reject_if (is_rotation u.authorization) invalid_request) r _ (λ x2 e2.
              lift-Honest (finalize c b) r _ (λ envelope e3.
                lift-Honest (require_bytes none false u.record_name) r _ (λ owner e4.
                  if-Honest (is_owner_latched owner r.latches) _ _ r (unaccepted c b) (λ free.
                    lift-Honest (draft_previous_state c b.draft) r _ (λ previous e5.
                      publish_checked-Honest u owner envelope previous r (record {
                        final = e3;
                        before = e5;
                        owned = previous-OfOwner c b u owner previous e1 e4 e5;
                      }))))))))
