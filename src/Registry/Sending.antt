-- ===== src/Registry/Sending.antt =====
-- `RegistryAdapter.dispatch_owner_key_rotation` of identity.py in a safe adapter.
use decent_wallet.Crypto.{Crypto}
use decent_wallet.Identity.Error.{
  Checked, expired_publication, invalid_request, invalid_state, stale_publication,
  transport_failure, unexpected,
}
use decent_wallet.Identity.Latch.{
  RotationBinding, binding_eq, is_dispatch_ready, is_latched, rotation_binding,
}
use decent_wallet.Identity.State.{IdentityState, same_state}
use decent_wallet.Prelude.{
  Bool, List, Option, ap, arith, err, false, if◌then◌else◌, inr, leb, list_eq, nat_eq, not, ok,
  option_eq, or_raise, or_raise-eq-ok, pair_eq, refl, reject_if, some, sym, true, ℕ, ◌∙◌, ◌≡◌,
}
use decent_wallet.Python.Dict.{lookup}
use decent_wallet.Python.Value.{Bytes}
use decent_wallet.Registry.Dispatch.{
  RotationDispatchPermit, after_dispatch, consent_has_expired, dispatch_locked,
  dispatch_owner_key_rotation, not_clearable, send, state_found, unresolved,
}
use decent_wallet.Registry.Dispatching.{after_dispatch-Safe, prewrite_result-Safe}
use decent_wallet.Registry.Gate.{environment_mismatch}
use decent_wallet.Registry.Growth.{
  Grows, Leaves, bind-Leaves, if-Leaves, left, lift-Leaves, observe-Grows,
}
use decent_wallet.Registry.Guards.{
  Approved, Approved-Quietly, Free, Fresh, IsApproved, Safe, Safe-Grows, Safe-hold,
}
use decent_wallet.Registry.Matching.{
  Fresh-matches, HasLatch, Matching, dispatch_ready-binding, is_latched-HasLatch, lookup-All,
  matches_intent-Matching,
}
use decent_wallet.Registry.Publication.{consume_publication, matches_intent, publication_attributes}
use decent_wallet.Registry.Publishing.{locked-Safe, put-Safe}
use decent_wallet.Registry.Quiet.{
  environment_matches-Grows, read_state-Grows, transport_available-Grows,
}
use decent_wallet.Registry.Read.{
  read_state, rotation_environment_matches, rotation_transport_available,
}
use decent_wallet.Registry.State.{
  Handler, Registry, RotationPublication, attempt, bind, hold, lift, locked, observe, pure, put,
  ◌>>=◌, ◌>>◌,
}
use decent_wallet.Registry.World.{World, clock_read}

passed : (b : Bool) {u : Unit {0}} → reject_if (not b) invalid_request ≡ ok u → b ≡ true
passed b h = ground arith

module _ (c : Crypto) (w : World) (handle : ℕ) (i : RotationBinding) (p : RotationPublication)
    (owner : Bytes) (fits : Matching c w p i owner) where
  -- What the dispatch has made sure of, under the owner's lock.
  pub record Prepared (r : Registry) : Type 0 where
    pub safe : Safe c w r
    pub approved : Approved c w p.envelope_bytes p.expires_at r.history
    pub locked_owner : r.held ≡ some owner
    pub latched : HasLatch c w i r

  Prepared-Grows : {r r1 : Registry} → Grows r r1 → Prepared r → Prepared r1
  Prepared-Grows {r} {r1} g s =
      let own = s.locked_owner ∙ ap some (sym fits.owned) in
      record {
        safe = Safe-Grows c w g s.safe;
        approved = Approved-Quietly c w p.envelope_bytes p.expires_at g.quietly s.approved;
        locked_owner = g.held ∙ s.locked_owner;
        latched = (s.latched.0, g.entry i.owner_name own ∙ s.latched.1);
      }

  -- A step that only reads.
  read-Safe :
      {A B : Type 0} (q : Checked A × Registry) (f : A → Handler B) {r : Registry}
      → Prepared r
      → Leaves (Grows r) q
      → ((a : A) (r1 : Registry) → Prepared r1 → Leaves (Safe c w) (f a r1))
      → Leaves (Safe c w) (bind q f)
  read-Safe q f {r} s g k =
      bind-Leaves (Grows r) (Safe c w) q f g (λ r1 g1. Safe-Grows c w g1 s.safe)
        (λ a r1 e g1. k a r1 (Prepared-Grows g1 s))

  Prepared-Free : (r : Registry) → Prepared r → Free c w p.envelope_bytes (lookup owner r.latches)
  Prepared-Free r s =
      inr (i, s.latched.0, ap (λ x. lookup x r.latches) (sym fits.owned) ∙ s.latched.1, fits.hashed)

  put-Safe-again :
      (r : Registry)
      → Prepared r
      → Fresh c w p.expires_at r.history
      → Leaves (Safe c w) (
          bind
            (attempt
              (put w owner p.envelope_bytes (some p.previous_state.state_hash) p.expires_at)
              r)
            (after_dispatch c w handle i))
  put-Safe-again r s soon =
      let a =
        w.put_identity_envelope r.history owner p.envelope_bytes (some p.previous_state.state_hash)
          p.expires_at in
      after_dispatch-Safe c w handle i a _ (
        put-Safe c w owner p.envelope_bytes (some p.previous_state.state_hash) p.expires_at r s.safe
          s.approved soon (Prepared-Free r s))

  send-Safe :
      (r : Registry)
      → Prepared r
      → Fresh c w p.expires_at r.history
      → Leaves (Safe c w) (send c w handle i p owner r)
  unfolding send
  send-Safe r s soon =
      sent_on (rotation_environment_matches w i.environment r)
        (environment_matches-Grows w i.environment r)
        (Fresh-matches c w p.expires_at i.environment r soon)
    where
      sent_on :
          (q : Checked Bool × Registry)
          → Leaves (Grows r) q
          → Leaves (λ r1. Fresh c w p.expires_at r1.history) q
          → Leaves (Safe c w) (
              bind q (λ holds. if not holds then pure (unresolved environment_mismatch) else (do
                a ←
                    attempt
                      (put w owner p.envelope_bytes (some p.previous_state.state_hash) p.expires_at)
                after_dispatch c w handle i a)))
      sent_on (err e, r1) g soon1 = Safe-Grows c w g s.safe
      sent_on (ok holds, r1) g soon1 =
          if-Leaves (Safe c w) (not holds) _ _ r1 (λ q. Safe-Grows c w g s.safe)
            (λ q. put-Safe-again r1 (Prepared-Grows g s) soon1)

  state_found-Safe :
      (a : Checked (Option IdentityState)) (r : Registry)
      → Prepared r
      → Leaves (Safe c w) (state_found c w handle i p owner a r)
  state_found-Safe (err unexpected) r s = s.safe
  state_found-Safe (err stale_publication) r s =
      prewrite_result-Safe c w handle i (not_clearable false) r s.safe
  state_found-Safe (err expired_publication) r s =
      prewrite_result-Safe c w handle i (not_clearable false) r s.safe
  state_found-Safe (err invalid_state) r s =
      prewrite_result-Safe c w handle i (not_clearable false) r s.safe
  state_found-Safe (err invalid_request) r s =
      prewrite_result-Safe c w handle i (not_clearable false) r s.safe
  state_found-Safe (err transport_failure) r s =
      prewrite_result-Safe c w handle i (not_clearable false) r s.safe
  state_found-Safe (ok current) r s =
      if-Leaves (Safe c w) (not (same_state (some p.previous_state) current)) _ _ r
        (λ q. prewrite_result-Safe c w handle i _ r s.safe)
        (λ q.
          let now = w.time r.history in
          let r1 = observe w (clock_read now) r in
          let s1 = Prepared-Grows (observe-Grows w (clock_read now) r tt) s in
          if-Leaves (Safe c w) (leb p.expires_at now) _ _ r1
            (λ x. prewrite_result-Safe c w handle i consent_has_expired r1 s1.safe)
            (λ x. send-Safe r1 s1 (ground arith)))

  pub dispatch_locked-Safe :
      (r : Registry)
      → Safe c w r
      → Approved c w p.envelope_bytes p.expires_at r.history
      → r.held ≡ some owner
      → Leaves (Safe c w) (dispatch_locked c w handle i p owner r)
  unfolding dispatch_locked
  dispatch_locked-Safe r s yea own =
      lift-Leaves (Safe c w) (reject_if (not (is_latched i r.latches)) invalid_request) r _ s
        (λ u e.
          let latch : is_latched i r.latches ≡ true = passed (is_latched i r.latches) e in
          read-Safe (rotation_transport_available w r) _
            (record {
              safe = s;
              approved = yea;
              locked_owner = own;
              latched = is_latched-HasLatch c w i r latch;
            })
            (transport_available-Grows w r)
            (λ available r1 s1.
              if-Leaves (Safe c w) (not available) _ _ r1
                (λ q. prewrite_result-Safe c w handle i (not_clearable false) r1 s1.safe)
                (λ q.
                  let g =
                    left (Grows r1) (read_state c w owner r1) (read_state-Grows c w owner r1) in
                  state_found-Safe (read_state c w owner r1).0 (read_state c w owner r1).1
                    (Prepared-Grows g s1))))

module _ (c : Crypto) (w : World) where
  consumed-Safe :
      (used : List ℕ) (r : Registry) → Safe c w r → Safe c w (record r { consumed = used })
  consumed-Safe used r s = record { guarded = s.guarded; approved = s.approved; known = s.known }

  pub dispatch-Safe :
      (handle : ℕ) (permit : RotationDispatchPermit) (r : Registry)
      → Safe c w r
      → Leaves (Safe c w) (dispatch_owner_key_rotation c w handle permit r)
  unfolding dispatch_owner_key_rotation
  dispatch-Safe handle permit r s =
      lift-Leaves (Safe c w) (or_raise (lookup handle r.publications) invalid_request) r _ s
        (λ p e0.
          lift-Leaves (Safe c w) (reject_if (not permit.is_authentic) invalid_request) r _ s
            (λ u1 e1.
              lift-Leaves (Safe c w)
                (reject_if (not (matches_intent c p permit.intent)) invalid_request) r _ s
                (λ u2 e2.
                  lift-Leaves (Safe c w)
                    (reject_if (not (is_dispatch_ready permit.intent r.latches)) invalid_request) r
                    _ s
                    (λ u3 e3.
                      let x = consume_publication handle p r.rotation_token r.consumed in
                      consumed p x.0 x.1 (or_raise-eq-ok _ invalid_request e0)
                        (passed (matches_intent c p permit.intent) e2)
                        (dispatch_ready-binding c w permit.intent r.latches
                          (passed (is_dispatch_ready permit.intent r.latches) e3))))))
    where
      consumed :
          (p : RotationPublication) (is_fresh : Bool) (used : List ℕ)
          → lookup handle r.publications ≡ some p
          → matches_intent c p permit.intent ≡ true
          → rotation_binding permit.intent ≡ some permit.intent
          → Leaves (Safe c w) (
              (do
                lift (reject_if (not is_fresh) invalid_request)
                holds ← rotation_environment_matches w permit.intent.environment
                if not holds then pure (unresolved environment_mismatch) else (do
                  b ← lift (publication_attributes c p)
                  locked b.owner_name (dispatch_locked c w handle permit.intent p b.owner_name)))
                (record r { consumed = used }))
      consumed p is_fresh used here fits good =
          let r1 = record r { consumed = used } in
          let s1 = consumed-Safe used r s in
          lift-Leaves (Safe c w) (reject_if (not is_fresh) invalid_request) r1 _ s1 (λ u e.
            bind-Leaves (Grows r1) (Safe c w)
              (rotation_environment_matches w permit.intent.environment r1) _
              (environment_matches-Grows w permit.intent.environment r1)
              (λ r2 g. Safe-Grows c w g s1)
              (λ holds r2 e2 g.
                let s2 = Safe-Grows c w g s1 in
                if-Leaves (Safe c w) (not holds) _ _ r2 (λ q. s2)
                  (λ q. lift-Leaves (Safe c w) (publication_attributes c p) r2 _ s2 (λ b e3.
                    locked-Safe c w b.owner_name
                      (dispatch_locked c w handle permit.intent p b.owner_name) r2
                      (dispatch_locked-Safe c w handle permit.intent p b.owner_name
                        (matches_intent-Matching c w p permit.intent b fits e3 good)
                        (hold (some b.owner_name) r2) (Safe-hold c w (some b.owner_name) r2 s2)
                        (Approved-Quietly c w p.envelope_bytes p.expires_at g.quietly
                          (lookup-All (IsApproved c w r.history) handle r.publications here
                            s.approved).1)
                        refl)))))
