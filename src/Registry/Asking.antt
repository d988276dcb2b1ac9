-- ===== src/Registry/Asking.antt =====
-- `RegistryAdapter._consent_gate` of identity.py in a safe adapter.
use decent_wallet.Crypto.{Crypto}
use decent_wallet.Identity.Error.{Checked}
use decent_wallet.Prelude.{
  Bool, List, Option, ap, arith, beq_refl, contains, err, false, if◌then◌else◌, inl, inr, leb,
  list_eq, nat_eq, none, ok, option_eq, pair_eq, refl, some, subst, sym, true, ℕ, ◌∙◌, ◌∷◌, ◌≡◌,
  ◌≢◌,
}
use decent_wallet.Python.Value.{Bytes, Value}
use decent_wallet.Registry.Consent.{ConsentDecision, ConsentTranscript}
use decent_wallet.Registry.Gate.{
  PublishStatus, Refusal, ask, consent_expired, consent_gate, decide, decision_of, reserved,
}
use decent_wallet.Registry.Growth.{Leaves, later, observe-Grows, same}
use decent_wallet.Registry.Guards.{
  Allowed, Consented, Consented-Quietly, IsApproved-later, JustTaken, Occurs, Safe, Safe-Grows,
  step-Safe,
}
use decent_wallet.Registry.Nonces.{consume, consume_in, consume_nonce, nonce_key}
use decent_wallet.Registry.State.{
  Handler, Registry, ask_consent, attempt, bind, observe, pure, ◌>>=◌,
}
use decent_wallet.Registry.World.{Event, History, World, clock_read, consent_asked, nonce_consumed}

-- What holds when a call returns, and when it raises.
abbrev pub Ends :
    {A : Type 0} → (A → Registry → Type 0) → (Registry → Type 0) → Checked A × Registry → Type 0
Ends Q S (ok a, r) = Q a r
Ends Q S (err e, r) = S r

pub bind-Ends :
    {A B : Type 0} (Q : A → Registry → Type 0) (S T : Registry → Type 0) (q : Checked A × Registry)
    (f : A → Handler B)
    → Ends Q S q
    → ((r : Registry) → S r → T r)
    → ((a : A) (r : Registry) → Q a r → Leaves T (f a r))
    → Leaves T (bind q f)
bind-Ends Q S T (ok a, r) f h stop go = go a r h
bind-Ends Q S T (err e, r) f h stop go = stop r h

abbrev event_nonce : Bytes → Event → Bytes
event_nonce j (nonce_consumed k a) = k
event_nonce j _ = j

abbrev event_taken : Event → Checked Bool
event_taken (nonce_consumed k a) = a
event_taken _ = ok false

module _ (c : Crypto) (w : World) where
  -- Only where the caller may go on has the handler approved.
  abbrev pub Gated : ConsentTranscript → Option Refusal → Registry → Type 0
  Gated t refusal r = Safe c w r × (refusal ≡ none → Consented c w t r.history)

  some-ne : (x : Refusal) → some x ≢ none
  some-ne x p = cc

  refused-Gated :
      (t : ConsentTranscript) (x : Refusal) (r : Registry) → Safe c w r → Gated t (some x) r
  refused-Gated t x r s = (s, λ p. absurd (some-ne x p))

  clock-Safe : (r : Registry) → Safe c w r → Safe c w (observe w (clock_read (w.time r.history)) r)
  clock-Safe r s = Safe-Grows c w (observe-Grows w (clock_read (w.time r.history)) r tt) s

  decide-Gated :
      (t : ConsentTranscript) (d : ConsentDecision) (r : Registry)
      → Safe c w r
      → (d ≡ ConsentDecision.approved → Consented c w t r.history)
      → Ends (Gated t) (Safe c w) (decide c w t d r)
  unfolding decide
  decide-Gated t ConsentDecision.approved r s agreed = (
    clock-Safe r s,
    λ p. Consented-Quietly c w t (later (clock_read (w.time r.history)) tt same) (agreed refl),
  )
  decide-Gated t ConsentDecision.denied r s agreed = refused-Gated t _ r s
  decide-Gated t ConsentDecision.cancelled r s agreed = refused-Gated t _ r s
  decide-Gated t ConsentDecision.expired r s agreed = refused-Gated t _ r s
  decide-Gated t ConsentDecision.failed r s agreed = refused-Gated t _ r s

  -- An answer that counts as an approval is one.
  answer-Consented :
      (t : ConsentTranscript) (a : Checked Value) (h : History)
      → decision_of c w a ≡ ConsentDecision.approved
      → Consented c w t (consent_asked t a ∷ h)
  unfolding decision_of
  answer-Consented t (ok v) h e = (v, inl refl, e)
  answer-Consented t (err x) h e = absurd (clash e)
    where
      clash : ConsentDecision.failed ≢ ConsentDecision.approved
      clash p = cc

  asked-Safe :
      (t : ConsentTranscript) (a : Checked Value) (r : Registry)
      → Safe c w r
      → JustTaken c w t r.history
      → Safe c w (observe w (consent_asked t a) r)
  asked-Safe t a r s taken = step-Safe c w (consent_asked t a) r s taken not_nonce
    where
      not_nonce : (k : Bytes) → consent_asked t a ≢ nonce_consumed k (ok true)
      not_nonce k p = cc

  ask-Gated :
      (t : ConsentTranscript) (owner k : Bytes) (older : History) (r : Registry)
      → Safe c w r
      → nonce_key c owner t ≡ ok k
      → r.history ≡ nonce_consumed k (ok true) ∷ older
      → Ends (Gated t) (Safe c w) (ask c w t r)
  unfolding ask
  ask-Gated t owner k older r s named at = after_clock (leb t.expires_at now) refl
    where
      now : ℕ
      now = w.time r.history

      r1 : Registry
      r1 = observe w (clock_read now) r

      taken : leb t.expires_at now ≡ false → JustTaken c w t r1.history
      taken p = (owner, k, now, older, named, ap (λ h. clock_read now ∷ h) at, ground arith)

      after_clock :
          (b : Bool)
          → leb t.expires_at now ≡ b
          → Ends (Gated t) (Safe c w) (
              (if b then pure (some (PublishStatus.expired, consent_expired)) else (do
                answer ← attempt (ask_consent w t)
                decide c w t (decision_of c w answer)))
                r1)
      after_clock true p = refused-Gated t _ r1 (clock-Safe r s)
      after_clock false p =
          let a = w.consent r1.history t in
          decide-Gated t (decision_of c w a) (observe w (consent_asked t a) r1)
            (asked-Safe t a r1 (clock-Safe r s) (taken p)) (answer-Consented t a r1.history)

  -- What taking a nonce leaves.
  abbrev Taken : Bytes → Registry → Checked Bool → Registry → Type 0
  Taken k r a r' = Safe c w r' × (r'.history ≡ nonce_consumed k a ∷ r.history)

  reserved-Gated :
      (t : ConsentTranscript) (owner k : Bytes) (a : Checked Bool) (r r' : Registry)
      → nonce_key c owner t ≡ ok k
      → Taken k r a r'
      → Ends (Gated t) (Safe c w) (reserved c w t a r')
  unfolding reserved
  reserved-Gated t owner k (err e) r r' named taken = refused-Gated t _ r' taken.0
  reserved-Gated t owner k (ok false) r r' named taken = refused-Gated t _ r' taken.0
  reserved-Gated t owner k (ok true) r r' named taken =
      ask-Gated t owner k r.history r' taken.0 named taken.1

  -- The adapter's own store gives a nonce away once.
  consume-Safe :
      (k : Bytes) (a : Checked Bool) (ns : List Bytes) (r : Registry)
      → Safe c w r
      → (a ≡ ok true
          → w.replay_store ≡ none
          → (contains k r.nonces ≡ false) × (contains k ns ≡ true))
      → ((j : Bytes) → contains j r.nonces ≡ true → contains j ns ≡ true)
      → Safe c w (observe w (nonce_consumed k a) (record r { nonces = ns }))
  consume-Safe k a ns r s takes keeps = record {
    guarded = (allowed a refl, s.guarded);
    approved = IsApproved-later c w (nonce_consumed k a) r.history r.publications s.approved;
    known = known_later;
  }
    where
      clash : false ≢ true
      clash q = cc

      allowed : (b : Checked Bool) → a ≡ b → Allowed c w (nonce_consumed k b) r.history
      allowed (err e) p = tt
      allowed (ok false) p = tt
      allowed (ok true) p = λ own o. clash (sym (takes p own).0 ∙ s.known own k o)

      known_later :
          w.replay_store ≡ none
          → (j : Bytes) → Occurs (nonce_consumed j (ok true)) (nonce_consumed k a ∷ r.history)
          → contains j ns ≡ true
      known_later own j (inl p) =
          subst (λ x. contains x ns ≡ true) (ap (event_nonce j) p)
            ((takes (ap event_taken p) own).1)
      known_later own j (inr o) = keeps j (s.known own j o)

  contains-more :
      (j k : Bytes) (ns : List Bytes) → contains j ns ≡ true → contains j (k ∷ ns) ≡ true
  contains-more j k ns h = ground arith

  consume_in-Taken :
      (o : Option (History → Bytes → Checked Bool)) (k : Bytes) (r : Registry)
      → w.replay_store ≡ o
      → Safe c w r
      → (a : Checked Bool) × (r' : Registry) × (consume_in w o k r ≡ (a, r')) × Taken k r a r'
  unfolding consume
  consume_in-Taken (some store) k r given s =
      let a = store r.history k in
      (
        a,
        observe w (nonce_consumed k a) r,
        refl,
        (
          consume-Safe k a r.nonces r s (λ p own. absurd (clash (sym own ∙ given))) (λ j h. h),
          refl,
        ),
      )
    where
      clash : none ≢ some store
      clash q = cc
  consume_in-Taken none k r own s = own_store (contains k r.nonces) refl
    where
      ne : ◌≢◌ {A = Checked Bool} (ok false) (ok true)
      ne q = cc

      own_store :
          (b : Bool)
          → contains k r.nonces ≡ b
          → (a : Checked Bool) × (r' : Registry) × (consume_in w none k r ≡ (a, r'))
            × Taken k r a r'
      own_store true seen = (
        ok false,
        observe w (nonce_consumed k (ok false)) r,
        rw seen refl,
        (consume-Safe k (ok false) r.nonces r s (λ p. absurd (ne p)) (λ j h. h), refl),
      )
      own_store false new = (
        ok true,
        observe w (nonce_consumed k (ok true)) (record r { nonces = k ∷ r.nonces }),
        rw new refl,
        (
          consume-Safe k (ok true) (k ∷ r.nonces) r s (λ p q. (new, rw (beq_refl k)))
              (λ j h. contains-more j k r.nonces h),
          refl,
        ),
      )

  pub consent_gate-Gated :
      (owner : Bytes) (t : ConsentTranscript) (r : Registry)
      → Safe c w r
      → Ends (Gated t) (Safe c w) (consent_gate c w owner t r)
  unfolding consent_gate consume_nonce
  consent_gate-Gated owner t r s = keyed (nonce_key c owner t) refl
    where
      keyed :
          (x : Checked Bytes)
          → nonce_key c owner t ≡ x
          → Ends
              (Gated t)
              (Safe c w)
              (bind (attempt (λ r'. bind (x, r') (consume_nonce w)) r) (reserved c w t))
      keyed (err e) p = refused-Gated t _ r s
      keyed (ok k) p =
          let (a, r', e, taken) = consume_in-Taken w.replay_store k r refl s in
          subst (λ q. Ends (Gated t) (Safe c w) (reserved c w t q.0 q.1)) (sym e)
            (reserved-Gated t owner k a r r' p taken)
