-- ===== src/Registry/Guards.antt =====
-- What every write and every consent of identity.py's adapter must rest on, stated on the history of
-- its calls.
use decent_wallet.Crypto.{Crypto}
use decent_wallet.Identity.Bundle.Finalize.{envelope_value, legacy_envelope_value}
use decent_wallet.Identity.Error.{Checked}
use decent_wallet.Identity.Latch.{RotationBinding, binding_eq}
use decent_wallet.Prelude.{
  All, Bool, Option, [], contains, err, inl, inr, list_eq, nat_eq, none, ok, option_eq, pair_eq,
  some, subst, sym, true, ℕ, ◌<◌, ◌∷◌, ◌≡◌, ◌≢◌, ◌⊎◌,
}
use decent_wallet.Python.Dict.{Dict}
use decent_wallet.Python.Value.{Bytes, Str, Value}
use decent_wallet.Registry.Consent.{ConsentDecision, ConsentTranscript, normalize_consent}
use decent_wallet.Registry.Growth.{Grows, IsPlain, Leaves, Quietly, later, same}
use decent_wallet.Registry.Nonces.{nonce_key}
use decent_wallet.Registry.State.{Registry, RotationPublication, hold, observe}
use decent_wallet.Registry.World.{
  Event, History, World, clock_read, consent_asked, envelope_put, envelope_read, environment_asked,
  nonce_consumed, predecessor_read, remote_read, rotation_support_asked, signer_asked,
  signer_invalidated, signer_key_read, signer_made, update_signed,
}

abbrev pub Occurs : Event → History → Type 0
Occurs e [] = ⊥
Occurs e (d ∷ h) = (d ≡ e) ⊎ Occurs e h

module _ (c : Crypto) (w : World) where
  -- The envelope is the text that was reviewed, signed by the signer that was named there.
  abbrev pub Carries : ConsentTranscript → Bytes → Type 0
  Carries t envelope =
      (k : Bytes) × (signature : Bytes) × (t.signer_public_key ≡ some k)
      × (c.verifies k (c.sha256 t.review_payload) signature ≡ true)
      × ((c.dumps (legacy_envelope_value t.review_payload signature) ≡ some envelope)
          ⊎ ((i : Str) × (t.signer_id ≡ some i)
              × (c.dumps (envelope_value t.review_payload ((some i, signature) ∷ []))
                  ≡ some envelope)))

  abbrev pub Covers : ConsentTranscript → Bytes → Type 0
  Covers t envelope = (t.review_payload ≡ envelope) ⊎ Carries t envelope

  -- The handler has approved the transcript.
  abbrev pub Consented : ConsentTranscript → History → Type 0
  Consented t h =
      (v : Value) × Occurs (consent_asked t (ok v)) h
      × (normalize_consent v ≡ ConsentDecision.approved)

  -- The handler has approved the envelope, up to the deadline.
  abbrev pub Approved : Bytes → ℕ → History → Type 0
  Approved envelope deadline h =
      (t : ConsentTranscript) × Consented t h × (t.expires_at ≡ deadline) × Covers t envelope

  -- The clock was read before the deadline, and since then only the environment was looked at.
  abbrev pub Fresh : ℕ → History → Type 0
  Fresh deadline (clock_read now ∷ h) = now < deadline
  Fresh deadline (environment_asked a ∷ h) = Fresh deadline h
  Fresh deadline _ = ⊥

  -- No rotation is latched, or the envelope is the one that the latch waits for.
  abbrev pub Free : Bytes → Option (RotationBinding × Bool) → Type 0
  Free envelope latch =
      (latch ≡ none)
      ⊎ ((b : RotationBinding) × (later : Bool) × (latch ≡ some (b, later))
          × (b.envelope_hash ≡ c.sha256 envelope))

  -- The nonce of the transcript was taken just before.
  abbrev pub JustTaken : ConsentTranscript → History → Type 0
  JustTaken t h =
      (owner : Bytes) × (k : Bytes) × (now : ℕ) × (older : History) × (nonce_key c owner t ≡ ok k)
      × (h ≡ clock_read now ∷ nonce_consumed k (ok true) ∷ older)
      × (now < t.expires_at)

  abbrev pub Allowed : Event → History → Type 0
  Allowed (envelope_put owner envelope expected deadline latch a) h =
      Approved envelope deadline h × Fresh deadline h × Free envelope latch
  Allowed (consent_asked t a) h = JustTaken t h
  Allowed (nonce_consumed k (ok true)) h =
      w.replay_store ≡ none → Occurs (nonce_consumed k (ok true)) h → ⊥
  Allowed _ h = Unit

  -- Each call was allowed by the calls before it.
  abbrev pub Guarded : History → Type 0
  Guarded [] = Unit
  Guarded (e ∷ h) = Allowed e h × Guarded h

  pub Occurs-Quietly : (e : Event) {h h' : History} → Quietly h h' → Occurs e h → Occurs e h'
  Occurs-Quietly e same o = o
  Occurs-Quietly e (later d plain q) o = inr (Occurs-Quietly e q o)

  pub Consented-Quietly :
      (t : ConsentTranscript) {h h' : History} → Quietly h h' → Consented t h → Consented t h'
  Consented-Quietly t q (v, o, a) = (v, Occurs-Quietly (consent_asked t (ok v)) q o, a)

  pub Approved-Quietly :
      (envelope : Bytes) (deadline : ℕ) {h h' : History}
      → Quietly h h'
      → Approved envelope deadline h
      → Approved envelope deadline h'
  Approved-Quietly envelope deadline q (t, agreed, e, text) =
      (t, Consented-Quietly t q agreed, e, text)

  plain-Allowed : (e : Event) (h : History) → IsPlain e → Allowed e h
  plain-Allowed (envelope_put owner envelope expected deadline latch a) h p = absurd p
  plain-Allowed (consent_asked t a) h p = absurd p
  plain-Allowed (nonce_consumed k a) h p = absurd p
  plain-Allowed (envelope_read owner a) h p = tt
  plain-Allowed (predecessor_read owner hash a) h p = tt
  plain-Allowed (remote_read owner a) h p = tt
  plain-Allowed (rotation_support_asked a) h p = tt
  plain-Allowed (environment_asked a) h p = tt
  plain-Allowed (clock_read a) h p = tt
  plain-Allowed (signer_made a) h p = tt
  plain-Allowed (signer_key_read a) h p = tt
  plain-Allowed (signer_asked a) h p = tt
  plain-Allowed (update_signed b a) h p = tt
  plain-Allowed (signer_invalidated a) h p = tt

  Guarded-Quietly : {h h' : History} → Quietly h h' → Guarded h → Guarded h'
  Guarded-Quietly same g = g
  Guarded-Quietly (later e {h'} plain q) g = (plain-Allowed e h' plain, Guarded-Quietly q g)

  nonce-Quietly :
      (k : Bytes) {h h' : History}
      → Quietly h h'
      → Occurs (nonce_consumed k (ok true)) h'
      → Occurs (nonce_consumed k (ok true)) h
  nonce-Quietly k same o = o
  nonce-Quietly k (later e plain q) (inl p) = absurd (subst IsPlain p plain)
  nonce-Quietly k (later e plain q) (inr o) = nonce-Quietly k q o

  abbrev pub IsApproved : History → ℕ × RotationPublication → Type 0
  IsApproved h (n, p) = Approved p.envelope_bytes p.expires_at h

  IsApproved-Quietly :
      {h h' : History} (ps : Dict ℕ RotationPublication)
      → Quietly h h'
      → All (IsApproved h) ps
      → All (IsApproved h') ps
  IsApproved-Quietly [] q g = tt
  IsApproved-Quietly ((n, p) ∷ ps) q g =
      (Approved-Quietly p.envelope_bytes p.expires_at q g.0, IsApproved-Quietly ps q g.1)

  pub IsApproved-later :
      (e : Event) (h : History) (ps : Dict ℕ RotationPublication)
      → All (IsApproved h) ps
      → All (IsApproved (e ∷ h)) ps
  IsApproved-later e h [] g = tt
  IsApproved-later e h ((n, p) ∷ ps) ((t, (v, o, yea), d, text), g) =
      ((t, (v, inr o, yea), d, text), IsApproved-later e h ps g)

  -- The adapter's calls so far were allowed, what it has prepared was approved, and its own store knows
  -- each nonce that was taken.
  pub record Safe (r : Registry) : Type 0 where
    pub guarded : Guarded r.history
    pub approved : All (IsApproved r.history) r.publications
    pub known :
        w.replay_store ≡ none
        → (k : Bytes) → Occurs (nonce_consumed k (ok true)) r.history
        → contains k r.nonces ≡ true

  pub Safe-Grows : {r r' : Registry} → Grows r r' → Safe r → Safe r'
  Safe-Grows {r} {r'} g s = record {
    guarded = Guarded-Quietly g.quietly s.guarded;
    approved =
        subst (All (IsApproved r'.history)) (sym g.publications)
          (IsApproved-Quietly r.publications g.quietly s.approved);
    known = λ own k o.
        subst (λ ns. contains k ns ≡ true) (sym g.nonces)
          (s.known own k (nonce-Quietly k g.quietly o));
  }

  pub Safe-hold : (owner : Option Bytes) (r : Registry) → Safe r → Safe (hold owner r)
  Safe-hold owner r s = record { guarded = s.guarded; approved = s.approved; known = s.known }

  -- A call that is allowed.
  pub step-Safe :
      (e : Event) (r : Registry)
      → Safe r
      → Allowed e r.history
      → ((k : Bytes) → e ≢ nonce_consumed k (ok true))
      → Safe (observe w e r)
  step-Safe e r s allowed ne = record {
    guarded = (allowed, s.guarded);
    approved = IsApproved-later e r.history r.publications s.approved;
    known = λ own k o. s.known own k (older k o);
  }
    where
      older :
          (k : Bytes)
          → Occurs (nonce_consumed k (ok true)) (e ∷ r.history)
          → Occurs (nonce_consumed k (ok true)) r.history
      older k (inl p) = absurd (ne k p)
      older k (inr o) = o

  -- A reading step in a safe adapter.
  pub Leaves-Safe :
      {A : Type 0} {r : Registry} (q : Checked A × Registry)
      → Safe r
      → Leaves (Grows r) q
      → Leaves Safe q
  Leaves-Safe (ok a, r') s g = Safe-Grows g s
  Leaves-Safe (err e, r') s g = Safe-Grows g s
