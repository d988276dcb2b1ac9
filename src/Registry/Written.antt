-- ===== src/Registry/Written.antt =====
-- What `RegistryAdapter._confirm` of identity.py makes sure of after a write.
use decent_wallet.Crypto.{Crypto}
use decent_wallet.Identity.Bundle.Finalize.{draft_previous_state, finalize}
use decent_wallet.Identity.Bundle.Merge.{IdentityBundle, draft_eq}
use decent_wallet.Identity.Draft.Lineage.{parse_previous_state_chain-owner}
use decent_wallet.Identity.Envelope.Parse.{parse_identity_envelope}
use decent_wallet.Identity.Envelope.Rules.{IsBound, OfOwner, Verdict}
use decent_wallet.Identity.Envelope.Verdict.{parse_identity_envelope_sound}
use decent_wallet.Identity.Error.{Checked}
use decent_wallet.Identity.Latch.{RotationBinding, binding_eq}
use decent_wallet.Identity.Require.{require_bytes, validate_owner_name}
use decent_wallet.Identity.State.{IdentityState}
use decent_wallet.Identity.Update.{SignedUpdate, decode_signed_update}
use decent_wallet.Prelude.{
  >>=-eq-ok, Bool, Bool-cases, Option, ap, arith, beq→eq, err, false, inl, inr, list_eq, nat_eq,
  none, ok, ok-injective, option_eq, pair_eq, refl, some, subst, sym, ℕ, ◌==◌, ◌∙◌, ◌∷◌, ◌≡◌, ◌≢◌,
}
use decent_wallet.Python.Value.{Bytes}
use decent_wallet.Registry.Request.{PublicationResult, hash_of, judge, same_envelope}
use decent_wallet.Registry.State.{Registry}
use decent_wallet.Registry.World.{History, World, envelope_put, envelope_read}

module _ (c : Crypto) (b : IdentityBundle) where
  -- The last call was a write of the envelope over the predecessor, up to the deadline.
  pub record Written (deadline : ℕ) (owner envelope : Bytes) (previous : Option IdentityState)
      (h : History) : Type 0 where
    pub latch : Option (RotationBinding × Bool)
    pub answer : Checked (Unit {0})
    pub before : History
    pub wrote : h ≡ envelope_put owner envelope (hash_of previous) deadline latch answer ∷ before

  -- The state is that of the bundle's own envelope, over the bundle's own predecessor; the transport was
  -- asked to write it, and gave it back in the next call, the last.
  pub record Confirmed (deadline : ℕ) (h : History) (s : IdentityState) : Type 0 where
    pub owner : Bytes
    pub previous : Option IdentityState
    pub finalized : finalize c b ≡ ok s.envelope_bytes
    pub preceded : draft_previous_state c b.draft ≡ ok previous
    pub bound : IsBound c owner s.envelope_bytes s
    pub verdict : Verdict c previous s
    pub before : History
    pub written : Written deadline owner s.envelope_bytes previous before
    pub read_back : h ≡ envelope_read owner (ok (some s.envelope_bytes)) ∷ before

  abbrev pub Honest : ℕ → PublicationResult → Registry → Type 0
  Honest deadline a r =
      (s : IdentityState) → a.accepted_state ≡ some s → Confirmed deadline r.history s

  pub unaccepted :
      {deadline : ℕ} {h : History} (s : IdentityState) → none ≡ some s → Confirmed deadline h s
  unaccepted s e = cc

  -- What is known before a write.
  pub record Candidacy (owner envelope : Bytes) (previous : Option IdentityState) : Type 0 where
    pub final : finalize c b ≡ ok envelope
    pub before : draft_previous_state c b.draft ≡ ok previous
    pub owned : OfOwner owner previous

  -- The predecessor of a draft is the draft's owner's.
  pub previous-OfOwner :
      (u : SignedUpdate) (owner : Bytes) (previous : Option IdentityState)
      → decode_signed_update c b.draft.signed_update_bytes ≡ ok u
      → require_bytes none false u.record_name ≡ ok owner
      → draft_previous_state c b.draft ≡ ok previous
      → OfOwner owner previous
  unfolding draft_previous_state
  previous-OfOwner u owner none decoded named h = tt
  previous-OfOwner u owner (some p) decoded named h =
      let (u1, d1, h1) = >>=-eq-ok (decode_signed_update c b.draft.signed_update_bytes) _ h in
      let (name, n1, h2) = >>=-eq-ok (require_bytes none false u1.record_name) _ h1 in
      let same_update : u1 ≡ u = ok-injective (sym d1 ∙ decoded) in
      let same_name : name ≡ owner = ok-injective (
        sym n1
        ∙ ap (λ (x : SignedUpdate). require_bytes none false x.record_name) same_update
        ∙ named) in
      (parse_previous_state_chain-owner c name b.draft.previous_state_envelope
        b.draft.previous_state_history h2)
      ∙ same_name

  pub judge-Confirmed :
      (w : World) (owner envelope : Bytes) (previous : Option IdentityState)
      (a : Checked (Option Bytes)) (s : IdentityState) (deadline : ℕ) (h : History)
      → Candidacy owner envelope previous
      → Written deadline owner envelope previous h
      → judge c w owner envelope previous a ≡ some s
      → Confirmed deadline (envelope_read owner a ∷ h) s
  judge-Confirmed w owner envelope previous (err e) s deadline before k wrote h = cc
  judge-Confirmed w owner envelope previous (ok none) s deadline before k wrote h = cc
  judge-Confirmed w owner envelope previous (ok (some candidate)) s deadline before k wrote h =
      parsed (parse_identity_envelope c owner candidate previous) refl h
    where
      clash : none ≢ some s
      clash q = cc

      matched :
          (x : IdentityState)
          → same_envelope c w envelope x ≡ some s
          → (x ≡ s) × (s.envelope_bytes ≡ envelope)
      matched x e = elim (Bool-cases (x.envelope_bytes == envelope)) [
        | inl p ↦
            let is_s : x ≡ s = ground arith in
            (
              is_s,
              ap (λ (y : IdentityState). y.envelope_bytes) (sym is_s)
                  ∙ beq→eq x.envelope_bytes envelope p,
            )
        | inr p ↦ absurd (clash (rw p at e))
      ]

      parsed :
          (q : Checked IdentityState)
          → parse_identity_envelope c owner candidate previous ≡ q
          → (elim q as (λ _. Option IdentityState) [
            | ok x ↦ same_envelope c w envelope x
            | err e ↦ none
          ])
            ≡ some s
          → Confirmed deadline (envelope_read owner (ok (some candidate)) ∷ before) s
      parsed (err e) p h = cc
      parsed (ok x) p h =
          let (is_s, same_bytes) = matched x h in
          let (bound, verdict) =
            parse_identity_envelope_sound c owner candidate previous k.owned
              (p ∙ ap (λ y. ok y) is_s) in
          record {
            owner = owner;
            previous = previous;
            finalized = k.final ∙ ap (λ y. ok y) (sym same_bytes);
            preceded = k.before;
            bound = subst (λ e. IsBound c owner e s) (sym bound.kept) bound;
            verdict = verdict;
            before = before;
            written = subst (λ e. Written deadline owner e previous before) (sym same_bytes) wrote;
            read_back =
                ap (λ (e : Bytes). envelope_read owner (ok (some e)) ∷ before) (sym bound.kept);
          }

  pub owner_itself : (owner name : Bytes) → validate_owner_name owner ≡ ok name → name ≡ owner
  unfolding validate_owner_name
  owner_itself owner name h = ground arith
