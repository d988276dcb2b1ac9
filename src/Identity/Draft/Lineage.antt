-- ===== src/Identity/Draft/Lineage.antt =====
-- Chains of accepted envelopes, as `_parse_previous_state_chain` follows them.
use decent_wallet.Crypto.{Crypto}
use decent_wallet.Identity.Draft.Chain.{parse_history, parse_previous_state_chain}
use decent_wallet.Identity.Envelope.Parse.{parse_identity_envelope}
use decent_wallet.Identity.Envelope.Rules.{
  Follows, IsBound, IsLegacy, IsTwoOfThree, OfOwner, SameSigners, Step, Verdict,
}
use decent_wallet.Identity.Envelope.Verdict.{parse_identity_envelope_sound}
use decent_wallet.Identity.Error.{invalid_request}
use decent_wallet.Identity.State.{IdentityState, generation_or_zero}
use decent_wallet.Prelude.{
  >>=-eq-ok, List, Option, [], ap, arith, inl, inr, length, none, ok, ok-injective, refl,
  reject_if-eq-ok, some, subst, ◌++◌, ◌+◌, ◌∙◌, ◌∷◌, ◌≡◌, ◌≢◌, ◌≤◌, ◌⊎◌,
}
use decent_wallet.Python.Value.{Bytes}

module _ (c : Crypto) where
  -- No signer set and no generation, or three signers of which two must sign.
  abbrev pub Governed : IdentityState → Type 0
  Governed s = ((s.signer_set ≡ []) × (s.generation ≡ none)) ⊎ IsTwoOfThree s

  SameSigners-Governed : (p s : IdentityState) → SameSigners p s → Governed p → Governed s
  SameSigners-Governed p s g (inl e) = inl (g.signers ∙ e.0, g.generation ∙ e.1)
  SameSigners-Governed p s g (inr t) =
      inr (record {
        threshold = g.threshold ∙ t.threshold;
        signers = ap length g.signers ∙ t.signers;
      })

  Step-Governed : {p s : IdentityState} → Governed p → Step c (some p) s → Governed s
  Step-Governed v (Step.ordinary p s f q k g n e w) = SameSigners-Governed p s g v
  Step-Governed v (Step.replacement p s f q k g t d w) = inr t
  Step-Governed v (Step.upgrade p s f q k e g t w) = inr t
  Step-Governed v (Step.rotation p s f q k ne g n e w) = SameSigners-Governed p s g v
  Step-Governed v (Step.legacy_rotation p s f q k e g t w) = inr t

  -- A state with no signers has no generation either.
  ungoverned : (p : IdentityState) → Governed p → p.signer_set ≡ [] → generation_or_zero p ≡ 0
  ungoverned p (inl g) e = ground (arith, g.1)
  ungoverned p (inr t) e = absurd (omega (arith, t.signers, ap length e))

  Step-generation :
      {p s : IdentityState}
      → Governed p
      → Step c (some p) s
      → generation_or_zero p ≤ generation_or_zero s
  Step-generation v (Step.ordinary p s f q k g n e w) = ground (arith, g.generation)
  Step-generation v (Step.replacement p s f q k g t d w) = omega arith
  Step-generation v (Step.upgrade p s f q k e g t w) = omega (arith, ungoverned p v e)
  Step-generation v (Step.rotation p s f q k ne g n e w) = ground (arith, g.generation)
  Step-generation v (Step.legacy_rotation p s f q k e g t w) = omega (arith, ungoverned p v e)

  Step-Follows : {p s : IdentityState} → Step c (some p) s → Follows p s
  Step-Follows (Step.ordinary p s f q k g n e w) = f
  Step-Follows (Step.replacement p s f q k g t d w) = f
  Step-Follows (Step.upgrade p s f q k e g t w) = f
  Step-Follows (Step.rotation p s f q k ne g n e w) = f
  Step-Follows (Step.legacy_rotation p s f q k e g t w) = f

module _ (c : Crypto) (name : Bytes) where
  -- The states of a chain of envelopes, newest first: each is bound to its own envelope, and follows the
  -- state of the envelope before by a step of the protocol or is a legacy state.
  pub data Lineage : List Bytes → Option IdentityState → Type 0 where
    empty : Lineage [] none
    next :
        (envelope : Bytes) {older : List Bytes} (previous : Option IdentityState)
        {s : IdentityState}
        → Lineage older previous
        → IsBound c name envelope s
        → Verdict c previous s
        → Lineage (envelope ∷ older) (some s)

  pub Lineage-OfOwner :
      {older : List Bytes} (o : Option IdentityState) → Lineage older o → OfOwner name o
  Lineage-OfOwner none line = tt
  Lineage-OfOwner (some s) (Lineage.next envelope previous line bound verdict) = bound.named

  pub Lineage-IsBound :
      {envelope : Bytes} {older : List Bytes} {s : IdentityState}
      → Lineage (envelope ∷ older) (some s)
      → IsBound c name envelope s
  Lineage-IsBound (Lineage.next envelope previous line bound verdict) = bound

  abbrev AllGoverned : Option IdentityState → Type 0
  AllGoverned none = Unit
  AllGoverned (some s) = Governed c s

  Lineage-Governed :
      {older : List Bytes} (o : Option IdentityState) → Lineage older o → AllGoverned o
  Lineage-Governed none line = tt
  Lineage-Governed (some s) (Lineage.next envelope o line bound (Verdict.legacy l)) =
      inl (l.signers, l.generation)
  Lineage-Governed (some s) (Lineage.next envelope none line bound (Verdict.versioned st)) =
      first st
    where
      first : {s : IdentityState} → Step c none s → Governed c s
      first (Step.genesis s q n e g t w) = inr t
  Lineage-Governed (some s) (Lineage.next envelope (some p) line bound (Verdict.versioned st)) =
      Step-Governed c (Lineage-Governed (some p) line) st

  -- Where a chain of envelopes last began, and what it has come to since.
  pub record Origin (envelopes : List Bytes) (s : IdentityState) : Type 0 where
    pub newer : List Bytes
    pub first_envelope : Bytes
    pub older : List Bytes
    pub split : envelopes ≡ newer ++ (first_envelope ∷ older)
    pub held : s.envelope_bytes ∷ s.predecessor_envelopes ≡ newer ++ (first_envelope ∷ [])
    pub first : IdentityState
    pub bound : IsBound c name first_envelope first
    pub begins : IsLegacy c first ⊎ Step c none first
    pub sequence : s.sequence ≡ first.sequence + length newer
    pub generation : generation_or_zero first ≤ generation_or_zero s

  held_as :
      (envelope : Bytes) (s : IdentityState) (before : List Bytes)
      → IsBound c name envelope s
      → s.predecessor_envelopes ≡ before
      → s.envelope_bytes ∷ s.predecessor_envelopes ≡ envelope ∷ before
  held_as envelope s before bound e = rw (bound.kept, e) refl

  alone : {s : IdentityState} → Step c none s → s.predecessor_envelopes ≡ []
  alone (Step.genesis s q n e g t w) = e

  begin :
      (envelope : Bytes) (older : List Bytes) (s : IdentityState)
      → IsBound c name envelope s
      → s.predecessor_envelopes ≡ []
      → IsLegacy c s ⊎ Step c none s
      → Origin (envelope ∷ older) s
  begin envelope older s bound e b = record {
    newer = [];
    first_envelope = envelope;
    older = older;
    split = refl;
    held = held_as envelope s [] bound e;
    first = s;
    bound = bound;
    begins = b;
    sequence = omega arith;
    generation = omega arith;
  }

  Lineage-Origin :
      {envelopes : List Bytes} {s : IdentityState} → Lineage envelopes (some s) → Origin envelopes s
  Lineage-Origin {s} (Lineage.next envelope {older} o line bound (Verdict.legacy l)) =
      begin envelope older s bound l.unpreceded (inl l)
  Lineage-Origin {s} (Lineage.next envelope {older} none line bound (Verdict.versioned st)) =
      begin envelope older s bound (alone st) (inr st)
  Lineage-Origin {s} (Lineage.next envelope {older} (some p) line bound (Verdict.versioned st)) =
      let o = Lineage-Origin line in
      let f = Step-Follows c st in
      let grows = Step-generation c (Lineage-Governed (some p) line) st in
      record {
        newer = envelope ∷ o.newer;
        first_envelope = o.first_envelope;
        older = o.older;
        split = ap (λ (x : List Bytes). envelope ∷ x) o.split;
        held = held_as envelope s (o.newer ++ (o.first_envelope ∷ [])) bound (f.keeps ∙ o.held);
        first = o.first;
        bound = o.bound;
        begins = o.begins;
        sequence = omega (arith, o.sequence, f.next_sequence);
        generation = omega (arith, o.generation, grows);
      }

  pub extend_chain :
      (envelope : Bytes) {older : List Bytes} (o : Option IdentityState) {s : IdentityState}
      → Lineage older o
      → parse_identity_envelope c name envelope o ≡ ok s
      → Lineage (envelope ∷ older) (some s)
  extend_chain envelope o {s} line h =
      let (bound, verdict) =
        parse_identity_envelope_sound c name envelope o (Lineage-OfOwner o line) h in
      Lineage.next envelope o line bound verdict

  parse_history-Lineage :
      (history : List Bytes) {o : Option IdentityState}
      → parse_history c name history ≡ ok o
      → Lineage history o
  unfolding parse_history
  parse_history-Lineage [] h = subst (Lineage []) (ok-injective h) Lineage.empty
  parse_history-Lineage (envelope ∷ older) h =
      let (previous, past, h1) = >>=-eq-ok (parse_history c name older) _ h in
      let (s, parsed, h2) = >>=-eq-ok (parse_identity_envelope c name envelope previous) _ h1 in
      subst (Lineage (envelope ∷ older)) (ok-injective h2)
        (extend_chain envelope previous (parse_history-Lineage older past) parsed)

  -- A chain of envelopes that is accepted for an owner is the given envelope over the given history,
  -- and each of these envelopes was accepted: its state is bound to it and to the owner, and follows the
  -- state before it by a step that names that state's hash, or is a legacy state. The state at the end
  -- has no signers or three of which two must sign. Since the last envelope of the chain that gave a
  -- legacy or a genesis state, each envelope has raised the sequence number by one, and the
  -- generation has not fallen; these envelopes are the ones that the state holds.
  pub parse_previous_state_chain-Origin :
      (envelope : Option Bytes) (history : List Bytes) {s : IdentityState}
      → parse_previous_state_chain c name envelope history ≡ ok (some s)
      → (newest : Bytes) × (envelope ≡ some newest)
        × Lineage (newest ∷ history) (some s)
        × Governed c s
        × Origin (newest ∷ history) s
  unfolding parse_previous_state_chain
  parse_previous_state_chain-Origin none history {s} h =
      let (e, h1) = reject_if-eq-ok _ invalid_request _ h in absurd (clash (ok-injective h1))
    where
      clash : none ≢ some s
      clash q = cc
  parse_previous_state_chain-Origin (some envelope) history {s} h =
      let line = parse_history-Lineage (envelope ∷ history) (unfold parse_history in h) in
      (envelope, refl, line, Lineage-Governed (some s) line, Lineage-Origin line)

  -- The previous state of a draft is the owner's.
  pub parse_previous_state_chain-owner :
      (envelope : Option Bytes) (history : List Bytes) {s : IdentityState}
      → parse_previous_state_chain c name envelope history ≡ ok (some s)
      → s.owner_name ≡ name
  parse_previous_state_chain-owner envelope history {s} h =
      let (newest, e, line, g, o) = parse_previous_state_chain-Origin envelope history h in
      Lineage-OfOwner (some s) line
