-- ===== src/Registry/Tested.antt =====
-- The `try` block of `RegistryAdapter.confirm_owner_key_rotation` of identity.py: what the envelopes say.
use decent_wallet.Crypto.{Crypto}
use decent_wallet.Identity.Error.{Checked}
use decent_wallet.Identity.Latch.{RotationBinding, binding_eq}
use decent_wallet.Identity.State.{IdentityState}
use decent_wallet.Identity.Update.{SignedUpdate, decode_signed_update}
use decent_wallet.Prelude.{
  Bool, Bool-cases, Option, and_true, ap, arith, beq→eq, err, false, if◌then◌else◌, inl, inr,
  list_eq, nat_eq, none, not, ok, option_eq, pair_eq, refl, some, subst, sym, true, ◌+◌, ◌==◌, ◌∙◌,
  ◌∷◌, ◌≡◌, ◌≢◌,
}
use decent_wallet.Python.Value.{Bytes}
use decent_wallet.Registry.Asking.{Ends}
use decent_wallet.Registry.Confirm.{
  is_predecessor, is_rotated_state, judged, predecessor_found, verify_successor,
}
use decent_wallet.Registry.Facts.{Facts, KeptRead, Successor, rotated}
use decent_wallet.Registry.Growth.{
  Grows, Grows-trans, Leaves, Quietly, Quietly-trans, after, observe-Grows, same,
}
use decent_wallet.Registry.History.{
  Leaves-Ends, ReadFor, lift-Ends, parse_state_with_history-ReadFor, step-Ends, widen-Ends,
}
use decent_wallet.Registry.Quiet.{environment_matches-Grows, parse_state-Grows}
use decent_wallet.Registry.Read.{parse_state_with_history, rotation_environment_matches}
use decent_wallet.Registry.State.{Registry, observe, pure, read_predecessor, ◌>>=◌}
use decent_wallet.Registry.World.{World, predecessor_read}

both-Ends :
    {A : Type 0} (Q : A → Registry → Type 0) (S T : Registry → Type 0) (q : Checked A × Registry)
    → Ends Q S q
    → Leaves T q
    → Ends (λ a r. Q a r × T r) T q
both-Ends Q S T (ok a, r) h k = (h, k)
both-Ends Q S T (err e, r) h k = k

module _ (c : Crypto) (w : World) where
  -- The result of the test of the predecessor.
  judged_same :
      (i : RotationBinding) (s p : IdentityState) (x : IdentityState)
      → judged c w i s p ≡ some x
      → (x ≡ s)
        × (p.owner_public_key ≡ i.predecessor_owner_public_key)
        × (p.state_hash ≡ i.predecessor_state_hash)
        × (s.sequence ≡ p.sequence + 1)
  unfolding is_predecessor
  judged_same i s p x h = elim (Bool-cases (is_predecessor c w i s p)) [
    | inl good ↦
        let (q1, p3) = and_true _ (s.sequence == p.sequence + 1) good in
        let (p1, p2) =
          and_true (p.owner_public_key == i.predecessor_owner_public_key)
            (p.state_hash == i.predecessor_state_hash) q1 in
        (
          ground arith,
          beq→eq p.owner_public_key i.predecessor_owner_public_key p1,
          beq→eq p.state_hash i.predecessor_state_hash p2,
          beq→eq s.sequence (p.sequence + 1) p3,
        )
    | inr bad ↦ absurd (clash (rw bad at h))
  ]
    where
      clash : none ≢ some x
      clash q = cc

  -- What the test of a successor finds out, and that it only reads.
  abbrev pub Tested : RotationBinding → Bytes → Registry → Option IdentityState → Registry → Type 0
  Tested i envelope r o r' =
      ((s : IdentityState) → o ≡ some s → Facts c w i envelope s r.history r'.history) × Grows r r'

  none-Tested :
      (i : RotationBinding) (envelope : Bytes) {r r' : Registry}
      → Grows r r'
      → Tested i envelope r none r'
  none-Tested i envelope g = (λ s e. absurd (clash s e), g)
    where
      clash : (s : IdentityState) → none ≢ some s
      clash s q = cc

  -- A chain that was read, with the reading's growth.
  state-Ends :
      (i : RotationBinding) (envelope : Bytes) (r : Registry)
      → Ends
          (λ s r'. ReadFor c i.owner_name envelope s × Grows r r')
          (Grows r)
          (parse_state_with_history c w i.owner_name i.environment envelope r)
  state-Ends i envelope r =
      both-Ends _ _ (Grows r) (parse_state_with_history c w i.owner_name i.environment envelope r)
        (parse_state_with_history-ReadFor c w i.owner_name i.environment envelope r)
        (parse_state-Grows c w i.owner_name i.environment envelope r)

  found-Tested :
      (i : RotationBinding) (envelope : Bytes) (s : IdentityState) (found : Option Bytes)
      (r0 r : Registry)
      → Successor c w i envelope s
      → ((b : Bytes)
          → found ≡ some b
          → KeptRead i.owner_name i.predecessor_state_hash b r0.history r.history)
      → Grows r0 r
      → Ends (Tested i envelope r0) (Grows r0) (predecessor_found c w i s found r)
  found-Tested i envelope s none r0 r known seen g = none-Tested i envelope g
  found-Tested i envelope s (some b) r0 r known seen g =
      step-Ends _ (Tested i envelope r0) (Grows r0)
        (parse_state_with_history c w i.owner_name i.environment b r) _
        (widen-Ends _ (Grows r) (Grows r0)
          (parse_state_with_history c w i.owner_name i.environment b r) (state-Ends i b r)
          (λ r1 g1. Grows-trans g g1))
        (λ p r1 h. (
          λ x e.
              let (is_s, pk, ph, nx) = judged_same i s p x e in
              let kept = seen b refl in
              subst (λ y. Facts c w i envelope y r0.history r1.history) (sym is_s)
                (record {
                  successor = known.line;
                  successor_key = known.key;
                  sequence = known.numbered;
                  rotation = known.rotation;
                  previous_envelope = b;
                  kept = record {
                    before = kept.before;
                    began = kept.began;
                    ended = Quietly-trans kept.ended h.1.quietly;
                  };
                  previous = p;
                  previous_line = h.0;
                  previous_key = pk;
                  previous_hash = ph;
                  next = nx;
                }),
          Grows-trans g h.1,
        ))

  pub verify_successor-Tested :
      (i : RotationBinding) (envelope : Bytes) (r : Registry)
      → Ends (Tested i envelope r) (Grows r) (verify_successor c w i envelope r)
  unfolding verify_successor
  verify_successor-Tested i envelope r =
      step-Ends _ (Tested i envelope r) (Grows r)
        (parse_state_with_history c w i.owner_name i.environment envelope r) _
        (state-Ends i envelope r)
        (λ s r1 h.
          lift-Ends (Tested i envelope r) (Grows r) (decode_signed_update c s.signed_update_bytes)
            r1 _ h.1 (λ u decoded. tested s u r1 h.0 decoded h.1 (is_rotated_state c w i s u) refl))
    where
      looked :
          (s : IdentityState) (r2 : Registry)
          → Successor c w i envelope s
          → Grows r r2
          → (b : Bool)
          → Ends (Tested i envelope r) (Grows r) (
              (if not b then pure none else (do
                found ← read_predecessor w i.owner_name i.predecessor_state_hash
                predecessor_found c w i s found))
                r2)
      looked s r2 known g false = none-Tested i envelope g
      looked s r2 known g true =
          let a =
            w.get_identity_envelope_by_hash r2.history i.owner_name i.predecessor_state_hash in
          let event = predecessor_read i.owner_name i.predecessor_state_hash a in
          let g3 = Grows-trans g (observe-Grows w event r2 tt) in
          lift-Ends (Tested i envelope r) (Grows r) a (observe w event r2) _ g3 (λ found e.
            found-Tested i envelope s found r (observe w event r2) known
              (λ b eb. record {
                before = r2.history;
                began = g.quietly;
                ended =
                    subst
                      (λ (x : Checked (Option Bytes)).
                        Quietly
                          (predecessor_read i.owner_name i.predecessor_state_hash x ∷ r2.history)
                          (event ∷ r2.history))
                      (e ∙ ap ok eb) same;
              })
              g3)

      tested :
          (s : IdentityState) (u : SignedUpdate) (r1 : Registry)
          → ReadFor c i.owner_name envelope s
          → decode_signed_update c s.signed_update_bytes ≡ ok u
          → Grows r r1
          → (b : Bool) → is_rotated_state c w i s u ≡ b
          → Ends (Tested i envelope r) (Grows r) (
              (if not b then pure none else (do
                holds ← rotation_environment_matches w i.environment
                if not holds then pure none else (do
                  found ← read_predecessor w i.owner_name i.predecessor_state_hash
                  predecessor_found c w i s found)))
                r1)
      tested s u r1 line decoded g false e = none-Tested i envelope g
      tested s u r1 line decoded g true e =
          let known = rotated c w i envelope s u line decoded e in
          step-Ends (λ holds r2. Grows r r2) (Tested i envelope r) (Grows r)
            (rotation_environment_matches w i.environment r1) _
            (Leaves-Ends (Grows r) (rotation_environment_matches w i.environment r1) (
              after g (rotation_environment_matches w i.environment r1)
                (environment_matches-Grows w i.environment r1)))
            (λ holds r2 g2. looked s r2 known g2 holds)
