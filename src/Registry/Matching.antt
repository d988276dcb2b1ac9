-- ===== src/Registry/Matching.antt =====
-- What `RegistryAdapter.dispatch_owner_key_rotation` of identity.py knows of the publication, the intent
-- and the latch before it writes.
use decent_wallet.Crypto.{Crypto}
use decent_wallet.Identity.Bundle.Merge.{draft_eq}
use decent_wallet.Identity.Latch.{
  Latches, RotationBinding, binding_eq, is_dispatch_ready, is_latched, rotation_binding,
  same_binding, same_binding_iff,
}
use decent_wallet.Identity.Latch.Entries.{binding_itself}
use decent_wallet.Identity.Require.{require_bytes}
use decent_wallet.Identity.Update.{decode_signed_update}
use decent_wallet.Prelude.{
  >>=-eq-ok, All, Bool, Bool-cases, Option, Option-cases, [], ap, arith, beq→eq, false, inl, inr,
  list_eq, nat_eq, none, ok, ok-injective, option_eq, pair_eq, refl, some, subst, sym, true, ℕ,
  ◌==◌, ◌∙◌, ◌∷◌, ◌≡◌, ◌≢◌,
}
use decent_wallet.Python.Dict.{Dict, lookup}
use decent_wallet.Python.Value.{Bytes, Str}
use decent_wallet.Registry.Growth.{Leaves, if-Leaves}
use decent_wallet.Registry.Guards.{Fresh}
use decent_wallet.Registry.Publication.{matches_intent, publication_attributes, same_bindings}
use decent_wallet.Registry.Read.{rotation_environment_matches}
use decent_wallet.Registry.State.{Registry, RotationPublication}
use decent_wallet.Registry.World.{World}

pub lookup-All :
    {V : Type 0} (P : ℕ × V → Type 0) (k : ℕ) (d : Dict ℕ V) {v : V}
    → lookup k d ≡ some v
    → All P d
    → (j : ℕ) × P (j, v)
unfolding lookup
lookup-All P k [] h g = cc
lookup-All P k ((j, x) ∷ d) {v} h g = elim (Bool-cases (j == k)) [
  | inl p ↦ (j, subst (λ y. P (j, y)) (ground arith) g.0)
  | inr p ↦ lookup-All P k d (ground arith) g.1
]

module _ (c : Crypto) (w : World) where
  pub Fresh-matches :
      (deadline : ℕ) (e : Option Str) (r : Registry)
      → Fresh c w deadline r.history
      → Leaves (λ r'. Fresh c w deadline r'.history) (rotation_environment_matches w e r)
  unfolding rotation_environment_matches
  Fresh-matches deadline none r soon = soon
  Fresh-matches deadline (some e) r soon =
      if-Leaves (λ r'. Fresh c w deadline r'.history) (r.registry_environment == some e) _ _ r
        (λ p. soon) (λ p. soon)

  -- The latch of the intent is there.
  abbrev pub HasLatch : RotationBinding → Registry → Type 0
  HasLatch i r = (ready : Bool) × (lookup i.owner_name r.latches ≡ some (i, ready))

  pub is_latched-HasLatch :
      (i : RotationBinding) (r : Registry) → is_latched i r.latches ≡ true → HasLatch i r
  unfolding is_latched
  is_latched-HasLatch i r h = elim (Option-cases (rotation_binding i)) [
    | inl bad ↦ absurd (clash (rw (bad, is_latched) at h))
    | inr (b, good) ↦
        let itself : rotation_binding i ≡ some i = good ∙ ap some (sym (binding_itself i good)) in
        found (lookup i.owner_name r.latches) refl (rw (itself, is_latched) at h)
  ]
    where
      clash : false ≢ true
      clash q = cc

      found :
          (o : Option (RotationBinding × Bool))
          → lookup i.owner_name r.latches ≡ o
          → (elim o as (λ _. Bool) [
            | none ↦ false
            | some (current, ready) ↦ same_binding current i
          ])
            ≡ true
          → HasLatch i r
      found none at_none p = absurd (clash p)
      found (some (current, ready)) at_some p =
          (ready, at_some ∙ ap (λ x. some (x, ready)) ((same_binding_iff current i).0 p))

  -- A publication and an intent that matches it.
  pub record Matching (p : RotationPublication) (i : RotationBinding) (owner : Bytes) : Type 0 where
    pub owned : i.owner_name ≡ owner
    pub hashed : i.envelope_hash ≡ c.sha256 p.envelope_bytes

  attributes-hash :
      (p : RotationPublication) (b : RotationBinding)
      → publication_attributes c p ≡ ok b
      → b.envelope_hash ≡ c.sha256 p.envelope_bytes
  unfolding publication_attributes
  attributes-hash p b h =
      let (u, decoded, h1) =
        >>=-eq-ok (decode_signed_update c p.bundle.draft.signed_update_bytes) _ h in
      let (name, named, h2) = >>=-eq-ok (require_bytes none false u.record_name) _ h1 in
      let (k, keyed, h3) = >>=-eq-ok (require_bytes none false u.record_key) _ h2 in
      sym (ap (λ (x : RotationBinding). x.envelope_hash) (ok-injective h3))

  pub matches_intent-Matching :
      (p : RotationPublication) (i b : RotationBinding)
      → matches_intent c p i ≡ true
      → publication_attributes c p ≡ ok b
      → rotation_binding i ≡ some i
      → Matching p i b.owner_name
  unfolding matches_intent
  matches_intent-Matching p i b h e good =
      let both : (rotation_binding b == rotation_binding i) ≡ true =
        subst (λ x. same_bindings c x i ≡ true) e h in
      let is_b : b ≡ i =
        binding_itself b (beq→eq (rotation_binding b) (rotation_binding i) both ∙ good) in
      record {
        owned = ap (λ (x : RotationBinding). x.owner_name) (sym is_b);
        hashed = ap (λ (x : RotationBinding). x.envelope_hash) (sym is_b) ∙ attributes-hash p b e;
      }

  pub dispatch_ready-binding :
      (i : RotationBinding) (m : Latches)
      → is_dispatch_ready i m ≡ true
      → rotation_binding i ≡ some i
  unfolding is_dispatch_ready
  dispatch_ready-binding i m h = elim (Option-cases (rotation_binding i)) [
    | inl bad ↦ absurd (clash (rw (bad, is_dispatch_ready) at h))
    | inr (b, good) ↦ good ∙ ap some (sym (binding_itself i good))
  ]
    where
      clash : false ≢ true
      clash q = cc
