-- ===== src/Registry/Facts.antt =====
-- What `RegistryAdapter.confirm_owner_key_rotation` of identity.py finds out about two envelopes.
use decent_wallet.Crypto.{Crypto}
use decent_wallet.Identity.Authorization.{Authorization}
use decent_wallet.Identity.Draft.Lineage.{Lineage-IsBound}
use decent_wallet.Identity.Latch.{RotationBinding, binding_eq}
use decent_wallet.Identity.State.{IdentityState}
use decent_wallet.Identity.Update.{SignedUpdate, decode_signed_update}
use decent_wallet.Prelude.{
  Bool, Option, and_true, ap, beq→eq, false, list_eq, nat_eq, none, ok, ok-injective, option_eq,
  pair_eq, refl, some, sym, true, ◌&&◌, ◌+◌, ◌==◌, ◌∙◌, ◌∷◌, ◌≡◌,
}
use decent_wallet.Python.Value.{Bytes}
use decent_wallet.Registry.Confirm.{is_rotated_state}
use decent_wallet.Registry.Growth.{Quietly}
use decent_wallet.Registry.History.{ReadFor}
use decent_wallet.Registry.World.{History, World, predecessor_read}

-- A predecessor's envelope that the transport gave between the two histories.
pub record KeptRead (owner state_hash envelope : Bytes) (h h' : History) : Type 0 where
  pub before : History
  pub began : Quietly h before
  pub ended : Quietly (predecessor_read owner state_hash (ok (some envelope)) ∷ before) h'

module _ (c : Crypto) (w : World) where
  -- The update of a state is a rotation away from the state with this hash.
  pub record Rotates (s : IdentityState) (predecessor : Bytes) : Type 0 where
    pub update : SignedUpdate
    pub decoded : decode_signed_update c s.signed_update_bytes ≡ ok update
    pub authorization : Authorization
    pub has_authorization : update.authorization ≡ some authorization
    pub operation : authorization.operation ≡ 5
    pub names : authorization.predecessor ≡ predecessor

  -- The remote envelope, and the predecessor that the transport has kept and that was read between the
  -- two histories.
  pub record Facts (i : RotationBinding) (envelope : Bytes) (s : IdentityState) (h h' : History)
      : Type 0 where
    pub successor : ReadFor c i.owner_name envelope s
    pub successor_key : s.owner_public_key ≡ i.successor_owner_public_key
    pub sequence : s.sequence ≡ i.sequence
    pub rotation : Rotates s i.predecessor_state_hash
    pub previous_envelope : Bytes
    pub kept : KeptRead i.owner_name i.predecessor_state_hash previous_envelope h h'
    pub previous : IdentityState
    pub previous_line : ReadFor c i.owner_name previous_envelope previous
    pub previous_key : previous.owner_public_key ≡ i.predecessor_owner_public_key
    pub previous_hash : previous.state_hash ≡ i.predecessor_state_hash
    pub next : s.sequence ≡ previous.sequence + 1

  -- What is known of the successor before the predecessor is looked up.
  pub record Successor (i : RotationBinding) (envelope : Bytes) (s : IdentityState) : Type 0 where
    pub line : ReadFor c i.owner_name envelope s
    pub key : s.owner_public_key ≡ i.successor_owner_public_key
    pub numbered : s.sequence ≡ i.sequence
    pub rotation : Rotates s i.predecessor_state_hash

  pub rotated :
      (i : RotationBinding) (envelope : Bytes) (s : IdentityState) (u : SignedUpdate)
      → ReadFor c i.owner_name envelope s
      → decode_signed_update c s.signed_update_bytes ≡ ok u
      → is_rotated_state c w i s u ≡ true
      → Successor i envelope s
  unfolding is_rotated_state
  rotated i envelope s u line decoded h = named u.authorization refl h
    where
      named :
          (o : Option Authorization)
          → u.authorization ≡ o
          → (elim o as (λ _. Bool) [
            | none ↦ false
            | some a ↦
                a.operation == 5
                && a.predecessor == i.predecessor_state_hash
                && s.owner_name == i.owner_name
                && s.owner_public_key == i.successor_owner_public_key
                && u.sequence == i.sequence
          ])
            ≡ true
          → Successor i envelope s
      named none eo p = cc
      named (some a) eo p =
          let (q1, p5) = and_true _ (u.sequence == i.sequence) p in
          let (q2, p4) = and_true _ (s.owner_public_key == i.successor_owner_public_key) q1 in
          let (q3, p3) = and_true _ (s.owner_name == i.owner_name) q2 in
          let (p1, p2) =
            and_true (a.operation == 5) (a.predecessor == i.predecessor_state_hash) q3 in
          let bound = Lineage-IsBound c i.owner_name line.1 in
          record {
            line = line;
            key = beq→eq s.owner_public_key i.successor_owner_public_key p4;
            numbered =
                sym bound.same_sequence
                ∙ ap (λ (x : SignedUpdate). x.sequence) (ok-injective (sym bound.decoded ∙ decoded))
                ∙ beq→eq u.sequence i.sequence p5;
            rotation = record {
              update = u;
              decoded = decoded;
              authorization = a;
              has_authorization = eo;
              operation = beq→eq a.operation 5 p1;
              names = beq→eq a.predecessor i.predecessor_state_hash p2;
            };
          }
