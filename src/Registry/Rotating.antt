-- ===== src/Registry/Rotating.antt =====
-- `RegistryAdapter.confirm_owner_key_rotation`, `dispatch_owner_key_rotation` and
-- `prepare_owner_key_rotation_publication` of identity.py in a safe adapter.
use decent_wallet.Crypto.{Crypto}
use decent_wallet.Identity.Error.{Checked, invalid_request}
use decent_wallet.Identity.Latch.{Latches, RotationBinding, binding_eq, register}
use decent_wallet.Identity.State.{IdentityState}
use decent_wallet.Identity.Update.{decode_signed_update}
use decent_wallet.Prelude.{
  Option, err, false, list_eq, nat_eq, none, not, ok, option_eq, pair_eq, reject_if, some, ◌==◌,
}
use decent_wallet.Python.Value.{Bytes}
use decent_wallet.Registry.Confirm.{
  both, confirm_owner_key_rotation, is_rotated_state, predecessor_found, remote_confirmation,
  remote_found, verified, verify_successor,
}
use decent_wallet.Registry.Growth.{
  Grows, Grows-refl, IsPlain, Leaves, bind-Grows, bind-Leaves, if-Leaves, left, lift-Leaves,
  observe-Grows,
}
use decent_wallet.Registry.Guards.{Leaves-Safe, Safe, Safe-Grows}
use decent_wallet.Registry.Quiet.{
  environment_matches-Grows, parse_state-Grows, transport_available-Grows,
}
use decent_wallet.Registry.Read.{
  parse_state_with_history, rotation_environment_matches, rotation_transport_available,
}
use decent_wallet.Registry.State.{Handler, Registry, bind, observe}
use decent_wallet.Registry.World.{Event, World, predecessor_read, remote_read}

module _ (c : Crypto) (w : World) where
  -- A step that only reads, in a safe adapter.
  pub quiet-then :
      {A B : Type 0} (q : Checked A × Registry) (f : A → Handler B) {r : Registry}
      → Safe c w r
      → Leaves (Grows r) q
      → ((a : A) (r1 : Registry) → Safe c w r1 → Leaves (Safe c w) (f a r1))
      → Leaves (Safe c w) (bind q f)
  quiet-then q f s g k =
      bind-Leaves (Safe c w) (Safe c w) q f (Leaves-Safe c w q s g) (λ r1 s1. s1)
        (λ a r1 e s1. k a r1 s1)

  pub plain-Safe : (e : Event) (r : Registry) → IsPlain e → Safe c w r → Safe c w (observe w e r)
  plain-Safe e r plain s = Safe-Grows c w (observe-Grows w e r plain) s

  pub with_latches : (m : Latches) (r : Registry) → Safe c w r → Safe c w (record r { latches = m })
  with_latches m r s = record { guarded = s.guarded; approved = s.approved; known = s.known }

  verify_successor-Safe :
      (i : RotationBinding) (envelope : Bytes) (r : Registry)
      → Safe c w r
      → Leaves (Safe c w) (verify_successor c w i envelope r)
  unfolding verify_successor
  verify_successor-Safe i envelope r s =
      quiet-then (parse_state_with_history c w i.owner_name i.environment envelope r) _ s
        (parse_state-Grows c w i.owner_name i.environment envelope r)
        (λ x r1 s1.
          lift-Leaves (Safe c w) (decode_signed_update c x.signed_update_bytes) r1 _ s1 (λ u e.
            if-Leaves (Safe c w) (not (is_rotated_state c w i x u)) _ _ r1 (λ p. s1)
              (λ p.
                quiet-then (rotation_environment_matches w i.environment r1) _ s1
                  (environment_matches-Grows w i.environment r1)
                  (λ holds r2 s2.
                    if-Leaves (Safe c w) (not holds) _ _ r2 (λ p. s2)
                      (λ p.
                        let a =
                          w.get_identity_envelope_by_hash r2.history i.owner_name
                            i.predecessor_state_hash in
                        let event = predecessor_read i.owner_name i.predecessor_state_hash a in
                        lift-Leaves (Safe c w) a (observe w event r2) _ (plain-Safe event r2 tt s2)
                          (λ found e1.
                            found-Safe x found (observe w event r2)
                              (plain-Safe event r2 tt s2)))))))
    where
      found-Safe :
          (x : IdentityState) (found : Option Bytes) (r : Registry)
          → Safe c w r
          → Leaves (Safe c w) (predecessor_found c w i x found r)
      found-Safe x none r s = s
      found-Safe x (some b) r s =
          quiet-then (parse_state_with_history c w i.owner_name i.environment b r) _ s
            (parse_state-Grows c w i.owner_name i.environment b r) (λ p r1 s1. s1)

  verified-Safe :
      (i : RotationBinding) (a : Checked (Option IdentityState)) (r : Registry)
      → Safe c w r
      → Leaves (Safe c w) (verified c w i a r)
  verified-Safe i (ok (some x)) r s =
      quiet-then (rotation_environment_matches w i.environment r) _ s
        (environment_matches-Grows w i.environment r) (λ holds r1 s1. s1)
  verified-Safe i (ok none) r s = s
  verified-Safe i (err e) r s = s

  remote_found-Safe :
      (i : RotationBinding) (found : Option Bytes) (r : Registry)
      → Safe c w r
      → Leaves (Safe c w) (remote_found c w i found r)
  remote_found-Safe i none r s = s
  remote_found-Safe i (some b) r s =
      if-Leaves (Safe c w) (c.sha256 b == i.envelope_hash) _ _ r
        (λ p.
          verified-Safe i (verify_successor c w i b r).0 (verify_successor c w i b r).1
            (left (Safe c w) (verify_successor c w i b r) (verify_successor-Safe i b r s)))
        (λ p. s)

  remote_confirmation-Safe :
      (i : RotationBinding) (a : Checked (Option Bytes)) (r : Registry)
      → Safe c w r
      → Leaves (Safe c w) (remote_confirmation c w i a r)
  remote_confirmation-Safe i (err e) r s = s
  remote_confirmation-Safe i (ok found) r s =
      quiet-then (rotation_environment_matches w i.environment r) _ s
        (environment_matches-Grows w i.environment r)
        (λ holds r1 s1.
          if-Leaves (Safe c w) holds _ _ r1 (λ p. remote_found-Safe i found r1 s1) (λ p. s1))

  pub reachable-Grows :
      (i : RotationBinding) (r : Registry)
      → Leaves
          (Grows r)
          (both (rotation_environment_matches w i.environment) (rotation_transport_available w) r)
  reachable-Grows i r =
      bind-Grows r (rotation_environment_matches w i.environment r) _
        (environment_matches-Grows w i.environment r)
        (λ holds r1.
          if-Leaves (Grows r1) holds _ _ r1 (λ p. transport_available-Grows w r1)
            (λ p. Grows-refl r1))

  pub confirm_rotation-Safe :
      (i : RotationBinding) (r : Registry)
      → Safe c w r
      → Leaves (Safe c w) (confirm_owner_key_rotation c w i r)
  unfolding confirm_owner_key_rotation
  confirm_rotation-Safe i r s =
      let r1 = record r { latches = (register i false r.latches).0 } in
      let s1 = with_latches (register i false r.latches).0 r s in
      lift-Leaves (Safe c w) (reject_if (not (register i false r.latches).1) invalid_request) r1 _
        s1
        (λ x e.
          quiet-then
            (both (rotation_environment_matches w i.environment) (rotation_transport_available w)
              r1)
            _ s1 (reachable-Grows i r1)
            (λ reachable r2 s2.
              if-Leaves (Safe c w) (not reachable) _ _ r2 (λ p. s2)
                (λ p.
                  let a = w.get_remote_identity_envelope r2.history i.owner_name in
                  remote_confirmation-Safe i a (observe w (remote_read i.owner_name a) r2)
                    (plain-Safe (remote_read i.owner_name a) r2 tt s2))))
