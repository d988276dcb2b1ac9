-- ===== src/Registry/Quiet.antt =====
-- The parts of identity.py's adapter that only read.
use decent_wallet.Crypto.{Crypto}
use decent_wallet.Identity.Draft.Create.{max_predecessor_depth}
use decent_wallet.Identity.Envelope.Parse.{parse_identity_envelope}
use decent_wallet.Identity.Error.{Checked, invalid_state, transport_failure}
use decent_wallet.Identity.Require.{validate_owner_name}
use decent_wallet.Identity.State.{IdentityState}
use decent_wallet.Prelude.{
  Option, list_eq, nat_eq, none, option_eq, or_raise, pair_eq, rethrow, some, suc, zero, ℕ, ◌==◌,
}
use decent_wallet.Python.Value.{Bytes, Str}
use decent_wallet.Registry.Gate.{Reason}
use decent_wallet.Registry.Growth.{
  Grows, Grows-refl, IsPlain, Leaves, after, bind-Grows, if-Leaves, leave, lift-Grows,
  observe-Grows,
}
use decent_wallet.Registry.Predecessor.{next_hash}
use decent_wallet.Registry.Read.{
  environment_holds, follow_history, parse_state_with_history, read_found, read_state,
  rotation_environment_matches, rotation_transport_available, turn,
}
use decent_wallet.Registry.Request.{confirm, confirm_publication}
use decent_wallet.Registry.State.{Handler, Registry, observe}
use decent_wallet.Registry.World.{
  Event, World, envelope_read, environment_asked, predecessor_read, rotation_support_asked,
}

module _ (w : World) where
  pub plain-Grows :
      {A : Type 0} (e : Event) (a : Checked A) (r : Registry)
      → IsPlain e
      → Leaves (Grows r) (a, observe w e r)
  plain-Grows e a r plain = leave (Grows r) (a, observe w e r) (observe-Grows w e r plain)

  pub environment_matches-Grows :
      (e : Option Str) (r : Registry) → Leaves (Grows r) (rotation_environment_matches w e r)
  unfolding rotation_environment_matches
  environment_matches-Grows none r = Grows-refl r
  environment_matches-Grows (some e) r =
      if-Leaves (Grows r) (r.registry_environment == some e) _ _ r
        (λ p. observe-Grows w (environment_asked (w.registry_environment r.history)) r tt)
        (λ p. Grows-refl r)

  pub transport_available-Grows :
      (r : Registry) → Leaves (Grows r) (rotation_transport_available w r)
  unfolding rotation_transport_available
  transport_available-Grows r =
      observe-Grows w (rotation_support_asked (w.supports_owner_key_rotation r.history)) r tt

module _ (c : Crypto) (w : World) (owner : Bytes) (environment : Option Str) where
  environment_holds-Grows :
      (e : Option Str) (r : Registry) → Leaves (Grows r) (environment_holds c w owner e r)
  environment_holds-Grows none r = Grows-refl r
  environment_holds-Grows (some e) r =
      bind-Grows r (rotation_environment_matches w (some e) r) _
        (environment_matches-Grows w (some e) r) (λ holds r'. leave (Grows r') _ (Grows-refl r'))

  abbrev RestGrows : Option (Bytes → Handler IdentityState) → Type 0
  RestGrows none = Unit
  RestGrows (some g) = (b : Bytes) (r : Registry) → Leaves (Grows r) (g b r)

  turn-Grows :
      (rest : Option (Bytes → Handler IdentityState)) (envelope : Bytes) (next : Option Bytes)
      (r : Registry)
      → RestGrows rest
      → Leaves (Grows r) (turn c w owner environment rest envelope next r)
  turn-Grows rest envelope none r ih =
      leave (Grows r) (parse_identity_envelope c owner envelope none, r) (Grows-refl r)
  turn-Grows none envelope (some state_hash) r ih = Grows-refl r
  turn-Grows (some g) envelope (some state_hash) r ih =
      bind-Grows r (environment_holds c w owner environment r) _
        (environment_holds-Grows environment r)
        (λ u r1.
          let a = w.get_identity_envelope_by_hash r1.history owner state_hash in
          let r2 = observe w (predecessor_read owner state_hash a) r1 in
          after (observe-Grows w (predecessor_read owner state_hash a) r1 tt) _ (
            lift-Grows r2 (rethrow a (λ x. transport_failure)) _ (λ fetched.
              lift-Grows r2 (or_raise fetched invalid_state) _ (λ predecessor.
                bind-Grows r2 (g predecessor r2) _ (ih predecessor r2) (λ p r3.
                  leave (Grows r3) (parse_identity_envelope c owner envelope (some p), r3)
                    (Grows-refl r3))))))

  pub follow_history-Grows :
      (room : ℕ) (envelope : Bytes) (r : Registry)
      → Leaves (Grows r) (follow_history c w owner environment room envelope r)
  unfolding follow_history
  follow_history-Grows zero envelope r =
      lift-Grows r (next_hash c envelope) _ (λ next. turn-Grows none envelope next r tt)
  follow_history-Grows (suc room) envelope r = lift-Grows r (next_hash c envelope) _ (λ next.
      turn-Grows (some (follow_history c w owner environment room)) envelope next r
        (follow_history-Grows room))

module _ (c : Crypto) (w : World) where
  pub parse_state-Grows :
      (owner : Bytes) (environment : Option Str) (envelope : Bytes) (r : Registry)
      → Leaves (Grows r) (parse_state_with_history c w owner environment envelope r)
  unfolding parse_state_with_history
  parse_state-Grows owner environment envelope r =
      follow_history-Grows c w owner environment max_predecessor_depth envelope r

  read_found-Grows :
      (name : Bytes) (o : Option Bytes) (r : Registry) → Leaves (Grows r) (read_found c w name o r)
  read_found-Grows name none r = Grows-refl r
  read_found-Grows name (some envelope) r =
      bind-Grows r (parse_state_with_history c w name none envelope r) _
        (parse_state-Grows name none envelope r) (λ s r1. Grows-refl r1)

  pub read_state-Grows : (owner : Bytes) (r : Registry) → Leaves (Grows r) (read_state c w owner r)
  unfolding read_state
  read_state-Grows owner r = lift-Grows r (validate_owner_name owner) _ (λ name.
      let a = w.get_identity_envelope r.history name in
      let r1 = observe w (envelope_read name a) r in
      after (observe-Grows w (envelope_read name a) r tt) _
        (lift-Grows r1 (rethrow a (λ x. transport_failure)) _ (λ o. read_found-Grows name o r1)))

  pub confirm-Grows :
      (owner envelope : Bytes) (previous : Option IdentityState) (r : Registry)
      → Leaves (Grows r) (confirm c w owner envelope previous r)
  unfolding confirm
  confirm-Grows owner envelope previous r =
      lift-Grows r (validate_owner_name owner) _
        (λ name. observe-Grows w (envelope_read name (w.get_identity_envelope r.history name)) r tt)

  pub confirm_publication-Grows :
      (owner envelope : Bytes) (previous : Option IdentityState) (why : Reason) (r : Registry)
      → Leaves (Grows r) (confirm_publication c w owner envelope previous why r)
  unfolding confirm_publication
  confirm_publication-Grows owner envelope previous why r =
      bind-Grows r (confirm c w owner envelope previous r) _
        (confirm-Grows owner envelope previous r) (λ accepted r1. Grows-refl r1)
