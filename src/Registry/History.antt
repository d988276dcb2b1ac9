-- ===== src/Registry/History.antt =====
-- What `RegistryAdapter._parse_state_with_history` of identity.py returns, and how much it reads.
use decent_wallet.Crypto.{Crypto}
use decent_wallet.Identity.Draft.Create.{max_predecessor_depth}
use decent_wallet.Identity.Draft.Lineage.{Lineage, extend_chain}
use decent_wallet.Identity.Envelope.Parse.{parse_identity_envelope}
use decent_wallet.Identity.Error.{Checked, invalid_state, transport_failure}
use decent_wallet.Identity.State.{IdentityState}
use decent_wallet.Prelude.{
  List, Option, [], ap, arith, err, length, list_eq, nat_eq, none, not, ok, ok-injective, option_eq,
  or_raise, or_raise-eq-ok, pair_eq, refl, reject_if, rethrow, some, subst, suc, zero, ℕ, ◌*◌, ◌+◌,
  ◌==◌, ◌∙◌, ◌∷◌, ◌≡◌, ◌≤◌,
}
use decent_wallet.Python.Value.{Bytes, Str}
use decent_wallet.Registry.Asking.{Ends}
use decent_wallet.Registry.Growth.{Leaves, Quietly, if-Leaves, later, same}
use decent_wallet.Registry.Predecessor.{next_hash}
use decent_wallet.Registry.Read.{
  environment_holds, follow_history, parse_state_with_history, rotation_environment_matches, turn,
}
use decent_wallet.Registry.State.{Handler, Registry, bind, observe}
use decent_wallet.Registry.World.{History, World, environment_asked, predecessor_read}

-- A state that was read for an owner, with all that was accepted before it.
abbrev pub ReadFor : Crypto → Bytes → Bytes → IdentityState → Type 0
ReadFor c owner envelope s = (older : List Bytes) × Lineage c owner (envelope ∷ older) (some s)

pub lift-Ends :
    {A B : Type 0} (Q : B → Registry → Type 0) (S : Registry → Type 0) (x : Checked A)
    (r : Registry) (f : A → Handler B)
    → S r
    → ((a : A) → x ≡ ok a → Ends Q S (f a r))
    → Ends Q S (bind (x, r) f)
lift-Ends Q S (ok a) r f s k = k a refl
lift-Ends Q S (err e) r f s k = s

pub step-Ends :
    {A B : Type 0} (P : A → Registry → Type 0) (Q : B → Registry → Type 0) (S : Registry → Type 0)
    (q : Checked A × Registry) (f : A → Handler B)
    → Ends P S q
    → ((a : A) (r : Registry) → P a r → Ends Q S (f a r))
    → Ends Q S (bind q f)
step-Ends P Q S (ok a, r) f h k = k a r h
step-Ends P Q S (err e, r) f h k = h

pub Leaves-Ends :
    {A : Type 0} (S : Registry → Type 0) (q : Checked A × Registry) → Leaves S q → Ends (λ a. S) S q
Leaves-Ends S (ok a, r) h = h
Leaves-Ends S (err e, r) h = h

pub end-Ends :
    {A : Type 0} (Q : A → Registry → Type 0) (S : Registry → Type 0) (x : Checked A) (r : Registry)
    → S r
    → ((a : A) → x ≡ ok a → Q a r)
    → Ends Q S (x, r)
end-Ends Q S (ok a) r s k = k a refl
end-Ends Q S (err e) r s k = s

-- What is known where a call raises may be weakened.
pub widen-Ends :
    {A : Type 0} (Q : A → Registry → Type 0) (S T : Registry → Type 0) (q : Checked A × Registry)
    → Ends Q S q
    → ((r : Registry) → S r → T r)
    → Ends Q T q
widen-Ends Q S T (ok a, r) h k = h
widen-Ends Q S T (err e, r) h k = k r h

-- The history has grown by at most `n` calls.
abbrev pub Within : ℕ → Registry → Registry → Type 0
Within n r r' = length r'.history ≤ length r.history + n

-- The envelopes, newest first, were given by the transport one after the other between the two
-- histories, in calls that only read.
pub Fetched : Bytes → History → History → List Bytes → Type 0
Fetched owner h h' [] = Quietly h h'
Fetched owner h h' (b ∷ bs) =
    (state_hash : Bytes) × (before : History) × Quietly h before
    × Fetched owner (predecessor_read owner state_hash (ok (some b)) ∷ before) h' bs

-- The history has grown by one call at most, which only read.
abbrev Near : Registry → Registry → Type 0
Near r r' = Within 1 r r' × Quietly r.history r'.history

-- A state that was read for an owner, with all that was fetched and accepted before it.
abbrev pub Chained : Crypto → Bytes → Bytes → Registry → IdentityState → Registry → Type 0
Chained c owner envelope r s r' =
    (older : List Bytes) × Lineage c owner (envelope ∷ older) (some s)
    × Fetched owner r.history r'.history older

module _ (c : Crypto) (w : World) (owner : Bytes) (environment : Option Str) where
  abbrev Good : ℕ → Bytes → Registry → IdentityState → Registry → Type 0
  Good n envelope r s r' = Chained c owner envelope r s r' × Within n r r'

  matches-Within :
      (e : Str) (r : Registry) → Leaves (Near r) (rotation_environment_matches w (some e) r)
  unfolding rotation_environment_matches
  matches-Within e r =
      if-Leaves (Near r) (r.registry_environment == some e) _ _ r
        (λ p. (omega arith, later (environment_asked (w.registry_environment r.history)) tt same))
        (λ p. (omega arith, same))

  environment_holds-Within :
      (e : Option Str) (r : Registry)
      → Ends (λ (u : Unit {0}). Near r) (Near r) (environment_holds c w owner e r)
  environment_holds-Within none r = (omega arith, same)
  environment_holds-Within (some e) r =
      step-Ends (λ b. Near r) _ (Near r) (rotation_environment_matches w (some e) r) _
        (Leaves-Ends (Near r) (rotation_environment_matches w (some e) r) (matches-Within e r))
        (λ holds r1 near.
          end-Ends _ (Near r) (reject_if (not holds) invalid_state) r1 near (λ u p. near))

  fetched_as :
      (a : Checked (Option Bytes)) (o : Option Bytes) (b : Bytes)
      → rethrow a (λ x. transport_failure) ≡ ok o
      → or_raise o invalid_state ≡ ok b
      → a ≡ ok (some b)
  fetched_as (ok (some x)) o b h e =
      ap (λ y. ok y) (ok-injective h ∙ or_raise-eq-ok o invalid_state e)
  fetched_as (ok none) o b h e = ap (λ y. ok y) (ok-injective h ∙ or_raise-eq-ok o invalid_state e)
  fetched_as (err x) o b h e = cc

  abbrev RestGood : ℕ → Option (Bytes → Handler IdentityState) → Type 0
  RestGood m none = Unit
  RestGood m (some g) =
      (n : ℕ) × (n + 2 ≤ m)
      × ((b : Bytes) (r1 : Registry) → Ends (Good n b r1) (Within n r1) (g b r1))

  turn-Good :
      (rest : Option (Bytes → Handler IdentityState)) (m : ℕ) (envelope : Bytes)
      (next : Option Bytes) (r : Registry)
      → RestGood m rest
      → Ends (Good m envelope r) (Within m r) (turn c w owner environment rest envelope next r)
  unfolding Fetched
  turn-Good rest m envelope none r ih =
      end-Ends _ (Within m r) (parse_identity_envelope c owner envelope none) r (omega arith)
        (λ s p. (([], extend_chain c owner envelope none Lineage.empty p, same), omega arith))
  turn-Good none m envelope (some state_hash) r ih = omega arith
  turn-Good (some g) m envelope (some state_hash) r (n, le, ih) =
      let wide = Within m r in
      step-Ends (λ (u : Unit {0}). Near r) (Good m envelope r) wide
        (environment_holds c w owner environment r) _
        (widen-Ends _ (Near r) wide (environment_holds c w owner environment r)
          (environment_holds-Within environment r) (λ r1 near. omega (arith, le, near.0)))
        (λ u r1 near.
          let a = w.get_identity_envelope_by_hash r1.history owner state_hash in
          let r2 = observe w (predecessor_read owner state_hash a) r1 in
          lift-Ends _ wide (rethrow a (λ x. transport_failure)) r2 _ (omega (arith, le, near.0))
            (λ fetched e1.
              lift-Ends _ wide (or_raise fetched invalid_state) r2 _ (omega (arith, le, near.0))
                (λ predecessor e2.
                  step-Ends (Good n predecessor r2) _ wide (g predecessor r2) _
                    (widen-Ends _ (Within n r2) wide (g predecessor r2) (ih predecessor r2)
                      (λ r3 near3. omega (arith, le, near.0, near3)))
                    (λ p r3 good.
                      end-Ends _ wide (parse_identity_envelope c owner envelope (some p)) r3
                        (omega (arith, le, near.0, good.1))
                        (λ s e3. (
                          (
                            predecessor ∷ good.0.0,
                            extend_chain c owner envelope (some p) good.0.1 e3,
                            (
                              state_hash,
                              r1.history,
                              near.1,
                              subst
                                  (λ (x : Checked (Option Bytes)).
                                    Fetched owner (predecessor_read owner state_hash x ∷ r1.history)
                                      r3.history good.0.0)
                                  (fetched_as a fetched predecessor e1 e2) good.0.2,
                            ),
                          ),
                          omega (arith, le, near.0, good.1),
                        ))))))

  pub follow_history-Good :
      (room : ℕ) (envelope : Bytes) (r : Registry)
      → Ends
          (Good (2 * room) envelope r)
          (Within (2 * room) r)
          (follow_history c w owner environment room envelope r)
  unfolding follow_history
  follow_history-Good zero envelope r =
      lift-Ends _ (Within (2 * zero) r) (next_hash c envelope) r _ (omega arith)
        (λ next e. turn-Good none (2 * zero) envelope next r tt)
  follow_history-Good (suc room) envelope r =
      lift-Ends _ (Within (2 * suc room) r) (next_hash c envelope) r _ (omega arith) (λ next e.
        turn-Good (some (follow_history c w owner environment room)) (2 * suc room) envelope next r
          (2 * room, omega arith, follow_history-Good room))

-- Whatever the transport answers, reading a state with its history ends after at most 2048 calls, two for
-- each of 1024 predecessors; where a state is returned, there is a chain of envelopes under the given one,
-- each of which was accepted for the owner: its state is bound to it and follows the state before it by
-- a step that names that state's hash, or is a legacy state. The transport gave the others one after the
-- other, the next older one first, in this very reading.
pub parse_state_with_history-Good :
    (c : Crypto) (w : World) (owner : Bytes) (environment : Option Str) (envelope : Bytes)
    (r : Registry)
    → Ends
        (λ s r'. Chained c owner envelope r s r' × Within (2 * max_predecessor_depth) r r')
        (Within (2 * max_predecessor_depth) r)
        (parse_state_with_history c w owner environment envelope r)
unfolding parse_state_with_history
parse_state_with_history-Good c w owner environment envelope r =
    follow_history-Good c w owner environment max_predecessor_depth envelope r

-- The same, without what was fetched.
pub parse_state_with_history-ReadFor :
    (c : Crypto) (w : World) (owner : Bytes) (environment : Option Str) (envelope : Bytes)
    (r : Registry)
    → Ends
        (λ s r'. ReadFor c owner envelope s)
        (λ r'. Unit)
        (parse_state_with_history c w owner environment envelope r)
parse_state_with_history-ReadFor c w owner environment envelope r =
    go (parse_state_with_history c w owner environment envelope r)
      (parse_state_with_history-Good c w owner environment envelope r)
  where
    go :
        (q : Checked IdentityState × Registry)
        → Ends
            (λ s r'. Chained c owner envelope r s r' × Within (2 * max_predecessor_depth) r r')
            (Within (2 * max_predecessor_depth) r)
            q
        → Ends (λ s r'. ReadFor c owner envelope s) (λ r'. Unit) q
    go (ok s, r') h = (h.0.0, h.0.1)
    go (err e, r') h = tt
