-- ===== src/Registry/Evidence.antt =====
-- What a confirmation by `RegistryAdapter.confirm_owner_key_rotation` of identity.py rests on.
use decent_wallet.Crypto.{Crypto}
use decent_wallet.Identity.Error.{Checked, invalid_request}
use decent_wallet.Identity.Latch.{RotationBinding, binding_eq, register}
use decent_wallet.Identity.State.{IdentityState}
use decent_wallet.Prelude.{
  Bool, Option, arith, beq→eq, err, false, if◌then◌else◌, list_eq, nat_eq, none, not, ok, option_eq,
  pair_eq, refl, reject_if, some, subst, true, ◌==◌, ◌∷◌, ◌≡◌, ◌≢◌,
}
use decent_wallet.Python.Value.{Bytes}
use decent_wallet.Registry.Asking.{Ends}
use decent_wallet.Registry.Confirm.{
  RotationConfirmation, both, confirm_owner_key_rotation, confirmation, remote_confirmation,
  remote_found, verified, verify_successor,
}
use decent_wallet.Registry.Facts.{Facts}
use decent_wallet.Registry.Growth.{Grows, Quietly, Quietly-trans}
use decent_wallet.Registry.History.{Leaves-Ends, lift-Ends, step-Ends, widen-Ends}
use decent_wallet.Registry.Quiet.{environment_matches-Grows}
use decent_wallet.Registry.Read.{rotation_environment_matches, rotation_transport_available}
use decent_wallet.Registry.Rotating.{reachable-Grows}
use decent_wallet.Registry.State.{Registry, attempt, observe, pure, read_remote, ◌>>=◌}
use decent_wallet.Registry.Tested.{Tested, verify_successor-Tested}
use decent_wallet.Registry.World.{History, World, remote_read}

-- The remote read of a call that began with the one history and ended with the other.
pub record Observed (owner envelope : Bytes) (h h' : History) : Type 0 where
  pub before : History
  pub began : Quietly h before
  pub ended : Quietly (remote_read owner (ok (some envelope)) ∷ before) h'

module _ (c : Crypto) (w : World) where
  pub record Evidence (i : RotationBinding) (x : RotationConfirmation) (r r' : Registry)
      : Type 0 where
    pub intent : x.intent ≡ i
    pub envelope : Bytes
    pub observed : Observed i.owner_name envelope r.history r'.history
    pub hashed : c.sha256 envelope ≡ i.envelope_hash
    pub successor : IdentityState
    pub facts :
        Facts c w i envelope successor
          (remote_read i.owner_name (ok (some envelope)) ∷ observed.before)
          r'.history
    pub state_hash : x.state_hash ≡ successor.state_hash

  -- The predecessor was read between two histories, and so between longer ones.
  extend-Facts :
      (i : RotationBinding) (envelope : Bytes) (s : IdentityState) {h0 h h' h1 : History}
      → Quietly h0 h
      → Quietly h' h1
      → Facts c w i envelope s h h'
      → Facts c w i envelope s h0 h1
  extend-Facts i envelope s p q f = record {
    successor = f.successor;
    successor_key = f.successor_key;
    sequence = f.sequence;
    rotation = f.rotation;
    previous_envelope = f.previous_envelope;
    kept = record {
      before = f.kept.before;
      began = Quietly-trans p f.kept.began;
      ended = Quietly-trans f.kept.ended q;
    };
    previous = f.previous;
    previous_line = f.previous_line;
    previous_key = f.previous_key;
    previous_hash = f.previous_hash;
    next = f.next;
  }

  -- Every confirmation that is returned has its evidence.
  abbrev Proven : RotationBinding → Registry → Option RotationConfirmation → Registry → Type 0
  Proven i r o r' = (x : RotationConfirmation) → o ≡ some x → Evidence i x r r'

  abbrev Any : Registry → Type 0
  Any r = Unit

  none-Proven : (i : RotationBinding) (r r' : Registry) → Proven i r none r'
  none-Proven i r r' x e = absurd (clash e)
    where
      clash : none ≢ some x
      clash q = cc

  module _ (i : RotationBinding) (r : Registry) (envelope : Bytes)
      (hashed : c.sha256 envelope ≡ i.envelope_hash) where
    verified-Proven :
        (q : Checked (Option IdentityState) × Registry) (r1 : Registry)
        → Observed i.owner_name envelope r.history r1.history
        → Ends (Tested c w i envelope r1) (Grows r1) q
        → Ends (Proven i r) Any (verified c w i q.0 q.1)
    verified-Proven (err e, r2) r1 seen h = none-Proven i r r2
    verified-Proven (ok none, r2) r1 seen h = none-Proven i r r2
    verified-Proven (ok (some s), r2) r1 seen h =
        step-Ends (λ holds r3. Grows r2 r3) (Proven i r) Any
          (rotation_environment_matches w i.environment r2) _
          (widen-Ends _ (Grows r2) Any (rotation_environment_matches w i.environment r2)
            (Leaves-Ends (Grows r2) (rotation_environment_matches w i.environment r2)
              (environment_matches-Grows w i.environment r2))
            (λ r3 g. tt))
          last
      where
        last :
            (holds : Bool) (r3 : Registry)
            → Grows r2 r3
            → Proven i r (if holds then some (confirmation c w i s) else none) r3
        last false r3 g = none-Proven i r r3
        last true r3 g = λ x e.
            subst (λ y. Evidence i y r r3) (ground arith)
              (record {
                intent = refl;
                envelope = envelope;
                observed = record {
                  before = seen.before;
                  began = seen.began;
                  ended = Quietly-trans seen.ended (Quietly-trans h.1.quietly g.quietly);
                };
                hashed = hashed;
                successor = s;
                facts = extend-Facts i envelope s seen.ended g.quietly (h.0 s refl);
                state_hash = refl;
              })

  remote_found-Proven :
      (i : RotationBinding) (r : Registry) (found : Option Bytes) (r1 : Registry)
      → ((b : Bytes) → found ≡ some b → Observed i.owner_name b r.history r1.history)
      → Ends (Proven i r) Any (remote_found c w i found r1)
  remote_found-Proven i r none r1 seen = none-Proven i r r1
  remote_found-Proven i r (some b) r1 seen = same_hash (c.sha256 b == i.envelope_hash) refl
    where
      same_hash :
          (e : Bool)
          → c.sha256 b == i.envelope_hash ≡ e
          → Ends (Proven i r) Any (
              (if e
                  then (do a ← attempt (verify_successor c w i b); verified c w i a)
                  else pure none)
                r1)
      same_hash false e = none-Proven i r r1
      same_hash true e =
          verified-Proven i r b (beq→eq (c.sha256 b) i.envelope_hash e)
            (verify_successor c w i b r1) r1 (seen b refl) (verify_successor-Tested c w i b r1)

  remote_confirmation-Proven :
      (i : RotationBinding) (r r1 : Registry) (a : Checked (Option Bytes))
      → Quietly r.history r1.history
      → Ends
          (Proven i r)
          Any
          (remote_confirmation c w i a (observe w (remote_read i.owner_name a) r1))
  remote_confirmation-Proven i r r1 (err e) q =
      none-Proven i r (observe w (remote_read i.owner_name (err e)) r1)
  remote_confirmation-Proven i r r1 (ok found) q =
      let r2 = observe w (remote_read i.owner_name (ok found)) r1 in
      step-Ends (λ holds r3. Grows r2 r3) (Proven i r) Any
        (rotation_environment_matches w i.environment r2) _
        (widen-Ends _ (Grows r2) Any (rotation_environment_matches w i.environment r2)
          (Leaves-Ends (Grows r2) (rotation_environment_matches w i.environment r2)
            (environment_matches-Grows w i.environment r2))
          (λ r3 g. tt))
        held_on
    where
      seen :
          (r3 : Registry)
          → Grows (observe w (remote_read i.owner_name (ok found)) r1) r3
          → (b : Bytes) → found ≡ some b
          → Observed i.owner_name b r.history r3.history
      seen r3 g b e = record {
        before = r1.history;
        began = q;
        ended =
            subst (λ o. Quietly (remote_read i.owner_name (ok o) ∷ r1.history) r3.history) e
              g.quietly;
      }

      held_on :
          (holds : Bool) (r3 : Registry)
          → Grows (observe w (remote_read i.owner_name (ok found)) r1) r3
          → Ends (Proven i r) Any ((if holds then remote_found c w i found else pure none) r3)
      held_on false r3 g = none-Proven i r r3
      held_on true r3 g = remote_found-Proven i r found r3 (seen r3 g)

  -- Where a confirmation is returned, a remote read of this very call gave an envelope with the hash
  -- of the intent. It ends a chain of envelopes that were accepted for the owner one after the other,
  -- its state has the intended successor key and sequence number, and its update is a rotation that
  -- names the intended predecessor hash. After that read, the transport gave in this call an envelope
  -- for that hash, which ends such a chain too; its state has the intended predecessor key and that
  -- hash, and the sequence number before.
  pub confirm_owner_key_rotation-Evidence :
      (i : RotationBinding) (r : Registry)
      → Ends
          (λ o r'. (x : RotationConfirmation) → o ≡ some x → Evidence i x r r')
          (λ r'. Unit)
          (confirm_owner_key_rotation c w i r)
  unfolding confirm_owner_key_rotation
  confirm_owner_key_rotation-Evidence i r =
      let r1 = record r { latches = (register i false r.latches).0 } in
      lift-Ends (Proven i r) Any (reject_if (not (register i false r.latches).1) invalid_request) r1
        _ tt
        (λ u e.
          step-Ends (λ reachable r2. Grows r1 r2) (Proven i r) Any
            (both (rotation_environment_matches w i.environment) (rotation_transport_available w)
              r1)
            _
            (widen-Ends _ (Grows r1) Any
              (both (rotation_environment_matches w i.environment) (rotation_transport_available w)
                r1)
              (Leaves-Ends (Grows r1)
                (both (rotation_environment_matches w i.environment)
                  (rotation_transport_available w) r1)
                (reachable-Grows c w i r1))
              (λ r2 g. tt))
            answered)
    where
      answered :
          (reachable : Bool) (r2 : Registry)
          → Grows (record r { latches = (register i false r.latches).0 }) r2
          → Ends (Proven i r) Any (
              (if not reachable
                  then pure none
                  else (do a ← attempt (read_remote w i.owner_name); remote_confirmation c w i a))
                r2)
      answered false r2 g = none-Proven i r r2
      answered true r2 g =
          remote_confirmation-Proven i r r2 (w.get_remote_identity_envelope r2.history i.owner_name)
            g.quietly
