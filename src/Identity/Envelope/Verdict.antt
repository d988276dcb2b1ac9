-- ===== src/Identity/Envelope/Verdict.antt =====
-- `_parse_identity_envelope` of identity.py against the rules of the protocol.
use decent_wallet.Crypto.{Crypto}
use decent_wallet.Identity.Authorization.{Authorization}
use decent_wallet.Identity.Envelope.Inversion.{Passed, verify_signature-Signed}
use decent_wallet.Identity.Envelope.Operations.{check_operation, check_upgrade_proof, has_value}
use decent_wallet.Identity.Envelope.Parse.{
  check_proofs, legacy_state, owner_state, parse_identity_envelope, parse_legacy, parse_versioned,
}
use decent_wallet.Identity.Envelope.Rules.{IsBound, OfOwner, Step, Verdict}
use decent_wallet.Identity.Envelope.Soundness.{checks-Step}
use decent_wallet.Identity.Error.{Checked, invalid_state}
use decent_wallet.Identity.Proof.{validate_proof_list}
use decent_wallet.Identity.Require.{
  field, key_length, require_bytes, require_dict, signature_length,
}
use decent_wallet.Identity.State.{IdentityState}
use decent_wallet.Identity.Update.{
  SignedUpdate, decode_signed_update, require_canonical, verify_signature,
}
use decent_wallet.Prelude.{
  >>=-eq-ok, Bool, Bool-cases, List, Option, [], ap, arith, beq→eq, err, false, if◌then◌else◌, inl,
  inr, list_eq, nat_eq, none, not, not-false, ok, ok-injective, option_eq, or_false, or_raise,
  or_raise-eq-ok, pair_eq, refl, reject_if-eq-ok, some, subst, true, ℕ, ◌==◌, ◌||◌, ◌∙◌, ◌∷◌, ◌≡◌,
}
use decent_wallet.Python.Value.{
  Bytes, Entries, Str, Value, bytes, dict, get, int, is_bytes, is_end, is_key, key, keys_are, pos,
}

pub require_bytes-eq-ok :
    (n : Option ℕ) (ne : Bool) (v : Value) {b : Bytes} → require_bytes n ne v ≡ ok b → v ≡ bytes b
unfolding require_bytes
require_bytes-eq-ok n ne (bytes x) h = ground arith
require_bytes-eq-ok n ne _ h = cc

pub is_bytes-eq : (v : Value) (b : Bytes) → is_bytes v b ≡ true → v ≡ bytes b
is_bytes-eq (bytes a) b h = ap bytes (beq→eq a b h)
is_bytes-eq (int (pos n)) b h = cc
is_bytes-eq _ b h = cc

require_dict-eq-ok : (v : Value) {d : Entries} → require_dict v ≡ ok d → v ≡ dict d
unfolding require_dict
require_dict-eq-ok (dict d) h = ap dict (ok-injective h)
require_dict-eq-ok _ h = cc

-- A field that is read as bytes.
field-bytes :
    (k : ℕ) (d : Entries) (v : Value) (n : Option ℕ) (ne : Bool) {b : Bytes}
    → field k d ≡ ok v
    → require_bytes n ne v ≡ ok b
    → get k d ≡ some (bytes b)
field-bytes k d v n ne h e = or_raise-eq-ok (get k d) _ h ∙ ap some (require_bytes-eq-ok n ne v e)

has_value-none : {A : Type 0} (o : Option A) → has_value o ≡ false → o ≡ none
has_value-none none h = refl
has_value-none (some a) h = cc

module _ (c : Crypto) (name envelope : Bytes) where
  versioned_case :
      (previous : Option IdentityState) (update_bytes key : Bytes)
      (proofs : List (Option Str × Bytes)) (update : SignedUpdate) (a : Authorization)
      (outer : Entries)
      → OfOwner name previous
      → require_canonical c envelope ≡ ok (dict outer)
      → get 2 outer ≡ some (bytes update_bytes)
      → decode_signed_update c update_bytes ≡ ok update
      → update.authorization ≡ some a
      → update.record_key ≡ bytes key
      → update.record_name ≡ bytes name
      → is_end update.payload ≡ true
      → Passed (check_operation previous name update.record_key update.sequence a)
      → Passed (
          if a.operation == 4
          then check_upgrade_proof previous update.record_key update.sequence a proofs
          else ok tt)
      → Passed (check_proofs c previous update_bytes a proofs)
      → let s = owner_state c name envelope update_bytes update.sequence a key previous in
        IsBound c name envelope s × Step c previous s
  unfolding owner_state
  versioned_case previous update_bytes key proofs update a outer own opened held decoded has_a k n
        unpaid h u v =
      (
        record {
          named = refl;
          kept = refl;
          outer = outer;
          opened = opened;
          hashed = refl;
          update = update;
          decoded = decoded;
          carried = rw has_a held;
          no_payload = unpaid;
          same_name = n;
          same_key = k;
          same_sequence = refl;
        },
        checks-Step c name envelope update_bytes key update.sequence a update decoded has_a previous
            proofs own (subst (λ r. Passed (check_operation previous name r update.sequence a)) k h)
            (subst
              (λ r. Passed (
                if a.operation == 4
                then check_upgrade_proof previous r update.sequence a proofs
                else ok tt))
              k u)
            v,
      )

  parse_legacy_sound :
      (previous : Option IdentityState) (outer : Entries) {s : IdentityState}
      → require_canonical c envelope ≡ ok (dict outer)
      → parse_legacy c name envelope outer ≡ ok s
      → IsBound c name envelope s × Verdict c previous s
  unfolding parse_legacy legacy_state
  parse_legacy_sound previous outer {s} opened h =
      let (v1, at_one, h1) = >>=-eq-ok (field 1 outer) _ h in
      let (update_bytes, is_update, h2) = >>=-eq-ok (require_bytes none false v1) _ h1 in
      let (v2, at_two, h3) = >>=-eq-ok (field 2 outer) _ h2 in
      let (signature, is_sig, h4) =
        >>=-eq-ok (require_bytes (some signature_length) false v2) _ h3 in
      let (update, decoded, h5) = >>=-eq-ok (decode_signed_update c update_bytes) _ h4 in
      let test =
        has_value update.authorization
        || not (is_end update.payload)
        || not (is_bytes update.record_name name) in
      let (shape, h6) = reject_if-eq-ok test invalid_state _ h5 in
      let (key, is_key, h7) =
        >>=-eq-ok (require_bytes (some key_length) false update.record_key) _ h6 in
      let (u1, signed, h8) = >>=-eq-ok (verify_signature c key update_bytes signature) _ h7 in
      let plain : update.authorization ≡ none =
        has_value-none update.authorization (ground arith) in
      let built = legacy_state c name envelope update_bytes update.sequence key in
      subst (λ x. IsBound c name envelope x × Verdict c previous x) (ok-injective {a = built} h8)
        (
          record {
            named = refl;
            kept = refl;
            outer = outer;
            opened = opened;
            hashed = refl;
            update = update;
            decoded = decoded;
            carried = rw plain (field-bytes 1 outer v1 none false at_one is_update);
            no_payload = not-false (is_end update.payload) (ground arith);
            same_name =
                is_bytes-eq update.record_name name
                  (not-false (is_bytes update.record_name name) (ground arith));
            same_key = require_bytes-eq-ok _ _ update.record_key is_key;
            same_sequence = refl;
          },
          Verdict.legacy (record {
            signers = refl;
            generation = refl;
            threshold = refl;
            unpreceded = refl;
            update = update;
            decoded = decoded;
            unauthorized = plain;
            signed = verify_signature-Signed c key update_bytes signature signed;
          }),
        )

  parse_versioned_sound :
      (previous : Option IdentityState) (outer : Entries) {s : IdentityState}
      → OfOwner name previous
      → require_canonical c envelope ≡ ok (dict outer)
      → parse_versioned c name envelope previous outer ≡ ok s
      → IsBound c name envelope s × Step c previous s
  unfolding parse_versioned
  parse_versioned_sound previous outer {s} own opened h =
      let (version, h1) = reject_if-eq-ok _ _ _ h in
      let (bytes_value, at_two, h2) = >>=-eq-ok (field 2 outer) _ h1 in
      let (update_bytes, is_update, h3) = >>=-eq-ok (require_bytes none false bytes_value) _ h2 in
      let (proofs, at_three, h4) = >>=-eq-ok (field 3 outer) _ h3 in
      let (update, decoded, h5) = >>=-eq-ok (decode_signed_update c update_bytes) _ h4 in
      let (a, has_a, h6) = >>=-eq-ok (or_raise update.authorization invalid_state) _ h5 in
      let (shape, h7) = reject_if-eq-ok _ _ _ h6 in
      let (u1, operation, h8) =
        >>=-eq-ok (check_operation previous name update.record_key update.sequence a) _ h7 in
      let (proof_list, listed, h9) = >>=-eq-ok (validate_proof_list proofs) _ h8 in
      let (u2, upgraded, h10) =
        >>=-eq-ok
          (if a.operation == 4
            then check_upgrade_proof previous update.record_key update.sequence a proof_list
            else ok tt)
          _ h9 in
      let (u3, proved, h11) = >>=-eq-ok (check_proofs c previous update_bytes a proof_list) _ h10 in
      let (public_key, is_key, h12) =
        >>=-eq-ok (require_bytes (some key_length) false update.record_key) _ h11 in
      let e : owner_state c name envelope update_bytes update.sequence a public_key previous ≡ s =
        ok-injective h12 in
      let k : update.record_key ≡ bytes public_key =
        require_bytes-eq-ok _ _ update.record_key is_key in
      subst (λ x. IsBound c name envelope x × Step c previous x) e
        (versioned_case previous update_bytes public_key proof_list update a outer own opened
          (field-bytes 2 outer bytes_value none false at_two is_update) decoded
          (or_raise-eq-ok update.authorization invalid_state has_a) k
          (is_bytes-eq update.record_name name (not-false _ (or_false _ _ shape).1))
          (not-false _ (or_false _ _ shape).0) operation upgraded proved)

  -- An accepted envelope is a canonical map that holds the bytes of an update. The state keeps the
  -- envelope and these bytes, its hash is theirs, and it repeats the name asked for and the owner key
  -- and sequence number that the update decodes to. Either it is a legacy state, whose update has no
  -- authorization and is signed by its own owner key, or it follows the previous state by one of the
  -- six steps: the update's authorization has the step's operation, names the hash of the previous
  -- state (zeros for a first one) and gives the state its generation, threshold and signers, and the
  -- signatures are those that the step asks for. The previous state, if any, must be one of the same
  -- owner.
  pub parse_identity_envelope_sound :
      (previous : Option IdentityState) {s : IdentityState}
      → OfOwner name previous
      → parse_identity_envelope c name envelope previous ≡ ok s
      → IsBound c name envelope s × Verdict c previous s
  unfolding parse_identity_envelope
  parse_identity_envelope_sound previous {s} own h =
      let (decoded, canonical_bytes, h1) = >>=-eq-ok (require_canonical c envelope) _ h in
      let (outer, is_dict, h2) = >>=-eq-ok (require_dict decoded) _ h1 in
      let opened : require_canonical c envelope ≡ ok (dict outer) =
        canonical_bytes ∙ ap ok (require_dict-eq-ok decoded is_dict) in
      elim (Bool-cases (keys_are (1 ∷ 2 ∷ []) outer)) [
        | inl two ↦ parse_legacy_sound previous outer opened (rw two at h2)
        | inr more ↦
            let h3 : (if keys_are (1 ∷ 2 ∷ 3 ∷ []) outer
                  then parse_versioned c name envelope previous outer
                  else err invalid_state)
                ≡ ok s =
              rw more at h2 in
            elim (Bool-cases (keys_are (1 ∷ 2 ∷ 3 ∷ []) outer)) [
              | inl three ↦
                  let (bound, st) =
                    parse_versioned_sound previous outer own opened (rw three at h3) in
                  (bound, Verdict.versioned st)
              | inr neither ↦ absurd (ne_ok (rw neither at h3))
            ]
      ]
    where
      ne_ok : ◌≡◌ {A = Checked IdentityState} (err invalid_state) (ok s) → ⊥
      ne_ok q = cc
