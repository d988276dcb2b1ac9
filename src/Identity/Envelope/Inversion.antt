-- ===== src/Identity/Envelope/Inversion.antt =====
-- What the loop over the proofs, and the checks of each operation, have made sure of.
use decent_wallet.Crypto.{Crypto}
use decent_wallet.Identity.Authorization.{Authorization}
use decent_wallet.Identity.Envelope.Operations.{check_operation}
use decent_wallet.Identity.Envelope.Parse.{owner_state, predecessors}
use decent_wallet.Identity.Envelope.Rules.{Asks, Follows, Quorum, Signed, SignedBy, Step}
use decent_wallet.Identity.Envelope.Signers.{set_add, verify_proofs}
use decent_wallet.Identity.Error.{Checked, invalid_state}
use decent_wallet.Identity.Require.{key_length, zeros}
use decent_wallet.Identity.State.{IdentityState}
use decent_wallet.Identity.Update.{SignedUpdate, decode_signed_update, verify_signature}
use decent_wallet.Prelude.{
  >>=-eq-ok, All, List, Option, [], arith, beq→eq, beq→ne, bne→eq, contains, dict_get, false,
  if◌then◌else◌, is_distinct, length, list_eq, nat_eq, none, ok, ok-injective, option_eq, or_raise,
  or_raise-eq-ok, pair_eq, refl, some, subst, true, ℕ, ◌∷◌, ◌≡◌, ◌≢◌, ◌≤◌,
}
use decent_wallet.Python.Value.{Bytes, Str, bytes, key}

abbrev pub Passed : Checked (Unit {0}) → Type 0
Passed r = r ≡ ok tt

module _ (c : Crypto) where
  pub verify_signature-Signed :
      (key update signature : Bytes)
      → Passed (verify_signature c key update signature)
      → Signed c key update
  unfolding verify_signature
  verify_signature-Signed key update signature h = (signature, ground arith)

  set_add-distinct :
      (x : Str) (s : List Str) → is_distinct s ≡ true → is_distinct (set_add x s) ≡ true
  set_add-distinct x s h = ground arith

  set_add-All : (P : Str → Type 0) (x : Str) (s : List Str) → P x → All P s → All P (set_add x s)
  set_add-All P x s px h = elim (contains x s) as (λ b. All P (if b then s else x ∷ s)) [
    | true ↦ h
    | false ↦ (px, h)
  ]

  abbrev Valid : List (Str × Bytes) → Bytes → List Str → Type 0
  Valid keys update ids = (is_distinct ids ≡ true) × All (SignedBy c keys update) ids

  verify_proofs-Valid :
      (keys : List (Str × Bytes)) (update : Bytes) (ps : List (Option Str × Bytes))
      (valid : List Str) {ids : List Str}
      → Valid keys update valid
      → verify_proofs c keys update ps valid ≡ ok ids
      → Valid keys update ids
  unfolding verify_proofs
  verify_proofs-Valid keys update [] valid v h = subst (Valid keys update) (ok-injective h) v
  verify_proofs-Valid keys update ((none, sig) ∷ ps) valid v h = cc
  verify_proofs-Valid keys update ((some i, sig) ∷ ps) valid v h =
      let (k, found, h1) = >>=-eq-ok (or_raise (dict_get i keys) invalid_state) _ h in
      let (u, signed, h2) = >>=-eq-ok (verify_signature c k update sig) _ h1 in
      verify_proofs-Valid keys update ps (set_add i valid)
        (
          set_add-distinct i valid v.0,
          set_add-All (SignedBy c keys update) i valid
              (
                k,
                or_raise-eq-ok (dict_get i keys) _ found,
                verify_signature-Signed k update sig signed,
              )
              v.1,
        )
        h2

  -- The signers that the loop accepts are a quorum as large as their number.
  pub verify_proofs-Quorum :
      (keys : List (Str × Bytes)) (update : Bytes) (ps : List (Option Str × Bytes)) {ids : List Str}
      (n : ℕ)
      → verify_proofs c keys update ps [] ≡ ok ids
      → n ≤ length ids
      → Quorum c keys update n
  verify_proofs-Quorum keys update ps {ids} n h le =
      let v = verify_proofs-Valid keys update ps [] {ids = ids} (refl, tt) h in
      record { ids = ids; distinct = v.0; enough = le; signed = v.1 }

module _ (c : Crypto) (name envelope update key : Bytes) (sequence : ℕ) (a : Authorization)
    (signed : SignedUpdate) (decoded : decode_signed_update c update ≡ ok signed)
    (has_a : signed.authorization ≡ some a) where
  abbrev built : Option IdentityState → IdentityState
  built = owner_state c name envelope update sequence a key

  pub built-Asks :
      (previous : Option IdentityState) {n : ℕ} {h : Bytes}
      → a.operation ≡ n
      → a.predecessor ≡ h
      → Asks c (built previous) n h
  unfolding owner_state
  built-Asks previous o e = record {
    update = signed;
    decoded = decoded;
    authorization = a;
    has_authorization = has_a;
    same_operation = o;
    same_predecessor = e;
    generation = refl;
    threshold = refl;
    signers = refl;
  }

  -- The signers' quorum, for the set and the number that the rule names.
  abbrev Backed : List (Str × Bytes) → Type 0
  Backed signers = Quorum c signers update a.threshold

  pub check_genesis-Step :
      (previous : Option IdentityState)
      → a.operation ≡ 1
      → Passed (check_operation previous name (bytes key) sequence a)
      → Backed a.signer_set
      → Step c previous (built previous)
  unfolding check_operation owner_state predecessors
  check_genesis-Step none o h q =
      Step.genesis (built none)
        (built-Asks none o (ground (arith, bne→eq a.predecessor (zeros key_length)))) (ground arith)
        refl (ground arith) (ground arith) (subst (Quorum c a.signer_set update) (ground arith) q)
  check_genesis-Step (some p) o h q = absurd (ground arith)

  module _ (p : IdentityState)
      (h : Passed (check_operation (some p) name (bytes key) sequence a)) where
    check_operation-Follows : 2 ≤ a.operation → a.operation ≢ 4 → Follows p (built (some p))
    unfolding check_operation owner_state predecessors
    check_operation-Follows o ne = ground (arith, bne→eq p.owner_name name)

    -- The hash that the update names is that of the state it was checked against.
    check_operation-linked : 2 ≤ a.operation → a.operation ≢ 4 → a.predecessor ≡ p.state_hash
    unfolding check_operation
    check_operation-linked o ne = ground (arith, bne→eq p.state_hash a.predecessor)

    pub check_ordinary-Step :
        a.operation ≡ 2 → Backed p.signer_set → Step c (some p) (built (some p))
    unfolding check_operation owner_state
    check_ordinary-Step o q =
        Step.ordinary p (built (some p)) (check_operation-Follows (omega arith) (omega arith))
          (built-Asks (some p) o (check_operation-linked (omega arith) (omega arith)))
          (ground (arith, beq→eq key p.owner_public_key))
          (ground (
            arith,
            bne→eq (some a.epoch) p.generation,
            bne→eq (some a.threshold) p.threshold,
            bne→eq a.signer_set p.signer_set,
          ))
          a.threshold refl q

    pub check_replacement-Step :
        a.operation ≡ 3 → Backed p.signer_set → Step c (some p) (built (some p))
    unfolding check_operation owner_state
    check_replacement-Step o q =
        Step.replacement p (built (some p)) (check_operation-Follows (omega arith) (omega arith))
          (built-Asks (some p) o (check_operation-linked (omega arith) (omega arith)))
          (ground (arith, beq→eq key p.owner_public_key)) (ground arith) (ground arith)
          (ground (arith, beq→ne a.signer_set p.signer_set))
          (subst (Quorum c p.signer_set update) (ground arith) q)

    pub check_rotation-Step :
        a.operation ≡ 5 → p.signer_set ≢ [] → Backed p.signer_set → Step c (some p) (built (some p))
    unfolding check_operation owner_state
    check_rotation-Step o ne q =
        Step.rotation p (built (some p)) (check_operation-Follows (omega arith) (omega arith))
          (built-Asks (some p) o (check_operation-linked (omega arith) (omega arith)))
          (ground (arith, beq→ne key p.owner_public_key)) ne
          (ground (
            arith,
            bne→eq (some a.epoch) p.generation,
            bne→eq (some a.threshold) p.threshold,
            bne→eq a.signer_set p.signer_set,
          ))
          a.threshold refl q

    pub check_legacy_rotation-Step :
        a.operation ≡ 5
        → p.signer_set ≡ []
        → Signed c p.owner_public_key update
        → Step c (some p) (built (some p))
    unfolding check_operation owner_state
    check_legacy_rotation-Step o e q =
        Step.legacy_rotation p (built (some p))
          (check_operation-Follows (omega arith) (omega arith))
          (built-Asks (some p) o (check_operation-linked (omega arith) (omega arith)))
          (ground (arith, beq→ne key p.owner_public_key)) e (ground arith) (ground arith) q
