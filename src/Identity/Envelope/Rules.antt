-- ===== src/Identity/Envelope/Rules.antt =====
-- Which states may follow which: the rules of the protocol, stated on the states alone.
use decent_wallet.Crypto.{Crypto}
use decent_wallet.Identity.Authorization.{Authorization}
use decent_wallet.Identity.Envelope.Operations.{has_value}
use decent_wallet.Identity.Require.{key_length, zeros}
use decent_wallet.Identity.State.{IdentityState, generation_or_zero}
use decent_wallet.Identity.Update.{SignedUpdate, decode_signed_update, require_canonical}
use decent_wallet.Prelude.{
  All, List, Option, [], dict_get, if◌then◌else◌, is_distinct, length, list_eq, nat_eq, none, ok,
  option_eq, pair_eq, some, true, ℕ, ◌+◌, ◌<◌, ◌∷◌, ◌≡◌, ◌≢◌, ◌≤◌,
}
use decent_wallet.Python.Value.{Bytes, Entries, Str, bytes, dict, get, is_end}

-- `s` is an update of `p` by a later envelope of the same owner.
pub record Follows (p s : IdentityState) : Type 0 where
  pub same_owner : s.owner_name ≡ p.owner_name
  pub next_sequence : s.sequence ≡ p.sequence + 1
  pub keeps : s.predecessor_envelopes ≡ p.envelope_bytes ∷ p.predecessor_envelopes

-- The signers of `s` are those of `p`, under the same generation and threshold.
pub record SameSigners (p s : IdentityState) : Type 0 where
  pub generation : s.generation ≡ p.generation
  pub threshold : s.threshold ≡ p.threshold
  pub signers : s.signer_set ≡ p.signer_set

-- `s` is governed by two of three signers.
pub record IsTwoOfThree (s : IdentityState) : Type 0 where
  pub threshold : s.threshold ≡ some 2
  pub signers : length s.signer_set ≡ 3

module _ (c : Crypto) where
  -- A signature of the update verifies under the key.
  abbrev pub Signed : Bytes → Bytes → Type 0
  Signed public_key update =
      (signature : Bytes) × (c.verifies public_key (c.sha256 update) signature ≡ true)

  -- The id names a key of the signer set, and that key signed the update.
  abbrev pub SignedBy : List (Str × Bytes) → Bytes → Str → Type 0
  SignedBy signers update signer_id =
      (public_key : Bytes) × (dict_get signer_id signers ≡ some public_key)
      × Signed public_key update

  -- At least `n` different signers of the set signed the update.
  pub record Quorum (signers : List (Str × Bytes)) (update : Bytes) (n : ℕ) : Type 0 where
    pub ids : List Str
    pub distinct : is_distinct ids ≡ true
    pub enough : n ≤ length ids
    pub signed : All (SignedBy signers update) ids

  -- The update that the state holds decodes to an authorization of this operation that names this
  -- predecessor hash, and the state has the authorization's governance.
  pub record Asks (s : IdentityState) (operation : ℕ) (predecessor : Bytes) : Type 0 where
    pub update : SignedUpdate
    pub decoded : decode_signed_update c s.signed_update_bytes ≡ ok update
    pub authorization : Authorization
    pub has_authorization : update.authorization ≡ some authorization
    pub same_operation : authorization.operation ≡ operation
    pub same_predecessor : authorization.predecessor ≡ predecessor
    pub generation : s.generation ≡ some authorization.epoch
    pub threshold : s.threshold ≡ some authorization.threshold
    pub signers : s.signer_set ≡ authorization.signer_set

  -- A state without governance, whose update has no authorization and is signed by its own owner key.
  pub record IsLegacy (s : IdentityState) : Type 0 where
    pub signers : s.signer_set ≡ []
    pub generation : s.generation ≡ none
    pub threshold : s.threshold ≡ none
    pub unpreceded : s.predecessor_envelopes ≡ []
    pub update : SignedUpdate
    pub decoded : decode_signed_update c s.signed_update_bytes ≡ ok update
    pub unauthorized : update.authorization ≡ none
    pub signed : Signed s.owner_public_key s.signed_update_bytes

  -- The steps of an owner's record, each with the operation, the predecessor hash and the signatures
  -- that it asks for.
  pub data Step : Option IdentityState → IdentityState → Type 0 where
    genesis :
        (s : IdentityState)
        → Asks s 1 (zeros key_length)
        → s.sequence ≡ 1
        → s.predecessor_envelopes ≡ []
        → s.generation ≡ some 1
        → IsTwoOfThree s
        → Quorum s.signer_set s.signed_update_bytes 2
        → Step none s
    ordinary :
        (p s : IdentityState)
        → Follows p s
        → Asks s 2 p.state_hash
        → s.owner_public_key ≡ p.owner_public_key
        → SameSigners p s
        → (n : ℕ) → s.threshold ≡ some n
        → Quorum p.signer_set s.signed_update_bytes n
        → Step (some p) s
    replacement :
        (p s : IdentityState)
        → Follows p s
        → Asks s 3 p.state_hash
        → s.owner_public_key ≡ p.owner_public_key
        → generation_or_zero p < generation_or_zero s
        → IsTwoOfThree s
        → s.signer_set ≢ p.signer_set
        → Quorum p.signer_set s.signed_update_bytes 2
        → Step (some p) s
    upgrade :
        (p s : IdentityState)
        → Follows p s
        → Asks s 4 p.state_hash
        → s.owner_public_key ≡ p.owner_public_key
        → p.signer_set ≡ []
        → s.generation ≡ some 1
        → IsTwoOfThree s
        → Signed p.owner_public_key s.signed_update_bytes
        → Step (some p) s
    rotation :
        (p s : IdentityState)
        → Follows p s
        → Asks s 5 p.state_hash
        → s.owner_public_key ≢ p.owner_public_key
        → p.signer_set ≢ []
        → SameSigners p s
        → (n : ℕ) → s.threshold ≡ some n
        → Quorum p.signer_set s.signed_update_bytes n
        → Step (some p) s
    legacy_rotation :
        (p s : IdentityState)
        → Follows p s
        → Asks s 5 p.state_hash
        → s.owner_public_key ≢ p.owner_public_key
        → p.signer_set ≡ []
        → s.generation ≡ some 1
        → IsTwoOfThree s
        → Signed p.owner_public_key s.signed_update_bytes
        → Step (some p) s

-- The previous state, if there is one, is that of the same owner.
abbrev pub OfOwner : Bytes → Option IdentityState → Type 0
OfOwner name none = Unit
OfOwner name (some p) = p.owner_name ≡ name

module _ (c : Crypto) where
  -- The envelope is a map that holds the update, at key 2 where the update has an authorization and
  -- at key 1 where it has none; the state repeats what the update says, and its hash is the update's.
  pub record IsBound (name envelope : Bytes) (s : IdentityState) : Type 0 where
    pub named : s.owner_name ≡ name
    pub kept : s.envelope_bytes ≡ envelope
    pub outer : Entries
    pub opened : require_canonical c envelope ≡ ok (dict outer)
    pub hashed : s.state_hash ≡ c.sha256 s.signed_update_bytes
    pub update : SignedUpdate
    pub decoded : decode_signed_update c s.signed_update_bytes ≡ ok update
    pub carried :
        get (if has_value update.authorization then 2 else 1) outer
        ≡ some (bytes s.signed_update_bytes)
    pub no_payload : is_end update.payload ≡ true
    pub same_name : update.record_name ≡ bytes name
    pub same_key : update.record_key ≡ bytes s.owner_public_key
    pub same_sequence : update.sequence ≡ s.sequence

  pub data Verdict (previous : Option IdentityState) (s : IdentityState) : Type 0 where
    legacy : IsLegacy c s → Verdict previous s
    versioned : Step c previous s → Verdict previous s
