-- ===== src/Registry/Consent.antt =====
-- `ConsentDecision`, `_normalize_consent` and `ConsentTranscript` of identity.py. The fields of a
-- transcript have their types here; what `__post_init__` tests beyond the types is `check_transcript`.
use decent_wallet.Crypto.{Crypto}
use decent_wallet.Identity.Envelope.Operations.{has_value}
use decent_wallet.Identity.Error.{Checked, invalid_request}
use decent_wallet.Identity.Require.{key_length}
use decent_wallet.Identity.Update.{canonical}
use decent_wallet.Prelude.{
  Bool, Option, [], false, if◌then◌else◌, is_empty, length, list_eq, nat_eq, none, ok, option_eq,
  pair_eq, reject_if, some, ℕ, ◌!=◌, ◌==◌, ◌>>=◌, ◌>>◌, ◌∷◌,
}
use decent_wallet.Python.Value.{Bytes, Entries, Str, Value, bytes, dict, end, entry, key, str}

pub data ConsentDecision : Type 0 where
  approved denied cancelled expired failed : ConsentDecision

-- The values of the five members, as code points.
abbrev word_approved : Str
word_approved = 97 ∷ 112 ∷ 112 ∷ 114 ∷ 111 ∷ 118 ∷ 101 ∷ 100 ∷ []

abbrev word_denied : Str
word_denied = 100 ∷ 101 ∷ 110 ∷ 105 ∷ 101 ∷ 100 ∷ []

abbrev word_cancelled : Str
word_cancelled = 99 ∷ 97 ∷ 110 ∷ 99 ∷ 101 ∷ 108 ∷ 108 ∷ 101 ∷ 100 ∷ []

abbrev word_expired : Str
word_expired = 101 ∷ 120 ∷ 112 ∷ 105 ∷ 114 ∷ 101 ∷ 100 ∷ []

-- A member of the enumeration is a `str`; whatever else the handler returns is a failure.
unfoldable pub normalize_consent : Value → ConsentDecision
normalize_consent (str s) =
    if s == word_approved
    then ConsentDecision.approved
    else if s == word_denied
    then ConsentDecision.denied
    else if s == word_cancelled
    then ConsentDecision.cancelled
    else if s == word_expired
    then ConsentDecision.expired
    else ConsentDecision.failed
normalize_consent _ = ConsentDecision.failed

pub record ConsentTranscript : Type 0 where
  pub authenticated_origin : Str
  pub environment : Str
  pub operation : Str
  pub payload_hash : Bytes
  pub purpose : Str
  pub capability : Str
  pub expires_at : ℕ
  pub replay_nonce : Bytes
  pub sequence : ℕ
  pub generation : Option ℕ
  pub review_payload : Bytes
  pub signer_id : Option Str
  pub signer_public_key : Option Bytes

abbrev is_empty_text : Option Str → Bool
is_empty_text none = false
is_empty_text (some s) = is_empty s

-- A key of the wrong length, or an id without a key.
abbrev is_bad_signer : Option Str → Option Bytes → Bool
is_bad_signer signer_id (some k) = length k != key_length
is_bad_signer signer_id none = has_value signer_id

optional_entry : ℕ → Option Value → Entries → Entries
optional_entry n none d = d
optional_entry n (some v) d = entry (key n) v d

abbrev mapped {ℓ} : {A : Type ℓ} → (A → Value) → Option A → Option Value
mapped f none = none
mapped f (some a) = some (f a)

unfoldable pub transcript_value : ConsentTranscript → Value
unfolding optional_entry
transcript_value t = dict (
    entry (key 1) (str t.authenticated_origin) (
      entry (key 2) (str t.environment) (
        entry (key 3) (str t.operation) (
          entry (key 4) (bytes t.payload_hash) (
            entry (key 5) (str t.purpose) (
              entry (key 6) (str t.capability) (
                entry (key 7) (key t.expires_at) (
                  entry (key 8) (bytes t.replay_nonce) (
                    entry (key 9) (key t.sequence) (
                      optional_entry 10 (mapped key t.generation) (
                        optional_entry 11 (mapped str t.signer_id) (
                          optional_entry 12 (mapped bytes t.signer_public_key)
                            (entry (key 13) (bytes t.review_payload) end)))))))))))))

module _ (c : Crypto) where
  unfoldable pub check_transcript : ConsentTranscript → Checked ConsentTranscript
  check_transcript t = do
    reject_if (is_empty t.authenticated_origin) invalid_request
    reject_if (is_empty t.environment) invalid_request
    reject_if (is_empty t.operation) invalid_request
    reject_if (is_empty t.purpose) invalid_request
    reject_if (is_empty t.capability) invalid_request
    reject_if (length t.payload_hash != key_length) invalid_request
    reject_if (is_empty t.replay_nonce) invalid_request
    reject_if (is_empty_text t.signer_id) invalid_request
    reject_if (is_bad_signer t.signer_id t.signer_public_key) invalid_request
    reject_if (is_empty t.review_payload) invalid_request
    reject_if (c.sha256 t.review_payload != t.payload_hash) invalid_request
    ok t

  unfoldable pub canonical_bytes : ConsentTranscript → Checked Bytes
  canonical_bytes t = canonical c (transcript_value t)

  unfoldable pub transcript_digest : ConsentTranscript → Checked Bytes
  transcript_digest t = do b ← canonical_bytes t; ok (c.sha256 b)
