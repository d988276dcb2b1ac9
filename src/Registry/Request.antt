-- ===== src/Registry/Request.antt =====
-- What the publishing methods of identity.py share: the arguments of a consent, the names of the
-- operations, the result of a publication, and `_confirm`.
use decent_wallet.Crypto.{Crypto}
use decent_wallet.Identity.Authorization.{Authorization}
use decent_wallet.Identity.Envelope.Parse.{parse_identity_envelope}
use decent_wallet.Identity.Error.{Checked}
use decent_wallet.Identity.Require.{validate_owner_name}
use decent_wallet.Identity.State.{IdentityState}
use decent_wallet.Prelude.{
  Bool, Option, [], err, false, if◌then◌else◌, list_eq, nat_eq, none, ok, option_eq, pair_eq, some,
  ℕ, ◌==◌, ◌∷◌,
}
use decent_wallet.Python.Value.{Bytes, Str}
use decent_wallet.Registry.Consent.{ConsentTranscript}
use decent_wallet.Registry.Gate.{PublishStatus, Reason}
use decent_wallet.Registry.State.{Handler, attempt, lift, pure, read_envelope, ◌>>=◌}
use decent_wallet.Registry.World.{World}

-- The keyword arguments of a consent.
pub record ConsentRequest : Type 0 where
  pub authenticated_origin : Str
  pub environment : Str
  pub purpose : Str
  pub capability : Str
  pub expires_at : ℕ
  pub replay_nonce : Bytes

-- `_OPERATION_NAMES`, as code points; the decoder allows no other operation.
abbrev genesis_name : Str
genesis_name = 103 ∷ 101 ∷ 110 ∷ 101 ∷ 115 ∷ 105 ∷ 115 ∷ []

abbrev ordinary_update_name : Str
ordinary_update_name =
    111 ∷ 114 ∷ 100 ∷ 105 ∷ 110 ∷ 97 ∷ 114 ∷ 121 ∷ 45 ∷ 117 ∷ 112 ∷ 100 ∷ 97 ∷ 116 ∷ 101 ∷ []

abbrev replace_signers_name : Str
replace_signers_name =
    114 ∷ 101 ∷ 112 ∷ 108 ∷ 97 ∷ 99 ∷ 101 ∷ 45 ∷ 115 ∷ 105 ∷ 103 ∷ 110 ∷ 101 ∷ 114 ∷ 115 ∷ []

abbrev upgrade_name : Str
upgrade_name = 117 ∷ 112 ∷ 103 ∷ 114 ∷ 97 ∷ 100 ∷ 101 ∷ []

abbrev pub rotation_name : Str
rotation_name =
    111 ∷ 119 ∷ 110 ∷ 101 ∷ 114 ∷ 45 ∷ 107 ∷ 101 ∷ 121 ∷ 45 ∷ 114 ∷ 111 ∷ 116 ∷ 97 ∷ 116 ∷ 105 ∷ 111
    ∷ 110 ∷ []

-- "identity.update"
abbrev update_name : Str
update_name =
    105 ∷ 100 ∷ 101 ∷ 110 ∷ 116 ∷ 105 ∷ 116 ∷ 121 ∷ 46 ∷ 117 ∷ 112 ∷ 100 ∷ 97 ∷ 116 ∷ 101 ∷ []

unfoldable pub authorized_name : Authorization → Str
authorized_name a =
    if a.operation == 1
    then genesis_name
    else if a.operation == 2
    then ordinary_update_name
    else if a.operation == 3
    then replace_signers_name
    else if a.operation == 4
    then upgrade_name
    else rotation_name

unfoldable pub operation_name : Option Authorization → Str
operation_name none = update_name
operation_name (some a) = authorized_name a

abbrev pub is_rotation : Option Authorization → Bool
is_rotation none = false
is_rotation (some a) = a.operation == 5

abbrev pub generation_of : Option Authorization → Option IdentityState → Option ℕ
generation_of (some a) previous = some a.epoch
generation_of none none = none
generation_of none (some p) = p.generation

pub record PublicationResult : Type 0 where
  pub status : PublishStatus
  pub envelope_bytes : Option Bytes
  pub accepted_state : Option IdentityState
  pub reason : Option Reason
  -- the handle of the publication
  pub publication : Option ℕ

abbrev pub refused : PublishStatus → Option Bytes → Reason → PublicationResult
refused status envelope reason = record {
  status = status;
  envelope_bytes = envelope;
  accepted_state = none;
  reason = some reason;
  publication = none;
}

-- `current.state_hash if current is not None else None`
abbrev pub hash_of : Option IdentityState → Option Bytes
hash_of none = none
hash_of (some s) = some s.state_hash

abbrev pub prepared : ℕ → Bytes → PublicationResult
prepared handle envelope = record {
  status = PublishStatus.ready;
  envelope_bytes = some envelope;
  accepted_state = none;
  reason = none;
  publication = some handle;
}

module _ (c : Crypto) where
  -- The transcript that asks for the publication of an envelope.
  unfoldable pub publication_transcript :
      ConsentRequest → Option Authorization → Option IdentityState → ℕ → Bytes → ConsentTranscript
  publication_transcript q authorization previous sequence envelope = record {
    authenticated_origin = q.authenticated_origin;
    environment = q.environment;
    operation = operation_name authorization;
    payload_hash = c.sha256 envelope;
    purpose = q.purpose;
    capability = q.capability;
    expires_at = q.expires_at;
    replay_nonce = q.replay_nonce;
    sequence = sequence;
    generation = generation_of authorization previous;
    review_payload = envelope;
    signer_id = none;
    signer_public_key = none;
  }

module _ (c : Crypto) (w : World) where
  abbrev pub same_envelope : Bytes → IdentityState → Option IdentityState
  same_envelope envelope s = if s.envelope_bytes == envelope then some s else none

  abbrev pub judge :
      Bytes → Bytes → Option IdentityState → Checked (Option Bytes) → Option IdentityState
  judge owner_name envelope previous (ok (some candidate)) =
      elim (parse_identity_envelope c owner_name candidate previous) [
        | ok s ↦ same_envelope envelope s
        | err e ↦ none
      ]
  judge owner_name envelope previous _ = none

  -- `_confirm`
  unfoldable pub confirm : Bytes → Bytes → Option IdentityState → Handler (Option IdentityState)
  confirm owner_name envelope previous = do
    name ← lift (validate_owner_name owner_name)
    candidate ← attempt (read_envelope w name)
    pure (judge name envelope previous candidate)

  abbrev pub confirmed_or : Bytes → Reason → Option IdentityState → PublicationResult
  confirmed_or envelope reason none = record {
    status = PublishStatus.unknown;
    envelope_bytes = some envelope;
    accepted_state = none;
    reason = some reason;
    publication = none;
  }
  confirmed_or envelope reason (some s) = record {
    status = PublishStatus.confirmed;
    envelope_bytes = some envelope;
    accepted_state = some s;
    reason = none;
    publication = none;
  }

  unfoldable pub confirm_publication :
      Bytes → Bytes → Option IdentityState → Reason → Handler PublicationResult
  confirm_publication owner_name envelope previous reason = do
    accepted ← confirm owner_name envelope previous
    pure (confirmed_or envelope reason accepted)
