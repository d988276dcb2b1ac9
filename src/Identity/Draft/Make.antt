-- ===== src/Identity/Draft/Make.antt =====
-- `IdentityDraft.create` and `validate_owner_key_rotation_binding` of identity.py. A draft is made only
-- where the checks of `__post_init__` pass.
use decent_wallet.Crypto.{Crypto}
use decent_wallet.Identity.Draft.Create.{DraftView, IdentityDraft, check_draft}
use decent_wallet.Identity.Error.{Checked, invalid_request}
use decent_wallet.Identity.Require.{key_length}
use decent_wallet.Identity.Update.{build_identity_update}
use decent_wallet.Prelude.{
  Bool, List, Option, false, length, list_eq, nat_eq, none, not, ok, option_eq, pair_eq, reject_if,
  some, ℕ, ◌!=◌, ◌&&◌, ◌==◌, ◌>>=◌, ◌>>◌, ◌||◌,
}
use decent_wallet.Python.Value.{Bytes, Value}

module _ (c : Crypto) where
  unfoldable pub create :
      Bytes → Bytes → ℕ → Option Value → Option Bytes → List Bytes → Checked IdentityDraft
  create owner_name owner_public_key sequence authorization previous_envelope previous_history = do
    update ← build_identity_update c owner_name owner_public_key sequence authorization
    let d : IdentityDraft = record {
      signed_update_bytes = update;
      previous_state_envelope = previous_envelope;
      previous_state_history = previous_history;
    }
    view ← check_draft c d
    ok d

  unfoldable pub rotates : Bytes → Bytes → DraftView → Bool
  rotates predecessor successor d = elim d.authorization [
    | none ↦ false
    | some a ↦ elim d.previous [
      | none ↦ false
      | some p ↦
          a.operation == 5 && p.owner_public_key == predecessor && d.owner_public_key == successor
    ]
  ]

  unfoldable pub validate_owner_key_rotation_binding :
      IdentityDraft → Bytes → Bytes → Checked (Unit {0})
  unfolding rotates
  validate_owner_key_rotation_binding d predecessor successor = do
    reject_if (length predecessor != key_length || length successor != key_length) invalid_request
    view ← check_draft c d
    reject_if (not (rotates predecessor successor view)) invalid_request
