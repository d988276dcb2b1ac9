-- ===== src/Identity/Bundle/Merge.antt =====
-- The proofs of a bundle, the checks of `__post_init__`, and `merge`.
use decent_wallet.Identity.Authorization.{encoded}
use decent_wallet.Identity.Draft.Create.{IdentityDraft}
use decent_wallet.Identity.Error.{Checked, invalid_request}
use decent_wallet.Identity.Require.{key_length, require_bytes, signature_length}
use decent_wallet.Prelude.{
  Eq, List, Option, [], false, fields_beq, fields_beq_iff, is_distinct, is_empty, length, list_eq,
  ltb, map, nat_eq, none, not, ok, option_eq, or_raise, pair_eq, refl, reject_if, some, ◌!=◌, ◌++◌,
  ◌>>=◌, ◌>>◌,
}
use decent_wallet.Python.Order.{sorted}
use decent_wallet.Python.Text.{encode}
use decent_wallet.Python.Value.{Bytes, Str, bytes}

pub record IdentityProof : Type 0 where
  pub signer_id : Option Str
  pub signer_public_key : Bytes
  pub signature : Bytes

pub record IdentityBundle : Type 0 where
  pub draft : IdentityDraft
  pub proofs : List IdentityProof

abbrev pub ProofFields : Type 0
ProofFields = Option Str × (Bytes × Bytes)

abbrev pub proof_fields : IdentityProof → ProofFields
proof_fields p = (p.signer_id, (p.signer_public_key, p.signature))

abbrev pub proof_build : ProofFields → IdentityProof
proof_build (i, (k, s)) = record { signer_id = i; signer_public_key = k; signature = s }

abbrev pub DraftFields : Type 0
DraftFields = Bytes × (Option Bytes × List Bytes)

abbrev pub draft_fields : IdentityDraft → DraftFields
draft_fields d = (d.signed_update_bytes, (d.previous_state_envelope, d.previous_state_history))

abbrev pub draft_build : DraftFields → IdentityDraft
draft_build (u, (e, h)) = record {
  signed_update_bytes = u;
  previous_state_envelope = e;
  previous_state_history = h;
}

instance abbrev pub proof_eq : Eq IdentityProof
proof_eq = record {
  beq = fields_beq proof_fields proof_build;
  beq_iff = fields_beq_iff proof_fields proof_build (λ p. refl);
}

instance abbrev pub draft_eq : Eq IdentityDraft
draft_eq = record {
  beq = fields_beq draft_fields draft_build;
  beq_iff = fields_beq_iff draft_fields draft_build (λ d. refl);
}

check_signer_id : Option Str → Checked (Unit {0})
check_signer_id none = ok tt
check_signer_id (some s) = do
  reject_if (is_empty s) invalid_request
  b ← or_raise (encode s) invalid_request
  reject_if (ltb 256 (length b)) invalid_request

-- `IdentityProof.__post_init__`
unfoldable pub check_proof : IdentityProof → Checked (Unit {0})
unfolding check_signer_id
check_proof p = do
  check_signer_id p.signer_id
  require_bytes (some key_length) false (bytes p.signer_public_key)
  require_bytes (some signature_length) false (bytes p.signature)
  ok tt

-- `_proof_order`, for a proof whose id encodes.
abbrev pub proof_order : IdentityProof → Bytes
proof_order p = elim p.signer_id [ none ↦ [] | some s ↦ encoded s ]

abbrev pub signer_ids : List IdentityProof → List (Option Str)
signer_ids ps = map (λ (p : IdentityProof). p.signer_id) ps

-- `IdentityBundle.__post_init__`
unfoldable pub check_bundle : IdentityBundle → Checked IdentityBundle
check_bundle b = do
  reject_if (b.proofs != sorted proof_order b.proofs) invalid_request
  reject_if (not (is_distinct (signer_ids b.proofs))) invalid_request
  ok b

unfoldable pub merge : IdentityBundle → IdentityBundle → Checked IdentityBundle
merge a b = do
  reject_if (a.draft != b.draft) invalid_request
  let combined = a.proofs ++ b.proofs
  reject_if (not (is_distinct (signer_ids combined))) invalid_request
  check_bundle (record { draft = a.draft; proofs = sorted proof_order combined })
