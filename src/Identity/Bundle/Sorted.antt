-- ===== src/Identity/Bundle/Sorted.antt =====
-- What `merge` of two bundles does, on every input.
use mathlib.Core.List.{Perm}
use decent_wallet.Identity.Bundle.Merge.{
  IdentityBundle, IdentityProof, check_bundle, draft_eq, merge, proof_eq, proof_order, signer_ids,
}
use decent_wallet.Identity.Draft.Create.{IdentityDraft}
use decent_wallet.Identity.Error.{Checked, invalid_request}
use decent_wallet.Prelude.{
  Bool-cases, List, Option, [], and_true, arith, beq_refl, beq_comm, beq→eq, contains, err,
  if◌then◌else◌, inl, inr, is_distinct, list_eq, nat_eq, ok, ok-injective, option_eq, pair_eq, refl,
  subst, sym, true, ◌&&◌, ◌++◌, ◌==◌, ◌∙◌, ◌∷◌, ◌≡◌,
}
use decent_wallet.Python.Order.{insert, sorted}
use decent_wallet.Python.Sorting.{IsOrdered, sorted-IsOrdered, sorted-perm, sorted_of_ordered}
use decent_wallet.Python.Value.{Str}

contains-insert :
    (i : Option Str) (x : IdentityProof) (ps : List IdentityProof)
    → contains i (signer_ids (insert proof_order x ps)) ≡ contains i (x.signer_id ∷ signer_ids ps)
unfolding insert
contains-insert i x [] = refl
contains-insert i x (p ∷ ps) = ground (arith, contains-insert i x ps)

distinct-insert :
    (x : IdentityProof) (ps : List IdentityProof)
    → is_distinct (signer_ids (insert proof_order x ps)) ≡ is_distinct (x.signer_id ∷ signer_ids ps)
unfolding insert
distinct-insert x [] = refl
distinct-insert x (p ∷ ps) = ground (
  arith,
  contains-insert p.signer_id x ps,
  distinct-insert x ps,
  beq_comm x.signer_id p.signer_id,
)

contains-sorted :
    (i : Option Str) (ps : List IdentityProof)
    → contains i (signer_ids (sorted proof_order ps)) ≡ contains i (signer_ids ps)
unfolding sorted
contains-sorted i [] = refl
contains-sorted i (p ∷ ps) =
    ground (arith, contains-insert i p (sorted proof_order ps), contains-sorted i ps)

distinct-sorted :
    (ps : List IdentityProof)
    → is_distinct (signer_ids (sorted proof_order ps)) ≡ is_distinct (signer_ids ps)
unfolding sorted
distinct-sorted [] = refl
distinct-sorted (p ∷ ps) = ground (
  arith,
  distinct-insert p (sorted proof_order ps),
  contains-sorted p.signer_id ps,
  distinct-sorted ps,
)

-- The result is accepted again by the checks of a new bundle.
check_bundle-sorted :
    (d : IdentityDraft) (ps : List IdentityProof)
    → is_distinct (signer_ids ps) ≡ true
    → check_bundle (record { draft = d; proofs = sorted proof_order ps })
      ≡ ok (record { draft = d; proofs = sorted proof_order ps })
unfolding check_bundle
check_bundle-sorted d ps h =
    let again =
      sorted_of_ordered proof_order (sorted proof_order ps) (sorted-IsOrdered proof_order ps) in
    rw (again, beq_refl (sorted proof_order ps), distinct-sorted ps, h)

-- `merge` refuses two bundles exactly where their drafts differ or a signer occurs twice; else the
-- bundle has the common draft and the proofs of both, in the order of their signers' ids.
pub merge_lem :
    (a b : IdentityBundle)
    → merge a b ≡ (
        if a.draft == b.draft && is_distinct (signer_ids (a.proofs ++ b.proofs))
        then ok (record { draft = a.draft; proofs = sorted proof_order (a.proofs ++ b.proofs) })
        else err invalid_request)
unfolding merge
merge_lem a b = elim (Bool-cases (is_distinct (signer_ids (a.proofs ++ b.proofs)))) [
  | inl d ↦ rw (d, check_bundle-sorted a.draft (a.proofs ++ b.proofs) d) (ground arith)
  | inr d ↦ rw d (ground arith)
]

-- A merged bundle holds the proofs of both bundles and no other, in order, no signer twice, and its
-- draft is that of both.
pub merge_sound :
    (a b : IdentityBundle) {r : IdentityBundle}
    → merge a b ≡ ok r
    → (r.draft ≡ a.draft)
      × (a.draft ≡ b.draft)
      × Perm r.proofs (a.proofs ++ b.proofs)
      × IsOrdered proof_order r.proofs
      × (is_distinct (signer_ids r.proofs) ≡ true)
merge_sound a b {r} h = elim (Bool-cases (a.draft == b.draft && is_distinct (signer_ids ps))) [
  | inl t ↦
      let both = and_true (a.draft == b.draft) (is_distinct (signer_ids ps)) t in
      subst
        (λ x.
          (x.draft ≡ a.draft)
          × (a.draft ≡ b.draft)
          × Perm x.proofs ps
          × IsOrdered proof_order x.proofs
          × (is_distinct (signer_ids x.proofs) ≡ true))
        (ok-injective {a = merged} (rw t at (sym (merge_lem a b) ∙ h)))
        (
          refl,
          beq→eq a.draft b.draft both.0,
          sorted-perm proof_order ps,
          sorted-IsOrdered proof_order ps,
          distinct-sorted ps ∙ both.1,
        )
  | inr f ↦ absurd (clash (rw f at (sym (merge_lem a b) ∙ h)))
]
  where
    ps : List IdentityProof
    ps = a.proofs ++ b.proofs

    merged : IdentityBundle
    merged = record { draft = a.draft; proofs = sorted proof_order ps }

    clash : ◌≡◌ {A = Checked IdentityBundle} (err invalid_request) (ok r) → ⊥
    clash q = cc
