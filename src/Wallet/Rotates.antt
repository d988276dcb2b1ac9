-- ===== src/Wallet/Rotates.antt =====
-- What `validate_owner_key_rotation_binding` of identity.py has shown of a draft where the session calls it.
-- An update of operation 5 that gives the owner another key.
use decent_wallet.Crypto.{Crypto}
use decent_wallet.Identity.Authorization.{Authorization}
use decent_wallet.Identity.Draft.Create.{DraftView, IdentityDraft, check_draft}
use decent_wallet.Identity.Draft.Make.{rotates, validate_owner_key_rotation_binding}
use decent_wallet.Identity.Error.{Checked, IdentityError}
use decent_wallet.Identity.Require.{key_length}
use decent_wallet.Identity.State.{IdentityState}
use decent_wallet.Prelude.{
  Bool, Option, and_true, beq→eq, err, false, length, list_eq, nat_eq, none, not, ok, option_eq,
  pair_eq, refl, reject_if, some, true, ◌!=◌, ◌&&◌, ◌==◌, ◌>>=◌, ◌>>◌, ◌||◌, ◌≡◌,
}
use decent_wallet.Python.Value.{Bytes}
use decent_wallet.Wallet.Possession.{checked_request}

pub record IsRotation (view : DraftView) (predecessor successor : Bytes) : Type 0 where
  pub authorization : Authorization
  pub previous : IdentityState
  pub has_authorization : view.authorization ≡ some authorization
  pub has_previous : view.previous ≡ some previous
  pub operation : authorization.operation ≡ 5
  pub from : previous.owner_public_key ≡ predecessor
  pub to : view.owner_public_key ≡ successor

module _ (c : Crypto) where
  rotates-IsRotation : (k j : Bytes) (d : DraftView) → rotates c k j d ≡ true → IsRotation d k j
  unfolding rotates
  rotates-IsRotation k j d h = go d.authorization refl d.previous refl h
    where
      go :
          (a : Option Authorization)
          → d.authorization ≡ a
          → (p : Option IdentityState) → d.previous ≡ p
          → rotates c k j (record d { authorization = a; previous = p }) ≡ true
          → IsRotation d k j
      go none ea p ep h = cc
      go (some a) ea none ep h = cc
      go (some a) ea (some p) ep h =
          let (x, z) =
            and_true (a.operation == 5 && p.owner_public_key == k) (d.owner_public_key == j) h in
          let (x, y) = and_true (a.operation == 5) (p.owner_public_key == k) x in
          record {
            authorization = a;
            previous = p;
            has_authorization = ea;
            has_previous = ep;
            operation = beq→eq a.operation 5 x;
            from = beq→eq p.owner_public_key k y;
            to = beq→eq d.owner_public_key j z;
          }

  pub validate_owner_key_rotation_binding-IsRotation :
      (d : IdentityDraft) (k j : Bytes) (u : Unit {0})
      → checked_request (validate_owner_key_rotation_binding c d k j) ≡ ok u
      → (view : DraftView) × (check_draft c d ≡ ok view) × IsRotation view k j
  unfolding validate_owner_key_rotation_binding
  validate_owner_key_rotation_binding-IsRotation d k j u h =
      go (length k != key_length || length j != key_length) _ _ (check_draft c d) h
    where
      go :
          (b : Bool) (e f : IdentityError) (r : Checked DraftView)
          → checked_request
              (reject_if b e >> (r >>= λ view. reject_if (not (rotates c k j view)) f))
            ≡ ok u
          → (view : DraftView) × (r ≡ ok view) × IsRotation view k j
      go true e f r h = cc
      go false e f (err x) h = cc
      go false e f (ok view) h =
          (view, refl, rotates-IsRotation k j view (last (rotates c k j view) h))
        where
          last : (b : Bool) → checked_request (reject_if (not b) f) ≡ ok u → b ≡ true
          last true h = refl
          last false h = cc
