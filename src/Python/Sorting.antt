-- ===== src/Python/Sorting.antt =====
-- `sorted` keeps the elements and puts them in order.
use mathlib.Core.List.{Perm}
use mathlib.Core.List.Perm
use decent_wallet.Prelude.{List, [], arith, false, if◌then◌else◌, refl, true, ◌∷◌, ◌≡◌}
use decent_wallet.Python.Order.{bytes_le, insert, sorted}
use decent_wallet.Python.Value.{Bytes}

pub bytes_le_total : (a b : Bytes) → bytes_le a b ≡ false → bytes_le b a ≡ true
unfolding bytes_le
bytes_le_total [] b h = cc
bytes_le_total (x ∷ a) [] h = refl
bytes_le_total (x ∷ a) (y ∷ b) h = ground (arith, bytes_le_total a b)

module _ {ℓ} {A : Type ℓ} (sort_key : A → Bytes) where
  -- Each element's key is at most that of the one after it.
  abbrev pub IsOrdered : List A → Type 0
  IsOrdered [] = Unit
  IsOrdered (x ∷ []) = Unit
  IsOrdered (x ∷ y ∷ ys) = (bytes_le (sort_key x) (sort_key y) ≡ true) × IsOrdered (y ∷ ys)

  insert-perm : (x : A) (xs : List A) → Perm (insert sort_key x xs) (x ∷ xs)
  unfolding insert
  insert-perm x [] = Perm.refl (x ∷ [])
  insert-perm x (y ∷ ys) =
      elim (bytes_le (sort_key x) (sort_key y))
        as (λ b. Perm (if b then x ∷ y ∷ ys else y ∷ insert sort_key x ys) (x ∷ y ∷ ys)) [
          | true ↦ Perm.refl (x ∷ y ∷ ys)
          | false ↦ Perm.trans (Perm.cons y (insert-perm x ys)) (Perm.swap x y ys)
        ]

  pub sorted-perm : (xs : List A) → Perm (sorted sort_key xs) xs
  unfolding sorted
  sorted-perm [] = Perm.refl []
  sorted-perm (x ∷ xs) =
      Perm.trans (insert-perm x (sorted sort_key xs)) (Perm.cons x (sorted-perm xs))

  insert-IsOrdered : (x : A) (xs : List A) → IsOrdered xs → IsOrdered (insert sort_key x xs)
  unfolding insert
  insert-IsOrdered x [] h = tt
  insert-IsOrdered x (y ∷ []) h = ground (arith, bytes_le_total (sort_key x) (sort_key y))
  insert-IsOrdered x (y ∷ z ∷ zs) h =
      ground (arith, bytes_le_total (sort_key x) (sort_key y), insert-IsOrdered x (z ∷ zs) h.1)

  pub sorted-IsOrdered : (xs : List A) → IsOrdered (sorted sort_key xs)
  unfolding sorted
  sorted-IsOrdered [] = tt
  sorted-IsOrdered (x ∷ xs) = insert-IsOrdered x (sorted sort_key xs) (sorted-IsOrdered xs)

  pub sorted_of_ordered : (xs : List A) → IsOrdered xs → sorted sort_key xs ≡ xs
  unfolding sorted insert
  sorted_of_ordered [] h = refl
  sorted_of_ordered (x ∷ []) h = refl
  sorted_of_ordered (x ∷ y ∷ ys) h = rw (sorted_of_ordered (y ∷ ys) h.1) (rw h.0)
