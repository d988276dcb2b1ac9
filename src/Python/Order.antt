-- ===== src/Python/Order.antt =====
-- `bytes` in lexicographic order, and `sorted(xs, key=f)`, which is stable.
use decent_wallet.Prelude.{
  Bool, List, [], false, if◌then◌else◌, list_eq, ltb, nat_eq, option_eq, pair_eq, true, ◌&&◌, ◌==◌,
  ◌||◌, ◌∷◌,
}
use decent_wallet.Python.Value.{Bytes}

-- `a <= b`
unfoldable pub bytes_le : Bytes → Bytes → Bool
bytes_le [] b = true
bytes_le (x ∷ a) [] = false
bytes_le (x ∷ a) (y ∷ b) = ltb x y || (x == y && bytes_le a b)

module _ {ℓ} {A : Type ℓ} (sort_key : A → Bytes) where
  -- Before the first element with a greater key.
  unfoldable pub insert : A → List A → List A
  insert x [] = x ∷ []
  insert x (y ∷ ys) = if bytes_le (sort_key x) (sort_key y) then x ∷ y ∷ ys else y ∷ insert x ys

  unfoldable pub sorted : List A → List A
  unfolding insert
  sorted [] = []
  sorted (x ∷ xs) = insert x (sorted xs)
