-- ===== src/Python/Value.antt =====
-- The values that a decoder returns: `None`, `bool`, `int`, `bytes`, `str`, `list`, `dict`, and
-- any other one, which the program only rejects. A `str` is its code points.
use decent_wallet.Prelude.{
  Bool, List, Option, [], all, false, if◌then◌else◌, list_eq, nat_eq, none, option_eq, pair_eq,
  some, true, ℕ, ◌&&◌, ◌==◌, ◌||◌, ◌∷◌,
}

abbrev pub Bytes : Type 0
Bytes = List ℕ

abbrev pub Str : Type 0
Str = List ℕ

-- `negsuc n` is -(n + 1).
pub data ℤ : Type 0 where
  pos : ℕ → ℤ
  negsuc : ℕ → ℤ

mutual
  pub data Value : Type 0 where
    null : Value
    boolean : Bool → Value
    int : ℤ → Value
    bytes : Bytes → Value
    str : Str → Value
    list : Values → Value
    dict : Entries → Value
    other : ℕ → Value

  pub data Values : Type 0 where
    nil : Values
    cons : Value → Values → Values

  pub data Entries : Type 0 where
    end : Entries
    entry : Value → Value → Entries → Entries

-- An `int` key, written as a literal in the source.
abbrev pub key : ℕ → Value
key n = int (pos n)

abbrev pub is_key : ℕ → Value → Bool
is_key n (int (pos m)) = n == m
is_key _ _ = false

-- `d[n]`, for an `int` literal.
abbrev pub get : ℕ → Entries → Option Value
get n end = none
get n (entry k v d) = if is_key n k then some v else get n d

-- `n in d`
abbrev pub has_key : ℕ → Entries → Bool
has_key n end = false
has_key n (entry k v d) = is_key n k || has_key n d

abbrev pub is_any_key : List ℕ → Value → Bool
is_any_key [] k = false
is_any_key (n ∷ ns) k = is_key n k || is_any_key ns k

abbrev pub keys_within : List ℕ → Entries → Bool
keys_within ns end = true
keys_within ns (entry k v d) = is_any_key ns k && keys_within ns d

-- Every key is an `int`, and `set(d) == expected`.
abbrev pub keys_are : List ℕ → Entries → Bool
keys_are ns d = keys_within ns d && all (λ n. has_key n d) ns

abbrev pub is_end : Entries → Bool
is_end end = true
is_end (entry _ _ _) = false

-- `v == b` for the bytes `b`.
abbrev pub is_bytes : Value → Bytes → Bool
is_bytes (bytes a) b = a == b
is_bytes _ _ = false
