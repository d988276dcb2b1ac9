-- ===== src/Tests/Codec.antt =====
-- A small codec and signature scheme that can be run: a hash is a sum, and a signature is the key and the
-- hash.
use decent_wallet.Crypto.{Crypto}
use decent_wallet.Identity.Require.{zeros}
use decent_wallet.Prelude.{
  List, Option, [], if◌then◌else◌, length, list_eq, nat_eq, none, option_eq, pair_eq, some, ℕ, ◌++◌,
  ◌+◌, ◌==◌, ◌∷◌,
}
use decent_wallet.Python.Value.{
  Bytes, Entries, Value, Values, boolean, bytes, cons, dict, end, entry, int, list, negsuc, nil,
  null, other, pos, str,
}

abbrev mutual
  write : Value → Bytes
  write null = 0 ∷ []
  write (boolean b) = 1 ∷ (if b then 1 else 0) ∷ []
  write (int (pos n)) = 2 ∷ n ∷ []
  write (int (negsuc n)) = 3 ∷ n ∷ []
  write (bytes b) = 4 ∷ length b ∷ b
  write (str s) = 5 ∷ length s ∷ s
  write (list vs) = 6 ∷ write_values vs
  write (dict d) = 7 ∷ write_entries d
  write (other n) = 8 ∷ n ∷ []

  write_values : Values → Bytes
  write_values nil = 9 ∷ []
  write_values (cons v vs) = write v ++ write_values vs

  write_entries : Entries → Bytes
  write_entries end = 10 ∷ []
  write_entries (entry k v d) = write k ++ write v ++ write_entries d

abbrev pub written : Value → Bytes
written v = write v

abbrev find_value : Bytes → List Value → Option Value
find_value b [] = none
find_value b (v ∷ vs) = if write v == b then some v else find_value b vs

abbrev total : Bytes → ℕ
total [] = 0
total (x ∷ b) = x + total b

abbrev pub digest : Bytes → Bytes
digest b = total b ∷ zeros 31

abbrev pub signed_by : Bytes → Bytes → Bytes
signed_by k b = k ++ digest b

-- The decoder knows these values.
abbrev pub codec : List Value → Crypto
codec known = record {
  sha256 = digest;
  verifies = λ k h signature. signature == k ++ h;
  loads = λ b. find_value b known;
  dumps = λ v. some (write v);
}
