-- ===== src/Registry/Nonces.antt =====
-- `InMemoryReplayNonceStore.consume` of identity.py, whose lock makes it one step, and
-- `RegistryAdapter._reserve_replay_nonce`.
use decent_wallet.Crypto.{Crypto}
use decent_wallet.Identity.Error.{Checked}
use decent_wallet.Identity.Update.{canonical}
use decent_wallet.Prelude.{
  Bool, List, Option, contains, false, if◌then◌else◌, list_eq, nat_eq, none, ok, option_eq, pair_eq,
  some, true, ◌>>=◌, ◌∷◌,
}
use decent_wallet.Python.Value.{Bytes, Str, Value, bytes, dict, end, entry, key, str}
use decent_wallet.Registry.Consent.{ConsentTranscript}
use decent_wallet.Registry.State.{Handler, observe}
use decent_wallet.Registry.World.{History, World, nonce_consumed}

unfoldable pub consume : Bytes → List Bytes → Bool × List Bytes
consume k seen = if contains k seen then (false, seen) else (true, k ∷ seen)

abbrev nonce_value : Bytes → Str → Str → Bytes → Value
nonce_value owner_name authenticated_origin environment replay_nonce = dict (
    entry (key 1) (bytes owner_name) (
      entry (key 2) (str authenticated_origin)
        (entry (key 3) (str environment) (entry (key 4) (bytes replay_nonce) end))))

module _ (c : Crypto) where
  unfoldable pub nonce_key : Bytes → ConsentTranscript → Checked Bytes
  nonce_key owner_name t = do
    b ← canonical c (nonce_value owner_name t.authenticated_origin t.environment t.replay_nonce)
    ok (c.sha256 b)

module _ (w : World) where
  -- `consume` of the given store, or of the adapter's own.
  abbrev pub consume_in : Option (History → Bytes → Checked Bool) → Bytes → Handler Bool
  consume_in (some store) k r = let a = store r.history k in (a, observe w (nonce_consumed k a) r)
  consume_in none k r =
      let a = consume k r.nonces in
      (ok a.0, observe w (nonce_consumed k (ok a.0)) (record r { nonces = a.1 }))

  -- `self._replay_store.consume(key)`
  unfoldable pub consume_nonce : Bytes → Handler Bool
  consume_nonce k = consume_in w.replay_store k
