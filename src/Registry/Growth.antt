-- ===== src/Registry/Growth.antt =====
-- How the calls of identity.py's adapter that only read change it: the history grows, and what other
-- threads do in the meantime cannot touch the latch of an owner whose lock is held.
use decent_wallet.Identity.Error.{Checked}
use decent_wallet.Identity.Latch.{
  Latches, RotationBinding, binding_eq, clear, clear_over, rotation_binding, same_binding,
}
use decent_wallet.Identity.Latch.Entries.{
  LatchOp, binding_itself, clearing, latch_step, register-Entry, registering,
}
use decent_wallet.Prelude.{
  Bool, Bool-cases, List, Option, Option-cases, [], beq_comm, beq→ne, err, false, if◌then◌else◌,
  inl, inr, list_eq, nat_eq, none, ok, option_eq, pair_eq, refl, some, true, ◌==◌, ◌∙◌, ◌∷◌, ◌≡◌,
}
use decent_wallet.Python.Dict.{lookup, lookup-delete}
use decent_wallet.Python.Value.{Bytes}
use decent_wallet.Registry.State.{Handler, Registry, bind, interfere, is_blocked, observe}
use decent_wallet.Registry.World.{
  Event, History, World, consent_asked, envelope_put, nonce_consumed,
}

-- A call that neither writes, nor asks for consent, nor takes a nonce.
abbrev pub IsPlain : Event → Type 0
IsPlain (envelope_put owner envelope expected deadline entry a) = ⊥
IsPlain (consent_asked t a) = ⊥
IsPlain (nonce_consumed k a) = ⊥
IsPlain _ = Unit

pub data Quietly (h : History) : History → Type 0 where
  same : Quietly h h
  later : (e : Event) {h' : History} → IsPlain e → Quietly h h' → Quietly h (e ∷ h')

pub Quietly-trans : {h h' h'' : History} → Quietly h h' → Quietly h' h'' → Quietly h h''
Quietly-trans p same = p
Quietly-trans p (later e plain q) = later e plain (Quietly-trans p q)

-- Operations of other threads on other owners' latches.
clearing-other :
    (v : RotationBinding) (m : Latches) (owner : Bytes)
    → v.owner_name == owner ≡ false
    → lookup owner (clear v m).0 ≡ lookup owner m
unfolding clear
clearing-other v m owner ne = elim (Option-cases (rotation_binding v)) [
  | inl bad ↦ rw (bad, clear) refl
  | inr (b, good) ↦ rw (good, clear, ← binding_itself v good) (over (lookup v.owner_name m))
]
  where
    over :
        (o : Option (RotationBinding × Bool)) → lookup owner (clear_over o v m).0 ≡ lookup owner m
    over none = refl
    over (some (current, was)) = elim (Bool-cases (same_binding current v)) [
      | inl p ↦ rw p (lookup-delete v.owner_name owner m ∙ rw ne)
      | inr p ↦ rw p
    ]

not_own :
    (owner : Bytes) (v : RotationBinding)
    → some owner == some v.owner_name ≡ false
    → v.owner_name == owner ≡ false
not_own owner v h = beq_comm v.owner_name owner ∙ h

unblocked-keeps :
    (owner : Bytes) (op : LatchOp) (m : Latches)
    → is_blocked (some owner) op ≡ false
    → lookup owner (latch_step op m) ≡ lookup owner m
unblocked-keeps owner (registering v now) m h = elim (register-Entry v now m owner) [
  | inl kept ↦ kept
  | inr (own, e, yields) ↦ absurd (beq→ne v.owner_name owner (not_own owner v h) own)
]
unblocked-keeps owner (clearing v) m h = clearing-other v m owner (not_own owner v h)

interfere-keeps :
    (owner : Bytes) (ops : List LatchOp) (m : Latches)
    → lookup owner (interfere (some owner) ops m) ≡ lookup owner m
unfolding interfere
interfere-keeps owner [] m = refl
interfere-keeps owner (op ∷ ops) m = elim (Bool-cases (is_blocked (some owner) op)) [
  | inl p ↦ rw p (interfere-keeps owner ops m)
  | inr p ↦ rw p (interfere-keeps owner ops (latch_step op m) ∙ unblocked-keeps owner op m p)
]

-- The adapter `r'` after calls that only read, from `r`.
pub record Grows (r r' : Registry) : Type 0 where
  pub quietly : Quietly r.history r'.history
  pub publications : r'.publications ≡ r.publications
  pub nonces : r'.nonces ≡ r.nonces
  pub held : r'.held ≡ r.held
  pub entry :
      (owner : Bytes) → r.held ≡ some owner → lookup owner r'.latches ≡ lookup owner r.latches

pub Grows-refl : (r : Registry) → Grows r r
Grows-refl r = record {
  quietly = same;
  publications = refl;
  nonces = refl;
  held = refl;
  entry = λ owner h. refl;
}

pub Grows-trans : {r r' r'' : Registry} → Grows r r' → Grows r' r'' → Grows r r''
Grows-trans p q = record {
  quietly = Quietly-trans p.quietly q.quietly;
  publications = q.publications ∙ p.publications;
  nonces = q.nonces ∙ p.nonces;
  held = q.held ∙ p.held;
  entry = λ owner h. q.entry owner (p.held ∙ h) ∙ p.entry owner h;
}

pub observe-Grows : (w : World) (e : Event) (r : Registry) → IsPlain e → Grows r (observe w e r)
observe-Grows w e r plain = record {
  quietly = later e plain same;
  publications = refl;
  nonces = refl;
  held = refl;
  entry = λ owner h. rw h (interfere-keeps owner (w.meanwhile (e ∷ r.history)) r.latches);
}

-- What holds of the adapter that a call leaves, whether it returns or raises.
abbrev pub Leaves : {A : Type 0} → (Registry → Type 0) → Checked A × Registry → Type 0
Leaves S (ok a, r) = S r
Leaves S (err e, r) = S r

pub left : {A : Type 0} (S : Registry → Type 0) (q : Checked A × Registry) → Leaves S q → S q.1
left S (ok a, r) h = h
left S (err e, r) h = h

pub leave : {A : Type 0} (S : Registry → Type 0) (q : Checked A × Registry) → S q.1 → Leaves S q
leave S (ok a, r) h = h
leave S (err e, r) h = h

-- A step, and then the further ones.
pub bind-Leaves :
    {A B : Type 0} (S T : Registry → Type 0) (q : Checked A × Registry) (f : A → Handler B)
    → Leaves S q
    → ((r : Registry) → S r → T r)
    → ((a : A) (r : Registry) → q ≡ (ok a, r) → S r → Leaves T (f a r))
    → Leaves T (bind q f)
bind-Leaves S T (ok a, r) f s stop go = go a r refl s
bind-Leaves S T (err e, r) f s stop go = stop r s

-- A step that does not change the adapter.
pub lift-Leaves :
    {A B : Type 0} (T : Registry → Type 0) (x : Checked A) (r : Registry) (f : A → Handler B)
    → T r
    → ((a : A) → x ≡ ok a → Leaves T (f a r))
    → Leaves T (bind (x, r) f)
lift-Leaves T (ok a) r f stop go = go a refl
lift-Leaves T (err e) r f stop go = stop

pub if-Leaves :
    {A : Type 0} (T : Registry → Type 0) (b : Bool) (m k : Handler A) (r : Registry)
    → (b ≡ true → Leaves T (m r))
    → (b ≡ false → Leaves T (k r))
    → Leaves T ((if b then m else k) r)
if-Leaves T true m k r f g = f refl
if-Leaves T false m k r f g = g refl

-- A step that only reads and does not raise.
pub after :
    {B : Type 0} {r r' : Registry}
    → Grows r r'
    → (q : Checked B × Registry) → Leaves (Grows r') q
    → Leaves (Grows r) q
after p (ok b, r'') h = Grows-trans p h
after p (err e, r'') h = Grows-trans p h

module _ (r : Registry) where
  -- Two steps that only read.
  pub bind-Grows :
      {A B : Type 0} (q : Checked A × Registry) (f : A → Handler B)
      → Leaves (Grows r) q
      → ((a : A) (r' : Registry) → Leaves (Grows r') (f a r'))
      → Leaves (Grows r) (bind q f)
  bind-Grows q f g k =
      bind-Leaves (Grows r) (Grows r) q f g (λ r' p. p) (λ a r' e p. after p (f a r') (k a r'))

  pub lift-Grows :
      {A B : Type 0} (x : Checked A) (f : A → Handler B)
      → ((a : A) → Leaves (Grows r) (f a r))
      → Leaves (Grows r) (bind (x, r) f)
  lift-Grows x f k = lift-Leaves (Grows r) x r f (Grows-refl r) (λ a e. k a)
