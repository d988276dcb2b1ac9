-- ===== src/Identity/Latch.antt =====
-- `_RotationBinding`, `_rotation_binding` and `_RotationLatchRegistry` of identity.py. Its locks make
-- each operation one step, so an operation is a function of the bindings.
pub mod Entries
pub mod Laws
use decent_wallet.Identity.Envelope.Operations.{has_value}
use decent_wallet.Identity.Require.{key_length}
use decent_wallet.Prelude.{
  Bool, Eq, Option, false, fields_beq, fields_beq_iff, if◌then◌else◌, is_empty, length, list_eq,
  nat_eq, none, not, option_eq, pair_eq, refl, some, true, ℕ, ◌!=◌, ◌&&◌, ◌==◌, ◌||◌, ◌↔◌, ◌≡◌,
}
use decent_wallet.Python.Dict.{Dict, assign, delete, has, lookup}
use decent_wallet.Python.Value.{Bytes, Str}

pub record RotationBinding : Type 0 where
  pub environment : Option Str
  pub owner_name : Bytes
  pub predecessor_owner_public_key : Bytes
  pub successor_owner_public_key : Bytes
  pub predecessor_state_hash : Bytes
  pub sequence : ℕ
  pub envelope_hash : Bytes

abbrev pub BindingFields : Type 0
BindingFields = Option Str × (Bytes × (Bytes × (Bytes × (Bytes × (ℕ × Bytes)))))

abbrev pub binding_fields : RotationBinding → BindingFields
binding_fields b = (
  b.environment,
  (
    b.owner_name,
    (
      b.predecessor_owner_public_key,
      (b.successor_owner_public_key, (b.predecessor_state_hash, (b.sequence, b.envelope_hash))),
    ),
  ),
)

abbrev pub binding_build : BindingFields → RotationBinding
binding_build (e, (n, (p, (s, (h, (q, x)))))) = record {
  environment = e;
  owner_name = n;
  predecessor_owner_public_key = p;
  successor_owner_public_key = s;
  predecessor_state_hash = h;
  sequence = q;
  envelope_hash = x;
}

instance abbrev pub binding_eq : Eq RotationBinding
binding_eq = record {
  beq = fields_beq binding_fields binding_build;
  beq_iff = fields_beq_iff binding_fields binding_build (λ b. refl);
}

-- `a == b`, kept apart from its seven fields.
unfoldable pub same_binding : RotationBinding → RotationBinding → Bool
same_binding a b = a == b

pub same_binding_iff : (a b : RotationBinding) → (same_binding a b ≡ true) ↔ (a ≡ b)
unfolding same_binding
same_binding_iff a b = binding_eq.beq_iff a b

-- `_rotation_binding`: the attributes of an intent, a publication, a confirmation or a rejection,
-- if they are well formed.
unfoldable pub rotation_binding : RotationBinding → Option RotationBinding
rotation_binding v =
    if is_empty v.owner_name
      || length v.predecessor_owner_public_key != key_length
      || length v.successor_owner_public_key != key_length
      || length v.predecessor_state_hash != key_length
      || v.sequence == 0
      || length v.envelope_hash != key_length
    then none
    else some v

-- Each latched owner's binding, and whether a dispatch of it is ready.
abbrev pub Latches : Type 0
Latches = Dict Bytes (RotationBinding × Bool)

unfoldable pub is_owner_latched : Bytes → Latches → Bool
unfolding has
is_owner_latched owner_name m = has owner_name m

unfoldable pub is_latched : RotationBinding → Latches → Bool
is_latched v m = elim (rotation_binding v) [
  | none ↦ false
  | some b ↦ elim (lookup b.owner_name m) [
    | none ↦ false
    | some (current, ready) ↦ same_binding current b
  ]
]

unfoldable pub is_dispatch_ready : RotationBinding → Latches → Bool
is_dispatch_ready v m = elim (rotation_binding v) [
  | none ↦ false
  | some b ↦ elim (lookup b.owner_name m) [
    | none ↦ false
    | some (current, ready) ↦ same_binding current b && ready
  ]
]

-- `binding` only names the environment that the registered one left open, and neither is ready.
abbrev pub is_late_environment : RotationBinding → Bool → RotationBinding → Bool → Bool
is_late_environment current ready binding dispatch_ready = not (
    dispatch_ready
    || ready
    || has_value current.environment
    || not (has_value binding.environment)
    || not (same_binding (record current { environment = binding.environment }) binding))

abbrev pub register_over :
    Option (RotationBinding × Bool) → RotationBinding → Bool → Latches → Latches × Bool
register_over none binding dispatch_ready m =
    (assign binding.owner_name (binding, dispatch_ready) m, true)
register_over (some (current, ready)) binding dispatch_ready m =
    if not (same_binding current binding)
      && not (is_late_environment current ready binding dispatch_ready)
    then (m, false)
    else (assign binding.owner_name (binding, dispatch_ready || ready) m, true)

unfoldable pub register : RotationBinding → Bool → Latches → Latches × Bool
register v dispatch_ready m = elim (rotation_binding v) [
  | none ↦ (m, false)
  | some b ↦ register_over (lookup b.owner_name m) b dispatch_ready m
]

abbrev pub clear_over : Option (RotationBinding × Bool) → RotationBinding → Latches → Latches × Bool
clear_over none binding m = (m, false)
clear_over (some (current, ready)) binding m =
    if same_binding current binding then (delete binding.owner_name m, true) else (m, false)

unfoldable pub clear : RotationBinding → Latches → Latches × Bool
clear v m = elim (rotation_binding v) [
  | none ↦ (m, false)
  | some b ↦ clear_over (lookup b.owner_name m) b m
]
