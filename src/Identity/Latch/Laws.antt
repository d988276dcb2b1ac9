-- ===== src/Identity/Latch/Laws.antt =====
-- The laws of `_RotationLatchRegistry` of identity.py, over its two operations that change it.
use mathlib.Core.Path.{ap₂}
use decent_wallet.Identity.Latch.{
  Latches, RotationBinding, binding_eq, is_dispatch_ready, rotation_binding, same_binding,
  same_binding_iff,
}
use decent_wallet.Identity.Latch.Entries.{
  LatchOp, MayYield, binding_itself, clear_entry, clearing, latch_step, old_ready, register-Entry,
  registering, run_latches,
}
use decent_wallet.Prelude.{
  Bool, List, Option, Option-cases, [], and_true, ap, arith, false, inl, inr, list_eq, nat_eq, none,
  option_eq, pair_eq, refl, some, subst, sym, true, ◌&&◌, ◌||◌, ◌∙◌, ◌∷◌, ◌≡◌, ◌≢◌, ◌⊎◌,
}
use decent_wallet.Python.Dict.{lookup}
use decent_wallet.Python.Value.{Bytes}

-- Some registration of `v` asked for a ready dispatch.
abbrev pub Granted : RotationBinding → List LatchOp → Type 0
Granted v [] = ⊥
Granted v (registering w ready ∷ ops) = ((w ≡ v) × (ready ≡ true)) ⊎ Granted v ops
Granted v (clearing w ∷ ops) = Granted v ops

Granted-by :
    (w v : RotationBinding) (ready : Bool) (ops : List LatchOp)
    (o : Option (RotationBinding × Bool))
    → (o ≡ some (v, true) → Granted v ops)
    → MayYield o w ready
    → ◌≡◌ {A = Option (RotationBinding × Bool)} (some (w, ready || old_ready o)) (some (v, true))
    → ((w ≡ v) × (ready ≡ true)) ⊎ Granted v ops
Granted-by w v true ops o ih y h = inl (ground arith, refl)
Granted-by w v false ops none ih y h = absurd (ground arith)
Granted-by w v false ops (some (current, was)) ih (inl same) h = inr (ih (ground arith))
Granted-by w v false ops (some (current, was)) ih (inr (r, late, e)) h = absurd (ground arith)

ready_entry :
    (v : RotationBinding) (owner : Bytes) (ops : List LatchOp)
    → lookup owner (run_latches ops) ≡ some (v, true)
    → Granted v ops
unfolding run_latches lookup
ready_entry v owner [] h = cc
ready_entry v owner (registering w ready ∷ ops) h =
    let ih = ready_entry v owner ops in
    elim (register-Entry w ready (run_latches ops) owner) [
      | inl same ↦ inr (ih (sym same ∙ h))
      | inr (o, e, yields) ↦
          Granted-by w v ready ops (lookup owner (run_latches ops)) ih yields (sym e ∙ h)
    ]
ready_entry v owner (clearing w ∷ ops) h = elim (clear_entry w (run_latches ops) owner) [
  | inl same ↦ ready_entry v owner ops (sym same ∙ h)
  | inr (gone, ready, was) ↦ absurd (ne_some (sym gone ∙ h))
]
  where
    ne_some : ◌≢◌ {A = Option (RotationBinding × Bool)} none (some (v, true))
    ne_some q = cc

-- After any registrations and clearings, in any order, a dispatch is ready only for a binding that one
-- of the registrations named and asked to be ready.
pub is_dispatch_ready-Granted :
    (v : RotationBinding) (ops : List LatchOp)
    → is_dispatch_ready v (run_latches ops) ≡ true
    → Granted v ops
unfolding is_dispatch_ready
is_dispatch_ready-Granted v ops h = elim (Option-cases (rotation_binding v)) [
  | inl bad ↦ absurd (clash (rw (bad, is_dispatch_ready) at h))
  | inr (b, good) ↦
      let itself : rotation_binding v ≡ some v = good ∙ ap some (sym (binding_itself v good)) in
      found (lookup v.owner_name (run_latches ops)) refl (rw (itself, is_dispatch_ready) at h)
]
  where
    clash : false ≢ true
    clash q = cc

    found :
        (o : Option (RotationBinding × Bool))
        → lookup v.owner_name (run_latches ops) ≡ o
        → (elim o as (λ _. Bool) [
          | none ↦ false
          | some (current, ready) ↦ same_binding current v && ready
        ])
          ≡ true
        → Granted v ops
    found none at_none h = absurd (clash h)
    found (some (current, ready)) at_some h =
        let both = and_true (same_binding current v) ready h in
        ready_entry v v.owner_name ops
          (at_some ∙ ap₂ (λ x y. some (x, y)) ((same_binding_iff current v).0 both.0) both.1)

-- A latch that names its environment stays through every operation but a clearing by its own binding:
-- a registration leaves its binding, and does not take its readiness away.
pub latch_step-keeps :
    (op : LatchOp) (m : Latches) (owner : Bytes) (current : RotationBinding) (ready : Bool)
    → lookup owner m ≡ some (current, ready)
    → current.environment ≢ none
    → op ≢ clearing current
    → (later : Bool) × (lookup owner (latch_step op m) ≡ some (current, later))
      × (ready ≡ true → later ≡ true)
latch_step-keeps (registering w now) m owner current ready h env ne =
    elim (register-Entry w now m owner) [
      | inl same ↦ (ready, same ∙ h, λ p. p)
      | inr (o, e, yields) ↦ elim (subst (λ x. MayYield x w now) h yields) [
        | inl is_w ↦ (
          now || ready,
          e
              ∙ ap (λ x. some (w, now || old_ready x)) h
              ∙ ap (λ x. some (x, now || ready)) (sym is_w),
          λ p. ground arith,
        )
        | inr (r, late, no_env) ↦ absurd (env no_env)
      ]
    ]
latch_step-keeps (clearing w) m owner current ready h env ne = elim (clear_entry w m owner) [
  | inl same ↦ (ready, same ∙ h, λ p. p)
  | inr (gone, was, had) ↦ absurd (ne (ap clearing (ground arith)))
]
