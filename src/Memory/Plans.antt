-- ===== src/Memory/Plans.antt =====
-- internal/adapters/memory/store.go: the write-once plans. What a plan record holds of the kernel is
-- stored and returned as it is, so its three types are parameters.
pub mod Tests
use maiden_lane.Base.{
  Text, Bool, true, false, not, ◌&&◌, ◌||◌, List, [], ◌∷◌, Option, none, some, if◌then◌else◌,
  Result, ok, err, is_empty, ◌=?◌, Eq, text_eq, eq_iff, ◌≡◌, ◌↔◌, arith, refl, inl, inr, Bool-cases,
  Option-cases, codes, ◌⊎◌, text_beq,
}
use maiden_lane.Base.Assoc.{lookup, insert, lookup-insert}
use maiden_lane.Ports.Executions.{Context, StoreError, context_error, incomplete_record}

pub record PlanRecord (I S C : Type 0) : Type 0 where
  pub tenant_id : Text
  pub plan_id : Text
  pub input : I
  pub schema : S
  pub compilation : C

pub record PlanKey : Type 0 where
  pub tenant : Text
  pub plan_id : Text

abbrev pub plan_key_beq : PlanKey → PlanKey → Bool
plan_key_beq a b = a.tenant =? b.tenant && a.plan_id =? b.plan_id

pub plan_key_beq_iff : (a b : PlanKey) → (plan_key_beq a b ≡ true) ↔ (a ≡ b)
plan_key_beq_iff a b = ground (arith, eq_iff a.tenant b.tenant, eq_iff a.plan_id b.plan_id)

instance abbrev pub plan_key_eq : Eq PlanKey
plan_key_eq = record { beq = plan_key_beq; beq_iff = plan_key_beq_iff }

abbrev pub Plans : Type 0 → Type 0 → Type 0 → Type 0
Plans I S C = List (PlanKey × PlanRecord I S C)

module _ {I S C : Type 0} where
  abbrev pub plan_key : PlanRecord I S C → PlanKey
  plan_key r = record { tenant = r.tenant_id; plan_id = r.plan_id }

  -- The first write under a key stays.
  abbrev pub keep_first : Option (PlanRecord I S C) → PlanRecord I S C → Plans I S C → Plans I S C
  keep_first (some d) r s = s
  keep_first none r s = insert (plan_key r) r s

  unfoldable pub put_plan :
      Context → PlanRecord I S C → Plans I S C → Plans I S C × Result StoreError (Unit {0})
  put_plan (some x) r s = (s, err (context_error x))
  put_plan none r s =
      if is_empty r.tenant_id || is_empty r.plan_id
      then (s, err incomplete_record)
      else (keep_first (lookup (plan_key r) s) r s, ok tt)

  unfoldable pub get_plan :
      Context → Text → Text → Plans I S C → Result StoreError (Option (PlanRecord I S C))
  get_plan (some x) t p s = err (context_error x)
  get_plan none t p s =
      if is_empty t || is_empty p
      then ok none
      else ok (lookup (record { tenant = t; plan_id = p }) s)

  keep_first-lookup :
      (o : Option (PlanRecord I S C)) (r d : PlanRecord I S C) (k : PlanKey) (s : Plans I S C)
      → lookup (plan_key r) s ≡ o
      → lookup k s ≡ some d
      → lookup k (keep_first o r s) ≡ some d
  keep_first-lookup (some e) r d k s found held = held
  keep_first-lookup none r d k s found held =
      ground (arith, lookup-insert (plan_key r) k r s, plan_key_beq_iff (plan_key r) k)

  -- A plan that was stored is returned after any further `PutPlan`, and never another in its place.
  pub put_plan-get_plan :
      (c : Context) (r d : PlanRecord I S C) (t p : Text) (s : Plans I S C)
      → get_plan none t p s ≡ ok (some d)
      → get_plan none t p (put_plan c r s).0 ≡ ok (some d)
  unfolding get_plan put_plan
  put_plan-get_plan (some x) r d t p s held = held
  put_plan-get_plan none r d t p s held =
      elim (Bool-cases (is_empty r.tenant_id || is_empty r.plan_id)) [
        | inl b ↦ rw b held
        | inr b ↦ rw b (elim (Bool-cases (is_empty t || is_empty p)) [
          | inl z ↦ absurd (ground arith)
          | inr z ↦
              rw
                (
                  z,
                  keep_first-lookup (lookup (plan_key r) s) r d (record { tenant = t; plan_id = p })
                      s refl (ground arith),
                )
                refl
        ])
      ]
