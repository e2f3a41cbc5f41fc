-- ===== src/Memory/Plans/Tests.antt =====
-- Write-once plans at concrete plans.
use maiden_lane.Base.{Text, [], none, some, ok, ◌≡◌, refl, codes, text_beq}
use maiden_lane.Base.Assoc.{lookup, insert}
use maiden_lane.Memory.Plans.{PlanRecord, put_plan, get_plan, put_plan-get_plan}

abbrev a_plan : PlanRecord Text Text Text
a_plan = record {
  tenant_id = codes "t";
  plan_id = codes "p";
  input = [];
  schema = [];
  compilation = codes "1";
}

stored : get_plan none (codes "t") (codes "p") (put_plan none a_plan []).0 ≡ ok (some a_plan)
unfolding get_plan put_plan lookup insert text_beq
stored = refl

put_plan-get_plan_example :
    get_plan none
      (codes "t")
      (codes "p")
      (put_plan none (record a_plan { compilation = codes "2" }) (put_plan none a_plan []).0).0
    ≡ ok (some a_plan)
put_plan-get_plan_example =
    put_plan-get_plan none (record a_plan { compilation = codes "2" }) a_plan (codes "t")
      (codes "p") (put_plan none a_plan []).0 stored
