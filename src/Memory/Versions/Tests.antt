-- ===== src/Memory/Versions/Tests.antt =====
-- Publications and policies at concrete records, and the theorems about their versions at them.
use maiden_lane.Base.{ℕ, [], ◌∷◌, none, some, ◌≡◌, ◌≢◌, refl, codes, Text, ok, err, text_beq}
use maiden_lane.Base.Assoc.{lookup, insert}
use maiden_lane.Ports.Targets.{
  TargetPolicy, TargetKey, Publication, policy_eq, publication_eq, version_eq,
}
use maiden_lane.Memory.Versions.{
  Versions, conflict, no_field, no_versions, policy_kind, publication_kind, append, append_on,
  append_valid, put_policy, publish, active, version_at, validate_policy, validate_publication,
  key_of,
}
use maiden_lane.Memory.Versions.History.{
  Inv, no_versions-Inv, append-Inv, append-record_at, record_at, policy_kind-IsChecked,
  publication_kind-IsChecked,
}
use maiden_lane.Memory.Versions.Races.{append_race, append-active}

abbrev policy : ℕ → TargetPolicy
policy n = record {
  tenant_id = codes "t";
  customer_id = codes "c";
  target = codes "live";
  version = n;
  required_profile_id = codes "profile";
}

abbrev publication : ℕ → Text → Publication
publication n checkpoint = record {
  tenant_id = codes "t";
  customer_id = codes "c";
  target = codes "live";
  version = n;
  policy_version = 1;
  profile_id = codes "profile";
  assessment_id = codes "assessment";
  checkpoint_artifact_id = checkpoint;
  semantic_run_id = codes "run";
  execution_id = codes "execution";
}

abbrev live_target : TargetKey
live_target = record { tenant = codes "t"; customer = codes "c"; target = codes "live" }

abbrev one_policy : Versions TargetPolicy
one_policy = record {
  records = (record { at = live_target; version = 1 }, policy 1) ∷ [];
  current = (live_target, 1) ∷ [];
}

abbrev one_publication : Versions Publication
one_publication = record {
  records = (record { at = live_target; version = 1 }, publication 1 (codes "x")) ∷ [];
  current = (live_target, 1) ∷ [];
}

first_policy : put_policy none (policy 1) no_versions ≡ (one_policy, ok tt)
unfolding put_policy append append_valid append_on validate_policy version_at lookup insert text_beq
first_policy = refl

skipped_version : (put_policy none (policy 3) one_policy).1 ≡ err conflict
unfolding put_policy append append_valid append_on validate_policy version_at lookup text_beq
skipped_version = refl

missing_version : (put_policy none (policy 0) one_policy).1 ≡ err (no_field "version")
unfolding put_policy append append_valid validate_policy
missing_version = refl

first_appended :
    append publication_kind none (publication 1 (codes "x")) no_versions ≡ (one_publication, ok tt)
unfolding append append_valid append_on validate_publication version_at lookup insert text_beq
first_appended = refl

publishes : publish none (publication 1 (codes "x")) no_versions ≡ (one_publication, ok tt)
unfolding publish
publishes = first_appended

publication_valid : validate_publication (publication 1 (codes "y")) ≡ none
unfolding validate_publication
publication_valid = refl

nothing_yet :
    lookup {V = Publication} (key_of publication_kind (publication 1 (codes "x"))) [] ≡ none
unfolding lookup
nothing_yet = refl

append-Inv_example : Inv policy_kind (append policy_kind none (policy 1) no_versions).0
append-Inv_example =
    append-Inv policy_kind policy_kind-IsChecked none (policy 1) no_versions
      (no_versions-Inv policy_kind)

publish-Inv :
    Inv publication_kind (append publication_kind none (publication 1 (codes "x")) no_versions).0
publish-Inv =
    append-Inv publication_kind publication_kind-IsChecked none (publication 1 (codes "x"))
      no_versions (no_versions-Inv publication_kind)

first_recorded : record_at one_policy live_target 1 ≡ some (policy 1)
unfolding lookup text_beq
first_recorded = refl

append-record_at_example :
    record_at (append policy_kind none (policy 2) one_policy).0 live_target 1 ≡ some (policy 1)
append-record_at_example =
    append-record_at policy_kind none (policy 2) (policy 1) one_policy live_target 1 first_recorded

append_race_example :
    (append publication_kind none (publication 1 (codes "x")) one_publication
      ≡ (one_publication, ok tt))
    × (publication 1 (codes "y") ≢ publication 1 (codes "x")
        → append publication_kind none (publication 1 (codes "y")) one_publication
          ≡ (one_publication, err conflict))
append_race_example =
    append_race publication_kind (publication 1 (codes "x")) (publication 1 (codes "y")) no_versions
      one_publication first_appended publication_valid refl

append-active_example :
    active none live_target one_publication ≡ ok (some (publication 1 (codes "x")))
append-active_example =
    append-active publication_kind publication_kind-IsChecked (publication 1 (codes "x"))
      no_versions one_publication first_appended nothing_yet
