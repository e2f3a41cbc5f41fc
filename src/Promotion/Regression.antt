-- ===== src/Promotion/Regression.antt =====
-- internal/promotion/comparability.go and metric_regression.go: the two clauses that read the
-- comparison evidence.
use maiden_lane.Base.{
  ℕ, ◌+◌, Bool, true, not, ◌&&◌, ◌||◌, List, [], ◌∷◌, ◌++◌, Option, none, some, if◌then◌else◌, ltb,
  ◌==◌, length, Text, is_empty, ◌=?◌, text_eq,
}
use maiden_lane.Base.Assoc.{lookup, insert}
use maiden_lane.Canonical.Encoder.{Bytes}
use maiden_lane.Canonical.Identities.{verify_corpus_identity}
use maiden_lane.Ports.Targets.{TargetPolicy}
use maiden_lane.Promotion.Gate.{
  ClauseResult, passed, failed, unestablished, comparison_corpus, no_metric_regression,
}
use maiden_lane.Promotion.Evidence.{
  Candidate, Comparison, ComparedCase, ComparisonEvidence, sealed, is_ready,
}

-- A loop with early returns: the clause's result, or the loop's value at its end.
pub data Loop (A : Type 0) : Type 0 where
  stop : ClauseResult → Loop A
  go_on : A → Loop A

module _ (hash : Bytes → Text) where
  -- The loop of `sideCovers`, with the digests collected so far; then its check of the corpus.
  unfoldable pub side_covers_from :
      List Text → List ComparedCase → Text → Comparison → Option ClauseResult
  side_covers_from digests [] checkpoint comparison =
      if verify_corpus_identity hash digests comparison.corpus
      then none
      else some (failed comparison_corpus)
  side_covers_from digests (c ∷ cs) checkpoint comparison =
      let rest =
        side_covers_from (digests ++ c.checkpoint.initial_state_digest ∷ []) cs checkpoint
          comparison in
      if is_empty c.checkpoint.id || is_empty c.assessment.id
      then some (unestablished comparison_corpus)
      else if not (c.checkpoint.checkpoint_id =? checkpoint)
      then some (failed comparison_corpus)
      else if not (c.checkpoint.world_id =? comparison.world)
      then some (failed comparison_corpus)
      else if not (c.assessment.checkpoint_artifact_id =? c.checkpoint.id)
      then some (failed comparison_corpus)
      else if not (c.assessment.profile_id =? comparison.profile)
      then some (failed comparison_corpus)
      else rest

  -- `none` is Go's `true`: the side answers the comparison's question.
  unfoldable pub side_covers : List ComparedCase → Text → Comparison → Option ClauseResult
  unfolding side_covers_from
  side_covers cs checkpoint comparison = side_covers_from [] cs checkpoint comparison

  -- One round of the loop over the two sides; `none` goes on.
  unfoldable pub check_side : List ComparedCase → Text → Comparison → Option ClauseResult
  check_side [] checkpoint comparison = some (unestablished comparison_corpus)
  check_side (c ∷ cs) checkpoint comparison = side_covers (c ∷ cs) checkpoint comparison

  abbrev pub both_sides : Option ClauseResult → Option ClauseResult → ClauseResult
  both_sides (some r) second = r
  both_sides none (some r) = r
  both_sides none none = passed comparison_corpus

  unfoldable pub comparison_corpus_on :
      TargetPolicy → Candidate → Option ComparisonEvidence → ClauseResult
  comparison_corpus_on p c none = unestablished comparison_corpus
  comparison_corpus_on p c (some e) =
      let q = e.comparison in
      if not (sealed c)
      then unestablished comparison_corpus
      else if is_empty q.id || is_empty p.required_profile_id
      then unestablished comparison_corpus
      else if not (q.profile =? p.required_profile_id)
      then unestablished comparison_corpus
      else if not (c.checkpoint.checkpoint_id =? q.candidate)
      then failed comparison_corpus
      else both_sides (check_side e.baseline q.baseline q) (check_side e.candidate q.candidate q)

abbrev pub Baseline : Type 0
Baseline = List (Text × ComparedCase)

abbrev pub count_ready : ComparedCase → ℕ → ℕ
count_ready c n = if is_ready c.assessment.verdict then n + 1 else n

-- The loop over the baseline: the cases by initial state, and how many are ready.
unfoldable pub index_baseline : Text → List ComparedCase → Baseline → ℕ → Loop (Baseline × ℕ)
index_baseline required [] m n = go_on (m, n)
index_baseline required (c ∷ cs) m n =
    let rest =
      index_baseline required cs (insert c.checkpoint.initial_state_digest c m) (count_ready c n) in
    if is_empty c.checkpoint.id || is_empty c.assessment.id
    then stop (unestablished no_metric_regression)
    else if not (c.assessment.profile_id =? required)
    then stop (failed no_metric_regression)
    else if is_empty c.checkpoint.invariant_result_digest
    then stop (unestablished no_metric_regression)
    else rest

-- Whether a candidate case has lost the readiness of its baseline case; `none` is an unknown case.
abbrev pub regresses : Option ComparedCase → ComparedCase → Bool
regresses none c = true
regresses (some b) c = is_ready b.assessment.verdict && not (is_ready c.assessment.verdict)

-- The loop over the candidate's cases, with the number that are ready.
unfoldable pub compare_candidate : Text → Baseline → List ComparedCase → ℕ → Loop ℕ
compare_candidate required m [] n = go_on n
compare_candidate required m (c ∷ cs) n =
    let rest = compare_candidate required m cs (count_ready c n) in
    if is_empty c.checkpoint.id || is_empty c.assessment.id
    then stop (unestablished no_metric_regression)
    else if not (c.assessment.profile_id =? required)
    then stop (failed no_metric_regression)
    else if is_empty c.checkpoint.invariant_result_digest
    then stop (unestablished no_metric_regression)
    else if regresses (lookup c.checkpoint.initial_state_digest m) c
    then stop (failed no_metric_regression)
    else rest

abbrev pub final_count : ℕ → Loop ℕ → ClauseResult
final_count baseline_ready (stop r) = r
final_count baseline_ready (go_on n) =
    if ltb n baseline_ready then failed no_metric_regression else passed no_metric_regression

abbrev pub against : Text → List ComparedCase → Loop (Baseline × ℕ) → ClauseResult
against required cs (stop r) = r
against required cs (go_on (m, n)) = final_count n (compare_candidate required m cs 0)

unfoldable pub no_metric_regression_on :
    TargetPolicy → Candidate → Option ComparisonEvidence → ClauseResult
no_metric_regression_on p c none = unestablished no_metric_regression
no_metric_regression_on p c (some e) =
    let q = e.comparison in
    if not (sealed c)
    then unestablished no_metric_regression
    else if is_empty q.id || is_empty p.required_profile_id
    then unestablished no_metric_regression
    else if not (q.profile =? p.required_profile_id)
    then unestablished no_metric_regression
    else if length e.baseline == 0 || length e.candidate == 0
    then unestablished no_metric_regression
    else if not (length e.baseline == length e.candidate)
    then failed no_metric_regression
    else against p.required_profile_id e.candidate
        (index_baseline p.required_profile_id e.baseline [] 0)
