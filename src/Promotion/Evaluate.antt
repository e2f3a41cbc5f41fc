-- ===== src/Promotion/Evaluate.antt =====
-- internal/promotion/evaluate.go: `Evaluate`, the decision over all nine clauses.
use maiden_lane.Base.{some, none, if◌then◌else◌, Text}
use maiden_lane.Canonical.Encoder.{Bytes}
use maiden_lane.Ports.Targets.{TargetPolicy}
use maiden_lane.Promotion.Gate.{
  Verdicts, Decision, decide, no_verdicts, static_validation, sealed_with_provenance,
  protected_invariants, ready_assessment, pinned_identities, comparison_corpus,
  no_metric_regression, digest_consistency, certified_backend, no_clause,
}
use maiden_lane.Promotion.Evidence.{Candidate}
use maiden_lane.Promotion.Clauses.{
  established, static_validation_result, sealed_with_provenance_result, protected_invariants_result,
  ready_assessment_result, pinned_identities_result, digest_consistency_result,
  certified_backend_result,
}
use maiden_lane.Promotion.Regression.{comparison_corpus_on, no_metric_regression_on}

module _ (hash : Bytes → Text) where
  abbrev pub clause_results : TargetPolicy → Candidate → Verdicts
  clause_results p c static_validation = some (static_validation_result c)
  clause_results p c sealed_with_provenance = some (sealed_with_provenance_result c)
  clause_results p c protected_invariants = some (protected_invariants_result hash c)
  clause_results p c ready_assessment = some (ready_assessment_result p c)
  clause_results p c pinned_identities = some (pinned_identities_result c)
  clause_results p c comparison_corpus = some (comparison_corpus_on hash p c c.comparison)
  clause_results p c no_metric_regression = some (no_metric_regression_on p c c.comparison)
  clause_results p c digest_consistency = some (digest_consistency_result hash c)
  clause_results p c certified_backend = some (certified_backend_result hash c)
  clause_results p c no_clause = none

  unfoldable pub evaluate : TargetPolicy → Candidate → Decision
  evaluate p c =
      if established p then decide p.version (clause_results p c) else decide p.version no_verdicts
