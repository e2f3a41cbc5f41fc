-- ===== src/Promotion/Gate.antt =====
-- internal/promotion/gate.go: verdicts, the nine clauses, their results, and the decision.
use maiden_lane.Base.{ℕ, Bool, true, false, List, [], ◌∷◌, ◌++◌, Option, none, some, if◌then◌else◌}

-- Any other number is `unknown_verdict`; the zero value is `not_evaluated`.
pub data Verdict : Type 0 where
  not_evaluated pass failing : Verdict
  unknown_verdict : ℕ → Verdict

pub data Unevaluated : Type 0 where
  not_applicable unsupported_by_build information_absent : Unevaluated
  unknown_reason : ℕ → Unevaluated

-- `no_clause` is the zero value of Go, which names no requirement.
pub data Clause : Type 0 where
  static_validation sealed_with_provenance protected_invariants ready_assessment : Clause
  pinned_identities comparison_corpus no_metric_regression digest_consistency : Clause
  certified_backend no_clause : Clause

pub record ClauseResult : Type 0 where
  pub clause : Clause
  pub verdict : Verdict
  pub unevaluated : Unevaluated

abbrev pub required_clauses : List Clause
required_clauses =
    static_validation ∷ sealed_with_provenance ∷ protected_invariants ∷ ready_assessment
    ∷ pinned_identities ∷ comparison_corpus ∷ no_metric_regression ∷ digest_consistency
    ∷ certified_backend ∷ []

abbrev pub passed : Clause → ClauseResult
passed c = record { clause = c; verdict = pass; unevaluated = not_applicable }

abbrev pub failed : Clause → ClauseResult
failed c = record { clause = c; verdict = failing; unevaluated = not_applicable }

abbrev pub unsupported : Clause → ClauseResult
unsupported c = record { clause = c; verdict = not_evaluated; unevaluated = unsupported_by_build }

abbrev pub unestablished : Clause → ClauseResult
unestablished c = record { clause = c; verdict = not_evaluated; unevaluated = information_absent }

abbrev pub is_pass : Verdict → Bool
is_pass pass = true
is_pass not_evaluated = false
is_pass failing = false
is_pass (unknown_verdict n) = false

abbrev pub explains : Unevaluated → Bool
explains unsupported_by_build = true
explains information_absent = true
explains not_applicable = false
explains (unknown_reason n) = false

abbrev pub is_not_applicable : Unevaluated → Bool
is_not_applicable not_applicable = true
is_not_applicable unsupported_by_build = false
is_not_applicable information_absent = false
is_not_applicable (unknown_reason n) = false

abbrev axes_agree : Verdict → Unevaluated → Bool
axes_agree not_evaluated u = explains u
axes_agree pass u = is_not_applicable u
axes_agree failing u = is_not_applicable u
axes_agree (unknown_verdict n) u = is_not_applicable u

abbrev pub coherent : ClauseResult → Bool
coherent r = axes_agree r.verdict r.unevaluated

pub record Decision : Type 0 where
  pub clauses : List ClauseResult
  pub policy_version : ℕ
  pub authorized : Bool

-- A Go map from clauses to results.
abbrev pub Verdicts : Type 0
Verdicts = Clause → Option ClauseResult

-- The nil map.
abbrev pub no_verdicts : Verdicts
no_verdicts c = none

-- The result that `decide` records for one clause: what was found, if it is coherent, under this
-- clause's own name.
abbrev pub settle : Clause → Option ClauseResult → ClauseResult
settle c none = unestablished c
settle c (some r) = if coherent r then record r { clause = c } else unestablished c

-- The loop of `decide`, with the clauses still to walk.
unfoldable pub decide_from : List Clause → Verdicts → Decision → Decision
decide_from [] verdicts d = d
decide_from (c ∷ cs) verdicts d =
    let r = settle c (verdicts c) in
    decide_from cs verdicts (record d {
      clauses = d.clauses ++ r ∷ [];
      authorized = if is_pass r.verdict then d.authorized else false;
    })

unfoldable pub decide : ℕ → Verdicts → Decision
unfolding decide_from
decide version verdicts =
    decide_from required_clauses verdicts
      (record { clauses = []; policy_version = version; authorized = true })

-- `Refusals`: the results that did not pass.
unfoldable pub refused : List ClauseResult → List ClauseResult
refused [] = []
refused (r ∷ rs) = if is_pass r.verdict then refused rs else r ∷ refused rs

abbrev pub refusals : Decision → List ClauseResult
refusals d = refused d.clauses
