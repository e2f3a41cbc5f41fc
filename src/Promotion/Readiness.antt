-- ===== src/Promotion/Readiness.antt =====
-- What the no-metric-regression clause establishes about the cases of both sides.
use maiden_lane.Base.{
  ℕ, suc, ◌+◌, ◌≤◌, ◌<◌, true, false, List, [], ◌∷◌, some, if◌then◌else◌, ◌≡◌, ◌⊎◌, ◌↔◌, refl,
  arith, inl, inr, All, Text, is_empty, text_eq, eq_iff, length,
}
use maiden_lane.Base.Assoc.{lookup, insert, lookup-insert}
use maiden_lane.Ports.Targets.{TargetPolicy}
use maiden_lane.Promotion.Gate.{ClauseResult, is_pass, passed, no_metric_regression}
use maiden_lane.Promotion.Evidence.{Candidate, ComparedCase, ComparisonEvidence, sealed, is_ready}
use maiden_lane.Promotion.Cases.{last_case, KeepsReady, regresses-KeepsReady}
use maiden_lane.Promotion.Regression.{
  Loop, stop, go_on, Baseline, count_ready, index_baseline, regresses, compare_candidate,
  final_count, against, no_metric_regression_on,
}

unfoldable pub ready_count : List ComparedCase → ℕ
ready_count [] = 0
ready_count (c ∷ cs) =
    if is_ready c.assessment.verdict then suc (ready_count cs) else ready_count cs

-- A case that the clause can read: it is there, its assessment is under the required profile, and
-- its invariant results were sealed.
pub record Readable (required : Text) (c : ComparedCase) : Type 0 where
  pub has_artifact : is_empty c.checkpoint.id ≡ false
  pub has_assessment : is_empty c.assessment.id ≡ false
  pub same_profile : c.assessment.profile_id ≡ required
  pub sealed_invariants : is_empty c.checkpoint.invariant_result_digest ≡ false

index_baseline_ok :
    (required : Text) (cs : List ComparedCase) (m m' : Baseline) (n n' : ℕ)
    → index_baseline required cs m n ≡ go_on (m', n')
    → All (Readable required) cs
      × (n' ≡ n + ready_count cs)
      × ((s : Text) → lookup s m' ≡ last_case s cs (lookup s m))
unfolding index_baseline ready_count last_case
index_baseline_ok required [] m m' n n' h = (tt, ground arith, λ s. ground arith)
index_baseline_ok required (c ∷ cs) m m' n n' h =
    let d = c.checkpoint.initial_state_digest in
    let e = eq_iff c.assessment.profile_id required in
    let (others, count, kept) =
      index_baseline_ok required cs (insert d c m) m' (count_ready c n) n' (ground (arith, h)) in
    (
      (ground (arith, h, e), others),
      ground (arith, count),
      λ s. rw (kept s, lookup-insert d s c m) refl,
    )

index_baseline_total :
    (required : Text) (cs : List ComparedCase) (m : Baseline) (n : ℕ)
    → All (Readable required) cs
    → (m' : Baseline) × (n' : ℕ) × (index_baseline required cs m n ≡ go_on (m', n'))
unfolding index_baseline
index_baseline_total required [] m n h = (m, n, refl)
index_baseline_total required (c ∷ cs) m n h =
    let d = c.checkpoint.initial_state_digest in
    let e = eq_iff c.assessment.profile_id required in
    let (m', n', rest) = index_baseline_total required cs (insert d c m) (count_ready c n) h.1 in
    (m', n', ground (arith, e, h.0, rest))

compare_candidate_iff :
    (required : Text) (m : Baseline) (cs : List ComparedCase) (n n' : ℕ)
    → (compare_candidate required m cs n ≡ go_on n') ↔ (
        All (Readable required) cs
        × All (λ c. regresses (lookup c.checkpoint.initial_state_digest m) c ≡ false) cs
        × (n' ≡ n + ready_count cs))
unfolding compare_candidate ready_count
compare_candidate_iff required m [] n n' = ((λ h. (tt, tt, ground arith)), λ h. ground arith)
compare_candidate_iff required m (c ∷ cs) n n' =
    let e = eq_iff c.assessment.profile_id required in
    let rest = compare_candidate_iff required m cs (count_ready c n) n' in
    (
      (λ h.
          let (r, k, count) = rest.0 (ground (arith, h)) in
          ((ground (arith, h, e), r), (ground (arith, h), k), ground (arith, count))),
      λ h. ground (arith, e, h.0.0, h.1.0, rest.1 (h.0.1, h.1.1, ground (arith, h.2))),
    )

index_baseline_refuses :
    (required : Text) (cs : List ComparedCase) (m : Baseline) (n : ℕ) (r : ClauseResult)
    → index_baseline required cs m n ≡ stop r
    → is_pass r.verdict ≡ false
unfolding index_baseline
index_baseline_refuses required [] m n r h = absurd (ground arith)
index_baseline_refuses required (c ∷ cs) m n r h = ground (
  arith,
  index_baseline_refuses required cs (insert c.checkpoint.initial_state_digest c m)
      (count_ready c n) r,
)

compare_candidate_refuses :
    (required : Text) (m : Baseline) (cs : List ComparedCase) (n : ℕ) (r : ClauseResult)
    → compare_candidate required m cs n ≡ stop r
    → is_pass r.verdict ≡ false
unfolding compare_candidate
compare_candidate_refuses required m [] n r h = absurd (ground arith)
compare_candidate_refuses required m (c ∷ cs) n r h =
    ground (arith, compare_candidate_refuses required m cs (count_ready c n) r)

Loop-cases :
    {A : Type 0} (l : Loop A) → ((r : ClauseResult) × (l ≡ stop r)) ⊎ ((a : A) × (l ≡ go_on a))
Loop-cases (stop r) = inl (r, refl)
Loop-cases (go_on a) = inr (a, refl)

-- No regression from the baseline's cases to the candidate's.
pub record KeepsAll (required : Text) (baseline candidate : List ComparedCase) : Type 0 where
  pub baseline_readable : All (Readable required) baseline
  pub candidate_readable : All (Readable required) candidate
  pub kept : All (KeepsReady baseline) candidate
  pub no_fewer : ready_count baseline ≤ ready_count candidate

final_count_iff :
    (required : Text) (m : Baseline) (cs : List ComparedCase) (n : ℕ)
    → let r = final_count n (compare_candidate required m cs 0) in
      let Kept : Type 0 =
        All (Readable required) cs
        × All (λ c. regresses (lookup c.checkpoint.initial_state_digest m) c ≡ false) cs
        × (n ≤ ready_count cs) in
      (is_pass r.verdict ≡ true → Kept) × (Kept → r ≡ passed no_metric_regression)
final_count_iff required m cs n = elim (Loop-cases (compare_candidate required m cs 0)) [
  | inl (r, e) ↦ (
    (λ h. absurd (cc (compare_candidate_refuses required m cs 0 r e, rw e at h))),
    λ h. absurd (
        cc (e, (compare_candidate_iff required m cs 0 (ready_count cs)).1 (h.0, h.1, omega arith))),
  )
  | inr (k, e) ↦
      let (read, kept, count) = (compare_candidate_iff required m cs 0 k).0 e in
      (
        (λ h. (read, kept, ground (arith, rw e at h, count))),
        λ h. rw e (ground (arith, h.2, count)),
      )
]

All-cong :
    {A : Type 0} (P Q : A → Type 0) (xs : List A) → ((a : A) → P a → Q a) → All P xs → All Q xs
All-cong P Q [] f h = tt
All-cong P Q (x ∷ xs) f h = (f x h.0, All-cong P Q xs f h.1)

against_iff :
    (required : Text) (baseline candidate : List ComparedCase)
    → let r = against required candidate (index_baseline required baseline [] 0) in
      (is_pass r.verdict ≡ true → KeepsAll required baseline candidate)
      × (KeepsAll required baseline candidate → r ≡ passed no_metric_regression)
unfolding lookup
against_iff required baseline candidate =
    elim (Loop-cases (index_baseline required baseline [] 0)) [
      | inl (r, e) ↦ (
        (λ h. absurd (cc (index_baseline_refuses required baseline [] 0 r e, rw e at h))),
        λ h.
            let (m, n, e') = index_baseline_total required baseline [] 0 h.baseline_readable in
            absurd (cc (e, e')),
      )
      | inr ((m, n), e) ↦
          let (read, count, found) = index_baseline_ok required baseline [] m 0 n e in
          let both = final_count_iff required m candidate n in
          (
            (λ h.
                let (read', kept, fewer) = both.0 (rw e at h) in
                record {
                  baseline_readable = read;
                  candidate_readable = read';
                  kept =
                      All-cong _ (KeepsReady baseline) candidate
                        (λ c k.
                          (regresses-KeepsReady baseline c).0
                            (rw (found c.checkpoint.initial_state_digest) at k))
                        kept;
                  no_fewer = omega (arith, fewer, count);
                }),
            λ h. rw e (
                both.1 (
                  h.candidate_readable,
                  All-cong (KeepsReady baseline) _ candidate
                      (λ c k.
                        rw (← found c.checkpoint.initial_state_digest) at
                          ((regresses-KeepsReady baseline c).1 k))
                      h.kept,
                  omega (arith, h.no_fewer, count),
                )),
          )
    ]

-- The evidence is under the target's profile, has as many cases on both sides, and does not regress.
pub record NotRegressed (p : TargetPolicy) (c : Candidate) (e : ComparisonEvidence) : Type 0 where
  pub is_sealed : sealed c ≡ true
  pub identified : is_empty e.comparison.id ≡ false
  pub required : is_empty p.required_profile_id ≡ false
  pub same_profile : e.comparison.profile ≡ p.required_profile_id
  pub some_cases : 0 < length e.baseline
  pub as_many : length e.baseline ≡ length e.candidate
  pub keeps : KeepsAll p.required_profile_id e.baseline e.candidate

-- The no-metric-regression clause passes just where the checkpoint is sealed, the comparison is
-- identified and under the profile that the target requires, both sides have equally many cases and
-- some, every case can be read under that profile, every candidate case has a baseline case with
-- its initial state and is ready if the last such case is, and no fewer candidate cases than
-- baseline cases are ready.
pub no_metric_regression_on_iff :
    (p : TargetPolicy) (c : Candidate) (e : ComparisonEvidence)
    → (is_pass (no_metric_regression_on p c (some e)).verdict ≡ true → NotRegressed p c e)
      × (NotRegressed p c e → no_metric_regression_on p c (some e) ≡ passed no_metric_regression)
unfolding no_metric_regression_on
no_metric_regression_on_iff p c e =
    let cases = against_iff p.required_profile_id e.baseline e.candidate in
    let e1 = eq_iff e.comparison.profile p.required_profile_id in
    (
      (λ h. record {
        is_sealed = ground (arith, h);
        identified = ground (arith, h);
        required = ground (arith, h);
        same_profile = ground (arith, h, e1);
        some_cases = ground (arith, h);
        as_many = ground (arith, h);
        keeps = cases.0 (ground (arith, h));
      }),
      λ h.
          let through = cases.1 h.keeps in
          ground (
            arith, e1, h.is_sealed, h.identified, h.required, h.same_profile, h.some_cases,
            h.as_many, through,
          ),
    )
