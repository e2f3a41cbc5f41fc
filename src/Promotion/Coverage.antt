-- ===== src/Promotion/Coverage.antt =====
-- What the comparison-corpus clause establishes about the evidence.
use maiden_lane.Base.{
  true, false, List, [], ◌∷◌, ◌++◌, map, Option, none, some, ◌≡◌, ◌↔◌, refl, arith, All, Text,
  is_empty, text_eq, eq_iff, append-nil, append_assoc,
}
use maiden_lane.Canonical.Encoder.{Bytes}
use maiden_lane.Canonical.Identities.{verify_corpus_identity}
use maiden_lane.Ports.Targets.{TargetPolicy}
use maiden_lane.Promotion.Gate.{ClauseResult, is_pass, passed, comparison_corpus}
use maiden_lane.Promotion.Evidence.{Candidate, Comparison, ComparedCase, ComparisonEvidence, sealed}
use maiden_lane.Promotion.Regression.{
  side_covers_from, side_covers, check_side, both_sides, comparison_corpus_on,
}

abbrev pub states : List ComparedCase → List Text
states = map (λ c. c.checkpoint.initial_state_digest)

-- One case answers the question: it is there, realizes the declared checkpoint in the pinned world,
-- and its assessment is of it and under the comparison's profile.
pub record Answers (checkpoint : Text) (q : Comparison) (c : ComparedCase) : Type 0 where
  pub has_artifact : is_empty c.checkpoint.id ≡ false
  pub has_assessment : is_empty c.assessment.id ≡ false
  pub realizes : c.checkpoint.checkpoint_id ≡ checkpoint
  pub same_world : c.checkpoint.world_id ≡ q.world
  pub bound : c.assessment.checkpoint_artifact_id ≡ c.checkpoint.id
  pub same_profile : c.assessment.profile_id ≡ q.profile

module _ (hash : Bytes → Text) where
  -- One side covers the corpus that the comparison names.
  pub record Covers (checkpoint : Text) (q : Comparison) (cs : List ComparedCase) : Type 0 where
    pub answers : All (Answers checkpoint q) cs
    pub corpus : verify_corpus_identity hash (states cs) q.corpus ≡ true

  side_covers_from_iff :
      (digests : List Text) (cs : List ComparedCase) (checkpoint : Text) (q : Comparison)
      → (side_covers_from hash digests cs checkpoint q ≡ none) ↔ (
          All (Answers checkpoint q) cs
          × (verify_corpus_identity hash (digests ++ states cs) q.corpus ≡ true))
  unfolding side_covers_from
  side_covers_from_iff digests [] checkpoint q =
      ((λ h. (tt, ground (arith, append-nil digests))), λ h. ground (arith, append-nil digests))
  side_covers_from_iff digests (c ∷ cs) checkpoint q =
      let d = c.checkpoint.initial_state_digest in
      let rest = side_covers_from_iff (digests ++ d ∷ []) cs checkpoint q in
      let regroup = append_assoc digests (d ∷ []) (states cs) in
      let e1 = eq_iff c.checkpoint.checkpoint_id checkpoint in
      let e2 = eq_iff c.checkpoint.world_id q.world in
      let e3 = eq_iff c.assessment.checkpoint_artifact_id c.checkpoint.id in
      let e4 = eq_iff c.assessment.profile_id q.profile in
      (
        (λ h.
            let (others, corpus) = rest.0 (ground (arith, h)) in
            let first : Answers checkpoint q c = ground (arith, h, e1, e2, e3, e4) in
            ((first, others), rw regroup at corpus)),
        λ h. ground (arith, e1, e2, e3, e4, h.0.0, rest.1 (h.0.1, rw (← regroup) at h.1)),
      )

  side_covers_iff :
      (cs : List ComparedCase) (checkpoint : Text) (q : Comparison)
      → (side_covers hash cs checkpoint q ≡ none) ↔ Covers checkpoint q cs
  unfolding side_covers
  side_covers_iff cs checkpoint q =
      let both = side_covers_from_iff [] cs checkpoint q in
      (
        (λ h. let (a, b) = both.0 h in record { answers = a; corpus = b }),
        λ h. both.1 (h.answers, h.corpus),
      )

  check_side_iff :
      (cs : List ComparedCase) (checkpoint : Text) (q : Comparison)
      → (check_side hash cs checkpoint q ≡ none) ↔ Covers checkpoint q cs
  unfolding check_side verify_corpus_identity
  check_side_iff [] checkpoint q = ((λ h. absurd (cc)), λ h. absurd (cc (h.corpus)))
  check_side_iff (c ∷ cs) checkpoint q = side_covers_iff (c ∷ cs) checkpoint q

  -- A side that does not answer the question never passes the clause.
  side_covers_from_refuses :
      (digests : List Text) (cs : List ComparedCase) (checkpoint : Text) (q : Comparison)
      (r : ClauseResult)
      → side_covers_from hash digests cs checkpoint q ≡ some r
      → is_pass r.verdict ≡ false
  unfolding side_covers_from
  side_covers_from_refuses digests [] checkpoint q r h = ground arith
  side_covers_from_refuses digests (c ∷ cs) checkpoint q r h = ground (
    arith,
    side_covers_from_refuses (digests ++ c.checkpoint.initial_state_digest ∷ []) cs checkpoint q r,
  )

  check_side_refuses :
      (cs : List ComparedCase) (checkpoint : Text) (q : Comparison) (r : ClauseResult)
      → check_side hash cs checkpoint q ≡ some r
      → is_pass r.verdict ≡ false
  unfolding check_side side_covers
  check_side_refuses [] checkpoint q r h = ground arith
  check_side_refuses (c ∷ cs) checkpoint q r h =
      side_covers_from_refuses [] (c ∷ cs) checkpoint q r h

  both_sides_iff :
      (e : ComparisonEvidence)
      → let q = e.comparison in
        let r =
          both_sides hash
            (check_side hash e.baseline q.baseline q)
            (check_side hash e.candidate q.candidate q) in
        (is_pass r.verdict ≡ true
          → Covers q.baseline q e.baseline × Covers q.candidate q e.candidate)
        × (Covers q.baseline q e.baseline × Covers q.candidate q e.candidate
            → r ≡ passed comparison_corpus)
  both_sides_iff e =
      go (check_side hash e.baseline q.baseline q) (check_side hash e.candidate q.candidate q) refl
        refl
    where
      open e use {comparison as q}

      go :
          (x y : Option ClauseResult)
          → check_side hash e.baseline q.baseline q ≡ x
          → check_side hash e.candidate q.candidate q ≡ y
          → (is_pass (both_sides hash x y).verdict ≡ true
              → Covers q.baseline q e.baseline × Covers q.candidate q e.candidate)
            × (Covers q.baseline q e.baseline × Covers q.candidate q e.candidate
                → both_sides hash x y ≡ passed comparison_corpus)
      go (some r) y ex ey = (
        (λ h. absurd (cc (check_side_refuses e.baseline q.baseline q r ex))),
        λ h. absurd (cc ((check_side_iff e.baseline q.baseline q).1 h.0)),
      )
      go none (some r) ex ey = (
        (λ h. absurd (cc (check_side_refuses e.candidate q.candidate q r ey))),
        λ h. absurd (cc ((check_side_iff e.candidate q.candidate q).1 h.1)),
      )
      go none none ex ey = (
        (λ h. (
          (check_side_iff e.baseline q.baseline q).0 ex,
          (check_side_iff e.candidate q.candidate q).0 ey,
        )),
        λ h. refl,
      )

  -- The comparison is the target's question about this candidate, and both sides answer it.
  pub record Comparable (p : TargetPolicy) (c : Candidate) (e : ComparisonEvidence) : Type 0 where
    pub is_sealed : sealed c ≡ true
    pub identified : is_empty e.comparison.id ≡ false
    pub required : is_empty p.required_profile_id ≡ false
    pub same_profile : e.comparison.profile ≡ p.required_profile_id
    pub promoted : c.checkpoint.checkpoint_id ≡ e.comparison.candidate
    pub baseline_covers : Covers e.comparison.baseline e.comparison e.baseline
    pub candidate_covers : Covers e.comparison.candidate e.comparison e.candidate

  -- The comparison-corpus clause passes on comparable evidence, and on no other.
  pub comparison_corpus_on_iff :
      (p : TargetPolicy) (c : Candidate) (e : ComparisonEvidence)
      → (is_pass (comparison_corpus_on hash p c (some e)).verdict ≡ true → Comparable p c e)
        × (Comparable p c e → comparison_corpus_on hash p c (some e) ≡ passed comparison_corpus)
  unfolding comparison_corpus_on
  comparison_corpus_on_iff p c e =
      let q = e.comparison in
      let sides = both_sides_iff e in
      let e1 = eq_iff q.profile p.required_profile_id in
      let e2 = eq_iff c.checkpoint.checkpoint_id q.candidate in
      (
        (λ h.
            let (left, right) = sides.0 (ground (arith, h)) in
            record {
              is_sealed = ground (arith, h);
              identified = ground (arith, h);
              required = ground (arith, h);
              same_profile = ground (arith, h, e1);
              promoted = ground (arith, h, e2);
              baseline_covers = left;
              candidate_covers = right;
            }),
        λ h.
            let through = sides.1 (h.baseline_covers, h.candidate_covers) in
            ground (
              arith, e1, e2, h.is_sealed, h.identified, h.required, h.same_profile, h.promoted,
              through,
            ),
      )
