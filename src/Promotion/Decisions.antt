-- ===== src/Promotion/Decisions.antt =====
-- The gate fails closed: a decision authorizes exactly when every required clause was found to pass.
use maiden_lane.Base.{
  ℕ, Bool, true, false, ◌&&◌, List, [], ◌∷◌, ◌++◌, map, Option, none, some, if◌then◌else◌, ◌≡◌, ◌↔◌,
  refl, ◌∙◌, ap₂, arith, inl, inr, Bool-cases, All, append-nil, append_assoc,
}
use maiden_lane.Promotion.Gate.{
  Clause, ClauseResult, Decision, Verdicts, decide, decide_from, settle, coherent, is_pass,
  required_clauses, refused, refusals,
}

-- A clause was found to pass: there is a result for it, it is coherent, and its verdict is `pass`.
abbrev pub Passes : Option ClauseResult → Type 0
Passes none = ⊥
Passes (some r) = (coherent r ≡ true) × (is_pass r.verdict ≡ true)

all_pass : List ClauseResult → Bool
all_pass [] = true
all_pass (r ∷ rs) = if is_pass r.verdict then all_pass rs else false

settled : Verdicts → List Clause → List ClauseResult
settled verdicts cs = map (λ c. settle c (verdicts c)) cs

-- One round of the loop, and then the rest at once.
push_result :
    (d : Decision) (r : ClauseResult) (rs : List ClauseResult)
    → record d {
      clauses = (d.clauses ++ r ∷ []) ++ rs;
      authorized = (if is_pass r.verdict then d.authorized else false) && all_pass rs;
    }
      ≡ record d { clauses = d.clauses ++ r ∷ rs; authorized = d.authorized && all_pass (r ∷ rs) }
unfolding all_pass
push_result d r rs = ground (arith, append_assoc d.clauses (r ∷ []) rs)

decide_from-settled :
    (cs : List Clause) (verdicts : Verdicts) (d : Decision)
    → decide_from cs verdicts d ≡ record d {
      clauses = d.clauses ++ settled verdicts cs;
      authorized = d.authorized && all_pass (settled verdicts cs);
    }
unfolding decide_from settled
decide_from-settled [] verdicts d = unfold all_pass in ground (arith, append-nil d.clauses)
decide_from-settled (c ∷ cs) verdicts d =
    let r = settle c (verdicts c) in
    decide_from-settled cs verdicts (record d {
      clauses = d.clauses ++ r ∷ [];
      authorized = if is_pass r.verdict then d.authorized else false;
    })
    ∙ push_result d r (settled verdicts cs)

decide-settled :
    (version : ℕ) (verdicts : Verdicts)
    → decide version verdicts ≡ record {
      clauses = settled verdicts required_clauses;
      policy_version = version;
      authorized = all_pass (settled verdicts required_clauses);
    }
unfolding decide
decide-settled version verdicts =
    decide_from-settled required_clauses verdicts
      (record { clauses = []; policy_version = version; authorized = true })

settle_pass :
    (c : Clause) (o : Option ClauseResult) → (is_pass (settle c o).verdict ≡ true) ↔ Passes o
settle_pass c none = ((λ h. absurd (cc)), λ h. absurd h)
settle_pass c (some r) = ((λ h. (ground arith, ground arith)), λ h. ground arith)

all_pass_iff :
    (cs : List Clause) (verdicts : Verdicts)
    → (all_pass (settled verdicts cs) ≡ true) ↔ All (λ c. Passes (verdicts c)) cs
unfolding all_pass settled
all_pass_iff [] verdicts = ((λ h. tt), λ h. refl)
all_pass_iff (c ∷ cs) verdicts =
    let one = settle_pass c (verdicts c) in
    let rest = all_pass_iff cs verdicts in
    elim (Bool-cases (is_pass (settle c (verdicts c)).verdict)) [
      | inl p ↦ ((λ h. (one.0 p, rest.0 (rw p at h))), λ h. rw p (rest.1 h.1))
      | inr p ↦ ((λ h. absurd (cc (rw p at h))), λ h. absurd (cc (one.1 h.0)))
    ]

-- A decision authorizes exactly when each of the nine required clauses has a result, with axes that
-- agree, whose verdict is `pass`: what is missing, contradictory or unknown refuses.
pub decide-authorized :
    (version : ℕ) (verdicts : Verdicts)
    → ((decide version verdicts).authorized ≡ true)
      ↔ All (λ c. Passes (verdicts c)) required_clauses
decide-authorized version verdicts = rw decide-settled (all_pass_iff required_clauses verdicts)

settled_clauses :
    (cs : List Clause) (verdicts : Verdicts)
    → (map (λ r. r.clause) (settled verdicts cs) ≡ cs)
      × All (λ r. coherent r ≡ true) (settled verdicts cs)
unfolding settled
settled_clauses [] verdicts = (refl, tt)
settled_clauses (c ∷ cs) verdicts =
    let (names, sound) = settled_clauses cs verdicts in
    (ap₂ ◌∷◌ (settle_name (verdicts c)) names, (settle_coherent (verdicts c), sound))
  where
    settle_name : (o : Option ClauseResult) → (settle c o).clause ≡ c
    settle_name none = refl
    settle_name (some r) = ground arith

    settle_coherent : (o : Option ClauseResult) → coherent (settle c o) ≡ true
    settle_coherent none = refl
    settle_coherent (some r) = ground arith

-- Whatever was found, a decision reports the nine required clauses in their order, each once and
-- under its own name, every result it reports is coherent, and it bears the policy version it was
-- given.
pub decide-clauses :
    (version : ℕ) (verdicts : Verdicts)
    → let d = decide version verdicts in
      (map (λ r. r.clause) d.clauses ≡ required_clauses)
      × All (λ r. coherent r ≡ true) d.clauses
      × (d.policy_version ≡ version)
decide-clauses version verdicts =
    let (names, sound) = settled_clauses required_clauses verdicts in
    rw decide-settled (names, sound, refl)

refused-all_pass : (rs : List ClauseResult) → (refused rs ≡ []) ↔ (all_pass rs ≡ true)
unfolding refused all_pass
refused-all_pass [] = ((λ h. refl), λ h. refl)
refused-all_pass (r ∷ rs) =
    let rest = refused-all_pass rs in ((λ h. ground (arith, rest.0)), λ h. ground (arith, rest.1))

-- A decision authorizes exactly when it has nothing to refuse.
pub refusals-authorized :
    (version : ℕ) (verdicts : Verdicts)
    → let d = decide version verdicts in (refusals d ≡ []) ↔ (d.authorized ≡ true)
refusals-authorized version verdicts =
    rw decide-settled (refused-all_pass (settled verdicts required_clauses))
