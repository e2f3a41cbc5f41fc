-- ===== src/Promotion/Cases.antt =====
-- internal/promotion/metric_regression.go: what its test on one candidate case finds out. The baseline
-- case that it reads is the last one with the same initial state, which is the one that the Go map keeps.
use maiden_lane.Base.{
  true, false, List, [], ◌∷◌, ◌++◌, Option, none, some, if◌then◌else◌, ◌≡◌, ◌⊎◌, ◌↔◌, refl, ap, ◌∙◌,
  subst, arith, Bool-cases, Option-cases, inl, inr, All, Text, ◌=?◌, text_eq, eq_iff,
}
use maiden_lane.Promotion.Evidence.{ComparedCase, is_ready, Readiness, ready, needs_input, unset}
use maiden_lane.Promotion.Regression.{regresses}

-- The last case with this initial state: the one that a Go map keeps.
unfoldable pub last_case : Text → List ComparedCase → Option ComparedCase → Option ComparedCase
last_case s [] found = found
last_case s (c ∷ cs) found =
    last_case s cs (if c.checkpoint.initial_state_digest =? s then some c else found)

-- The case's initial state is a baseline case's, and if the last baseline case with that state is
-- ready, then so is this case.
pub record KeepsReady (baseline : List ComparedCase) (c : ComparedCase) : Type 0 where
  pub earlier : List ComparedCase
  pub last : ComparedCase
  pub later : List ComparedCase
  pub place : baseline ≡ earlier ++ last ∷ later
  pub same_state : last.checkpoint.initial_state_digest ≡ c.checkpoint.initial_state_digest
  pub none_later :
      All
        (λ d. (d.checkpoint.initial_state_digest =? c.checkpoint.initial_state_digest) ≡ false)
        later
  pub keeps : last.assessment.verdict ≡ ready → c.assessment.verdict ≡ ready

-- Where a list has its last case with an initial state.
record LastAt (s : Text) (cs : List ComparedCase) (b : ComparedCase) : Type 0 where
  earlier : List ComparedCase
  later : List ComparedCase
  place : cs ≡ earlier ++ b ∷ later
  same_state : b.checkpoint.initial_state_digest ≡ s
  none_later : All (λ d. (d.checkpoint.initial_state_digest =? s) ≡ false) later

last_case-LastAt :
    (s : Text) (cs : List ComparedCase) (found : Option ComparedCase) (b : ComparedCase)
    → last_case s cs found ≡ some b
    → LastAt s cs b
      ⊎ ((found ≡ some b) × All (λ d. (d.checkpoint.initial_state_digest =? s) ≡ false) cs)
unfolding last_case
last_case-LastAt s [] found b h = inr (h, tt)
last_case-LastAt s (c ∷ cs) found b h =
    let d = c.checkpoint.initial_state_digest in
    elim (last_case-LastAt s cs (if d =? s then some c else found) b h) [
      | inl l ↦ inl (record {
        earlier = c ∷ l.earlier;
        later = l.later;
        place = ap (λ xs. c ∷ xs) l.place;
        same_state = l.same_state;
        none_later = l.none_later;
      })
      | inr (f, absent) ↦ elim (Bool-cases (d =? s)) [
        | inr ne ↦ inr ((rw ne at f), (ne, absent))
        | inl e ↦
            let here : c ≡ b = ground (arith, rw e at f) in
            inl (record {
              earlier = [];
              later = cs;
              place = ap (λ x. x ∷ cs) here;
              same_state =
                  subst (λ x. x.checkpoint.initial_state_digest ≡ s) here ((eq_iff d s).0 e);
              none_later = absent;
            })
      ]
    ]

last_case-none_later :
    (s : Text) (cs : List ComparedCase) (found : Option ComparedCase)
    → All (λ d. (d.checkpoint.initial_state_digest =? s) ≡ false) cs
    → last_case s cs found ≡ found
unfolding last_case
last_case-none_later s [] found h = refl
last_case-none_later s (c ∷ cs) found h = rw h.0 (last_case-none_later s cs found h.1)

last_case-at :
    (s : Text) (earlier later : List ComparedCase) (b : ComparedCase) (found : Option ComparedCase)
    → b.checkpoint.initial_state_digest ≡ s
    → All (λ d. (d.checkpoint.initial_state_digest =? s) ≡ false) later
    → last_case s (earlier ++ b ∷ later) found ≡ some b
unfolding last_case
last_case-at s [] later b found h absent =
    rw (last_case, (eq_iff b.checkpoint.initial_state_digest s).1 h)
      (last_case-none_later s later (some b) absent)
last_case-at s (c ∷ cs) later b found h absent =
    last_case-at s cs later b (if c.checkpoint.initial_state_digest =? s then some c else found) h
      absent

is_ready_lem : (r : Readiness) → (is_ready r ≡ true) ↔ (r ≡ ready)
is_ready_lem ready = ((λ h. refl), λ h. refl)
is_ready_lem needs_input = ((λ h. absurd (ground arith)), λ h. absurd (ground (arith, h)))
is_ready_lem unset = ((λ h. absurd (ground arith)), λ h. absurd (ground (arith, h)))

regresses_lem :
    (b c : ComparedCase)
    → (regresses (some b) c ≡ false) ↔ (b.assessment.verdict ≡ ready → c.assessment.verdict ≡ ready)
regresses_lem b c = (
  (λ h e.
      (is_ready_lem c.assessment.verdict).0
        (ground (arith, h, (is_ready_lem b.assessment.verdict).1 e))),
  λ h. elim (Bool-cases (is_ready b.assessment.verdict)) [
    | inr n ↦ rw n refl
    | inl y ↦
        rw (y, (is_ready_lem c.assessment.verdict).1 (h ((is_ready_lem b.assessment.verdict).0 y)))
          refl
  ],
)

-- The test on the last baseline case with the same state decides this.
pub regresses-KeepsReady :
    (baseline : List ComparedCase) (c : ComparedCase)
    → (regresses (last_case c.checkpoint.initial_state_digest baseline none) c ≡ false)
      ↔ KeepsReady baseline c
regresses-KeepsReady baseline c =
    let s = c.checkpoint.initial_state_digest in
    (
      (λ h. elim (Option-cases (last_case s baseline none)) [
        | inl n ↦ absurd (ground (arith, rw n at h))
        | inr (b, e) ↦ elim (last_case-LastAt s baseline none b e) [
          | inr (unfound, _) ↦ absurd (ground (arith, unfound))
          | inl l ↦ record {
            earlier = l.earlier;
            last = b;
            later = l.later;
            place = l.place;
            same_state = l.same_state;
            none_later = l.none_later;
            keeps = (regresses_lem b c).0 (rw e at h);
          }
        ]
      ]),
      λ k.
          let e : last_case s baseline none ≡ some k.last =
            ap (λ cs. last_case s cs none) k.place
            ∙ (last_case-at s k.earlier k.later k.last none k.same_state k.none_later) in
          rw e ((regresses_lem k.last c).1 k.keeps),
    )
