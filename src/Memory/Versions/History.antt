-- ===== src/Memory/Versions/History.antt =====
-- The recorded versions of a destination are 1, 2, …, n with no gap, and none is ever rewritten.
use maiden_lane.Base.{
  ℕ, ◌+◌, ◌%◌, ◌^◌, ◌≤◌, ◌<◌, ◌≡◌, ◌≢◌, ◌↔◌, Bool, true, false, Option, none, some, List, arith,
  inl, inr, Bool-cases, Option-cases, ◌==◌, if◌then◌else◌, Eq, ◌=?◌,
}
use maiden_lane.Base.Assoc.{lookup, insert, lookup-insert}
use maiden_lane.Ports.Executions.{Context}
use maiden_lane.Ports.Targets.{
  TargetKey, VersionKey, target_eq, version_eq, target_beq_iff, version_beq_iff,
}
use maiden_lane.Memory.Versions.{
  Kind, Versions, no_versions, version_at, key_of, append, policy_kind, publication_kind,
  validate_policy, validate_publication,
}

abbrev pub record_at : {R : Type 0} → Versions R → TargetKey → ℕ → Option R
record_at s t v = lookup (record { at = t; version = v }) s.records

abbrev pub is_some : {R : Type 0} → Option R → Bool
is_some none = false
is_some (some r) = true

-- What the sequence of versions needs of a kind: validation refuses version zero.
pub record IsChecked {R : Type 0} (kind : Kind R) : Type 0 where
  pub nonzero : (r : R) → kind.missing r ≡ none → kind.version_of r ≢ 0

pub policy_kind-IsChecked : IsChecked policy_kind
unfolding validate_policy
policy_kind-IsChecked = record { nonzero = λ r h z. ground arith }

pub publication_kind-IsChecked : IsChecked publication_kind
unfolding validate_publication
publication_kind-IsChecked = record { nonzero = λ r h z. ground arith }

pub version_at-insert :
    (t u : TargetKey) (v : ℕ) (m : List (TargetKey × ℕ))
    → version_at (insert t v m) u ≡ (if t =? u then v else version_at m u)
unfolding version_at
version_at-insert t u v m = ground (arith, lookup-insert t u v m)

module _ {R : Type 0} (kind : Kind R) ⦃e : Eq R⦄ where
  -- The state after a record went in as the next version.
  abbrev pub extended : R → Versions R → Versions R
  extended r s = record {
    records = insert (key_of kind r) r s.records;
    current = insert (kind.target_of r) (kind.version_of r) s.current;
  }

  -- `append` leaves the state alone, or adds a record under a fresh key as the next version.
  pub append_cases {ℓ} :
      (P : Versions R → Type ℓ) (c : Context) (r : R) (s : Versions R)
      → P s
      → (lookup (key_of kind r) s.records ≡ none
          → kind.missing r ≡ none
          → kind.version_of r ≡ (version_at s.current (kind.target_of r) + 1) % 2 ^ 64
          → P (extended r s))
      → P (append kind c r s).0
  unfolding append
  append_cases P (some x) r s kept added = kept
  append_cases P none r s kept added = elim (Option-cases (kind.missing r)) [
    | inr (part, m) ↦ rw m kept
    | inl m ↦ elim (Option-cases (lookup (key_of kind r) s.records)) [
      | inr (d, f) ↦ elim (Bool-cases (d =? r)) [
        | inl b ↦ rw (m, f, b) kept
        | inr b ↦ rw (m, f, b) kept
      ]
      | inl f ↦
          elim (Bool-cases
            (kind.version_of r == (version_at s.current (kind.target_of r) + 1) % 2 ^ 64)) [
              | inl b ↦ rw (m, f, b) (added f m (ground arith))
              | inr b ↦ rw (m, f, b) kept
            ]
    ]
  ]

  -- The versions on record at a destination are exactly those from 1 to its current one.
  pub record Inv (s : Versions R) : Type 0 where
    pub in_range : (t : TargetKey) → version_at s.current t < 2 ^ 64
    pub numbered :
        (t : TargetKey) (v : ℕ)
        → (is_some (record_at s t v) ≡ true) ↔ ((0 < v) × (v ≤ version_at s.current t))
    pub own_key : (k : VersionKey) (r : R) → lookup k s.records ≡ some r → key_of kind r ≡ k

  pub no_versions-Inv : Inv no_versions
  unfolding version_at lookup
  no_versions-Inv = record {
    in_range = λ t. omega arith;
    numbered = λ t v. ((λ h. absurd (cc)), (λ h. absurd (omega arith)));
    own_key = λ k r h. absurd (cc);
  }

  module _ (checked : IsChecked kind) where
    extended-Inv :
        (r : R) (s : Versions R)
        → lookup (key_of kind r) s.records ≡ none
        → kind.missing r ≡ none
        → kind.version_of r ≡ (version_at s.current (kind.target_of r) + 1) % 2 ^ 64
        → Inv s
        → Inv (extended r s)
    extended-Inv r s fresh valid next v =
        let t = kind.target_of r in
        let positive = checked.nonzero r valid in
        let cur = v.in_range t in
        let n : kind.version_of r ≡ version_at s.current t + 1 = omega arith in
        record {
          in_range = λ u.
              ground (arith, version_at-insert t u (kind.version_of r) s.current, v.in_range u);
          numbered = λ u w.
              let found =
                lookup-insert (key_of kind r) (record { at = u; version = w }) r s.records in
              let counted = version_at-insert t u (kind.version_of r) s.current in
              let same = target_beq_iff t u in
              let old = v.numbered u w in
              (
                (λ h. ground (arith, found, counted, same, old.0)),
                λ h. ground (arith, found, counted, same, old.1),
              );
          own_key = λ k d h. ground (
            arith,
            lookup-insert (key_of kind r) k r s.records,
            version_beq_iff (key_of kind r) k,
            v.own_key k d,
          );
        }

    -- For records whose validation refuses version zero: if the versions on record at every
    -- destination are those from 1 to its current one, they still are after any call.
    pub append-Inv : (c : Context) (r : R) (s : Versions R) → Inv s → Inv (append kind c r s).0
    append-Inv c r s v =
        append_cases Inv c r s v (λ fresh valid next. extended-Inv r s fresh valid next v)

  -- A recorded version is never rewritten or removed.
  pub append-record_at :
      (c : Context) (r d : R) (s : Versions R) (t : TargetKey) (v : ℕ)
      → record_at s t v ≡ some d
      → record_at (append kind c r s).0 t v ≡ some d
  append-record_at c r d s t v held =
      append_cases (λ s'. record_at s' t v ≡ some d) c r s held
        λ fresh valid next. ground (
          arith,
          lookup-insert (key_of kind r) (record { at = t; version = v }) r s.records,
          version_beq_iff (key_of kind r) (record { at = t; version = v }),
        )
