-- ===== src/Memory/Versions.antt =====
-- internal/adapters/memory/policies.go and publications.go: append-only records, one sequence of
-- versions for each destination. The two files do the same over two record types; the common part
-- is a section over the record type and what the code reads of a record.
pub mod History
pub mod Races
pub mod Tests
use maiden_lane.Base.{
  ℕ, ◌+◌, ◌%◌, ◌^◌, String, Bool, not, List, [], Option, none, some, ◌≡◌, ◌==◌, if◌then◌else◌,
  is_empty, Eq, ◌=?◌, Result, ok, err,
}
use maiden_lane.Base.Assoc.{lookup, insert}
use maiden_lane.Ports.Executions.{Context, ContextError}
use maiden_lane.Ports.Targets.{
  TargetPolicy, Publication, TargetKey, VersionKey, target_eq, version_eq, policy_eq,
  publication_eq,
}

-- `no_field s` is an error for a part that is missing.
pub data VersionError : Type 0 where
  context_error : ContextError → VersionError
  no_field : String → VersionError
  conflict : VersionError

-- What the code reads of a record, and how it validates one.
pub record Kind (R : Type 0) : Type 0 where
  pub target_of : R → TargetKey
  pub version_of : R → ℕ
  pub missing : R → Option String

-- The two maps of one record type: the records by version, and each destination's current version.
pub record Versions (R : Type 0) : Type 0 where
  pub records : List (VersionKey × R)
  pub current : List (TargetKey × ℕ)

abbrev pub no_versions : {R : Type 0} → Versions R
no_versions = record { records = []; current = [] }

-- A missing entry of a Go map of numbers reads as zero.
pub version_at : List (TargetKey × ℕ) → TargetKey → ℕ
version_at m t = elim (lookup t m) [ none ↦ 0 | some v ↦ v ]

module _ {R : Type 0} (kind : Kind R) ⦃e : Eq R⦄ where
  abbrev pub key_of : R → VersionKey
  key_of r = record { at = kind.target_of r; version = kind.version_of r }

  -- The part behind the guards, on the record that stands under the key.
  pub append_on : Option R → R → Versions R → Versions R × Result VersionError (Unit {0})
  append_on (some existing) r s = if existing =? r then (s, ok tt) else (s, err conflict)
  append_on none r s =
      if not (kind.version_of r == (version_at s.current (kind.target_of r) + 1) % 2 ^ 64)
      then (s, err conflict)
      else (
        record {
          records = insert (key_of r) r s.records;
          current = insert (kind.target_of r) (kind.version_of r) s.current;
        },
        ok tt,
      )

  append_valid : Option String → R → Versions R → Versions R × Result VersionError (Unit {0})
  unfolding append_on
  append_valid (some part) r s = (s, err (no_field part))
  append_valid none r s = append_on (lookup (key_of r) s.records) r s

  pub append : Context → R → Versions R → Versions R × Result VersionError (Unit {0})
  unfolding append_valid
  append (some x) r s = (s, err (context_error x))
  append none r s = append_valid (kind.missing r) r s

module _ {R : Type 0} where
  pub at_version : Context → TargetKey → ℕ → Versions R → Result VersionError (Option R)
  at_version (some x) t v s = err (context_error x)
  at_version none t v s = ok (lookup (record { at = t; version = v }) s.records)

  pub active : Context → TargetKey → Versions R → Result VersionError (Option R)
  active (some x) t s = err (context_error x)
  active none t s =
      let v = version_at s.current t in
      if v == 0 then ok none else ok (lookup (record { at = t; version = v }) s.records)

-- The first part that `validatePolicy` finds missing.
pub validate_policy : TargetPolicy → Option String
validate_policy p =
    if is_empty p.tenant_id
    then some "tenant"
    else if is_empty p.customer_id
    then some "customer"
    else if is_empty p.target
    then some "target"
    else if p.version == 0
    then some "version"
    else if is_empty p.required_profile_id
    then some "profile"
    else none

abbrev pub policy_kind : Kind TargetPolicy
policy_kind = record {
  target_of = λ p. record { tenant = p.tenant_id; customer = p.customer_id; target = p.target };
  version_of = λ p. p.version;
  missing = validate_policy;
}

pub put_policy :
    Context
    → TargetPolicy
    → Versions TargetPolicy
    → Versions TargetPolicy × Result VersionError (Unit {0})
put_policy c p s = append policy_kind c p s

-- The first part that `validatePublication` finds missing.
pub validate_publication : Publication → Option String
validate_publication p =
    if is_empty p.tenant_id
    then some "tenant"
    else if is_empty p.customer_id
    then some "customer"
    else if is_empty p.target
    then some "target"
    else if p.version == 0
    then some "version"
    else if p.policy_version == 0
    then some "policy version"
    else if is_empty p.profile_id
    then some "profile"
    else if is_empty p.assessment_id
    then some "assessment"
    else if is_empty p.checkpoint_artifact_id
    then some "checkpoint"
    else if is_empty p.semantic_run_id
    then some "semantic run"
    else if is_empty p.execution_id
    then some "execution"
    else none

abbrev pub publication_kind : Kind Publication
publication_kind = record {
  target_of = λ p. record { tenant = p.tenant_id; customer = p.customer_id; target = p.target };
  version_of = λ p. p.version;
  missing = validate_publication;
}

pub publish :
    Context
    → Publication
    → Versions Publication
    → Versions Publication × Result VersionError (Unit {0})
publish c p s = append publication_kind c p s
