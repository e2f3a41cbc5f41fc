-- ===== src/Ports/Targets.antt =====
-- internal/ports/policies.go and internal/ports/publications.go: what a target requires, and what
-- is published to it. Two records are compared by all their fields, as Go compares structs.
use maiden_lane.Base.{ℕ, Text, Bool, true, ◌&&◌, ◌≡◌, ◌↔◌, Eq, ◌=?◌, ◌==◌, text_eq, eq_iff, arith}

pub record TargetPolicy : Type 0 where
  pub tenant_id : Text
  pub customer_id : Text
  pub target : Text
  pub version : ℕ
  pub required_profile_id : Text

pub record Publication : Type 0 where
  pub tenant_id : Text
  pub customer_id : Text
  pub target : Text
  pub version : ℕ
  pub policy_version : ℕ
  pub profile_id : Text
  pub assessment_id : Text
  pub checkpoint_artifact_id : Text
  pub semantic_run_id : Text
  pub execution_id : Text

abbrev pub policy_beq : TargetPolicy → TargetPolicy → Bool
policy_beq p q =
    p.tenant_id =? q.tenant_id
    && (p.customer_id =? q.customer_id
        && (p.target =? q.target
            && (p.version == q.version && p.required_profile_id =? q.required_profile_id)))

pub policy_beq_iff : (p q : TargetPolicy) → (policy_beq p q ≡ true) ↔ (p ≡ q)
policy_beq_iff p q = ground (
  arith,
  eq_iff p.tenant_id q.tenant_id,
  eq_iff p.customer_id q.customer_id,
  eq_iff p.target q.target,
  eq_iff p.required_profile_id q.required_profile_id,
)

instance abbrev pub policy_eq : Eq TargetPolicy
policy_eq = record { beq = policy_beq; beq_iff = policy_beq_iff }

abbrev pub publication_beq : Publication → Publication → Bool
publication_beq p q =
    p.tenant_id =? q.tenant_id
    && (p.customer_id =? q.customer_id
        && (p.target =? q.target
            && (p.version == q.version
                && (p.policy_version == q.policy_version
                    && (p.profile_id =? q.profile_id
                        && (p.assessment_id =? q.assessment_id
                            && (p.checkpoint_artifact_id =? q.checkpoint_artifact_id
                                && (p.semantic_run_id =? q.semantic_run_id
                                    && p.execution_id =? q.execution_id))))))))

pub publication_beq_iff : (p q : Publication) → (publication_beq p q ≡ true) ↔ (p ≡ q)
publication_beq_iff p q = ground (
  arith,
  eq_iff p.tenant_id q.tenant_id,
  eq_iff p.customer_id q.customer_id,
  eq_iff p.target q.target,
  eq_iff p.profile_id q.profile_id,
  eq_iff p.assessment_id q.assessment_id,
  eq_iff p.checkpoint_artifact_id q.checkpoint_artifact_id,
  eq_iff p.semantic_run_id q.semantic_run_id,
  eq_iff p.execution_id q.execution_id,
)

instance abbrev pub publication_eq : Eq Publication
publication_eq = record { beq = publication_beq; beq_iff = publication_beq_iff }

-- The destination of a policy or a publication.
pub record TargetKey : Type 0 where
  pub tenant : Text
  pub customer : Text
  pub target : Text

abbrev pub target_beq : TargetKey → TargetKey → Bool
target_beq a b = a.tenant =? b.tenant && (a.customer =? b.customer && a.target =? b.target)

pub target_beq_iff : (a b : TargetKey) → (target_beq a b ≡ true) ↔ (a ≡ b)
target_beq_iff a b =
    ground (arith, eq_iff a.tenant b.tenant, eq_iff a.customer b.customer, eq_iff a.target b.target)

instance abbrev pub target_eq : Eq TargetKey
target_eq = record { beq = target_beq; beq_iff = target_beq_iff }

-- One version at a destination: the key of a stored policy or publication.
pub record VersionKey : Type 0 where
  pub at : TargetKey
  pub version : ℕ

abbrev pub version_beq : VersionKey → VersionKey → Bool
version_beq a b = a.at =? b.at && a.version == b.version

pub version_beq_iff : (a b : VersionKey) → (version_beq a b ≡ true) ↔ (a ≡ b)
version_beq_iff a b = ground (arith, target_beq_iff a.at b.at)

instance abbrev pub version_eq : Eq VersionKey
version_eq = record { beq = version_beq; beq_iff = version_beq_iff }
