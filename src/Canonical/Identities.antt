-- ===== src/Canonical/Identities.antt =====
-- The identities of internal/semantic that the worker and the promotion gate verify: what each hashes,
-- and the verifiers. SHA-256 is not part of this code: `hash` is its digest string of some bytes.
use maiden_lane.Base.{
  ℕ, Bool, true, false, not, ◌&&◌, ◌||◌, List, [], ◌∷◌, map, Option, none, some, ◌==◌,
  if◌then◌else◌, length, Text, codes, is_empty, ◌=?◌, text_eq,
}
use maiden_lane.Canonical.Strings.{between}
use maiden_lane.Canonical.Encoder.{Bytes, write, raw, uint64, string, tag, digest, decode_digest}
use maiden_lane.Ports.Executions.{ExecutorIdentity}

abbrev pub input_identity_tag : Text
input_identity_tag = codes "maiden-lane.input-id.v1"

abbrev pub semantic_run_tag : Text
semantic_run_tag = codes "maiden-lane.semantic-run-id.v1"

abbrev pub executor_identity_tag : Text
executor_identity_tag = codes "maiden-lane.executor-identity.v1"

abbrev pub execution_identity_tag : Text
execution_identity_tag = codes "maiden-lane.execution-id.v1"

abbrev pub checkpoint_id_tag : Text
checkpoint_id_tag = codes "maiden-lane.checkpoint-id.v1"

abbrev pub checkpoint_claim_tag : Text
checkpoint_claim_tag = codes "maiden-lane.checkpoint-artifact-id.v1"

abbrev pub assessment_id_tag : Text
assessment_id_tag = codes "maiden-lane.assessment-id.v1"

abbrev pub corpus_tag : Text
corpus_tag = codes "maiden-lane.replay-corpus.v1"

is_backend_start : ℕ → Bool
is_backend_start c = between b'a' b'z' c || between b'0' b'9' c

are_backend_bytes : Text → Bool
unfolding is_backend_start
are_backend_bytes [] = true
are_backend_bytes (c ∷ s) =
    if is_backend_start c || (c == b'.' || c == b'-') then are_backend_bytes s else false

unfoldable pub valid_executor_backend : Text → Bool
unfolding are_backend_bytes
valid_executor_backend [] = false
valid_executor_backend (c ∷ s) = is_backend_start c && are_backend_bytes (c ∷ s)

abbrev pub decodes : Option Bytes → Bool
decodes none = false
decodes (some b) = true

unfoldable pub valid_executor_identity : ExecutorIdentity → Bool
valid_executor_identity e = valid_executor_backend e.backend && decodes (decode_digest e.version)

unfoldable pub encode_input_identity : Text → Text → Option Bytes
encode_input_identity state world =
    write (tag input_identity_tag ∷ digest state ∷ digest world ∷ [])

unfoldable pub encode_semantic_run_identity : Text → Text → Option Bytes
encode_semantic_run_identity input plan =
    write (tag semantic_run_tag ∷ digest input ∷ digest plan ∷ [])

unfoldable pub encode_executor_identity : ExecutorIdentity → Option Bytes
encode_executor_identity e =
    if valid_executor_identity e
    then write (tag executor_identity_tag ∷ string e.backend ∷ digest e.version ∷ [])
    else none

-- The executor's bytes stand behind their count.
abbrev pub encode_execution_with : Text → Text → Option Bytes → Option Bytes
encode_execution_with run policy none = none
encode_execution_with run policy (some identity) = write (
    tag execution_identity_tag
    ∷ digest run
    ∷ uint64 (length identity)
    ∷ raw identity
    ∷ digest policy
    ∷ [])

unfoldable pub encode_execution_identity : Text → ExecutorIdentity → Text → Option Bytes
encode_execution_identity run executor policy =
    encode_execution_with run policy (encode_executor_identity executor)

unfoldable pub encode_checkpoint_id : Text → Text → Option Bytes
encode_checkpoint_id plan key = write (tag checkpoint_id_tag ∷ digest plan ∷ string key ∷ [])

unfoldable pub encode_checkpoint_artifact_id :
    Text → Text → Text → Text → Text → Text → Option Bytes
encode_checkpoint_artifact_id run checkpoint state journal invariants policy = write (
    tag checkpoint_claim_tag
    ∷ digest run
    ∷ digest checkpoint
    ∷ digest state
    ∷ digest journal
    ∷ digest invariants
    ∷ digest policy
    ∷ [])

unfoldable pub encode_assessment_id : Text → Text → Option Bytes
encode_assessment_id checkpoint profile =
    write (tag assessment_id_tag ∷ digest checkpoint ∷ digest profile ∷ [])

unfoldable pub corpus_canonical_bytes : List Text → Option Bytes
corpus_canonical_bytes digests =
    write (tag corpus_tag ∷ uint64 (length digests) ∷ map digest digests)

-- Whether the hash of an encoding is an identity; an encoding that failed verifies nothing.
abbrev pub hashes_to : (Bytes → Text) → Option Bytes → Text → Bool
hashes_to hash none id = false
hashes_to hash (some b) id = hash b =? id

module _ (hash : Bytes → Text) where
  unfoldable pub verify_invariant_result_digest : Bytes → Text → Bool
  verify_invariant_result_digest canonical expected =
      if is_empty canonical then false else hash canonical =? expected

  unfoldable pub verify_execution_identity : Text → Text → ExecutorIdentity → Text → Bool
  verify_execution_identity execution run executor policy =
      if is_empty execution
        || (is_empty run || (is_empty policy || not (valid_executor_identity executor)))
      then false
      else hashes_to hash (encode_execution_identity run executor policy) execution

  unfoldable pub verify_corpus_identity : List Text → Text → Bool
  verify_corpus_identity [] expected = false
  verify_corpus_identity (d ∷ ds) expected =
      if is_empty expected then false else hashes_to hash (corpus_canonical_bytes (d ∷ ds)) expected
