-- ===== src/Canonical/Tests.antt =====
-- Identity encodings at concrete identities, and the theorems that they are one to one at them.
use maiden_lane.Base.{
  ℕ, List, [], ◌∷◌, ◌++◌, Option, none, some, ◌≡◌, refl, arith, codes, Text, replicate,
}
use maiden_lane.Ports.Executions.{ExecutorIdentity}
use maiden_lane.Canonical.Strings.{valid_utf8, big_endian, decode_hex, hex_digit, is_lower_case}
use maiden_lane.Canonical.Encoder.{Bytes, write, string, tag, decode_digest, strip_prefix}
use maiden_lane.Canonical.Identities.{
  corpus_canonical_bytes, encode_execution_identity, encode_executor_identity,
  valid_executor_identity, valid_executor_backend,
}
use maiden_lane.Canonical.Unique.{corpus_canonical_bytes_inj, Parts, encode_execution_identity_inj}

abbrev digest_of : ℕ → Text
digest_of c = codes "sha256:" ++ replicate 64 c

abbrev from_some : Option Bytes → Text
from_some none = []
from_some (some b) = b

abbrev two_states : List Text
two_states = digest_of b'3' ∷ digest_of b'a' ∷ []

corpus_bytes : Bytes
unfolding corpus_canonical_bytes write string tag decode_digest strip_prefix valid_utf8 big_endian
    decode_hex hex_digit is_lower_case
corpus_bytes = from_some (corpus_canonical_bytes two_states)

corpus_encodes : corpus_canonical_bytes two_states ≡ some corpus_bytes
unfolding corpus_bytes corpus_canonical_bytes write string tag decode_digest strip_prefix valid_utf8
    big_endian decode_hex hex_digit is_lower_case
corpus_encodes = refl

-- A digest is 64 hexadecimal digits in lower case.
refuses_upper_case : corpus_canonical_bytes (digest_of b'A' ∷ []) ≡ none
unfolding corpus_canonical_bytes write string tag decode_digest strip_prefix valid_utf8 big_endian
    decode_hex hex_digit is_lower_case
refuses_upper_case = refl

abbrev go_build : ExecutorIdentity
go_build = record { backend = codes "go"; version = digest_of b'c' }

executor_bytes : Bytes
unfolding encode_executor_identity valid_executor_identity valid_executor_backend write string tag
    decode_digest strip_prefix valid_utf8 big_endian decode_hex hex_digit is_lower_case
executor_bytes = from_some (encode_executor_identity go_build)

execution_bytes : Bytes
unfolding encode_execution_identity encode_executor_identity valid_executor_identity
    valid_executor_backend write string tag decode_digest strip_prefix valid_utf8 big_endian
    decode_hex hex_digit is_lower_case
execution_bytes = from_some (encode_execution_identity (digest_of b'1') go_build (digest_of b'2'))

go-Parts : Parts (digest_of b'1') (digest_of b'2') go_build execution_bytes
unfolding executor_bytes execution_bytes encode_execution_identity encode_executor_identity
    valid_executor_identity valid_executor_backend write string tag decode_digest strip_prefix
    valid_utf8 big_endian decode_hex hex_digit is_lower_case
go-Parts = record {
  identity = executor_bytes;
  encoded = refl;
  short_backend = omega arith;
  short_identity = omega arith;
  whole = refl;
}

corpus_canonical_bytes_inj_example : two_states ≡ two_states
corpus_canonical_bytes_inj_example =
    corpus_canonical_bytes_inj two_states two_states corpus_bytes (omega arith) (omega arith)
      corpus_encodes corpus_encodes

encode_execution_identity_inj_example :
    (digest_of b'1' ≡ digest_of b'1') × (go_build ≡ go_build) × (digest_of b'2' ≡ digest_of b'2')
encode_execution_identity_inj_example =
    encode_execution_identity_inj (digest_of b'1') (digest_of b'1') (digest_of b'2')
      (digest_of b'2') go_build go_build execution_bytes go-Parts go-Parts
