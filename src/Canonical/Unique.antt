-- ===== src/Canonical/Unique.antt =====
-- The identity encodings are one to one: equal canonical bytes have equal parts, so that two
-- identities are equal only for equal parts, or for a collision of SHA-256.
use maiden_lane.Base.{
  ◌^◌, ◌<◌, ◌≡◌, refl, sym, ap, ap₂, ◌∙◌, List, [], ◌∷◌, map, some, arith, inl, inr, Bool-cases,
  length, Text, text_eq,
}
use maiden_lane.Ports.Executions.{ExecutorIdentity}
use maiden_lane.Canonical.Encoder.{Bytes, write, raw, uint64, string, tag, digest}
use maiden_lane.Canonical.Identities.{
  encode_executor_identity, encode_execution_with, encode_execution_identity,
  corpus_canonical_bytes, executor_identity_tag, execution_identity_tag, corpus_tag,
  valid_executor_identity,
}
use maiden_lane.Canonical.Prefix.{
  Unique, uint64-Unique, string-Unique, digest-Unique, same-Unique, append_cancel, write_step,
}

-- The same digests in the same order.
digests_unique :
    (ds es : List Text) (out : Bytes)
    → length ds ≡ length es
    → write (map digest ds) ≡ some out
    → write (map digest es) ≡ some out
    → ds ≡ es
digests_unique [] [] out l hd he = refl
digests_unique [] (e ∷ es) out l hd he = absurd (omega arith)
digests_unique (d ∷ ds) [] out l hd he = absurd (omega arith)
digests_unique (d ∷ ds) (e ∷ es) out l hd he =
    let (same, rest, hd', he') =
      write_step (d ≡ e) (digest d) (digest e) (map digest ds) (map digest es) out
        (digest-Unique d e) hd he in
    ap₂ ◌∷◌ same (digests_unique ds es rest (omega arith) hd' he')

-- A replay corpus is identified by its state digests in order: two corpora of fewer than 2 ^ 64
-- digests with the same canonical bytes list the same digests.
pub corpus_canonical_bytes_inj :
    (ds es : List Text) (out : Bytes)
    → length ds < 2 ^ 64
    → length es < 2 ^ 64
    → corpus_canonical_bytes ds ≡ some out
    → corpus_canonical_bytes es ≡ some out
    → ds ≡ es
unfolding corpus_canonical_bytes
corpus_canonical_bytes_inj ds es out sd se hd he =
    let (_, out1, hd1, he1) =
      write_step (Unit {0}) (tag corpus_tag) (tag corpus_tag) (uint64 (length ds) ∷ map digest ds)
        (uint64 (length es) ∷ map digest es) out (same-Unique (tag corpus_tag)) hd he in
    let (count, out2, hd2, he2) =
      write_step (length ds ≡ length es) (uint64 (length ds)) (uint64 (length es)) (map digest ds)
        (map digest es) out1 (uint64-Unique (length ds) (length es) sd se) hd1 he1 in
    digests_unique ds es out2 count hd2 he2

-- The executor identity, as the bytes that the execution identity holds.
encode_executor_identity_inj :
    (e f : ExecutorIdentity) (out : Bytes)
    → length e.backend < 2 ^ 64
    → length f.backend < 2 ^ 64
    → encode_executor_identity e ≡ some out
    → encode_executor_identity f ≡ some out
    → e ≡ f
unfolding encode_executor_identity
encode_executor_identity_inj e f out se sf he hf = elim (Bool-cases (valid_executor_identity e)) [
  | inr v ↦ absurd (ground arith)
  | inl v ↦ elim (Bool-cases (valid_executor_identity f)) [
    | inr w ↦ absurd (ground arith)
    | inl w ↦
        let (_, out1, he1, hf1) =
          write_step (Unit {0}) (tag executor_identity_tag) (tag executor_identity_tag)
            (string e.backend ∷ digest e.version ∷ []) (string f.backend ∷ digest f.version ∷ [])
            out (same-Unique (tag executor_identity_tag)) (rw v at he) (rw w at hf) in
        let (backend, out2, he2, hf2) =
          write_step (e.backend ≡ f.backend) (string e.backend) (string f.backend)
            (digest e.version ∷ []) (digest f.version ∷ []) out1
            (string-Unique e.backend f.backend se sf) he1 hf1 in
        let (version, _, _, _) =
          write_step (e.version ≡ f.version) (digest e.version) (digest f.version) [] [] out2
            (digest-Unique e.version f.version) he2 hf2 in
        cc
  ]
]

raw-Unique : (a b : Bytes) → length a ≡ length b → Unique (raw a) (raw b) (a ≡ b)
raw-Unique a b l p q r s c d h = append_cancel a b r s l (cc)

encode_execution_with_inj :
    (run run' policy policy' : Text) (i j out : Bytes)
    → length i < 2 ^ 64
    → length j < 2 ^ 64
    → encode_execution_with run policy (some i) ≡ some out
    → encode_execution_with run' policy' (some j) ≡ some out
    → (run ≡ run') × (i ≡ j) × (policy ≡ policy')
encode_execution_with_inj run run' policy policy' i j out si sj hi hj =
    let t = tag execution_identity_tag in
    let (_, out1, hi1, hj1) = write_step (Unit {0}) t t _ _ out (same-Unique t) hi hj in
    let (runs, out2, hi2, hj2) =
      write_step (run ≡ run') (digest run) (digest run') _ _ out1 (digest-Unique run run') hi1
        hj1 in
    let (sizes, out3, hi3, hj3) =
      write_step (length i ≡ length j) (uint64 (length i)) (uint64 (length j)) _ _ out2
        (uint64-Unique (length i) (length j) si sj) hi2 hj2 in
    let (same, out4, hi4, hj4) =
      write_step (i ≡ j) (raw i) (raw j) _ _ out3 (raw-Unique i j sizes) hi3 hj3 in
    let (policies, _, _, _) =
      write_step (policy ≡ policy') (digest policy) (digest policy') [] [] out4
        (digest-Unique policy policy') hi4 hj4 in
    (runs, same, policies)

-- What an execution identity is derived from: the parts are within what Go can hold.
pub record Parts (run policy : Text) (e : ExecutorIdentity) (out : Bytes) : Type 0 where
  pub identity : Bytes
  pub encoded : encode_executor_identity e ≡ some identity
  pub short_backend : length e.backend < 2 ^ 64
  pub short_identity : length identity < 2 ^ 64
  pub whole : encode_execution_identity run e policy ≡ some out

-- Equal canonical bytes of two execution identities come from the same run, executor and policy,
-- where the backend's name and the encoded executor are shorter than 2 ^ 64 bytes.
pub encode_execution_identity_inj :
    (run run' policy policy' : Text) (e f : ExecutorIdentity) (out : Bytes)
    → Parts run policy e out
    → Parts run' policy' f out
    → (run ≡ run') × (e ≡ f) × (policy ≡ policy')
unfolding encode_execution_identity
encode_execution_identity_inj run run' policy policy' e f out p q =
    let hp = rw p.encoded at p.whole in
    let hq = rw q.encoded at q.whole in
    let (runs, same, policies) =
      encode_execution_with_inj run run' policy policy' p.identity q.identity out p.short_identity
        q.short_identity hp hq in
    let executors =
      encode_executor_identity_inj e f p.identity p.short_backend q.short_backend p.encoded
        (q.encoded ∙ ap some (sym same)) in
    (runs, executors, policies)
