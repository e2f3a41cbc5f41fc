-- ===== src/Memory/Artifacts.antt =====
-- internal/adapters/memory/corpora.go and comparisons.go: the write-once stores of replay corpora and of
-- comparisons. What they hold of the kernel is a type parameter, with its identity, and for comparisons
-- what `ports.ProjectComparison` makes of one; a copy of an immutable value is the value.
pub mod Tests
use maiden_lane.Base.{
  Text, Bool, true, false, not, ◌&&◌, ◌||◌, List, [], ◌∷◌, Option, none, some, if◌then◌else◌,
  Result, ok, err, is_empty, ◌=?◌, Eq, text_eq, eq_iff, ◌≡◌, ◌↔◌, arith, refl, ap, inl, inr,
  Bool-cases, Option-cases, ◌⊎◌,
}
use maiden_lane.Base.Assoc.{lookup, insert, lookup-insert}
use maiden_lane.Ports.Executions.{Context, StoreError, context_error, incomplete_record}

-- A tenant, and an identity in it.
pub record ArtifactKey : Type 0 where
  pub tenant : Text
  pub id : Text

abbrev pub artifact_key_beq : ArtifactKey → ArtifactKey → Bool
artifact_key_beq a b = a.tenant =? b.tenant && a.id =? b.id

pub artifact_key_beq_iff : (a b : ArtifactKey) → (artifact_key_beq a b ≡ true) ↔ (a ≡ b)
artifact_key_beq_iff a b = ground (arith, eq_iff a.tenant b.tenant, eq_iff a.id b.id)

instance abbrev pub artifact_key_eq : Eq ArtifactKey
artifact_key_eq = record { beq = artifact_key_beq; beq_iff = artifact_key_beq_iff }

abbrev pub Artifacts : Type 0 → Type 0
Artifacts A = List (ArtifactKey × A)

-- A corpus under the name that it is stored by.
pub record CorpusRecord (C : Type 0) : Type 0 where
  pub tenant_id : Text
  pub corpus_id : Text
  pub corpus : C

abbrev pub Acknowledged : Type 0
Acknowledged = Result StoreError (Unit {0})

-- The first write under a key stays.
abbrev pub keep_artifact : {A : Type 0} → Option A → ArtifactKey → A → Artifacts A → Artifacts A
keep_artifact (some b) k a s = s
keep_artifact none k a s = insert k a s

module _ {A : Type 0} where
  abbrev pub stored : ArtifactKey → A → Artifacts A → Artifacts A
  stored k a s = keep_artifact (lookup k s) k a s

  keep_artifact-lookup :
      (o : Option A) (k j : ArtifactKey) (a b : A) (s : Artifacts A)
      → lookup k s ≡ o
      → lookup j s ≡ some b
      → lookup j (keep_artifact o k a s) ≡ some b
  keep_artifact-lookup (some e) k j a b s found held = held
  keep_artifact-lookup none k j a b s found held =
      ground (arith, lookup-insert k j a s, artifact_key_beq_iff k j)

  stored-lookup :
      (k j : ArtifactKey) (a b : A) (s : Artifacts A)
      → lookup j s ≡ some b
      → lookup j (stored k a s) ≡ some b
  stored-lookup k j a b s held = keep_artifact-lookup (lookup k s) k j a b s refl held

module _ {C : Type 0} (id_of : C → Text) where
  unfoldable pub put_corpus :
      Context
      → CorpusRecord C
      → Artifacts (CorpusRecord C)
      → Artifacts (CorpusRecord C) × Acknowledged
  put_corpus (some x) r s = (s, err (context_error x))
  put_corpus none r s =
      if is_empty r.tenant_id || is_empty r.corpus_id
      then (s, err incomplete_record)
      else if not (id_of r.corpus =? r.corpus_id)
      then (s, err incomplete_record)
      else (stored (record { tenant = r.tenant_id; id = r.corpus_id }) r s, ok tt)

  put_corpus-lookup :
      (c : Context) (r d : CorpusRecord C) (k : ArtifactKey) (s : Artifacts (CorpusRecord C))
      → lookup k s ≡ some d
      → lookup k (put_corpus c r s).0 ≡ some d
  unfolding put_corpus
  put_corpus-lookup (some x) r d k s held = held
  put_corpus-lookup none r d k s held =
      elim (Bool-cases (is_empty r.tenant_id || is_empty r.corpus_id)) [
        | inl b ↦ rw b held
        | inr b ↦ elim (Bool-cases (id_of r.corpus =? r.corpus_id)) [
          | inr n ↦ rw (b, n) held
          | inl y ↦
              rw (b, y)
                (stored-lookup (record { tenant = r.tenant_id; id = r.corpus_id }) k r d s held)
        ]
      ]

-- `GetCorpus` and `GetComparison`; `none` is the result `false` of Go.
unfoldable pub get_artifact :
    {A : Type 0} → Context → ArtifactKey → Artifacts A → Result StoreError (Option A)
get_artifact (some x) k s = err (context_error x)
get_artifact none k s = ok (lookup k s)

module _ {Q R : Type 0} (id_of : Q → Text) (project : Text → Q → R) where
  unfoldable pub put_comparison : Context → Text → Q → Artifacts R → Artifacts R × Acknowledged
  put_comparison (some x) tenant q s = (s, err (context_error x))
  put_comparison none tenant q s =
      if is_empty tenant || is_empty (id_of q)
      then (s, err incomplete_record)
      else (stored (record { tenant = tenant; id = id_of q }) (project tenant q) s, ok tt)

  put_comparison-lookup :
      (c : Context) (tenant : Text) (q : Q) (d : R) (k : ArtifactKey) (s : Artifacts R)
      → lookup k s ≡ some d
      → lookup k (put_comparison c tenant q s).0 ≡ some d
  unfolding put_comparison
  put_comparison-lookup (some x) tenant q d k s held = held
  put_comparison-lookup none tenant q d k s held =
      elim (Bool-cases (is_empty tenant || is_empty (id_of q))) [
        | inl b ↦ rw b held
        | inr b ↦
            rw b (
              stored-lookup (record { tenant = tenant; id = id_of q }) k (project tenant q) d s
                held)
      ]

found_artifact :
    {A : Type 0} (o : Option A) (a : A)
    → ◌≡◌ {A = Result StoreError (Option A)} (ok o) (ok (some a))
    → o ≡ some a
found_artifact o a h = ground (arith, h)

-- A corpus that `GetCorpus` returns, and a comparison that `GetComparison` returns, are returned
-- unchanged after any further `PutCorpus` and `PutComparison`, whatever is put and under whatever
-- context.
pub put-get_artifact :
    {C Q R : Type 0} (corpus_id : C → Text) (comparison_id : Q → Text) (project : Text → Q → R)
    (c : Context) (k : ArtifactKey)
    → (r d : CorpusRecord C) (s : Artifacts (CorpusRecord C)) → get_artifact none k s ≡ ok (some d)
    → (t : Text) (q : Q) (e : R) (v : Artifacts R) → get_artifact none k v ≡ ok (some e)
    → (get_artifact none k (put_corpus corpus_id c r s).0 ≡ ok (some d))
      × (get_artifact none k (put_comparison comparison_id project c t q v).0 ≡ ok (some e))
unfolding get_artifact
put-get_artifact corpus_id comparison_id project c k r d s held t q e v kept = (
  ap ok (put_corpus-lookup corpus_id c r d k s (found_artifact (lookup k s) d held)),
  ap ok (
      put_comparison-lookup comparison_id project c t q e k v (found_artifact (lookup k v) e kept)),
)
