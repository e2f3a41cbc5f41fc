-- ===== src/Memory/Artifacts/Tests.antt =====
-- A corpus and a comparison that are stored, and another write under their names.
use maiden_lane.Base.{[], ◌∷◌, none, some, Text, codes, text_beq, ◌≡◌, refl, ok, err}
use maiden_lane.Base.Assoc.{lookup}
use maiden_lane.Ports.Executions.{incomplete_record}
use maiden_lane.Memory.Artifacts.{
  ArtifactKey, artifact_key_eq, Artifacts, CorpusRecord, put_corpus, put_comparison, get_artifact,
  put-get_artifact,
}

-- A corpus is a name and its cases, a comparison a name and its question.
abbrev name_of : Text × Text → Text
name_of c = c.0

abbrev corpus : Text → CorpusRecord (Text × Text)
corpus cases = record { tenant_id = codes "t"; corpus_id = codes "x"; corpus = (codes "x", cases) }

abbrev key : ArtifactKey
key = record { tenant = codes "t"; id = codes "x" }

abbrev corpora : Artifacts (CorpusRecord (Text × Text))
corpora = (key, corpus (codes "first")) ∷ []

abbrev comparisons : Artifacts Text
comparisons = (key, codes "first") ∷ []

abbrev project : Text → Text × Text → Text
project t q = q.1

misnamed :
    put_corpus name_of none
      (record { tenant_id = codes "t"; corpus_id = codes "y"; corpus = (codes "x", []) })
      corpora
    ≡ (corpora, err incomplete_record)
unfolding put_corpus text_beq
misnamed = refl

first_corpus : get_artifact none key corpora ≡ ok (some (corpus (codes "first")))
unfolding get_artifact lookup text_beq
first_corpus = refl

first_comparison : get_artifact none key comparisons ≡ ok (some (codes "first"))
unfolding get_artifact lookup text_beq
first_comparison = refl

put-get_artifact_example :
    (get_artifact none key (put_corpus name_of none (corpus (codes "second")) corpora).0
      ≡ ok (some (corpus (codes "first"))))
    × (get_artifact none key
          (put_comparison name_of project none
            (codes "t")
            (codes "x", codes "second")
            comparisons).0
        ≡ ok (some (codes "first")))
put-get_artifact_example =
    put-get_artifact name_of name_of project none key (corpus (codes "second"))
      (corpus (codes "first")) corpora first_corpus (codes "t") (codes "x", codes "second")
      (codes "first") comparisons first_comparison
