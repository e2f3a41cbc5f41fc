-- ===== src/Promotion/Corpora.antt =====
-- What an authorized decision says about the two sides of its comparison.
use maiden_lane.Base.{◌≡◌, ◌≢◌, Text, text_eq}
use maiden_lane.Canonical.Encoder.{Bytes}

module _ (hash : Bytes → Text) where
  -- Two different byte strings with one hash.
  abbrev pub Collision : Type 0
  Collision = (a : Bytes) × (b : Bytes) × (a ≢ b) × (hash a ≡ hash b)
