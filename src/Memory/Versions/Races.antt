-- ===== src/Memory/Versions/Races.antt =====
-- Publication as a compare-and-swap: what a successful write leaves, and who loses a race.
use maiden_lane.Base.{
  String, ◌≡◌, ◌≢◌, refl, sym, Option, none, some, arith, inl, inr, Bool-cases, ◌==◌, if◌then◌else◌,
  Eq, ◌=?◌, ok, err, =?-refl,
}
use maiden_lane.Base.Assoc.{lookup, lookup-insert_self}
use maiden_lane.Ports.Targets.{target_eq, version_eq}
use maiden_lane.Memory.Versions.{
  Kind, Versions, conflict, version_at, key_of, append, append_on, append_valid, active,
}
use maiden_lane.Memory.Versions.History.{extended, version_at-insert, IsChecked}

module _ {R : Type 0} (kind : Kind R) ⦃e : Eq R⦄ where
  append_on-stands :
      (o : Option R) (r : R) (s s' : Versions R)
      → lookup (key_of kind r) s.records ≡ o
      → append_on kind o r s ≡ (s', ok tt)
      → lookup (key_of kind r) s'.records ≡ some r
  unfolding append_on
  append_on-stands (some d) r s s' held h = elim (Bool-cases (d =? r)) [
    | inl same ↦ ground (arith, (e.beq_iff d r).0 same)
    | inr differ ↦ ground arith
  ]
  append_on-stands none r s s' held h =
      ground (arith, lookup-insert_self (key_of kind r) r s.records)

  append_valid-ok :
      (m : Option String) (r : R) (s s' : Versions R)
      → append_valid kind m r s ≡ (s', ok tt)
      → (m ≡ none) × (lookup (key_of kind r) s'.records ≡ some r)
  unfolding append_valid
  append_valid-ok (some part) r s s' h = absurd (ground arith)
  append_valid-ok none r s s' h =
      (refl, append_on-stands (lookup (key_of kind r) s.records) r s s' refl h)

  -- A call that reports success leaves the record under its version.
  append-ok :
      (r : R) (s s' : Versions R)
      → append kind none r s ≡ (s', ok tt)
      → (kind.missing r ≡ none) × (lookup (key_of kind r) s'.records ≡ some r)
  unfolding append
  append-ok r s s' h = append_valid-ok (kind.missing r) r s s' h

  append_on_taken :
      (r d : R) (s : Versions R)
      → append_on kind (some d) r s ≡ (if d =? r then (s, ok tt) else (s, err conflict))
  unfolding append_on
  append_on_taken r d s = refl

  -- Once a record was accepted, submitting it again succeeds and changes nothing, and any other
  -- valid record for the same version of the same destination is refused with a conflict.
  pub append_race :
      (r r' : R) (s s' : Versions R)
      → append kind none r s ≡ (s', ok tt)
      → kind.missing r' ≡ none
      → key_of kind r' ≡ key_of kind r
      → (append kind none r s' ≡ (s', ok tt))
        × (r' ≢ r → append kind none r' s' ≡ (s', err conflict))
  unfolding append append_valid
  append_race r r' s s' h valid same =
      let (valid_r, stands) = append-ok r s s' h in
      (
        rw (valid_r, stands, append_on_taken r r s', =?-refl r) refl,
        λ differ.
            rw (valid, same, stands, append_on_taken r' r s')
              (elim (Bool-cases (r =? r')) [
                | inl q ↦ absurd (differ (sym ((e.beq_iff r r').0 q)))
                | inr q ↦ rw q refl
              ]),
      )

  append_valid-extended :
      (m : Option String) (r : R) (s s' : Versions R)
      → lookup (key_of kind r) s.records ≡ none
      → append_valid kind m r s ≡ (s', ok tt)
      → s' ≡ extended kind r s
  unfolding append_valid append_on
  append_valid-extended (some part) r s s' fresh h = absurd (ground arith)
  append_valid-extended none r s s' fresh h = ground (arith, rw (fresh, append_on) at h)

  -- For records whose validation refuses version zero: after a version that was not on record went
  -- in, that record is the destination's active one.
  pub append-active :
      (checked : IsChecked kind) (r : R) (s s' : Versions R)
      → append kind none r s ≡ (s', ok tt)
      → lookup (key_of kind r) s.records ≡ none
      → active none (kind.target_of r) s' ≡ ok (some r)
  unfolding append active
  append-active checked r s s' h fresh =
      let (valid, stands) = append-ok r s s' h in
      let grown = append_valid-extended (kind.missing r) r s s' fresh h in
      let now_at : version_at s'.current (kind.target_of r) ≡ kind.version_of r =
        rw
          (
            grown,
            version_at-insert (kind.target_of r) (kind.target_of r) (kind.version_of r) s.current,
            =?-refl (kind.target_of r),
          )
          refl in
      rw now_at (elim (Bool-cases (kind.version_of r == 0)) [
        | inl z ↦ absurd (checked.nonzero r valid (ground arith))
        | inr z ↦ rw (z, stands) refl
      ])
