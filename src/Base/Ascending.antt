-- ===== src/Base/Ascending.antt =====
-- Sorting puts no value behind a smaller one: with no key twice, what it leaves is increasing.
use mathlib.Core.Path.{◌≡◌, sym}
use mathlib.Core.Logic.{inl, inr}
use mathlib.Core.Bool.{false, false≢true}
use mathlib.Core.List.{List, [], ◌∷◌}
use native.Mathlib.Omega.{arith}
use maiden_lane.Base.Tests.{Bool-cases}
use maiden_lane.Base.Keys.{Eq, ◌=?◌}
use maiden_lane.Base.Order.{Order}
use maiden_lane.Base.Sorting.{is_gt, insort, sort, has_adjacent, Increasing, Below-of_ne, All-Below}

module _ {A K : Type 0} ⦃e : Eq K⦄ (o : Order K) (key : A → K) where
  -- No value goes behind the next one.
  abbrev pub Leads : A → List A → Type 0
  Leads x [] = Unit {0}
  Leads x (y ∷ ys) = is_gt (o.cmp (key x) (key y)) ≡ false

  abbrev pub Ascending : List A → Type 0
  Ascending [] = Unit {0}
  Ascending (x ∷ xs) = Leads x xs × Ascending xs

  Leads-insort :
      (x a : A) (xs : List A)
      → is_gt (o.cmp (key x) (key a)) ≡ false
      → Leads x xs
      → Leads x (insort o key a xs)
  unfolding insort
  Leads-insort x a [] h l = h
  Leads-insort x a (y ∷ ys) h l = elim (Bool-cases (is_gt (o.cmp (key a) (key y)))) [
    | inl b ↦ rw b l
    | inr b ↦ rw b h
  ]

  insort-Ascending : (a : A) (xs : List A) → Ascending xs → Ascending (insort o key a xs)
  unfolding insort
  insort-Ascending a [] h = (tt, tt)
  insort-Ascending a (x ∷ xs) (h, hs) = elim (Bool-cases (is_gt (o.cmp (key a) (key x)))) [
    | inl b ↦ rw b (
      Leads-insort x a xs (ground (arith, o.cmp_swap (key a) (key x))) h,
      insort-Ascending a xs hs,
    )
    | inr b ↦ rw b (b, (h, hs))
  ]

  pub sort-Ascending : (xs : List A) → Ascending (sort o key xs)
  unfolding sort
  sort-Ascending [] = tt
  sort-Ascending (x ∷ xs) = insort-Ascending x (sort o key xs) (sort-Ascending xs)

  pub Ascending-Increasing :
      (xs : List A) → Ascending xs → has_adjacent o key xs ≡ false → Increasing o key xs
  unfolding has_adjacent
  Ascending-Increasing [] h n = tt
  Ascending-Increasing (x ∷ []) h n = (tt, tt)
  Ascending-Increasing (x ∷ y ∷ xs) (h, hs) n = elim (Bool-cases (key y =? key x)) [
    | inl b ↦ absurd (false≢true (sym (rw b at n)))
    | inr b ↦
        let (k, ks) = Ascending-Increasing (y ∷ xs) hs (rw b at n) in
        let below = Below-of_ne o key x y h b in ((below, All-Below o key x y xs below k), (k, ks))
  ]

  -- What passes Go's test after sorting is increasing.
  pub sort-Increasing :
      (xs : List A) → has_adjacent o key (sort o key xs) ≡ false → Increasing o key (sort o key xs)
  sort-Increasing xs h = Ascending-Increasing (sort o key xs) (sort-Ascending xs) h
