-- ===== src/Base/Order.antt =====
-- Three-way comparisons: Go's order on numbers and strings, and keys compared one after another.
use Prim.Native.Nat.{ℕ, compare, Ordering, lt, eq, gt}
use mathlib.Core.Path.{◌≡◌, refl, ap, ap₂}
use mathlib.Core.Logic.{◌⊎◌, inl, inr}
use mathlib.Core.List.{[], ◌∷◌}
use native.Mathlib.Omega.{arith}
use mathlib.Core.Logic.{◌↔◌}
use mathlib.Core.Bool.{Bool, true, ◌&&◌}
use maiden_lane.Base.Tests.{&&-both}
use maiden_lane.Base.Keys.{Text, Eq, ◌=?◌, eq_of_=?, =?-refl}

abbrev pub swap : Ordering → Ordering
swap lt = gt
swap eq = eq
swap gt = lt

-- The second comparison counts where the first finds no difference.
abbrev pub then_compare : Ordering → Ordering → Ordering
then_compare lt o = lt
then_compare eq o = o
then_compare gt o = gt

pub record Order (K : Type 0) : Type 0 where
  pub cmp : K → K → Ordering
  pub cmp_eq : (a b : K) → cmp a b ≡ eq → a ≡ b
  pub cmp_refl : (a : K) → cmp a a ≡ eq
  pub cmp_swap : (a b : K) → cmp b a ≡ swap (cmp a b)
  pub cmp_trans : (a b c : K) → cmp a b ≡ lt → cmp b c ≡ lt → cmp a c ≡ lt

pub compare-eq : (a b : ℕ) → compare a b ≡ eq → a ≡ b
compare-eq a b h = ground arith

pub compare_refl : (a : ℕ) → compare a a ≡ eq
compare_refl a = ground arith

pub compare-swap : (a b : ℕ) → compare b a ≡ swap (compare a b)
compare-swap a b = ground arith

pub compare_trans : (a b c : ℕ) → compare a b ≡ lt → compare b c ≡ lt → compare a c ≡ lt
compare_trans a b c h k = ground arith

abbrev pub nat_order : Order ℕ
nat_order = record {
  cmp = compare;
  cmp_eq = compare-eq;
  cmp_refl = compare_refl;
  cmp_swap = compare-swap;
  cmp_trans = compare_trans;
}

swap_then : (x y : Ordering) → then_compare (swap x) (swap y) ≡ swap (then_compare x y)
swap_then lt y = refl
swap_then eq y = refl
swap_then gt y = refl

then-eq : (x y : Ordering) → then_compare x y ≡ eq → (x ≡ eq) × (y ≡ eq)
then-eq lt y h = absurd (ground arith)
then-eq eq y h = (refl, h)
then-eq gt y h = absurd (ground arith)

module _ {A B : Type 0} (o : Order A) (p : Order B) where
  abbrev pub lex_cmp : A × B → A × B → Ordering
  lex_cmp (a, b) (c, d) = then_compare (o.cmp a c) (p.cmp b d)

  pub lex_cmp-eq : (s t : A × B) → lex_cmp s t ≡ eq → s ≡ t
  lex_cmp-eq (a, b) (c, d) h =
      let (x, y) = then-eq (o.cmp a c) (p.cmp b d) h in
      ap₂ (λ u v. (u, v)) (o.cmp_eq a c x) (p.cmp_eq b d y)

  lex_trans_on :
      (x y : Ordering) (a c e : A) (b d f : B)
      → o.cmp a c ≡ x
      → o.cmp c e ≡ y
      → then_compare x (p.cmp b d) ≡ lt
      → then_compare y (p.cmp d f) ≡ lt
      → then_compare (o.cmp a e) (p.cmp b f) ≡ lt
  lex_trans_on lt lt a c e b d f hx hy h k = rw (o.cmp_trans a c e hx hy) refl
  lex_trans_on lt eq a c e b d f hx hy h k = rw (← (o.cmp_eq c e hy), hx) refl
  lex_trans_on eq lt a c e b d f hx hy h k = rw (o.cmp_eq a c hx, hy) refl
  lex_trans_on eq eq a c e b d f hx hy h k = rw (o.cmp_eq a c hx, hy) (p.cmp_trans b d f h k)
  lex_trans_on gt y a c e b d f hx hy h k = absurd (ground arith)
  lex_trans_on lt gt a c e b d f hx hy h k = absurd (ground arith)
  lex_trans_on eq gt a c e b d f hx hy h k = absurd (ground arith)

  pub lex_refl : (s : A × B) → lex_cmp s s ≡ eq
  lex_refl (a, b) = rw (o.cmp_refl a) (p.cmp_refl b)

  pub lex_swap : (s t : A × B) → lex_cmp t s ≡ swap (lex_cmp s t)
  lex_swap (a, b) (c, d) = rw (o.cmp_swap a c, p.cmp_swap b d) (swap_then (o.cmp a c) (p.cmp b d))

  pub lex_trans : (s t u : A × B) → lex_cmp s t ≡ lt → lex_cmp t u ≡ lt → lex_cmp s u ≡ lt
  lex_trans (a, b) (c, d) (e, f) h k =
      lex_trans_on (o.cmp a c) (o.cmp c e) a c e b d f refl refl h k

  -- Pairs, by their first parts and then by their second.
  abbrev pub lex : Order (A × B)
  lex = record {
    cmp = lex_cmp;
    cmp_eq = lex_cmp-eq;
    cmp_refl = lex_refl;
    cmp_swap = lex_swap;
    cmp_trans = lex_trans;
  }

-- By a key that determines the value.
module _ {A K : Type 0} (o : Order K) (key : A → K)
    (distinct : (a b : A) → key a ≡ key b → a ≡ b) where
  abbrev pub by_key : Order A
  by_key = record {
    cmp = λ a b. o.cmp (key a) (key b);
    cmp_eq = λ a b h. distinct a b (o.cmp_eq (key a) (key b) h);
    cmp_refl = λ a. o.cmp_refl (key a);
    cmp_swap = λ a b. o.cmp_swap (key a) (key b);
    cmp_trans = λ a b c. o.cmp_trans (key a) (key b) (key c);
  }

-- Go's order on strings: byte by byte, and a prefix first.
unfoldable pub compare_text : Text → Text → Ordering
compare_text [] [] = eq
compare_text [] (b ∷ t) = lt
compare_text (a ∷ s) [] = gt
compare_text (a ∷ s) (b ∷ t) = then_compare (compare a b) (compare_text s t)

pub compare_text-eq : (s t : Text) → compare_text s t ≡ eq → s ≡ t
unfolding compare_text
compare_text-eq [] [] h = refl
compare_text-eq [] (b ∷ t) h = absurd (ground arith)
compare_text-eq (a ∷ s) [] h = absurd (ground arith)
compare_text-eq (a ∷ s) (b ∷ t) h =
    let (x, y) = then-eq (compare a b) (compare_text s t) h in
    ap₂ ◌∷◌ (compare-eq a b x) (compare_text-eq s t y)

pub compare_text_refl : (s : Text) → compare_text s s ≡ eq
unfolding compare_text
compare_text_refl [] = refl
compare_text_refl (a ∷ s) = rw (compare_refl a) (compare_text_refl s)

pub compare_text-swap : (s t : Text) → compare_text t s ≡ swap (compare_text s t)
unfolding compare_text
compare_text-swap [] [] = refl
compare_text-swap [] (b ∷ t) = refl
compare_text-swap (a ∷ s) [] = refl
compare_text-swap (a ∷ s) (b ∷ t) =
    rw (compare-swap a b, compare_text-swap s t) (swap_then (compare a b) (compare_text s t))

then-lt :
    (x y : Ordering) (a b : ℕ)
    → compare a b ≡ x
    → then_compare x y ≡ lt
    → (compare a b ≡ lt) ⊎ ((a ≡ b) × (y ≡ lt))
then-lt lt y a b hx h = inl hx
then-lt eq y a b hx h = inr (compare-eq a b hx, h)
then-lt gt y a b hx h = absurd (ground arith)

pub compare_text_trans :
    (s t u : Text) → compare_text s t ≡ lt → compare_text t u ≡ lt → compare_text s u ≡ lt
unfolding compare_text
compare_text_trans [] [] u h k = k
compare_text_trans [] (b ∷ t) [] h k = absurd (ground arith)
compare_text_trans [] (b ∷ t) (c ∷ u) h k = refl
compare_text_trans (a ∷ s) [] u h k = absurd (ground arith)
compare_text_trans (a ∷ s) (b ∷ t) [] h k = absurd (ground arith)
compare_text_trans (a ∷ s) (b ∷ t) (c ∷ u) h k =
    elim (then-lt (compare a b) (compare_text s t) a b refl h) [
      | inl ab ↦ elim (then-lt (compare b c) (compare_text t u) b c refl k) [
        | inl bc ↦ rw (compare_trans a b c ab bc) refl
        | inr (bc, _) ↦ rw (← bc, ab) refl
      ]
      | inr (ab, st) ↦ elim (then-lt (compare b c) (compare_text t u) b c refl k) [
        | inl bc ↦ rw (ab, bc) refl
        | inr (bc, tu) ↦ rw (ab, bc, compare_refl c) (compare_text_trans s t u st tu)
      ]
    ]

abbrev pub text_order : Order Text
text_order = record {
  cmp = compare_text;
  cmp_eq = compare_text-eq;
  cmp_refl = compare_text_refl;
  cmp_swap = compare_text-swap;
  cmp_trans = compare_text_trans;
}

-- Equality of pairs, and by a key that determines the value.
module _ {A B : Type 0} ⦃e : Eq A⦄ ⦃f : Eq B⦄ where
  abbrev pub pair_beq : A × B → A × B → Bool
  pair_beq (a, b) (c, d) = (a =? c) && (b =? d)

  pub pair_beq_iff : (s t : A × B) → (pair_beq s t ≡ true) ↔ (s ≡ t)
  pair_beq_iff (a, b) (c, d) = (
    λ h.
        let (x, y) = &&-both (a =? c) (b =? d) h in
        ap₂ (λ u v. (u, v)) (eq_of_=? a c x) (eq_of_=? b d y),
    λ p. rw (← (ap (λ t. t.0) p), ← (ap (λ t. t.1) p), =?-refl a, =?-refl b) refl,
  )

  instance abbrev pub pair_eq : Eq (A × B)
  pair_eq = record { beq = pair_beq; beq_iff = pair_beq_iff }

module _ {A K : Type 0} ⦃e : Eq K⦄ (key : A → K)
    (distinct : (a b : A) → key a ≡ key b → a ≡ b) where
  pub eq_by_iff : (a b : A) → ((key a =? key b) ≡ true) ↔ (a ≡ b)
  eq_by_iff a b = (
    λ h. distinct a b (eq_of_=? (key a) (key b) h),
    λ p. (e.beq_iff (key a) (key b)).1 (ap key p),
  )

  abbrev pub eq_by : Eq A
  eq_by = record { beq = λ a b. key a =? key b; beq_iff = eq_by_iff }
