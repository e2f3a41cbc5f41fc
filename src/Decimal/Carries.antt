-- ===== src/Decimal/Carries.antt =====
-- Column addition and subtraction are exact on digit strings of one length.
use maiden_lane.Base.{
  ℕ, zero, suc, ◌+◌, ◌*◌, ◌^◌, ◌≤◌, ◌<◌, ◌≡◌, refl, ap, [], ◌∷◌, length, arith, ◌==◌, ltb,
  Bool-cases, inl, inr,
}
use maiden_lane.Decimal.Digits.{
  Digits, digit_value, Carried, add_place, add_loop, add_digits, sub_place, sub_loop, sub_digits,
}
use maiden_lane.Decimal.Value.{IsDigit, AreDigits, number, pow10-suc, number-lt}

-- What a loop over two strings of digits leaves: as many digits, and a carry of at most one.
pub record IsRow (n : ℕ) (c : Carried) : Type 0 where
  pub as_long : length c.written ≡ n
  pub small : c.carry ≤ 1
  pub digits : AreDigits c.written

add_place-IsRow :
    (a b n : ℕ) (c : Carried) → IsDigit a → IsDigit b → IsRow n c → IsRow (suc n) (add_place a b c)
add_place-IsRow a b n c ha hb r = record {
  as_long = ap suc r.as_long;
  small = omega (arith, r.small);
  digits = ((omega arith, omega arith), r.digits);
}

pub add_loop-IsRow :
    (as' bs : Digits)
    → length as' ≡ length bs
    → AreDigits as'
    → AreDigits bs
    → IsRow (length as') (add_loop as' bs)
unfolding add_loop
add_loop-IsRow [] bs l ha hb = record { as_long = refl; small = omega arith; digits = tt }
add_loop-IsRow (a ∷ as') [] l ha hb = absurd (omega arith)
add_loop-IsRow (a ∷ as') (b ∷ bs) l (ha, has) (hb, hbs) =
    add_place-IsRow a b (length as') (add_loop as' bs) ha hb
      (add_loop-IsRow as' bs (omega arith) has hbs)

the_length : {m n : ℕ} → suc m ≡ suc n → m ≡ n
the_length h = omega arith

-- One column: what it writes and passes on is the sum of its digits and of what it got.
column :
    (p q d x y c w m n : ℕ)
    → q * 10 + d ≡ x + y + c
    → c * p + w ≡ m + n
    → q * (10 * p) + (d * p + w) ≡ x * p + m + (y * p + n)
column p q d x y c w m n h k =
    let whole : (q * 10 + d) * p ≡ (x + y + c) * p = ap (λ t. t * p) h in grind (arith, whole)

pub add_digits-AreDigits :
    (as' bs : Digits)
    → length as' ≡ length bs
    → AreDigits as'
    → AreDigits bs
    → AreDigits (add_digits as' bs)
unfolding add_digits
add_digits-AreDigits as' bs l ha hb =
    let r = add_loop-IsRow as' bs l ha hb in
    elim (Bool-cases ((add_loop as' bs).carry + b'0' == b'0')) [
      | inl z ↦ rw z r.digits
      | inr z ↦ rw z ((omega (arith, r.small), omega (arith, r.small)), r.digits)
    ]

sub_place-IsRow :
    (a b n : ℕ) (c : Carried) → IsDigit a → IsDigit b → IsRow n c → IsRow (suc n) (sub_place a b c)
sub_place-IsRow a b n c ha hb r =
    elim (Bool-cases (ltb (digit_value a) (digit_value b + c.carry))) [
      | inl z ↦
          let below : digit_value a < digit_value b + c.carry = ground arith in
          rw z (record {
            as_long = ap suc r.as_long;
            small = omega arith;
            digits = ((omega (arith, r.small), omega (arith, r.small)), r.digits);
          })
      | inr z ↦ rw z (record {
        as_long = ap suc r.as_long;
        small = omega arith;
        digits = ((omega arith, omega arith), r.digits);
      })
    ]

pub sub_loop-IsRow :
    (as' bs : Digits)
    → length as' ≡ length bs
    → AreDigits as'
    → AreDigits bs
    → IsRow (length as') (sub_loop as' bs)
unfolding sub_loop
sub_loop-IsRow [] bs l ha hb = record { as_long = refl; small = omega arith; digits = tt }
sub_loop-IsRow (a ∷ as') [] l ha hb = absurd (omega arith)
sub_loop-IsRow (a ∷ as') (b ∷ bs) l (ha, has) (hb, hbs) =
    sub_place-IsRow a b (length as') (sub_loop as' bs) ha hb
      (sub_loop-IsRow as' bs (omega arith) has hbs)

-- One column, where `q` is borrowed from the next and `c` was lent to the last.
borrow_column :
    (p q d x y c w m n : ℕ)
    → d + y + c ≡ x + q * 10
    → w + n ≡ m + c * p
    → d * p + w + (y * p + n) ≡ x * p + m + q * (10 * p)
borrow_column p q d x y c w m n h k =
    let whole : (d + y + c) * p ≡ (x + q * 10) * p = ap (λ t. t * p) h in grind (arith, whole)

sub_loop-number :
    (as' bs : Digits)
    → length as' ≡ length bs
    → AreDigits as'
    → AreDigits bs
    → number (sub_loop as' bs).written + number bs
      ≡ number as' + (sub_loop as' bs).carry * 10 ^ length as'
unfolding sub_loop number
sub_loop-number [] [] l ha hb = refl
sub_loop-number [] (b ∷ bs) l ha hb = absurd (omega arith)
sub_loop-number (a ∷ as') [] l ha hb = absurd (omega arith)
sub_loop-number (a ∷ as') (b ∷ bs) l (ha, has) (hb, hbs) =
    let r = sub_loop-IsRow as' bs (omega arith) has hbs in
    let ih = sub_loop-number as' bs (omega arith) has hbs in
    let c = (sub_loop as' bs).carry in
    let column = borrow_column (10 ^ length as') in
    elim (Bool-cases (ltb (digit_value a) (digit_value b + c))) [
      | inl z ↦
          let small : digit_value a < digit_value b + c = ground arith in
          rw (z, pow10-suc (length as'), r.as_long, ← (the_length l))
            (column 1 _ (digit_value a) (digit_value b) c _ (number as') (number bs)
              (omega (arith, r.small)) ih)
      | inr z ↦
          let large : digit_value b + c ≤ digit_value a = ground arith in
          rw (z, pow10-suc (length as'), r.as_long, ← (the_length l))
            (column 0 _ (digit_value a) (digit_value b) c _ (number as') (number bs) (omega arith)
              ih)
    ]

-- A borrow is left only where the second number is the larger one.
no_borrow : (c p w m n : ℕ) → c ≤ 1 → w + n ≡ m + c * p → w < p → n ≤ m → w + n ≡ m
no_borrow zero p w m n small whole below fits = omega (arith, whole)
no_borrow (suc zero) p w m n small whole below fits = absurd (omega (arith, whole, below))
no_borrow (suc (suc c)) p w m n small whole below fits = absurd (omega arith)

-- `subDigits` on two strings of digits from '0' to '9' of one length, of which the first is not the
-- smaller number, takes the difference of the numbers, with no borrow left over.
pub sub_digits-number :
    (as' bs : Digits)
    → length as' ≡ length bs
    → AreDigits as'
    → AreDigits bs
    → number bs ≤ number as'
    → number (sub_digits as' bs) + number bs ≡ number as'
unfolding sub_digits
sub_digits-number as' bs l ha hb fits =
    let r = sub_loop-IsRow as' bs l ha hb in
    let whole = sub_loop-number as' bs l ha hb in
    let below = number-lt (sub_loop as' bs).written r.digits in
    let c = (sub_loop as' bs).carry in
    no_borrow c (10 ^ length as') _ (number as') (number bs) r.small whole (rw r.as_long at below)
      fits
