-- ===== src/Decimal/Addition.antt =====
-- `Add` is exact: the sum of two signed numbers at any two scales.
use maiden_lane.Base.{
  ℕ, ◌-◌, ◌≤◌, ◌≡◌, sym, ◌∙◌, length, arith, replicate, max, length-append, length-replicate,
  All-append,
}
use maiden_lane.Decimal.Digits.{Digits}
use maiden_lane.Decimal.Number.{Decimal, at_scale, pad_to, aligned}
use maiden_lane.Decimal.Value.{IsDigit, AreDigits, number, number-append}
use maiden_lane.Decimal.Scales.{number-replicate, zeros-AreDigits, at_scale-AreDigits}

pad_to-number : (n : ℕ) (ds : Digits) → number (pad_to n ds) ≡ number ds
pad_to-number n ds =
    rw (number-append (replicate (n - length ds) b'0') ds, number-replicate (n - length ds))
      (omega arith)

length-pad_to : (n : ℕ) (ds : Digits) → length ds ≤ n → length (pad_to n ds) ≡ n
length-pad_to n ds h =
    rw
      (
        length-append (replicate (n - length ds) b'0') ds,
        length-replicate {A = ℕ} (n - length ds) b'0',
      )
      (omega arith)

pad_to-AreDigits : (n : ℕ) (ds : Digits) → AreDigits ds → AreDigits (pad_to n ds)
pad_to-AreDigits n ds h =
    All-append IsDigit (replicate (n - length ds) b'0') ds (zeros-AreDigits (n - length ds)) h

module _ (d e : Decimal) (s : ℕ) where
  pub length-aligned : length (aligned d e s) ≡ length (aligned e d s)
  length-aligned =
      length-pad_to (max (length (at_scale d s)) (length (at_scale e s))) (at_scale d s)
        (omega arith)
      ∙ (omega arith
          ∙ sym (
              length-pad_to (max (length (at_scale e s)) (length (at_scale d s))) (at_scale e s)
                (omega arith)))

  pub aligned-number : number (aligned d e s) ≡ number (at_scale d s)
  aligned-number =
      pad_to-number (max (length (at_scale d s)) (length (at_scale e s))) (at_scale d s)

  pub aligned-AreDigits : AreDigits d.digits → AreDigits (aligned d e s)
  aligned-AreDigits h =
      pad_to-AreDigits (max (length (at_scale d s)) (length (at_scale e s))) (at_scale d s)
        (at_scale-AreDigits d s h)

module _ (d e : Decimal) (hd : AreDigits d.digits) (he : AreDigits e.digits) where
  abbrev common : ℕ
  common = max d.scale e.scale
