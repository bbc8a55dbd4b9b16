-- ===== src/Media.antt =====
-- util/src/time.rs: times and durations as rational numbers.
use mixlab.Prelude.{Bool}
use mixlab.Prelude.Int.{ℤ, pos}

-- The calls of num_rational's Rational64.
pub record Rational : Type 1 where
  pub Q : Type 0
  -- `Rational64::new(numer, denom)`
  pub ratio : ℤ → ℤ → Q
  pub plus : Q → Q → Q
  pub minus : Q → Q → Q
  -- `self.0 * base`, with an integer
  pub times : Q → ℤ → Q
  pub to_integer : Q → ℤ
  pub less : Q → Q → Bool
  -- `self.0 == Rational64::zero()`
  pub is_zero : Q → Bool

module _ (R : Rational) where
  pub record MediaTime : Type 0 where
    pub value : R.Q

  pub record MediaDuration : Type 0 where
    pub value : R.Q

module _ {R : Rational} where
  unfoldable pub new_time : ℤ → ℤ → MediaTime R
  new_time numer denom = record { value = R.ratio numer denom }

  unfoldable pub new_duration : ℤ → ℤ → MediaDuration R
  new_duration numer denom = record { value = R.ratio numer denom }

  unfoldable pub round_to_base : MediaTime R → ℤ → ℤ
  round_to_base t base = R.to_integer (R.times t.value base)

  unfoldable pub round_duration : MediaDuration R → ℤ → ℤ
  round_duration d base = R.to_integer (R.times d.value base)

  unfoldable pub add_epoch : MediaTime R → MediaTime R → MediaTime R
  add_epoch t epoch = record { value = R.plus t.value epoch.value }

  unfoldable pub remove_epoch : MediaTime R → MediaTime R → MediaTime R
  remove_epoch t epoch = record { value = R.minus t.value epoch.value }

  -- `time + duration`
  unfoldable pub after : MediaTime R → MediaDuration R → MediaTime R
  after t d = record { value = R.plus t.value d.value }

  -- `time - time`
  unfoldable pub since : MediaTime R → MediaTime R → MediaDuration R
  since t u = record { value = R.minus t.value u.value }

  -- `time < time`
  unfoldable pub before : MediaTime R → MediaTime R → Bool
  before t u = R.less t.value u.value

  -- `duration < duration`
  unfoldable pub shorter : MediaDuration R → MediaDuration R → Bool
  shorter d e = R.less d.value e.value

  unfoldable pub zero_duration : MediaDuration R
  zero_duration = record { value = R.ratio (pos 0) (pos 1) }

  unfoldable pub is_zero_duration : MediaDuration R → Bool
  is_zero_duration d = R.is_zero d.value
