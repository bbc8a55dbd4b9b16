-- ===== src/Tests/Media.antt =====
-- Times in units of 1/441000 s: the bases 1000 and 44100 are exact.
use mixlab.Prelude.{zero, suc, Bool, true, false, ℕ, ◌+◌, ◌*◌, ◌/◌}
use mixlab.Prelude.Int.{ℤ, pos, negsuc, ◌+ℤ◌, ◌-ℤ◌, ltℤ, difference}
use mixlab.Media.{Rational, MediaTime, MediaDuration}

abbrev pub scaled : ℤ → ℕ → ℤ
scaled (pos a) n = pos (a * n)
scaled (negsuc a) n = difference 0 ((a + 1) * n)

-- Division that rounds towards zero.
abbrev pub divided : ℤ → ℕ → ℤ
divided (pos a) n = pos (a / n)
divided (negsuc a) n = difference 0 ((a + 1) / n)

abbrev pub by_base : ℤ → ℤ → ℤ
by_base q (pos n) = scaled q n
by_base q (negsuc n) = pos 0

abbrev pub fraction : ℤ → ℤ → ℤ
fraction n (pos d) = divided (scaled n 441000) d
fraction n (negsuc d) = pos 0

abbrev pub zero? : ℤ → Bool
zero? (pos zero) = true
zero? (pos (suc n)) = false
zero? (negsuc n) = false

abbrev pub units : Rational
units = record {
  Q = ℤ;
  ratio = fraction;
  plus = ◌+ℤ◌;
  minus = ◌-ℤ◌;
  times = by_base;
  to_integer = λ q. divided q 441000;
  less = ltℤ;
  is_zero = zero?;
}

abbrev pub at_units : ℕ → MediaTime units
at_units n = record { value = pos n }

abbrev pub for_units : ℕ → MediaDuration units
for_units n = record { value = pos n }
