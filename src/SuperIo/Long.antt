-- ===== src/SuperIo/Long.antt =====
-- What the classes of plugins/SuperIOSensors that derive SuperIOSensor compute with a `long`: a
-- number modulo 2^64, the upper half of which is negative. A product that leaves the type wraps.
pub mod Laws
use fake_smc3_with_plugins.Prelude.{
  ℕ, ◌+◌, ◌-◌, ◌*◌, ◌/◌, ◌%◌, Bool, true, false, not, ltb, ◌==◌, if◌then◌else◌,
}

-- 2^64
abbrev pub long_range : ℕ
long_range = 18446744073709551616

-- 2^63
abbrev pub long_limit : ℕ
long_limit = 9223372036854775808

unfoldable pub long_negate : ℕ → ℕ
long_negate a = (long_range - a % long_range) % long_range

unfoldable pub long_subtract : ℕ → ℕ → ℕ
long_subtract a b = (a % long_range + (long_range - b % long_range)) % long_range

unfoldable pub long_is_negative : ℕ → Bool
long_is_negative a = not (ltb a long_limit)

unfoldable pub long_magnitude : ℕ → ℕ
unfolding long_negate long_is_negative
long_magnitude a = if long_is_negative a then long_negate a else a

-- The quotient is cut towards zero.
unfoldable pub long_divide : ℕ → ℕ → ℕ
unfolding long_negate long_is_negative long_magnitude
long_divide a b =
    let quotient = long_magnitude a / long_magnitude b in
    if long_is_negative a
    then (if long_is_negative b then quotient else long_negate quotient)
    else (if long_is_negative b then long_negate quotient else quotient)

-- value + ((value - Vf) * Ri)/Rf, back in the UInt16.
unfoldable pub divided : ℕ → ℕ → ℕ → ℕ → ℕ
unfolding long_subtract long_divide
divided value ri rf vf = (value + long_divide (long_subtract value vf * ri % long_range) rf) % 65536
