-- ===== src/Cpu/Float.antt =====
-- Numbers of type `float` that plugins/CPUSensors/ computes with, none of which is negative: a
-- fraction of numbers, the nearest one with 24 significant bits, ties to the even one.
use fake_smc3_with_plugins.Prelude.{ltb, if◌then◌else◌, ℕ, zero, suc, ◌+◌, ◌*◌, ◌/◌, ◌%◌, ◌^◌}

-- How many bits a number has, for numbers below 2^fuel.
unfoldable pub bit_length : ℕ → ℕ → ℕ
bit_length zero n = 0
bit_length (suc fuel) zero = 0
bit_length (suc fuel) (suc n) = suc (bit_length fuel (suc n / 2))

-- The whole number nearest to a fraction.
unfoldable pub round_even : ℕ → ℕ → ℕ
round_even n d =
    let q = n / d in
    let r = n % d in if ltb (2 * r) d then q else if ltb d (2 * r) then q + 1 else q + q % 2

-- A fraction, numerator first.
abbrev pub Fraction : Type 0
Fraction = ℕ × ℕ

-- Numerator and denominator have at most 256 bits.
unfoldable pub nearest : Fraction → Fraction
unfolding bit_length round_even
nearest (n, d) =
    let s = bit_length 256 n in
    let t = bit_length 256 d in
    let scaled = n * 2 ^ (24 + t) in
    if ltb scaled (d * 2 ^ s * 2 ^ 24)
    then (round_even scaled (d * 2 ^ s) * 2 ^ s, 2 ^ (24 + t))
    else (round_even scaled (d * 2 ^ s * 2) * 2 ^ s * 2, 2 ^ (24 + t))

-- (float)n
unfoldable pub float_of : ℕ → Fraction
unfolding nearest
float_of n = nearest (n, 1)

unfoldable pub float_multiply : Fraction → Fraction → Fraction
unfolding nearest
float_multiply a b = nearest (a.0 * b.0, a.1 * b.1)

-- The divisor is not 0.
unfoldable pub float_divide : Fraction → Fraction → Fraction
unfolding nearest
float_divide a b = nearest (a.0 * b.1, a.1 * b.0)

-- (int)(v + 0.5), whose sum is a `double` and exact; what does not fit an int is taken as x86
-- converts it.
unfoldable pub to_int : Fraction → ℕ
to_int v = let n = (2 * v.0 + v.1) / (2 * v.1) in if ltb n 2147483648 then n else 2147483648
