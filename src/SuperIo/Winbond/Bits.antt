-- ===== src/SuperIo/Winbond/Bits.antt =====
-- plugins/SuperIOSensors/WinbondW836x/: setBit, and the bits of the fans' divisors in the five
-- registers that hold them.
use fake_smc3_with_plugins.Prelude.{
  ltb, ◌==◌, if◌then◌else◌, get_or, ℕ, ◌+◌, ◌-◌, ◌*◌, ◌/◌, ◌%◌, ◌^◌, ◌&&◌, List, [], ◌∷◌,
}
pub mod Laws
pub mod Offsets

-- (target >> c) & 1
unfoldable pub bit : ℕ → ℕ → ℕ
bit target c = target / 2 ^ c % 2

-- target | mask and target & ~mask, for the mask of one bit
unfoldable pub with_bit : ℕ → ℕ → ℕ → ℕ
unfolding bit
with_bit target c value =
    if ltb 0 value
    then (if bit target c == 0 then target + 2 ^ c else target)
    else (if bit target c == 0 then target else target - 2 ^ c)

-- setBit
unfoldable pub set_bit : ℕ → ℕ → ℕ → ℕ
unfolding with_bit
set_bit target c value = if value % 2 == value && ltb c 64 then with_bit target c value else value

-- WINBOND_TACHOMETER_DIVISOR0, 1 and 2: the bits' places in the 40 bits of the registers.
unfoldable pub divisor0 : List ℕ
divisor0 = 36 ∷ 38 ∷ 30 ∷ 8 ∷ 10 ∷ []

unfoldable pub divisor1 : List ℕ
divisor1 = 37 ∷ 39 ∷ 31 ∷ 9 ∷ 11 ∷ []

unfoldable pub divisor2 : List ℕ
divisor2 = 5 ∷ 6 ∷ 7 ∷ 23 ∷ 15 ∷ []

-- The divisor's exponent of a fan.
unfoldable pub fan_offset : ℕ → ℕ → ℕ
unfolding bit divisor0 divisor1 divisor2
fan_offset bits i =
    bit bits (get_or divisor2 i 0) * 4
    + bit bits (get_or divisor1 i 0) * 2
    + bit bits (get_or divisor0 i 0)

-- The three calls of setBit.
unfoldable pub set_offset : ℕ → ℕ → ℕ → ℕ
unfolding set_bit divisor0 divisor1 divisor2
set_offset i offset bits =
    set_bit
      (set_bit (set_bit bits (get_or divisor2 i 0) (offset / 4 % 2)) (get_or divisor1 i 0)
        (offset / 2 % 2))
      (get_or divisor0 i 0) (offset % 2)

-- The exponent that a count asks for next.
unfoldable pub next_offset : ℕ → ℕ → ℕ
next_offset count offset =
    if ltb 192 count && ltb offset 7
    then offset + 1
    else if ltb count 96 && ltb 0 offset
    then offset - 1
    else offset
