-- ===== src/SuperIo/Winbond/Bits/Offsets.antt =====
-- The exponents of the fans' divisors in the 40 bits of WinbondW836x.cpp do not overlap.
use fake_smc3_with_plugins.Prelude.{
  ◌≤◌, refl, List, ◌==◌, if◌then◌else◌, get_or, ℕ, zero, suc, ◌+◌, ◌*◌, ◌/◌, ◌%◌, ◌<◌, ◌≡◌, ap, ◌∙◌,
  arith,
}
use fake_smc3_with_plugins.SuperIo.Winbond.Bits.{
  bit, set_bit, divisor0, divisor1, divisor2, fan_offset, set_offset, next_offset,
}
use fake_smc3_with_plugins.SuperIo.Winbond.Bits.Laws.{bit-set_bit}

-- The bits after the three calls of setBit for a fan.
abbrev after_three : ℕ → ℕ → ℕ → ℕ → ℕ → ℕ → ℕ
after_three bits place2 place1 place0 offset c =
    if c == place0
    then offset % 2
    else if c == place1
    then offset / 2 % 2
    else if c == place2
    then offset / 4 % 2
    else bit bits c

three_bits :
    (bits place2 place1 place0 offset c : ℕ)
    → place2 < 64
    → place1 < 64
    → place0 < 64
    → bit
        (set_bit
          (set_bit (set_bit bits place2 (offset / 4 % 2)) place1 (offset / 2 % 2))
          place0
          (offset % 2))
        c
      ≡ after_three bits place2 place1 place0 offset c
three_bits bits p2 p1 p0 offset c s2 s1 s0 =
    bit-set_bit _ p0 (offset % 2) c (omega arith) s0
    ∙ ap (λ x. if c == p0 then offset % 2 else x)
        (bit-set_bit _ p1 (offset / 2 % 2) c (omega arith) s1
          ∙ ap (λ x. if c == p1 then offset / 2 % 2 else x)
              (bit-set_bit bits p2 (offset / 4 % 2) c (omega arith) s2))

below_5 : (P : ℕ → Type 0) → P 0 → P 1 → P 2 → P 3 → P 4 → (i : ℕ) → i < 5 → P i
below_5 P p0 p1 p2 p3 p4 zero h = p0
below_5 P p0 p1 p2 p3 p4 (suc zero) h = p1
below_5 P p0 p1 p2 p3 p4 (suc (suc zero)) h = p2
below_5 P p0 p1 p2 p3 p4 (suc (suc (suc zero))) h = p3
below_5 P p0 p1 p2 p3 p4 (suc (suc (suc (suc zero)))) h = p4
below_5 P p0 p1 p2 p3 p4 (suc (suc (suc (suc (suc i))))) h = absurd (omega arith)

weigh : (a a' b b' c c' : ℕ) → a ≡ a' → b ≡ b' → c ≡ c' → a * 4 + b * 2 + c ≡ a' * 4 + b' * 2 + c'
weigh a a' b b' c c' p q r = omega arith

-- A place in the 40 bits.
abbrev IsPlace : List ℕ → ℕ → Type 0
IsPlace table i = get_or table i 0 < 64

-- What a fan reads is the three bits at its places.
fan_offset-places :
    (bits offset i j : ℕ)
    → IsPlace divisor2 i
    → IsPlace divisor1 i
    → IsPlace divisor0 i
    → let after =
        after_three bits (get_or divisor2 i 0) (get_or divisor1 i 0) (get_or divisor0 i 0) offset in
      fan_offset (set_offset i offset bits) j
      ≡ after (get_or divisor2 j 0) * 4
        + after (get_or divisor1 j 0) * 2
        + after (get_or divisor0 j 0)
unfolding fan_offset set_offset
fan_offset-places bits offset i j s2 s1 s0 =
    weigh _ _ _ _ _ _ (three_bits bits p2 p1 p0 offset (get_or divisor2 j 0) s2 s1 s0)
      (three_bits bits p2 p1 p0 offset (get_or divisor1 j 0) s2 s1 s0)
      (three_bits bits p2 p1 p0 offset (get_or divisor0 j 0) s2 s1 s0)
  where
    p2 : ℕ
    p2 = get_or divisor2 i 0

    p1 : ℕ
    p1 = get_or divisor1 i 0

    p0 : ℕ
    p0 = get_or divisor0 i 0

places : (i : ℕ) → i < 5 → IsPlace divisor2 i × IsPlace divisor1 i × IsPlace divisor0 i
unfolding divisor0 divisor1 divisor2
places =
    below_5 (λ i. IsPlace divisor2 i × IsPlace divisor1 i × IsPlace divisor0 i) (omega arith)
      (omega arith) (omega arith) (omega arith) (omega arith)

-- What stands at the places of the fan j after the change for the fan i.
abbrev AtPlaces : ℕ → ℕ → ℕ → ℕ → Type 0
unfolding divisor0 divisor1 divisor2 fan_offset
AtPlaces bits offset i j =
    let after =
      after_three bits (get_or divisor2 i 0) (get_or divisor1 i 0) (get_or divisor0 i 0) offset in
    after (get_or divisor2 j 0) * 4 + after (get_or divisor1 j 0) * 2 + after (get_or divisor0 j 0)
    ≡ (if j == i then offset else fan_offset bits j)

-- The places of two fans are apart, and those of one hold its exponent.
at_places : (bits offset i j : ℕ) → offset < 8 → i < 5 → j < 5 → AtPlaces bits offset i j
unfolding divisor0 divisor1 divisor2 fan_offset
at_places bits offset i j small outside inside =
    below_5 (λ i. AtPlaces bits offset i j)
      (below_5 (λ j. AtPlaces bits offset 0 j) whole refl refl refl refl j inside)
      (below_5 (λ j. AtPlaces bits offset 1 j) refl whole refl refl refl j inside)
      (below_5 (λ j. AtPlaces bits offset 2 j) refl refl whole refl refl j inside)
      (below_5 (λ j. AtPlaces bits offset 3 j) refl refl refl whole refl j inside)
      (below_5 (λ j. AtPlaces bits offset 4 j) refl refl refl refl whole j inside) i outside
  where
    whole : offset / 4 % 2 * 4 + offset / 2 % 2 * 2 + offset % 2 ≡ offset
    whole = omega arith

-- Writing the exponent of the divisor of a fan into the 40 bits of the registers lets it be read from
-- there, and leaves the exponents of the other fans.
pub fan_offset-set_offset :
    (bits offset i j : ℕ)
    → offset < 8
    → i < 5
    → j < 5
    → fan_offset (set_offset i offset bits) j ≡ (if j == i then offset else fan_offset bits j)
unfolding AtPlaces
fan_offset-set_offset bits offset i j small outside inside =
    let (s2, s1, s0) = places i outside in
    fan_offset-places bits offset i j s2 s1 s0 ∙ at_places bits offset i j small outside inside

-- One reading moves the exponent by at most one step, and keeps it below 8.
pub next_offset_near :
    (count offset : ℕ)
    → offset < 8
    → (next_offset count offset < 8)
      × (next_offset count offset ≤ offset + 1)
      × (offset ≤ next_offset count offset + 1)
unfolding next_offset
next_offset_near count offset small = (ground arith, ground arith, ground arith)

pub fan_offset-lt : (bits i : ℕ) → fan_offset bits i < 8
unfolding fan_offset bit
fan_offset-lt bits i = omega arith
