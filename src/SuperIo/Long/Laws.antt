-- ===== src/SuperIo/Long/Laws.antt =====
-- The voltage divider that the derived sensors compute.
use native.Mathlib.Nat.{add-mul, div-le_self, zero-div}
use fake_smc3_with_plugins.Prelude.{
  leb, ◌==◌, if◌then◌else◌, ltb→lt, lt→ltb, le→ltb, ==→eq, Bool-cases, ℕ, ◌+◌, ◌-◌, ◌*◌, ◌/◌, ◌%◌,
  ◌≤◌, ◌<◌, ◌≡◌, refl, sym, ap, ◌∙◌, inl, inr, Bool, arith,
}
use fake_smc3_with_plugins.SuperIo.Long.{
  divided, long_divide, long_subtract, long_negate, long_magnitude, long_is_negative, long_limit,
  long_range,
}

small_mod : (x : ℕ) → x < long_limit → x % long_range ≡ x
small_mod x h = omega arith

long_subtract_above : (a b : ℕ) → a < 65536 → b ≤ a → long_subtract a b ≡ a - b
unfolding long_subtract
long_subtract_above a b h k = omega arith

-- The difference below 0 is the negation of a positive number.
long_subtract_below : (a b : ℕ) → b < 65536 → a < b → long_subtract a b ≡ long_range - (b - a)
unfolding long_subtract
long_subtract_below a b h k = omega arith

long_divide_positive : (a b : ℕ) → a < long_limit → b < long_limit → long_divide a b ≡ a / b
unfolding long_divide long_magnitude long_is_negative
long_divide_positive a b h k = rw (lt→ltb a long_limit h, lt→ltb b long_limit k)

-- A reading at or above the reference: the share of the difference is added.
pub divided_above :
    (value ri rf vf : ℕ)
    → value < 65536
    → vf ≤ value
    → (value - vf) * ri < long_limit
    → rf < long_limit
    → divided value ri rf vf ≡ (value + (value - vf) * ri / rf) % 65536
unfolding divided
divided_above value ri rf vf small above product bound =
    ap (λ x. (value + long_divide (x * ri % long_range) rf) % 65536)
      (long_subtract_above value vf small above)
    ∙ (ap (λ x. (value + long_divide x rf) % 65536) (small_mod ((value - vf) * ri) product)
        ∙ ap (λ x. (value + x) % 65536) (long_divide_positive ((value - vf) * ri) rf product bound))

-- A product with a negative factor.
long_negative_product :
    (k ri : ℕ)
    → k < long_limit
    → 0 < k * ri
    → k * ri < long_limit
    → (long_range - k) * ri % long_range ≡ long_range - k * ri
long_negative_product k ri small pos product =
    let whole : (long_range - k) * ri + k * ri ≡ long_range * ri =
      sym (add-mul (long_range - k) k ri) ∙ ap (λ x. x * ri) (omega arith) in
    omega arith

negate_back : (a : ℕ) → 0 < a → a < long_limit → long_negate (long_range - a) ≡ a
unfolding long_negate
negate_back a pos h = omega arith

long_divide_negative :
    (a b : ℕ)
    → 0 < a
    → a < long_limit
    → b < long_limit
    → long_divide (long_range - a) b ≡ (long_range - a / b) % long_range
unfolding long_divide long_magnitude long_is_negative long_negate
long_divide_negative a b pos h k =
    rw (le→ltb (long_range - a) long_limit (omega arith), lt→ltb b long_limit k)
      (ap (λ x. (long_range - x / b % long_range) % long_range) (negate_back a pos h)
        ∙ ap (λ x. (long_range - x) % long_range)
            (small_mod (a / b) (omega (arith, div-le_self a b))))

-- A reading below the reference: the share of the difference is taken away, modulo 2^16.
pub divided_below :
    (value ri rf vf : ℕ)
    → vf < 65536
    → value < vf
    → 0 < (vf - value) * ri
    → (vf - value) * ri < long_limit
    → rf < long_limit
    → divided value ri rf vf ≡ (value + (long_range - (vf - value) * ri / rf) % long_range) % 65536
unfolding divided
divided_below value ri rf vf small below pos product bound =
    ap (λ x. (value + long_divide (x * ri % long_range) rf) % 65536)
      (long_subtract_below value vf small below)
    ∙ (ap (λ x. (value + long_divide x rf) % 65536)
          (long_negative_product (vf - value) ri (omega arith) pos product)
        ∙ ap (λ x. (value + x) % 65536)
            (long_divide_negative ((vf - value) * ri) rf pos product bound))

no_product : (k ri : ℕ) → k < long_limit → k * ri ≡ 0 → (long_range - k) * ri % long_range ≡ 0
no_product k ri small e =
    let whole : (long_range - k) * ri + k * ri ≡ long_range * ri =
      sym (add-mul (long_range - k) k ri) ∙ ap (λ x. x * ri) (omega arith) in
    omega arith

divided_none :
    (value ri rf vf : ℕ)
    → vf < 65536
    → value < vf
    → (vf - value) * ri ≡ 0
    → rf < long_limit
    → divided value ri rf vf ≡ (value + (long_range - (vf - value) * ri / rf) % long_range) % 65536
unfolding divided
divided_none value ri rf vf small below e bound =
    ap (λ x. (value + long_divide (x * ri % long_range) rf) % 65536)
      (long_subtract_below value vf small below)
    ∙ (ap (λ x. (value + long_divide x rf) % 65536) (no_product (vf - value) ri (omega arith) e)
        ∙ (ap (λ x. (value + x) % 65536)
              (long_divide_positive 0 rf (ltb→lt 0 long_limit refl) bound)
            ∙ (omega (arith, zero-div rf)
                ∙ ap (λ x. (value + (long_range - x / rf) % long_range) % 65536) (sym e))))

-- The divider of the derived sensors, on readings and references of 16 bits whose product fits a
-- `long`: the share of the difference is added, or taken away where the reading is below the
-- reference, modulo 2^16; the quotient is cut towards zero.
pub divided_lem :
    (value ri rf vf : ℕ)
    → value < 65536
    → vf < 65536
    → (value - vf) * ri < long_limit
    → (vf - value) * ri < long_limit
    → rf < long_limit
    → divided value ri rf vf ≡ (
        if leb vf value
        then (value + (value - vf) * ri / rf) % 65536
        else (value + (long_range - (vf - value) * ri / rf) % long_range) % 65536)
divided_lem value ri rf vf small small' above below bound = elim (Bool-cases (leb vf value)) [
  | inl up ↦ divided_above value ri rf vf small (ground arith) above bound ∙ sym (chosen up)
  | inr down ↦
      (elim (Bool-cases ((vf - value) * ri == 0)) [
        | inl none_left ↦
            divided_none value ri rf vf small' (ground arith)
              (==→eq ((vf - value) * ri) 0 none_left) bound
        | inr some_left ↦
            divided_below value ri rf vf small' (ground arith) (ground arith) below bound
      ])
      ∙ sym (chosen down)
]
  where
    chosen :
        {b : Bool}
        → leb vf value ≡ b
        → (if leb vf value
            then (value + (value - vf) * ri / rf) % 65536
            else (value + (long_range - (vf - value) * ri / rf) % long_range) % 65536)
          ≡ (if b
              then (value + (value - vf) * ri / rf) % 65536
              else (value + (long_range - (vf - value) * ri / rf) % long_range) % 65536)
    chosen e =
        ap
          (λ (b : Bool).
            if b
            then (value + (value - vf) * ri / rf) % 65536
            else (value + (long_range - (vf - value) * ri / rf) % long_range) % 65536)
          e
