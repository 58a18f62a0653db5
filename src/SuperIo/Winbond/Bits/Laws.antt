-- ===== src/SuperIo/Winbond/Bits/Laws.antt =====
-- setBit of WinbondW836x.cpp is the update of a map from places to bits.
use fake_smc3_with_plugins.Prelude.{
  ltb, ◌==◌, if◌then◌else◌, ltb→lt, lt→ltb, ==→eq, eq→==, Bool-cases, ℕ, zero, suc, ◌+◌, ◌-◌, ◌*◌,
  ◌/◌, ◌%◌, ◌^◌, ◌≤◌, ◌<◌, ◌≡◌, refl, sym, ap, ◌∙◌, ◌≢◌, inl, inr, Bool, arith,
}
use native.Mathlib.Nat.{
  le-div_iff_mul-le, add-div_right, add-mul-div_left, div-div-eq-div-mul, mul_assoc, one-mul,
  pow-succ', one-le-pow,
}
use fake_smc3_with_plugins.SuperIo.Winbond.Bits.{bit, with_bit, set_bit}

pow_pos : (b : ℕ) → 0 < 2 ^ b
pow_pos b = one-le-pow b 2 (ltb→lt 0 2 refl)

-- 2 ^ (b + 1 + k) as a product.
pow_split : (b k : ℕ) → 2 ^ (b + (1 + k)) ≡ 2 ^ b * (2 * 2 ^ k)
pow_split zero k =
    ap (λ n. 2 ^ n) {y = suc k} (omega arith) ∙ (pow-succ' 2 k ∙ sym (one-mul (2 * 2 ^ k)))
pow_split (suc b) k =
    ap (λ n. 2 ^ n) {y = suc (b + (1 + k))} (omega arith)
    ∙ (pow-succ' 2 (b + (1 + k))
        ∙ (ap (λ x. 2 * x) (pow_split b k)
            ∙ (sym (mul_assoc 2 (2 ^ b) (2 * 2 ^ k))
                ∙ ap (λ x. x * (2 * 2 ^ k)) (sym (pow-succ' 2 b)))))

bit-add_self : (s b : ℕ) → bit s b ≡ 0 → bit (s + 2 ^ b) b ≡ 1
unfolding bit
bit-add_self s b e = ap (λ x. x % 2) (add-div_right s (pow_pos b)) ∙ omega arith

bit-add_lower : (s c k : ℕ) → bit (s + 2 ^ (c + (1 + k))) c ≡ bit s c
unfolding bit
bit-add_lower s c k =
    ap (λ x. (s + x) / 2 ^ c % 2) (pow_split c k)
    ∙ (ap (λ x. x % 2) (add-mul-div_left s (2 * 2 ^ k) (pow_pos c)) ∙ omega arith)

div_split : (s b k : ℕ) → s / 2 ^ (b + (1 + k)) ≡ s / 2 ^ b / 2 / 2 ^ k
div_split s b k =
    ap (λ x. s / x) (pow_split b k)
    ∙ (sym (div-div-eq-div-mul s (2 ^ b) (2 * 2 ^ k))
        ∙ sym (div-div-eq-div-mul (s / 2 ^ b) 2 (2 ^ k)))

bit-add_higher : (s b k : ℕ) → bit s b ≡ 0 → bit (s + 2 ^ b) (b + (1 + k)) ≡ bit s (b + (1 + k))
unfolding bit
bit-add_higher s b k e =
    ap (λ x. x % 2) (div_split (s + 2 ^ b) b k)
    ∙ (ap (λ x. x / 2 / 2 ^ k % 2) (add-div_right s (pow_pos b))
        ∙ (ap (λ x. x / 2 ^ k % 2) (omega arith) ∙ ap (λ x. x % 2) (sym (div_split s b k))))

bit-add_other : (s b c : ℕ) → bit s b ≡ 0 → c ≢ b → bit (s + 2 ^ b) c ≡ bit s c
bit-add_other s b c e apart = elim (Bool-cases (ltb c b)) [
  | inl below ↦
      ap (λ x. bit (s + 2 ^ x) c) {y = c + (1 + (b - c - 1))} (ground arith)
      ∙ bit-add_lower s c (b - c - 1)
  | inr above ↦
      ap (bit (s + 2 ^ b)) {y = b + (1 + (c - b - 1))} (ground arith)
      ∙ (bit-add_higher s b (c - b - 1) e ∙ ap (bit s) (ground arith))
]

-- A map of bits with one place changed.
abbrev pub changed : ℕ → ℕ → ℕ → ℕ → ℕ
changed target place value c = if c == place then value else bit target c

changed_lem :
    (s target place value : ℕ)
    → bit s place ≡ value
    → ((c : ℕ) → c ≢ place → bit s c ≡ bit target c)
    → (c : ℕ) → bit s c ≡ changed target place value c
changed_lem s target place value here others c = elim (Bool-cases (c == place)) [
  | inl hit ↦
      ap (bit s) (==→eq c place hit)
      ∙ (here ∙ sym (ap (λ (t : Bool). if t then value else bit target c) hit))
  | inr miss ↦
      others c (ground arith) ∙ sym (ap (λ (t : Bool). if t then value else bit target c) miss)
]

-- Adding the power of a place whose bit is 0 sets that bit, and no other.
add_power : (s b c : ℕ) → bit s b ≡ 0 → bit (s + 2 ^ b) c ≡ changed s b 1 c
add_power s b c e =
    changed_lem (s + 2 ^ b) s b 1 (bit-add_self s b e) (λ x apart. bit-add_other s b x e apart) c

power-le : (t b : ℕ) → bit t b ≡ 1 → 2 ^ b ≤ t
unfolding bit
power-le t b e =
    let q = (le-div_iff_mul-le {x = 1} {y = t} (pow_pos b)).0 (omega arith) in
    omega (arith, one-mul (2 ^ b))

bit-subtract_self : (t b : ℕ) → bit t b ≡ 1 → bit (t - 2 ^ b) b ≡ 0
unfolding bit
bit-subtract_self t b e =
    let whole : t - 2 ^ b + 2 ^ b ≡ t = omega (arith, power-le t b e) in
    let more = add-div_right (t - 2 ^ b) (pow_pos b) in
    let same = ap (λ x. x / 2 ^ b) whole in omega (arith, more, same)

-- Subtracting the power of a place whose bit is 1 clears that bit, and no other.
subtract_power : (t b c : ℕ) → bit t b ≡ 1 → bit (t - 2 ^ b) c ≡ changed t b 0 c
subtract_power t b c e =
    changed_lem (t - 2 ^ b) t b 0 (bit-subtract_self t b e)
      (λ x apart.
        sym (bit-add_other (t - 2 ^ b) b x (bit-subtract_self t b e) apart)
        ∙ ap (λ y. bit y x) (omega (arith, power-le t b e)))
      c

with_bit-changed :
    (t b v c r : ℕ) → bit t b ≡ r → r < 2 → v < 2 → bit (with_bit t b v) c ≡ changed t b v c
unfolding with_bit
with_bit-changed t b zero c zero e small bound =
    ap (λ x. bit (if x == 0 then t else t - 2 ^ b) c) e ∙ changed_lem t t b 0 e (λ x apart. refl) c
with_bit-changed t b zero c (suc zero) e small bound =
    ap (λ x. bit (if x == 0 then t else t - 2 ^ b) c) e ∙ subtract_power t b c e
with_bit-changed t b (suc zero) c zero e small bound =
    ap (λ x. bit (if x == 0 then t + 2 ^ b else t) c) e ∙ add_power t b c e
with_bit-changed t b (suc zero) c (suc zero) e small bound =
    ap (λ x. bit (if x == 0 then t + 2 ^ b else t) c) e ∙ changed_lem t t b 1 e (λ x apart. refl) c
with_bit-changed t b v c (suc (suc r)) e small bound = absurd (omega arith)
with_bit-changed t b (suc (suc v)) c r e small bound = absurd (omega arith)

-- setBit of a bit at a place of the 64 gives the place that bit, and leaves the bits at all other
-- places.
pub bit-set_bit :
    (target place value c : ℕ)
    → value < 2
    → place < 64
    → bit (set_bit target place value) c ≡ (if c == place then value else bit target c)
unfolding set_bit bit
bit-set_bit target place value c small inside =
    rw (eq→== (value % 2) value (omega arith), lt→ltb place 64 inside)
      (with_bit-changed target place value c (bit target place) refl (omega arith) small)
