-- ===== src/SuperIo/Encode/Laws.antt =====
-- encodeValue of SuperIOFamily.cpp beside the encoders of utils/utils.h.
use fake_smc3_with_plugins.Prelude.{
  if◌then◌else◌, codes, ℕ, ◌-◌, ◌*◌, ◌/◌, ◌%◌, ◌^◌, ◌<◌, ◌≡◌, ap, ◌∙◌, false, arith, ltb,
}
use fake_smc3_with_plugins.SuperIo.Codec.{swap_value, encode_fp2e, encode_sp4b, encode_fpe2}
use fake_smc3_with_plugins.SuperIo.Encode.{
  int_product, encode_fixed, is_negative, magnitude, get_index, encode_value,
}

int_product_small : (a b : ℕ) → a * b < 2147483648 → int_product a b ≡ a * b
unfolding int_product
int_product_small a b h = ground arith

-- Behind the product nothing overflows.
encode_fixed_small :
    (f sscale n : ℕ)
    → n * sscale < 2147483648
    → encode_fixed f sscale false n
      ≡ swap_value (n * sscale * 2 ^ f % 18446744073709551616 / 1000 % 65536)
unfolding encode_fixed
encode_fixed_small f sscale n h =
    ap (λ x. swap_value (x * 2 ^ f % 18446744073709551616 / 1000 % 65536))
      (int_product_small n sscale h)

fixed_fp2e : (n : ℕ) → n < 32768 → encode_fixed 14 1 false n ≡ encode_fp2e n
unfolding encode_fp2e
fixed_fp2e n h =
    encode_fixed_small 14 1 n (omega arith) ∙ ap (λ x. swap_value (x / 1000 % 65536)) shifted
  where
    shifted : n * 1 * 2 ^ 14 % 18446744073709551616 ≡ n * 2 ^ 14 % 2 ^ 32
    shifted = omega arith

fixed_sp4b : (n : ℕ) → n < 32768 → encode_fixed 11 1 false n ≡ encode_sp4b n
unfolding encode_sp4b
fixed_sp4b n h =
    encode_fixed_small 11 1 n (omega arith) ∙ ap (λ x. swap_value (x / 1000 % 65536)) shifted
  where
    shifted :
        n * 1 * 2 ^ 11 % 18446744073709551616
        ≡ (if ltb n 0x8000 then n else 4294967295 - n) * 2 ^ 11 % 2 ^ 32
    shifted = ground arith

fixed_fpe2 : (n : ℕ) → n < 32768 → encode_fixed 2 1000 false n ≡ encode_fpe2 n
unfolding encode_fpe2
fixed_fpe2 n h =
    encode_fixed_small 2 1000 n (omega arith) ∙ ap (λ x. swap_value (x % 65536)) shifted
  where
    shifted : n * 1000 * 2 ^ 2 % 18446744073709551616 / 1000 ≡ n * 4
    shifted = omega arith

positive : (n : ℕ) → n < 32768 → (is_negative n ≡ false) × (magnitude n ≡ n)
unfolding is_negative magnitude
positive n h = (ground arith, ground arith)

at_sign :
    (f sscale n : ℕ)
    → n < 32768
    → encode_fixed f sscale (is_negative n) (magnitude n) ≡ encode_fixed f sscale false n
at_sign f sscale n h =
    ap (λ b. encode_fixed f sscale b (magnitude n)) (positive n h).0
    ∙ ap (encode_fixed f sscale false) (positive n h).1

-- For a value below 2^15, encodeValue agrees with the encoder of each of the three types of fixed
-- point that the keys have: fp2e and sp4b with the scale 1, and fpe2 with the scale 1000.
pub encode_value_lem :
    (n : ℕ)
    → n < 32768
    → (encode_value (codes "fp2e") 2 n 1 ≡ encode_fp2e n)
      × (encode_value (codes "sp4b") 2 n 1 ≡ encode_sp4b n)
      × (encode_value (codes "fpe2") 2 n 1000 ≡ encode_fpe2 n)
unfolding encode_value get_index
encode_value_lem n h = (
  at_sign 14 1 n h ∙ fixed_fp2e n h,
  at_sign 11 1 n h ∙ fixed_sp4b n h,
  at_sign 2 1000 n h ∙ fixed_fpe2 n h,
)
