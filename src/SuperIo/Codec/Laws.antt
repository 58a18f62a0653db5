-- ===== src/SuperIo/Codec/Laws.antt =====
-- What the encodings of utils/utils.h keep of a value.
use fake_smc3_with_plugins.Prelude.{ℕ, ◌+◌, ◌*◌, ◌%◌, ◌<◌, ◌≤◌, ◌≡◌, arith}
use fake_smc3_with_plugins.SuperIo.Codec.{swap_value, encode_fp2e, encode_fpe2, decode_fpe2}

pub swap_value-swap_value : (n : ℕ) → n < 65536 → swap_value (swap_value n) ≡ n
unfolding swap_value
swap_value-swap_value n h = omega arith

-- Decoding an encoded fan speed gives it back modulo 2^14: a speed below 16384 survives, and a
-- greater one loses its upper bits.
pub decode_fpe2-encode_fpe2 : (n : ℕ) → decode_fpe2 (encode_fpe2 n) ≡ n % 16384
unfolding decode_fpe2 encode_fpe2 swap_value
decode_fpe2-encode_fpe2 n = omega arith

-- The encoding of a voltage below 4000 millivolts is exact up to one step: the 16-bit number that a
-- reader finds, in units of 1/16384 volt, is at most the voltage, and more than the voltage less one
-- unit.
pub swap_value-encode_fp2e :
    (millivolts : ℕ)
    → millivolts < 4000
    → let units = swap_value (encode_fp2e millivolts) in
      (units * 1000 ≤ millivolts * 16384) × (millivolts * 16384 < units * 1000 + 1000)
unfolding encode_fp2e swap_value
swap_value-encode_fp2e millivolts h = (omega arith, omega arith)
