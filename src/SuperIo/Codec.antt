-- ===== src/SuperIo/Codec.antt =====
-- The fixed-point encodings of utils/utils.h, on 16-bit values.
pub mod Laws
use fake_smc3_with_plugins.Prelude.{ℕ, ◌+◌, ◌-◌, ◌*◌, ◌/◌, ◌%◌, ◌^◌, ltb, if◌then◌else◌}

-- ((value & 0xff00) >> 8) | ((value & 0xff) << 8)
unfoldable pub swap_value : ℕ → ℕ
swap_value value = value % 65536 / 256 + value % 256 * 256

-- The shift is in a UInt32.
unfoldable pub encode_fp2e : ℕ → ℕ
unfolding swap_value
encode_fp2e value = swap_value (value * 2 ^ 14 % 2 ^ 32 / 1000 % 65536)

-- ~value of the promoted UInt16, in a UInt32.
unfoldable pub encode_sp4b : ℕ → ℕ
unfolding swap_value
encode_sp4b value =
    let tmp = if ltb value 0x8000 then value else 4294967295 - value in
    swap_value (tmp * 2 ^ 11 % 2 ^ 32 / 1000 % 65536)

unfoldable pub encode_fpe2 : ℕ → ℕ
unfolding swap_value
encode_fpe2 value = swap_value (value * 4 % 65536)

unfoldable pub decode_fpe2 : ℕ → ℕ
unfolding swap_value
decode_fpe2 value = swap_value value / 4
