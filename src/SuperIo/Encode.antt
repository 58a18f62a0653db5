-- ===== src/SuperIo/Encode.antt =====
-- plugins/SuperIOSensors/SuperIOFamily/SuperIOFamily.cpp: encodeValue of a sensor, and the encoders of
-- utils/utils.h that it generalises. A `long` is a number below 2^64.
pub mod Laws
use fake_smc3_with_plugins.Prelude.{
  ◌==◌, if◌then◌else◌, get_or, Bytes, ℕ, ◌+◌, ◌-◌, ◌*◌, ◌/◌, ◌%◌, ◌^◌, ◌<◌, ◌≡◌, Bool, false, not,
  ◌&&◌, ◌||◌, ltb,
}
use fake_smc3_with_plugins.SuperIo.Codec.{swap_value, encode_fp2e, encode_sp4b, encode_fpe2}

-- get_index
unfoldable pub get_index : ℕ → ℕ
get_index c = if ltb 96 c && ltb c 103 then c - 87 else if ltb 47 c && ltb c 58 then c - 48 else 0

-- OSSwapHostToBigInt32
unfoldable pub swap_long : ℕ → ℕ
swap_long n =
    n % 256 * 16777216 + n / 256 % 256 * 65536 + n / 65536 % 256 * 256 + n / 16777216 % 256

-- Whether the `int` with these 32 bits is negative, and its absolute value.
unfoldable pub is_negative : ℕ → Bool
is_negative value = not (ltb value 2147483648)

unfoldable pub magnitude : ℕ → ℕ
magnitude value = if ltb value 2147483648 then value else 4294967296 - value

-- The `int` as a `long`.
unfoldable pub long_of : Bool → ℕ → ℕ
long_of minus size = if minus then (18446744073709551616 - size) % 18446744073709551616 else size

-- The branch of the whole numbers; `minus` and `size_of` are of svalue behind the first test.
unfoldable pub encode_whole : Bytes → ℕ → ℕ → Bool → ℕ → ℕ
unfolding swap_value swap_long long_of
encode_whole type size value minus absolute =
    let third = get_or type 2 0 in
    let fourth = get_or type 3 0 in
    if third == 0x38
    then (if fourth == 0 && size == 1
        then (if minus then absolute % 128 + 128 else absolute % 256)
        else long_of minus absolute)
    else if third == 0x31
    then (if fourth == 0x36 && size == 2
        then swap_value (if minus then absolute % 32768 + 32768 else value % 65536)
        else long_of minus absolute)
    else if third == 0x33
    then (if fourth == 0x32 && size == 4
        then swap_long (if minus then absolute % 2147483648 + 2147483648 else value)
        else long_of minus absolute)
    else 0

-- An `int` product as an UInt64.
unfoldable pub int_product : ℕ → ℕ → ℕ
int_product a b =
    let product = a * b % 4294967296 in
    if ltb product 2147483648 then product else product + 18446744069414584320

-- The branch of the fixed point, with `f` bits behind it.
unfoldable pub encode_fixed : ℕ → ℕ → Bool → ℕ → ℕ
unfolding swap_value int_product
encode_fixed f sscale minus absolute =
    let encoded = int_product absolute sscale * 2 ^ f % 18446744073709551616 / 1000 % 65536 in
    swap_value (if minus then encoded % 32768 + 32768 else encoded)

-- encodeValue
unfoldable pub encode_value : Bytes → ℕ → ℕ → ℕ → ℕ
unfolding get_index is_negative magnitude long_of encode_whole encode_fixed
encode_value type size value sscale =
    let first = get_or type 0 0 in
    let second = get_or type 1 0 in
    let minus = is_negative value in
    let i = get_index (get_or type 2 0) in
    let f = get_index (get_or type 3 0) in
    if (first == 0x75 || first == 0x73) && second == 0x69
    then encode_whole type size value (minus && not (first == 0x75)) (magnitude value)
    else if (first == 0x66 || first == 0x73) && second == 0x70
    then (if i + f == (if first == 0x66 then 16 else 15)
        then encode_fixed f sscale minus (magnitude value)
        else long_of minus (magnitude value))
    else long_of minus (magnitude value)
