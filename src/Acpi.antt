-- ===== src/Acpi.antt =====
-- plugins/ACPIMonitor/ACPIMonitor.cpp: the monitor whose sensors are methods of the computer's ACPI
-- tables. ACPI is a parameter, over a state `H`.
use fake_smc3_with_plugins.Prelude.{
  ◌==◌, if◌then◌else◌, get_or, Bytes, read_bytes, c_str, overwrite, ℕ, ◌/◌, ◌%◌, ◌^◌, Bool, ◌||◌,
  Option, none, some, List, [], ◌∷◌, ltb,
}
pub mod Start
pub mod Laws
mod Tests
use fake_smc3_with_plugins.Smc.Key.{
  Callback, get_value_callback, set_value_callback, IoReturn, success, bad_argument,
}
use fake_smc3_with_plugins.SuperIo.Codec.{encode_fp2e, encode_sp4b, encode_fpe2, decode_fpe2}
use fake_smc3_with_plugins.SuperIo.Monitor.{value_bytes, stored_value}
use fake_smc3_with_plugins.Pci.{Objects, get_object}

-- validateObject, and evaluateInteger with a list of numbers as its parameters.
pub record Acpi (H : Type 0) : Type 0 where
  pub is_valid : Bytes → Bool
  pub evaluate : Bytes → List ℕ → H → IoReturn × ℕ × H

-- The dictionary `sensors`, from keys to methods; `overran` tells that bcopy has read behind `val`.
pub record AcpiMonitor : Type 0 where
  pub sensors : Objects Bytes
  pub overran : Bool

abbrev pub AcpiWorld : Type 0 → Type 0
AcpiWorld H = AcpiMonitor × H

-- A comparison of a `char` with '2'.
unfoldable pub is_up_to_two : ℕ → Bool
is_up_to_two c = ltb c 0x33 || ltb 127 c

-- What a method's value is made of, by the method's name.
unfoldable pub encode_method : Bytes → ℕ → ℕ
unfolding encode_fp2e encode_sp4b encode_fpe2 is_up_to_two
encode_method method value =
    let c = get_or method 0 0 in
    let second = get_or method 1 0 in
    let fourth = get_or method 3 0 in
    if c == 0x56
    then (if is_up_to_two fourth || fourth == 0x52
        then encode_sp4b (value % 65536)
        else encode_fp2e (value % 65536))
    else if c == 0x46
    then (if second == 0x41
        then encode_fpe2 (value % 65536)
        else if second == 0x54
        then (if value == 0 then 0 else encode_fpe2 (10000000 / value % 65536))
        else value % 65536)
    else value % 65536

-- The parameter that a method is called with for the two bytes of a key.
unfoldable pub decode_method : Bytes → ℕ → ℕ
unfolding decode_fpe2
decode_method method value = if get_or method 0 0 == 0x46 then decode_fpe2 value else value

module _ {H : Type 0} (p : Acpi H) where
  -- The branch of a reading behind evaluateInteger: bcopy copies `size` bytes of the two of `val`.
  unfoldable pub answer_evaluated :
      Bytes → Bytes → ℕ → AcpiMonitor → IoReturn × ℕ × H → IoReturn × Bytes × AcpiWorld H
  unfolding encode_method value_bytes
  answer_evaluated method bytes size s (success, value, h) = (
    success,
    overwrite (read_bytes size (value_bytes (encode_method method (value % 2 ^ 64)))) bytes,
    (record s { overran = s.overran || ltb 2 size }, h),
  )
  answer_evaluated method bytes size s (r, value, h) = (bad_argument, bytes, (s, h))

  unfoldable pub read_method :
      Option Bytes → Bytes → ℕ → AcpiWorld H → IoReturn × Bytes × AcpiWorld H
  unfolding answer_evaluated
  read_method none bytes size w = (bad_argument, bytes, w)
  read_method (some method) bytes size (s, h) =
      answer_evaluated method bytes size s (p.evaluate method [] h)

  unfoldable pub write_method : Option Bytes → Bytes → AcpiWorld H → IoReturn × Bytes × AcpiWorld H
  unfolding decode_method stored_value
  write_method none bytes w = (bad_argument, bytes, w)
  write_method (some method) bytes (s, h) =
      let (r, value, h1) = p.evaluate method (decode_method method (stored_value bytes) ∷ []) h in
      (r, bytes, (s, h1))

  -- callPlatformFunction
  unfoldable pub acpi_callback : Callback (AcpiWorld H)
  unfolding get_object read_method write_method
  acpi_callback get_value_callback handler name bytes size w =
      read_method (get_object (c_str name) w.0.sensors) bytes size w
  acpi_callback set_value_callback handler name bytes size w =
      write_method (get_object (c_str name) w.0.sensors) bytes w
