-- ===== src/Cpu/Intel/Start.antt =====
-- plugins/CPUSensors/IntelCPUMonitor/IntelCPUMonitor.cpp: the monitor as the handler of its keys, and
-- its start. Work loop and timer are made without a failure.
use fake_smc3_with_plugins.Prelude.{
  ltb, ◌==◌, if◌then◌else◌, get_or, take, Bytes, codes, c_str, overwrite, zeros, ℕ, zero, suc, ◌+◌,
  ◌-◌, ◌*◌, ◌/◌, ◌%◌, Bool, true, false, not, ◌&&◌, ◌||◌, Option, none, some, [], ◌∷◌, ◌++◌, map,
}
use fake_smc3_with_plugins.Smc.Key.{
  Callback, get_value_callback, set_value_callback, IoReturn, success, bad_argument, unsupported,
}
use fake_smc3_with_plugins.Smc.Device.{Device}
use fake_smc3_with_plugins.Smc.Platform.{
  PlatformCall, Answer, add_key_handler, remove_key_handler, call_platform_function,
}
use fake_smc3_with_plugins.SuperIo.Codec.{swap_value, encode_fp2e}
use fake_smc3_with_plugins.SuperIo.Config.{Outcome, crashed, done}
use fake_smc3_with_plugins.SuperIo.Monitor.{self, same_string, value_bytes, hex_digit, is_success}
use fake_smc3_with_plugins.Cpu.Float.{float_of, float_divide, to_int}
use fake_smc3_with_plugins.Cpu.Intel.{
  Processor, Intel, IntelWorld, read_thermals, activate, deactivate,
}

-- c >= 'A' ? c - 65 : c - 48, for a `char`, where the result is not negative.
unfoldable pub core_index : ℕ → Option ℕ
core_index c =
    if ltb c 48
    then none
    else if ltb c 65
    then some (c - 48)
    else if ltb c 128
    then some (c - 65)
    else none

unfoldable pub to_lower : ℕ → ℕ
to_lower c = if ltb 64 c && ltb c 91 then c + 32 else c

-- The index, if it is that of a core.
unfoldable pub core_below : ℕ → Option ℕ → Option ℕ
core_below count none = none
core_below count (some i) = if ltb i count then some i else none

-- tjmax[index] - GlobalThermalValue[index] in an UInt16.
unfoldable pub core_temperature : ℕ → Intel → ℕ
core_temperature i s = (get_or s.tjmax i 0 + 65536 - get_or s.thermal_value i 0) % 65536

-- mult * 10 of the core's state.
unfoldable pub core_multiplier : ℕ → Intel → ℕ
core_multiplier i s =
    let control = get_or s.state i 0 in control / 256 % 32 * 10 + control / 16384 % 2 * 5

unfoldable pub package_multiplier : Intel → ℕ
package_multiplier s =
    let control = get_or s.state 0 0 in
    if s.sandy_arch
    then control / 256 * 10 % 65536
    else if s.nehalem_arch
    then control * 10 % 65536
    else 0

-- The character of a core in the names of its keys; behind the 36th there is none.
unfoldable pub core_char : ℕ → Option ℕ
unfolding hex_digit
core_char i = if ltb i 16 then some (hex_digit i) else if ltb i 36 then some (i + 55) else none

-- snprintf(keyM, 5, "MC%XC", i)
unfoldable pub multiplier_key : ℕ → Bytes
unfolding hex_digit
multiplier_key i = take 4 (
    0x4d
    ∷ 0x43
    ∷ ((if ltb i 16 then hex_digit i ∷ [] else hex_digit (i / 16) ∷ hex_digit (i % 16) ∷ [])
        ++ 0x43 ∷ []))

module _ {H : Type 0} (p : Processor H) where
  unfoldable pub answer_value : ℕ → Bytes → IntelWorld H → IoReturn × Bytes × IntelWorld H
  unfolding value_bytes
  answer_value value bytes w = (success, overwrite (value_bytes value) bytes, w)

  unfoldable pub answer_temperature :
      Option ℕ → Bytes → IntelWorld H → IoReturn × Bytes × IntelWorld H
  unfolding read_thermals core_temperature answer_value
  answer_temperature none bytes w = (bad_argument, bytes, w)
  answer_temperature (some i) bytes w =
      let w1 = read_thermals p w in answer_value (core_temperature i w1.0) bytes w1

  unfoldable pub answer_multiplier :
      Option ℕ → Bytes → IntelWorld H → IoReturn × Bytes × IntelWorld H
  unfolding core_multiplier answer_value
  answer_multiplier none bytes w = (bad_argument, bytes, w)
  answer_multiplier (some i) bytes w = answer_value (core_multiplier i w.0) bytes w

  -- The value is 0 for what is not a core.
  unfoldable pub frequency_value : Option ℕ → Intel → ℕ
  unfolding swap_value
  frequency_value none s = 0
  frequency_value (some i) s = swap_value (get_or s.frequency i 0)

  -- callPlatformFunction, as the SMC calls it; Platform is an array of zeros.
  unfoldable pub intel_callback : Callback (IntelWorld H)
  unfolding core_index core_below package_multiplier answer_value answer_temperature
      answer_multiplier frequency_value same_string to_lower encode_fp2e value_bytes
  intel_callback get_value_callback handler name bytes size w =
      let c = get_or name 0 0 in
      let third = core_below w.0.count (core_index (get_or name 2 0)) in
      let fourth = core_below w.0.count (core_index (get_or name 3 0)) in
      if c == 0x54
      then answer_temperature third bytes w
      else if c == 0x4d
      then (if same_string (map to_lower (c_str name)) (codes "mpkc")
          then answer_value (package_multiplier w.0) bytes w
          else answer_multiplier third bytes w)
      else if c == 0x46
      then (if get_or name 1 0 == 0x52 && get_or name 2 0 == 0x43
          then answer_value (frequency_value fourth w.0) bytes w
          else (bad_argument, bytes, w))
      else if c == 0x56
      then answer_value (encode_fp2e (w.0.voltage % 65536)) bytes w
      else if c == 0x52
          && get_or name 1 0 == 0x50
          && get_or name 2 0 == 0x6c
          && get_or name 3 0 == 0x74
      then (success, overwrite (zeros 4) bytes, w)
      else (bad_argument, bytes, w)
  intel_callback set_value_callback handler name bytes size w = (unsupported, bytes, w)

  abbrev pub IntelDevice : Type 0
  IntelDevice = Device (IntelWorld H)

  unfoldable pub intel_smc : PlatformCall → IntelDevice → Answer (IntelWorld H)
  unfolding intel_callback call_platform_function
  intel_smc = call_platform_function intel_callback

  -- One call of kFakeSMCAddKeyHandler for a key of two bytes.
  unfoldable pub add_intel_key : Bytes → Bytes → IntelDevice → Bool × IntelDevice
  unfolding intel_smc is_success
  add_intel_key name type d =
      let (r, out, d1) = intel_smc (add_key_handler (some name) (some type) 2 (some self)) d in
      (is_success r, d1)

  -- What the loop adds for a core behind its temperature, where failures are only printed.
  unfoldable pub add_core_extras : ℕ → ℕ → IntelDevice → IntelDevice
  unfolding add_intel_key multiplier_key
  add_core_extras c i d =
      let d1 = (add_intel_key (0x46 ∷ 0x52 ∷ 0x43 ∷ c ∷ []) (codes "freq") d).1 in
      let old = d1.world.0 in
      let d2 =
        if not old.nehalem_arch && not old.sandy_arch
        then (add_intel_key (multiplier_key i) (codes "ui16") d1).1
        else d1 in
      if not old.nehalem_arch || old.sandy_arch
      then (add_intel_key (codes "VC0C") (codes "fp2e") d2).1
      else d2

  unfoldable pub add_core_named : Option ℕ → ℕ → IntelDevice → Outcome (Bool × IntelDevice)
  unfolding add_intel_key add_core_extras
  add_core_named none i d = crashed
  add_core_named (some c) i d =
      let (ok, d1) = add_intel_key (0x54 ∷ 0x43 ∷ c ∷ 0x44 ∷ []) (codes "sp78") d in
      done (if ok then (true, add_core_extras c i d1) else (false, d1))

  unfoldable pub continue_with :
      (IntelDevice → Outcome (Bool × IntelDevice))
      → Outcome (Bool × IntelDevice)
      → Outcome (Bool × IntelDevice)
  continue_with next crashed = crashed
  continue_with next (done (false, d)) = done (false, d)
  continue_with next (done (true, d)) = next d

  -- The loop over the cores from `i` on, with `n` left. The names of the keys of a core behind the
  -- 36th are memory that was never written, and what their use comes to is left open here as a
  -- crash.
  unfoldable pub add_cores : ℕ → ℕ → IntelDevice → Outcome (Bool × IntelDevice)
  unfolding core_char add_core_named continue_with
  add_cores zero i d = done (true, d)
  add_cores (suc n) i d = continue_with (add_cores n (i + 1)) (add_core_named (core_char i) i d)

  -- The last key.
  unfoldable pub add_package : IntelDevice → Outcome (Bool × IntelDevice)
  unfolding add_intel_key
  add_package d =
      if d.world.0.nehalem_arch || d.world.0.sandy_arch
      then done (true, (add_intel_key (codes "MPkC") (codes "ui16") d).1)
      else done (true, d)

  -- The clocks in MHz.
  unfoldable pub set_clocks : ℕ → ℕ → Intel → Intel
  unfolding float_of float_divide to_int
  set_clocks bus fsb s = record s {
    bus_clock =
        if s.sandy_arch
        then to_int (float_divide (float_of bus) (float_of 1000000))
        else bus / 1000000;
    fsb_clock = fsb / 1000000;
  }

  -- FSBFrequency of /efi/platform, if there is this node, else the greatest frequency of the bus. The
  -- data is used without a test.
  unfoldable pub read_clocks : Option (Option ℕ) → ℕ → Intel → Outcome Intel
  unfolding set_clocks
  read_clocks none max_hz s = done (set_clocks (max_hz / 4) max_hz s)
  read_clocks (some none) max_hz s = crashed
  read_clocks (some (some bus)) max_hz s = done (set_clocks bus (bus * 4 % 18446744073709551616) s)

  unfoldable pub start_clocked : Outcome Intel → IntelDevice → Outcome (Bool × IntelDevice)
  unfolding activate add_cores add_package continue_with
  start_clocked crashed d = crashed
  start_clocked (done s) d =
      let d1 = record d { world = activate p (s, d.world.1) } in
      continue_with add_package (add_cores s.count 0 d1)

  -- start
  unfoldable pub start_intel : Option (Option ℕ) → ℕ → IntelDevice → Outcome (Bool × IntelDevice)
  unfolding read_clocks start_clocked
  start_intel platform max_hz d = start_clocked (read_clocks platform max_hz d.world.0) d

  -- stop
  unfoldable pub stop_intel : IntelDevice → IntelDevice
  unfolding deactivate intel_smc
  stop_intel d =
      (intel_smc (remove_key_handler (some self))
        (record d { world = (deactivate d.world.0, d.world.1) })).2
