-- ===== src/Pci/Mch.antt =====
-- plugins/IntelMCHMonitor/IntelMCHMonitor.cpp
use fake_smc3_with_plugins.Prelude.{
  for_loop, ◌==◌, if◌then◌else◌, get_or, Bytes, codes, c_str, overwrite, ℕ, ◌/◌, ◌%◌, Bool, true,
  false, ◌&&◌, ◌||◌, Option, none, some, List, [], ◌∷◌, map,
}
use fake_smc3_with_plugins.Smc.Key.{
  Callback, get_value_callback, set_value_callback, IoReturn, success, bad_argument, unsupported,
}
use fake_smc3_with_plugins.SuperIo.Monitor.{same_string, hex_digit}
use fake_smc3_with_plugins.Cpu.Intel.Start.{to_lower}
use fake_smc3_with_plugins.Pci.{
  Pci, PciNode, PciWorld, PciDevice, last_card, get_object, invid8, invid16, map_registers,
  add_pci_sensor,
}

-- The test of probe.
unfoldable pub mch_matches : ℕ → ℕ → ℕ → Bool
mch_matches vendor device class =
    vendor == 0x8086 && device / 256 % 256 == 0x3e || vendor == 0x8086 && class == 0x060000

-- probe
unfoldable pub probe_mch : List PciNode → Option ℕ
unfolding last_card mch_matches
probe_mch nodes = last_card mch_matches nodes 0 0 0 0 none

-- DDR1 or DDR2
unfoldable pub channel_register : ℕ → ℕ
channel_register index = if index == 0 || index == 2 then 0x58b0 else 0x58b4

-- The byte of the channel's register.
unfoldable pub dimm_byte : ℕ → ℕ → ℕ
dimm_byte index value = (if index % 2 == 1 then value / 256 else value) % 256

-- snprintf(name, 5, "Tm%XP", i)
unfoldable pub dimm_key : ℕ → Bytes
unfolding hex_digit
dimm_key i = 0x54 ∷ 0x6d ∷ hex_digit i ∷ 0x50 ∷ []

-- The bytes that start maps, which all later reads go to.
abbrev pub mch_window : ℕ
mch_window = 0x1000

module _ {H : Type 0} (p : Pci H) where
  -- The branch of the modules, with what the dictionary holds under the name.
  unfoldable pub answer_dimm : Option ℕ → Bytes → PciWorld H → IoReturn × Bytes × PciWorld H
  unfolding invid16 channel_register dimm_byte
  answer_dimm none bytes w = (bad_argument, bytes, w)
  answer_dimm (some i) bytes w =
      let index = i % 65536 in
      let (value, w1) = invid16 p mch_window (channel_register index) w in
      (success, overwrite (dimm_byte index value ∷ []) bytes, w1)

  -- callPlatformFunction
  unfoldable pub mch_callback : Callback (PciWorld H)
  unfolding same_string to_lower invid8 get_object answer_dimm
  mch_callback get_value_callback handler name bytes size w =
      let cleared = overwrite (0 ∷ []) bytes in
      let (value, w1) = invid8 p mch_window 0x5978 w in
      let c = get_or name 1 0 in
      if c == 0x4e
      then (if same_string (map to_lower (c_str name)) (codes "tn0p")
          then (success, overwrite (value ∷ []) cleared, w1)
          else (success, cleared, w))
      else if c == 0x6d
      then answer_dimm (get_object (c_str name) w.0.sensors) cleared w
      else (bad_argument, cleared, w)
  mch_callback set_value_callback handler name bytes size w = (unsupported, bytes, w)

  -- The body of the loop over the memory modules.
  unfoldable pub add_dimm : ℕ → Bool × PciDevice H → Bool × PciDevice H
  unfolding mch_callback dimm_key add_pci_sensor
  add_dimm i (key_added, d) =
      let (ok, d1) = add_pci_sensor mch_callback (dimm_key i) (codes "sp78") 2 i d in
      (key_added || ok, d1)

  -- start. A region that cannot be mapped ends it with -1, which is `true`.
  unfoldable pub start_mch : Option ℕ → PciDevice H → Bool × PciDevice H
  unfolding mch_callback map_registers add_pci_sensor for_loop add_dimm
  start_mch none d = (false, d)
  start_mch (some card) d =
      let (mapped, w) = map_registers p mch_window card 0x40 d.world in
      let d0 : PciDevice H = record d { world = w } in
      if mapped
      then for_loop 4 0 add_dimm (add_pci_sensor mch_callback (codes "TN0P") (codes "sp78") 2 0 d0)
      else (true, d0)
