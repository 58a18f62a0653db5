-- ===== src/Pci/Amd.antt =====
-- plugins/CPUSensors/AmdCPUMonitor/AmdCPUMonitor.cpp
use fake_smc3_with_plugins.Prelude.{
  ◌==◌, if◌then◌else◌, get_or, codes, c_str, overwrite, ℕ, ◌+◌, ◌*◌, ◌/◌, ◌%◌, Bool, false, ◌&&◌,
  ◌||◌, Option, none, some, List, map,
}
use fake_smc3_with_plugins.Smc.Key.{
  Callback, get_value_callback, set_value_callback, success, bad_argument, unsupported,
}
use fake_smc3_with_plugins.Smc.Platform.{get_key_value, call_platform_function}
use fake_smc3_with_plugins.SuperIo.Monitor.{same_string, value_bytes, is_success}
use fake_smc3_with_plugins.Cpu.Intel.Start.{to_lower}
use fake_smc3_with_plugins.Pci.{Pci, PciNode, PciWorld, PciDevice, last_card, add_pci_sensor}

-- The test of probe.
unfoldable pub amd_matches : ℕ → ℕ → ℕ → Bool
amd_matches vendor device class =
    vendor == 0x1022 && device / 4096 % 16 * 4096 + device % 256 == 0x1003
    || vendor == 0x1022 && device == 0x1463

-- probe
unfoldable pub probe_amd : List PciNode → Option ℕ
unfolding last_card amd_matches
probe_amd nodes = last_card amd_matches nodes 0 0 0 0 none

module _ {H : Type 0} (p : Pci H) where
  -- callPlatformFunction of a monitor that has found its device.
  unfoldable pub amd_callback : ℕ → Callback (PciWorld H)
  unfolding same_string to_lower value_bytes
  amd_callback card get_value_callback handler name bytes size (s, h) =
      let (value, h1) = p.config_read32 card 0xa4 h in
      if get_or name 0 0 == 0x54
      then (if same_string (map to_lower (c_str name)) (codes "tc0p")
          then (success, overwrite (value_bytes (value % 4294967296 / 2097152 / 8)) bytes, (s, h1))
          else (success, bytes, (s, h)))
      else (bad_argument, bytes, (s, h))
  amd_callback card set_value_callback handler name bytes size w = (unsupported, bytes, w)

  -- start
  unfoldable pub start_amd : Option ℕ → PciDevice H → Bool × PciDevice H
  unfolding amd_callback call_platform_function is_success add_pci_sensor
  start_amd none d = (false, d)
  start_amd (some card) d =
      let (r, out, d1) =
        call_platform_function (amd_callback card) (get_key_value (some (codes "TC0P"))) d in
      if is_success r
      then (false, d1)
      else add_pci_sensor (amd_callback card) (codes "TC0P") (codes "sp78") 2 0 d1
