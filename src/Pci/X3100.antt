-- ===== src/Pci/X3100.antt =====
-- plugins/GPUSensors/IntelX3100/X3100.cpp
use fake_smc3_with_plugins.Prelude.{
  ◌==◌, if◌then◌else◌, Bytes, codes, c_str, overwrite, ℕ, zero, suc, ◌+◌, ◌-◌, ◌/◌, ◌%◌, Bool, true,
  false, not, ◌&&◌, Option, none, some, List, [], ◌∷◌,
}
use fake_smc3_with_plugins.Smc.Key.{
  Callback, get_value_callback, set_value_callback, success, bad_argument, unsupported,
}
use fake_smc3_with_plugins.Smc.Platform.{
  add_key_handler, get_key_value, remove_key_handler, call_platform_function,
}
use fake_smc3_with_plugins.SuperIo.Monitor.{self, hex_digit, value_bytes, is_success}
use fake_smc3_with_plugins.Pci.{
  Pci, PciNode, PciWorld, PciDevice, property_or, get_object, invid8, invid16, map_registers,
  add_pci_sensor,
}

-- The search of probe, which ends with a match.
unfoldable pub first_x3100 : List PciNode → ℕ → ℕ → ℕ → Option ℕ
unfolding property_or
first_x3100 [] vendor device i = none
first_x3100 (n ∷ nodes) vendor device i =
    let vendor1 = property_or n.vendor_id vendor in
    let device1 = property_or n.device_id device in
    let rest = first_x3100 nodes vendor1 device1 (i + 1) in
    if vendor1 == 0x8086 && device1 == 0x2a00 then some i else rest

-- probe
unfoldable pub probe_x3100 : List PciNode → Option ℕ
unfolding first_x3100
probe_x3100 nodes = first_x3100 nodes 0 0 0

-- snprintf(name, 5, "TG%XD", i), for i below 16
unfoldable pub diode_key : ℕ → Bytes
unfolding hex_digit
diode_key i = 0x54 ∷ 0x47 ∷ hex_digit i ∷ 0x44 ∷ []

-- The bytes that start maps, which all later reads go to.
abbrev pub x3100_window : ℕ
x3100_window = 0x2000

module _ {H : Type 0} (p : Pci H) where
  -- The loop that waits for a valid temperature.
  unfoldable pub wait_valid : ℕ → PciWorld H → PciWorld H
  unfolding invid16
  wait_valid zero w = w
  wait_valid (suc n) w =
      let (value, w1) = invid16 p x3100_window 0x1004 w in
      let rest = wait_valid n (w1.0, p.sleep 10 w1.1) in if value / 1024 % 2 == 1 then w1 else rest

  -- The short `value`.
  unfoldable pub x3100_value : Option ℕ → PciWorld H → ℕ × PciWorld H
  unfolding wait_valid invid8
  x3100_value none w = (130, w)
  x3100_value (some base) (s, h) =
      invid8 p x3100_window 0x1006 (wait_valid 1000 (s, p.write32 (base + 0x100b) 3 h))

  -- Whether the dictionary holds another card's number under the name.
  unfoldable pub is_other_card : Option ℕ → ℕ → Bool
  is_other_card none card = false
  is_other_card (some i) card = not (i % 65536 == card)

  -- callPlatformFunction
  unfoldable pub x3100_callback : Callback (PciWorld H)
  unfolding get_object x3100_value is_other_card value_bytes
  x3100_callback get_value_callback handler name bytes size w =
      let (value, w1) = x3100_value w.0.mmio_base w in
      if is_other_card (get_object (c_str name) w.0.sensors) w.0.num_card
      then (bad_argument, bytes, w)
      else (success, overwrite (value_bytes ((150 + 65536 - value) % 65536)) bytes, w1)
  x3100_callback set_value_callback handler name bytes size w = (unsupported, bytes, w)

  -- One turn of the loop that looks for a free key: whether it is added.
  unfoldable pub try_key : ℕ → PciDevice H → Bool × PciDevice H
  unfolding x3100_callback diode_key call_platform_function is_success add_pci_sensor
  try_key i d =
      let (r, out, d1) =
        call_platform_function x3100_callback (get_key_value (some (diode_key i))) d in
      if is_success r
      then (false, d1)
      else add_pci_sensor x3100_callback (diode_key i) (codes "sp78") 2 i d1

  -- The loop from `i` on, with `n` keys left; the first component is the last key's number.
  unfoldable pub try_keys : ℕ → ℕ → ℕ → PciDevice H → ℕ × PciDevice H
  unfolding try_key
  try_keys zero i tried d = (tried, d)
  try_keys (suc n) i tried d =
      let (is_added, d1) = try_key i d in
      let chosen : PciDevice H = record d1 {
        world = (record d1.world.0 { num_card = i }, d1.world.1);
      } in
      let rest = try_keys n (i + 1) i d1 in if is_added then (i, chosen) else rest

  -- The end of start adds the handler once more, under the name that the loop has left.
  unfoldable pub finish_x3100 : ℕ × PciDevice H → Bool × PciDevice H
  unfolding x3100_callback diode_key call_platform_function is_success
  finish_x3100 (tried, d) =
      let (r, out, d1) =
        call_platform_function x3100_callback
          (add_key_handler (some (diode_key tried)) (some (codes "sp78")) 2 (some self)) d in
      (is_success r, d1)

  -- start. A region that cannot be mapped ends it with -1, which is `true`.
  unfoldable pub start_x3100 : Option ℕ → PciDevice H → Bool × PciDevice H
  unfolding map_registers try_keys finish_x3100
  start_x3100 none d = (false, d)
  start_x3100 (some card) d =
      let (mapped, w) = map_registers p x3100_window card 0x48 d.world in
      let d0 : PciDevice H = record d { world = w } in
      if mapped then finish_x3100 (try_keys 16 0 0 d0) else (true, d0)

  -- stop
  unfoldable pub stop_x3100 : PciDevice H → PciDevice H
  unfolding x3100_callback call_platform_function
  stop_x3100 d =
      (call_platform_function x3100_callback (remove_key_handler (some self))
        (record d { world = (record d.world.0 { sensors = [] }, d.world.1) })).2
