-- ===== src/SuperIo/Nsc.antt =====
-- plugins/SuperIOSensors/NSCPC8739x/PC8739x.cpp: the monitor for the chips of National Semiconductor,
-- whose readings stand in memory. `load` reads a byte of memory of the hardware; the mapping of the
-- chip's memory succeeds, so a sensor's readings are loads from `base` on.
pub mod Laws
use fake_smc3_with_plugins.Prelude.{
  ℕ, ◌+◌, ◌-◌, ◌*◌, ◌/◌, ◌%◌, Bool, true, false, ◌||◌, Option, none, some, List, [], ◌∷◌, Bytes,
  codes, get_or, ltb, ◌==◌, if◌then◌else◌,
}
use fake_smc3_with_plugins.Smc.Device.{Device}
use fake_smc3_with_plugins.SuperIo.Sensor.{temperature}
use fake_smc3_with_plugins.SuperIo.Bus.{
  Bus, Monitor, Chip, listen_port_byte, select_logical_device, get_logical_device_address,
}
use fake_smc3_with_plugins.SuperIo.Monitor.{World, add_sensor, add_tachometer}
use fake_smc3_with_plugins.SuperIo.Fintek.{is_absent, name_or_null}

-- The two rows of NSC_HARDWARE_MONITOR_REGS.
unfoldable pub temperature_regs : List ℕ
temperature_regs = 0x61 ∷ 0x62 ∷ 0x63 ∷ 0x64 ∷ []

unfoldable pub tachometer_regs : List ℕ
tachometer_regs = 0x68 ∷ 0x68 ∷ 0x68 ∷ 0x68 ∷ []

-- (0xff - (byte & 0xff)) * 20
unfoldable pub speed_of : ℕ → ℕ
speed_of byte = (0xff - byte % 256) * 20

-- getModelName
unfoldable pub nsc_model_name : ℕ → Bytes
nsc_model_name model = if model == 0xfc00 then codes "PC8739xx" else codes "unknown"

module _ {H : Type 0} (bus : Bus H) (load : ℕ → H → ℕ × H) where
  -- The rest of probePort for the id 0xfc, behind getLogicalDeviceAddress, whose answer is ignored.
  unfoldable pub probe_present : Bool × Monitor × H → Bool × Monitor × H
  unfolding listen_port_byte
  probe_present (found, m, h) =
      let (present, h1) = listen_port_byte bus 0x30 m h in
      if present % 256 == 0 then (false, m, h1) else (true, record m { model = 0xfc00 }, h1)

  unfoldable pub probe_nsc : Monitor → H → Bool × Monitor × H
  unfolding listen_port_byte is_absent select_logical_device get_logical_device_address
      probe_present
  probe_nsc m h =
      let (id, h1) = listen_port_byte bus 0x20 m h in
      let (revision, h2) = listen_port_byte bus 0x27 m h1 in
      if is_absent (id % 256) (revision % 256)
      then (false, m, h2)
      else if id % 256 == 0xfc
      then probe_present
          (get_logical_device_address bus 0x60 m (select_logical_device bus 0x0f m h2))
      else (false, m, h2)

  -- readTemperature and readTachometer; the index stands inside of the table.
  unfoldable pub load_temperature : ℕ → ℕ → Monitor → H → ℕ × H
  unfolding temperature_regs
  load_temperature base index m h =
      let (byte, h1) = load (base + get_or temperature_regs index 0) h in (byte % 256, h1)

  unfoldable pub load_tachometer : ℕ → ℕ → Monitor → H → ℕ × H
  unfolding tachometer_regs speed_of
  load_tachometer base index m h =
      let (byte, h1) = load (base + get_or tachometer_regs index 0) h in (speed_of byte, h1)

  -- The class, with its memory at `base`; enter, exit and readVoltage are those of the base class.
  unfoldable pub nsc : ℕ → Chip H
  unfolding probe_nsc load_temperature load_tachometer
  nsc base = record {
    ports_count = 2;
    enter = λ m h. h;
    exit = λ m h. h;
    probe_port = probe_nsc;
    read_temperature = load_temperature base;
    read_voltage = λ index m h. (0, h);
    read_tachometer = load_tachometer base;
    derived_value = λ s m h. (0, h);
    set_value = none;
  }

  -- The address of the memory that start maps: four bytes, the least significant first, without the
  -- lowest four bits.
  unfoldable pub memory_base : Monitor → H → ℕ × H
  unfolding listen_port_byte
  memory_base m h =
      let (b0, h1) = listen_port_byte bus 0xf4 m h in
      let (b1, h2) = listen_port_byte bus 0xf5 m h1 in
      let (b2, h3) = listen_port_byte bus 0xf6 m h2 in
      let (b3, h4) = listen_port_byte bus 0xf7 m h3 in
      ((b0 % 256 + b1 % 256 * 256 + b2 % 256 * 65536 + b3 % 256 * 16777216) / 16 * 16, h4)

  -- The one fan; `name` is the string under FANIN0.
  unfoldable pub add_fan_0 : ℕ → Option Bytes → Device (World H) → Device (World H)
  unfolding nsc add_tachometer
  add_fan_0 base name d =
      let (speed, h') = load_tachometer base 0 d.world.0 d.world.1 in
      let d' : Device (World H) = record d { world = (d.world.0, h') } in
      let is_named : Bool = elim (name_or_null name) [ none ↦ false | some _ ↦ true ] in
      if ltb 10 speed || is_named
      then (add_tachometer (nsc base) 0 (name_or_null name) d').1
      else d'

  abbrev pub add_heat : ℕ → Bytes → ℕ → Device (World H) → Device (World H)
  unfolding nsc add_sensor
  add_heat base name index d =
      (add_sensor (nsc base) name (codes "sp78") 2 temperature index 0 1 0 d).1

  -- start, behind that of the base class.
  unfoldable pub start_nsc : Option Bytes → Device (World H) → Device (World H)
  unfolding memory_base add_fan_0 add_heat
  start_nsc name d =
      let (base, h') = memory_base d.world.0 d.world.1 in
      let d0 : Device (World H) = record d { world = (d.world.0, h') } in
      add_fan_0 base name (
        add_heat base (codes "TA0P") 3 (
          add_heat base (codes "Tm0P") 1
            (add_heat base (codes "TN0P") 0 (add_heat base (codes "Th0H") 2 d0))))
