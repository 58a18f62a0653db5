-- ===== src/SuperIo/Ite/Class.antt =====
-- plugins/SuperIOSensors/ITE87x/: the class IT87x and its sensors. The fields of the class are a
-- record beside the hardware.
use fake_smc3_with_plugins.Prelude.{
  ltb, ◌==◌, if◌then◌else◌, get_or, Bytes, ℕ, ◌+◌, ◌*◌, ◌/◌, ◌%◌, Bool, true, false, not, ◌&&◌,
  ◌||◌, Option, none, some,
}
use fake_smc3_with_plugins.SuperIo.Sensor.{
  Sensor, SensorGroup, temperature, tachometer, voltage, frequency, extended,
}
use fake_smc3_with_plugins.SuperIo.Bus.{
  Bus, Monitor, Chip, listen_port_word, select_logical_device, get_logical_device_address,
}
use fake_smc3_with_plugins.SuperIo.Long.{divided}
use fake_smc3_with_plugins.SuperIo.Monitor.{encode_for}
use fake_smc3_with_plugins.SuperIo.Ite.Registers.{
  fan_reg, fan_ext_reg, voltage_reg, smart_guard_reg, with_bit_6, ite_fan_speed, ite_models,
  model_in, fine_models, is_one_of,
}

-- The fields of the class IT87x.
pub record Ite : Type 0 where
  pub voltage_gain : ℕ
  pub has16bit_fan_counter : Bool
  pub has_smart_guardian : Bool
  pub vbat_updates : Bool

-- The object's own fields and the hardware.
abbrev pub IteWorld : Type 0 → Type 0
IteWorld H = Ite × H

module _ {H : Type 0} (bus : Bus H) where
  -- readByte of ITEIT87x.h; the register is an UInt8, and the data port is read twice.
  unfoldable pub ite_read : ℕ → ℕ → H → ℕ × H
  ite_read address reg h =
      let (value, h1) =
        bus.inb ((address + 6) % 65536) (bus.outb ((address + 5) % 65536) (reg % 256) h) in
      let (check, h2) = bus.inb ((address + 6) % 65536) h1 in (value % 256, h2)

  -- writeByte
  unfoldable pub ite_write : ℕ → ℕ → ℕ → H → H
  ite_write address reg value h =
      bus.outb ((address + 6) % 65536) (value % 256)
        (bus.outb ((address + 5) % 65536) (reg % 256) h)

  unfoldable pub ite_read_temperature : ℕ → Monitor → IteWorld H → ℕ × IteWorld H
  unfolding ite_read
  ite_read_temperature index m (ite, h) =
      let (value, h1) = ite_read m.address (0x29 + index) h in (value, (ite, h1))

  -- The refresh of the battery's reading.
  unfoldable pub refresh_vbat : Bool → ℕ → H → H
  unfolding ite_read ite_write with_bit_6
  refresh_vbat false address h = h
  refresh_vbat true address h =
      let (config, h1) = ite_read address 0x00 h in ite_write address 0x00 (with_bit_6 config) h1

  unfoldable pub ite_read_voltage : ℕ → Monitor → IteWorld H → ℕ × IteWorld H
  unfolding refresh_vbat ite_read voltage_reg
  ite_read_voltage index m (ite, h) =
      let (value, h1) =
        ite_read m.address (get_or voltage_reg index 0)
          (refresh_vbat ite.vbat_updates m.address h) in
      (value * ite.voltage_gain, (ite, h1))

  unfoldable pub ite_read_tachometer : ℕ → Monitor → IteWorld H → ℕ × IteWorld H
  unfolding ite_read fan_reg fan_ext_reg ite_fan_speed
  ite_read_tachometer index m (ite, h) =
      let (low, h1) = ite_read m.address (get_or fan_reg index 0) h in
      let (high, h2) = ite_read m.address (get_or fan_ext_reg index 0) h1 in
      (ite_fan_speed (low + high * 256), (ite, h2))

  unfoldable pub read_smart_guard : Option ℕ → Monitor → IteWorld H → ℕ × IteWorld H
  unfolding ite_read
  read_smart_guard none m w = (0, w)
  read_smart_guard (some reg) m (ite, h) =
      let (value, h1) = ite_read m.address reg h in (value, (ite, h1))

  unfoldable pub ite_read_group : SensorGroup → ℕ → Monitor → IteWorld H → ℕ × IteWorld H
  unfolding ite_read_temperature ite_read_voltage ite_read_tachometer smart_guard_reg
  ite_read_group temperature index m w = ite_read_temperature index m w
  ite_read_group voltage index m w = ite_read_voltage index m w
  ite_read_group tachometer index m w = ite_read_tachometer index m w
  ite_read_group frequency index m w = read_smart_guard (smart_guard_reg frequency index) m w
  ite_read_group (extended n) index m w = read_smart_guard (smart_guard_reg (extended n) index) m w

  -- IT87xSensor::getValue. A factor Rf of 0 counts as 1, now as in every later call.
  unfoldable pub ite_value : Sensor → Monitor → IteWorld H → ℕ × IteWorld H
  unfolding ite_read_group divided encode_for
  ite_value s m w =
      let (value, w1) = ite_read_group s.group s.index m w in
      (encode_for s.type (divided (value % 65536) s.ri (if s.rf == 0 then 1 else s.rf) s.vf), w1)

  unfoldable pub write_smart_guard : Option ℕ → ℕ → Monitor → IteWorld H → IteWorld H
  unfolding ite_write
  write_smart_guard none value m w = w
  write_smart_guard (some reg) value m (ite, h) = (ite, ite_write m.address reg value h)

  -- IT87xSensor::setValue
  unfoldable pub ite_set_value : Sensor → ℕ → Monitor → IteWorld H → IteWorld H
  unfolding smart_guard_reg
  ite_set_value s value m w = write_smart_guard (smart_guard_reg s.group s.index) value m w

  -- The end of probePort: the chip answers at its address, and `id` is its number.
  unfoldable pub check_chip : ℕ → Monitor → IteWorld H → Bool × Monitor × IteWorld H
  unfolding ite_read fine_models is_one_of
  check_chip id m (ite, h) =
      let (vendor, h1) = ite_read m.address 0x58 h in
      let (config, h2) = ite_read m.address 0x00 h1 in
      let (version, h3) = ite_read m.address 0x22 h2 in
      let found : Ite = record ite {
        voltage_gain = if is_one_of id fine_models then 12 else 16;
        has16bit_fan_counter = not (id == 0x8712 && ltb (version % 16) 8);
      } in
      if not (vendor == 0x90)
      then (false, m, (ite, h1))
      else if config / 16 % 2 == 0
      then (false, m, (ite, h2))
      else (true, m, (found, h3))

  unfoldable pub check_address : ℕ → Ite → Bool × Monitor × H → Bool × Monitor × IteWorld H
  unfolding check_chip
  check_address id ite (false, m, h) = (false, m, (ite, h))
  check_address id ite (true, m, h) = check_chip id m (ite, h)

  unfoldable pub probe_model : Option Bytes → ℕ → Monitor → IteWorld H → Bool × Monitor × IteWorld H
  unfolding get_logical_device_address select_logical_device
  probe_model none id m (ite, h) = (false, m, (ite, h))
  probe_model (some name) id m (ite, h) = check_address id ite (
      get_logical_device_address bus 0x60 (record m { model = id })
        (bus.sleep 50 (select_logical_device bus 0x04 m h)))

  -- probePort
  unfoldable pub ite_probe_port : Monitor → IteWorld H → Bool × Monitor × IteWorld H
  unfolding listen_port_word model_in ite_models
  ite_probe_port m (ite, h) =
      let (id, h1) = listen_port_word bus 0x20 m h in
      if id == 0 || id == 0xffff
      then (false, m, (ite, h1))
      else probe_model (model_in id ite_models) id m (record ite { has_smart_guardian = false }, h1)

  unfoldable pub ite_enter : Monitor → IteWorld H → IteWorld H
  ite_enter m (ite, h) = (
    ite,
    bus.outb m.register_port (if m.register_port == 0x4e then 0xaa else 0x55) (
        bus.outb m.register_port 0x55
          (bus.outb m.register_port 0x01 (bus.outb m.register_port 0x87 h))),
  )

  unfoldable pub ite_exit : Monitor → IteWorld H → IteWorld H
  ite_exit m (ite, h) = (ite, bus.outb m.value_port 0x02 (bus.outb m.register_port 0x02 h))

  -- The class IT87x.
  unfoldable pub it87x : Chip (IteWorld H)
  unfolding ite_enter ite_exit ite_probe_port ite_read_temperature ite_read_voltage
      ite_read_tachometer ite_value ite_set_value
  it87x = record {
    ports_count = 2;
    enter = ite_enter;
    exit = ite_exit;
    probe_port = ite_probe_port;
    read_temperature = ite_read_temperature;
    read_voltage = ite_read_voltage;
    read_tachometer = ite_read_tachometer;
    derived_value = ite_value;
    set_value = some ite_set_value;
  }
