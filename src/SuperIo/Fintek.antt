-- ===== src/SuperIo/Fintek.antt =====
-- plugins/SuperIOSensors/Fintek718x/F718x.cpp: the monitor for the chips of Fintek. The floating-point
-- results are whole numbers here: a quotient of the numbers below is exact, or too far below the next
-- whole number to be rounded up to it.
pub mod Laws
use fake_smc3_with_plugins.Prelude.{
  ℕ, zero, suc, ◌+◌, ◌-◌, ◌*◌, ◌/◌, ◌%◌, ◌^◌, Bool, true, false, not, ◌||◌, Option, none, some,
  List, [], ◌∷◌, Bytes, codes, get_or, strlen, ltb, ◌==◌, if◌then◌else◌,
}
use fake_smc3_with_plugins.Smc.Device.{Device}
use fake_smc3_with_plugins.SuperIo.Sensor.{Sensor, SensorGroup, temperature, voltage, tachometer}
use fake_smc3_with_plugins.SuperIo.Bus.{
  Bus, Monitor, Chip, listen_port_byte, select_logical_device, get_logical_device_address,
}
use fake_smc3_with_plugins.SuperIo.Monitor.{World, add_sensor, add_tachometer}

-- FINTEK_FAN_TACHOMETER_REG
unfoldable pub fan_tachometer_reg : List ℕ
fan_tachometer_reg = 0xa0 ∷ 0xb0 ∷ 0xc0 ∷ 0xd0 ∷ []

-- The bits of a temperature of the F71858 by the mode of its table.
unfoldable pub temperature_bits : ℕ → ℕ → ℕ → ℕ
temperature_bits table_mode high low =
    let sign =
      if table_mode == 2
      then high / 128 * 32768
      else if table_mode == 3
      then low % 2 * 32768
      else 0 in
    sign + high * 128 + low / 32 * 16

-- (float)(short)bits / 128.0f as a long.
unfoldable pub short_over_128 : ℕ → ℕ
short_over_128 bits =
    if ltb bits 32768 then bits / 128 else (2 ^ 64 - (65536 - bits) / 128) % 2 ^ 64

unfoldable pub fan_speed : ℕ → ℕ
fan_speed value = if value == 0 then 0 else if ltb value 0x0fff then 1500000 / value else 0

-- The model and the logical device for the chip's id and revision.
unfoldable pub chip_of : ℕ → ℕ → Option (ℕ × ℕ)
chip_of id revision =
    if id == 0x05
    then if revision == 0x07
      then some (0x0507, 0x02)
      else if revision == 0x41
      then some (0x0541, 0x04)
      else none
    else if id == 0x06
    then if revision == 0x01 then some (0x0601, 0x04) else none
    else if id == 0x07
    then if revision == 0x23 then some (0x0723, 0x04) else none
    else if id == 0x08
    then if revision == 0x14 then some (0x0814, 0x04) else none
    else if id == 0x09
    then if revision == 0x01
      then some (0x0901, 0x04)
      else if revision == 0x09
      then some (0x0909, 0x04)
      else none
    else if id == 0x10
    then if revision == 0x05 then some (0x1005, 0x04) else none
    else if id == 0x11
    then if revision == 0x06 then some (0x1106, 0x04) else none
    else none

-- getModelName
unfoldable pub get_model_name : ℕ → Bytes
get_model_name model =
    if model == 0x0507
    then codes "F71858"
    else if model == 0x0601
    then codes "F71862"
    else if model == 0x0814
    then codes "F71869"
    else if model == 0x0541
    then codes "F71882"
    else if model == 0x0909
    then codes "F71889ED"
    else if model == 0x1005
    then codes "F71889AD"
    else if model == 0x0723
    then codes "F71889F"
    else if model == 0x0901
    then codes "F71808"
    else codes "unknown"

-- id == 0 || id == 0xff || revision == 0 || revision == 0xff
unfoldable pub is_absent : ℕ → ℕ → Bool
is_absent id revision = id == 0 || id == 0xff || revision == 0 || revision == 0xff

-- The string under FANIN…, or null if it is missing or empty.
abbrev pub name_or_null : Option Bytes → Option Bytes
name_or_null none = none
name_or_null (some name) = if strlen name == 0 then none else some name

module _ {H : Type 0} (bus : Bus H) where
  -- readByte; the register is an UInt8.
  unfoldable pub read_byte : ℕ → Monitor → H → ℕ × H
  read_byte reg m h =
      let (byte, h1) = bus.inb (m.address + 0x06) (bus.outb (m.address + 0x05) (reg % 256) h) in
      (byte % 256, h1)

  -- The branch of readTemperature for the F71858.
  unfoldable pub read_f71858 : ℕ → Monitor → H → ℕ × H
  unfolding read_byte temperature_bits short_over_128
  read_f71858 index m h =
      let (config, h1) = read_byte 0x69 m h in
      let (high, h2) = read_byte (0x70 + 2 * index) m h1 in
      let (low, h3) = read_byte (0x70 + 2 * index + 1) m h2 in
      if high == 0xbb || high == 0xcc
      then (0, h3)
      else (short_over_128 (temperature_bits (config % 4) high low), h3)

  unfoldable pub read_temperature : ℕ → Monitor → H → ℕ × H
  unfolding read_f71858 read_byte
  read_temperature index m h =
      if m.model == 0x0507 then read_f71858 index m h else read_byte (0x70 + 2 * (index + 1)) m h

  unfoldable pub read_voltage : ℕ → Monitor → H → ℕ × H
  unfolding read_byte
  read_voltage index m h =
      let (raw, h1) = read_byte (0x20 + index) m h in
      ((if index == 1 then raw * 16 / 2 else raw * 16), h1)

  -- The index stands inside of the table.
  unfoldable pub read_tachometer : ℕ → Monitor → H → ℕ × H
  unfolding read_byte fan_tachometer_reg fan_speed
  read_tachometer index m h =
      let (high, h1) = read_byte (get_or fan_tachometer_reg index 0) m h in
      let (low, h2) = read_byte (get_or fan_tachometer_reg index 0 + 1) m h1 in
      (fan_speed (high * 256 + low), h2)

  unfoldable pub enter : Monitor → H → H
  enter m h = bus.outb m.register_port 0x87 (bus.outb m.register_port 0x87 h)

  unfoldable pub exit : Monitor → H → H
  exit m h =
      bus.outb m.value_port 0x02 (bus.outb m.register_port 0x02 (bus.outb m.register_port 0xaa h))

  -- Behind the switch: `model` and `ldn` are what it set.
  unfoldable pub probe_device : ℕ → ℕ → Monitor → H → Bool × Monitor × H
  unfolding select_logical_device get_logical_device_address
  probe_device model ldn m h =
      if model == 0
      then (false, record m { model = model }, h)
      else get_logical_device_address bus 0x60 (record m { model = model })
          (select_logical_device bus ldn m h)

  unfoldable pub probe_known : Option (ℕ × ℕ) → Monitor → H → Bool × Monitor × H
  unfolding probe_device
  probe_known none m h = probe_device m.model 0 m h
  probe_known (some (model, ldn)) m h = probe_device model ldn m h

  -- probePort; an unknown chip leaves the model of an earlier port.
  unfoldable pub probe_port : Monitor → H → Bool × Monitor × H
  unfolding listen_port_byte is_absent chip_of probe_known
  probe_port m h =
      let (id, h1) = listen_port_byte bus 0x20 m h in
      let (revision, h2) = listen_port_byte bus 0x21 m h1 in
      if is_absent (id % 256) (revision % 256)
      then (false, m, h2)
      else probe_known (chip_of (id % 256) (revision % 256)) m h2

  unfoldable pub fintek : Chip H
  unfolding enter exit probe_port read_temperature read_voltage read_tachometer
  fintek = record {
    ports_count = 2;
    enter = enter;
    exit = exit;
    probe_port = probe_port;
    read_temperature = read_temperature;
    read_voltage = read_voltage;
    read_tachometer = read_tachometer;
    derived_value = λ s m h. (0, h);
    set_value = none;
  }

  -- The loop over the tachometers from `i` on, with `n` left. `names` are the strings under FANIN0,
  -- FANIN1, … of the configuration.
  unfoldable pub add_tachometers : (ℕ → Option Bytes) → ℕ → ℕ → Device (World H) → Device (World H)
  unfolding fintek add_tachometer
  add_tachometers names zero i d = d
  add_tachometers names (suc n) i d =
      let (speed, h') = read_tachometer i d.world.0 d.world.1 in
      let d' : Device (World H) = record d { world = (d.world.0, h') } in
      let name = name_or_null (names i) in
      let is_named : Bool = elim name [ none ↦ false | some _ ↦ true ] in
      add_tachometers names n (i + 1)
        (if ltb 10 speed || is_named then (add_tachometer fintek i name d').1 else d')

  -- start, behind that of the base class.
  unfoldable pub start : (ℕ → Option Bytes) → Device (World H) → Device (World H)
  unfolding fintek add_sensor add_tachometers
  start names d =
      let d1 = (add_sensor fintek (codes "Th0H") (codes "sp78") 2 temperature 0 0 1 0 d).1 in
      let d2 = (add_sensor fintek (codes "TN0P") (codes "sp78") 2 temperature 1 0 1 0 d1).1 in
      let d3 =
        if d2.world.0.model == 0x0507
        then d2
        else (add_sensor fintek (codes "VC0c") (codes "fp2e") 2 voltage 1 0 1 0 d2).1 in
      add_tachometers names (if d3.world.0.model == 0x0541 then 4 else 3) 0 d3
