-- ===== src/SuperIo/Bus.antt =====
-- plugins/SuperIOSensors/SuperIOFamily/SuperIOFamily.cpp: the access to the chip. The hardware is
-- the parameter `bus`, over a state `H` of its own: what `outb` and `inb` do, and the time that
-- IOSleep lets pass.
pub mod Laws
use fake_smc3_with_plugins.Prelude.{
  ℕ, ◌+◌, ◌*◌, ◌/◌, ◌%◌, Bool, true, false, not, ◌||◌, List, [], ◌∷◌, get_or, ltb, ◌==◌, Option,
  if◌then◌else◌, Bytes,
}
use fake_smc3_with_plugins.SuperIo.Sensor.{Sensor}

pub record Bus (H : Type 0) : Type 0 where
  pub outb : ℕ → ℕ → H → H
  pub inb : ℕ → H → ℕ × H
  pub sleep : ℕ → H → H

-- class SuperIOMonitor
pub record Monitor : Type 0 where
  pub address : ℕ
  pub register_port : ℕ
  pub value_port : ℕ
  pub model : ℕ
  pub sensors : List Sensor

-- SUPERIO_STANDART_PORT
unfoldable pub standart_port : List ℕ
standart_port = 0x2e ∷ 0x4e ∷ []

-- What selectPort leaves; the index stands inside of the table.
unfoldable pub select_port : ℕ → Monitor → Monitor
unfolding standart_port
select_port index m = record m {
  register_port = get_or standart_port index 0;
  value_port = (get_or standart_port index 0 + 1) % 256;
}

-- address < 0x100 || (address & 0xF007) != 0
unfoldable pub is_bad_address : ℕ → Bool
is_bad_address address = ltb address 0x100 || not (address / 4096 == 0) || not (address % 8 == 0)

module _ {H : Type 0} (bus : Bus H) where
  unfoldable pub listen_port_byte : ℕ → Monitor → H → ℕ × H
  listen_port_byte reg m h = bus.inb m.value_port (bus.outb m.register_port reg h)

  -- The high byte is asked for first, the order that the compilers take.
  unfoldable pub listen_port_word : ℕ → Monitor → H → ℕ × H
  unfolding listen_port_byte
  listen_port_word reg m h =
      let (high, h1) = listen_port_byte reg m h in
      let (low, h2) = listen_port_byte ((reg + 1) % 256) m h1 in (high % 256 * 256 + low % 256, h2)

  unfoldable pub select_logical_device : ℕ → Monitor → H → H
  select_logical_device num m h = bus.outb m.value_port num (bus.outb m.register_port 0x07 h)

  -- The second reading, after a pause.
  abbrev pub confirm_address : ℕ → ℕ → Monitor → H → Bool × Monitor × H
  unfolding listen_port_word
  confirm_address address reg m h =
      let (again, h1) = listen_port_word reg m (bus.sleep 250 h) in
      (address == again, record m { address = address }, h1)

  -- getLogicalDeviceAddress
  unfoldable pub get_logical_device_address : ℕ → Monitor → H → Bool × Monitor × H
  unfolding listen_port_word is_bad_address
  get_logical_device_address reg m h =
      let (address, h1) = listen_port_word reg m h in
      if is_bad_address address
      then (false, record m { address = address }, h1)
      else confirm_address address reg m h1

-- The virtual functions that a chip's class overrides. A `long` is a number modulo 2^64.
-- `derived_value` and `set_value` are getValue and setValue of the class of sensors that the chip
-- derives; `set_value` is missing where the chip does not answer the SMC's stores.
pub record Chip (H : Type 0) : Type 0 where
  pub ports_count : ℕ
  pub enter : Monitor → H → H
  pub exit : Monitor → H → H
  pub probe_port : Monitor → H → Bool × Monitor × H
  pub read_temperature : ℕ → Monitor → H → ℕ × H
  pub read_voltage : ℕ → Monitor → H → ℕ × H
  pub read_tachometer : ℕ → Monitor → H → ℕ × H
  pub derived_value : Sensor → Monitor → H → ℕ × H
  pub set_value : Option (Sensor → ℕ → Monitor → H → H)
