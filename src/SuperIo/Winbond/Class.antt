-- ===== src/SuperIo/Winbond/Class.antt =====
-- plugins/SuperIOSensors/WinbondW836x/: the class W836x and its sensors.
use fake_smc3_with_plugins.Prelude.{
  ◌==◌, if◌then◌else◌, ℕ, ◌/◌, ◌%◌, Bool, true, false, none, List, [], ◌∷◌,
}
pub mod Start
pub mod Laws
use fake_smc3_with_plugins.SuperIo.Sensor.{
  Sensor, SensorGroup, temperature, tachometer, voltage, frequency, extended,
}
use fake_smc3_with_plugins.SuperIo.Bus.{
  Bus, Monitor, Chip, listen_port_byte, select_logical_device, get_logical_device_address,
}
use fake_smc3_with_plugins.SuperIo.Long.{divided}
use fake_smc3_with_plugins.SuperIo.Monitor.{encode_for}
use fake_smc3_with_plugins.SuperIo.Fintek.{is_absent}
use fake_smc3_with_plugins.SuperIo.Winbond.Models.{identify}
use fake_smc3_with_plugins.SuperIo.Winbond.Fans.{
  Winbond, WinbondWorld, bank_read, winbond_read_temperature, winbond_read_voltage,
  winbond_read_tachometer,
}

-- NUVOTON_TEMPERATURE and the first four of WINBOND_VOLTAGE_REG, behind the seven registers that
-- probePort prints, each as 256 * bank + register.
unfoldable pub dumped_registers : List ℕ
dumped_registers =
    0x100 ∷ 0x200 ∷ 0x300 ∷ 0x073 ∷ 0x075 ∷ 0x077 ∷ 0x079 ∷ 0x150 ∷ 0x670 ∷ 0x027 ∷ 0x020 ∷ 0x021
    ∷ 0x023 ∷ 0x022 ∷ []

module _ {H : Type 0} (bus : Bus H) where
  unfoldable pub winbond_read_group :
      SensorGroup → ℕ → Monitor → WinbondWorld H → ℕ × WinbondWorld H
  unfolding winbond_read_temperature winbond_read_voltage winbond_read_tachometer
  winbond_read_group temperature index m w = winbond_read_temperature bus index m w
  winbond_read_group voltage index m w = winbond_read_voltage bus index m w
  winbond_read_group tachometer index m w = winbond_read_tachometer bus index m w
  winbond_read_group frequency index m w = (0, w)
  winbond_read_group (extended n) index m w = (0, w)

  -- W836xSensor::getValue. With a factor Rf of 0, Ri and Vf count as 0, now as in every later call.
  unfoldable pub winbond_value : Sensor → Monitor → WinbondWorld H → ℕ × WinbondWorld H
  unfolding winbond_read_group divided encode_for
  winbond_value s m w =
      let (value, w1) = winbond_read_group s.group s.index m w in
      let adjusted =
        if s.rf == 0
        then divided (value % 65536) 0 1 0
        else divided (value % 65536) s.ri s.rf s.vf in
      (encode_for s.type adjusted, w1)

  unfoldable pub dump : List ℕ → Monitor → H → H
  unfolding bank_read
  dump [] m h = h
  dump (place ∷ places) m h =
      let (byte, h1) = bank_read bus (place / 256) (place % 256) m h in dump places m h1

  abbrev pub dump_if_found : Winbond → Bool × Monitor × H → Bool × Monitor × WinbondWorld H
  unfolding dump dumped_registers
  dump_if_found own (false, m, h) = (false, m, (own, h))
  dump_if_found own (true, m, h) = (true, m, (own, dump dumped_registers m h))

  -- probePort
  unfoldable pub winbond_probe_port : Monitor → WinbondWorld H → Bool × Monitor × WinbondWorld H
  unfolding listen_port_byte is_absent identify get_logical_device_address select_logical_device
  winbond_probe_port m (own, h) =
      let (id, h1) = listen_port_byte bus 0x20 (record m { model = 0 }) h in
      let (revision, h2) = listen_port_byte bus 0x21 m (bus.sleep 50 h1) in
      let (model, fans) = identify (id % 256) (revision % 256) in
      let found : Winbond = record own { fan_limit = fans } in
      if is_absent (id % 256) (revision % 256)
      then (false, record m { model = 0 }, (own, h2))
      else if model == 0
      then (false, record m { model = 0 }, (found, h2))
      else dump_if_found found (
          get_logical_device_address bus 0x60 (record m { model = model })
            (bus.sleep 50 (select_logical_device bus 0x0b m h2)))

  unfoldable pub winbond_enter : Monitor → WinbondWorld H → WinbondWorld H
  winbond_enter m (own, h) = (own, bus.outb m.register_port 0x87 (bus.outb m.register_port 0x87 h))

  unfoldable pub winbond_exit : Monitor → WinbondWorld H → WinbondWorld H
  winbond_exit m (own, h) = (own, bus.outb m.register_port 0xaa h)

  -- The class W836x, which keeps the base class's two ports.
  unfoldable pub w836x : Chip (WinbondWorld H)
  unfolding winbond_enter winbond_exit winbond_probe_port winbond_read_temperature
      winbond_read_voltage winbond_read_tachometer winbond_value
  w836x = record {
    ports_count = 2;
    enter = winbond_enter;
    exit = winbond_exit;
    probe_port = winbond_probe_port;
    read_temperature = winbond_read_temperature bus;
    read_voltage = winbond_read_voltage bus;
    read_tachometer = winbond_read_tachometer bus;
    derived_value = winbond_value;
    set_value = none;
  }
