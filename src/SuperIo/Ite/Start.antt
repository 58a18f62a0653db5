-- ===== src/SuperIo/Ite/Start.antt =====
-- plugins/SuperIOSensors/ITE87x/ITEIT87x.cpp: the start of the monitor, behind that of the base class.
use fake_smc3_with_plugins.Prelude.{
  for_loop, ltb, if◌then◌else◌, Bytes, codes, ℕ, Bool, true, false, ◌||◌, Option, none, some, List,
  [], ◌∷◌,
}
use fake_smc3_with_plugins.Smc.Device.{Device}
use fake_smc3_with_plugins.SuperIo.Sensor.{SensorGroup, temperature, voltage, frequency, extended}
use fake_smc3_with_plugins.SuperIo.Bus.{Bus}
use fake_smc3_with_plugins.SuperIo.Own.{reading, change_own}
use fake_smc3_with_plugins.SuperIo.Config.{
  Dictionary, Platform, Outcome, crashed, done, Source, configured, as_text, as_flag, is_true,
  indexed, process_sensor_entry, find_named, choose_configuration,
}
use fake_smc3_with_plugins.SuperIo.Monitor.{World, fan_key, add_derived, add_tachometer, stop}
use fake_smc3_with_plugins.SuperIo.Fintek.{name_or_null}
use fake_smc3_with_plugins.SuperIo.Ite.Class.{
  IteWorld, it87x, ite_read, refresh_vbat, ite_read_temperature, ite_read_tachometer,
}

-- The keys for the names of the temperatures.
unfoldable pub temperature_keys : List (Bytes × Bytes)
temperature_keys =
    (codes "CPU", codes "Th0H")
    ∷ (codes "System", codes "TN0P")
    ∷ (codes "Ambient", codes "TA0P")
    ∷ (codes "Memory", codes "Tm0P")
    ∷ []

-- The keys and their types for the names of the voltages.
unfoldable pub voltage_keys : List (Bytes × (Bytes × Bytes))
voltage_keys =
    (codes "CPU", (codes "VS0C", codes "fp2e"))
    ∷ (codes "Memory", (codes "VM0R", codes "fp2e"))
    ∷ (codes "+5VC", (codes "Vp1C", codes "sp4b"))
    ∷ (codes "+5VSB", (codes "Vp2C", codes "sp4b"))
    ∷ (codes "+12VC", (codes "VP0R", codes "sp4b"))
    ∷ (codes "-12VC", (codes "Vp0C", codes "sp4b"))
    ∷ (codes "3VCC", (codes "Vp3C", codes "fp2e"))
    ∷ (codes "3VSB", (codes "Vp4C", codes "fp2e"))
    ∷ (codes "VBAT", (codes "VBAT", codes "fp2e"))
    ∷ []

-- What follows the fan's number in the keys of the SmartGuardian, with their groups, in order.
unfoldable pub smart_guardian_keys : List (Bytes × SensorGroup)
smart_guardian_keys =
    (codes "Tg", frequency)
    ∷ (codes "St", extended 5)
    ∷ (codes "Ss", extended 4)
    ∷ (codes "Ft", extended 6)
    ∷ (codes "Pt", extended 7)
    ∷ (codes "Fo", extended 8)
    ∷ (codes "Ct", extended 9)
    ∷ []

module _ {H : Type 0} (bus : Bus H) where
  abbrev pub IteDevice : Type 0
  IteDevice = Device (World (IteWorld H))

  -- addSensor of a temperature.
  unfoldable pub add_heat_sensor : Bytes → ℕ → IteDevice → IteDevice
  unfolding it87x add_derived
  add_heat_sensor key index d =
      (add_derived (it87x bus) key (codes "sp78") 2 temperature index 0 1 0 d).1

  unfoldable pub add_heat_if_known : Option Bytes → ℕ → IteDevice → IteDevice
  unfolding add_heat_sensor
  add_heat_if_known none index d = d
  add_heat_if_known (some key) index d = add_heat_sensor key index d

  unfoldable pub key_of_name : Option Bytes → Option Bytes
  unfolding find_named temperature_keys
  key_of_name none = none
  key_of_name (some name) = find_named name temperature_keys

  -- The body of the loop over the temperatures, with a configuration: a temperature of 127 or more
  -- is no sensor.
  unfoldable pub add_configured_heat : Option Dictionary → ℕ → IteDevice → IteDevice
  unfolding reading ite_read_temperature configured indexed
  add_configured_heat c i d =
      let (t, d1) = reading (ite_read_temperature bus i) d in
      if ltb t 127
      then add_heat_if_known (key_of_name (as_text (configured (indexed (codes "TEMPIN") i) c))) i
          d1
      else d1

  -- The same for one of the three sensors that are taken without a configuration.
  unfoldable pub add_standard_heat : Bytes → ℕ → IteDevice → IteDevice
  unfolding reading ite_read_temperature add_heat_sensor
  add_standard_heat key i d =
      let (t, d1) = reading (ite_read_temperature bus i) d in
      if ltb t 127 then add_heat_sensor key i d1 else d1

  unfoldable pub add_temperatures : Option Dictionary → IteDevice → IteDevice
  unfolding for_loop add_configured_heat add_standard_heat
  add_temperatures none d =
      add_standard_heat (codes "TN0P") 2
        (add_standard_heat (codes "Tm0P") 1 (add_standard_heat (codes "Th0H") 0 d))
  add_temperatures (some c) d = for_loop 3 0 (add_configured_heat (some c)) d

  -- The ADC's register is only printed; then the battery's reading is refreshed, if it needs that.
  unfoldable pub prepare_voltages : Option Dictionary → IteDevice → IteDevice
  unfolding ite_read refresh_vbat configured
  prepare_voltages c d =
      let (m, (ite, h)) = d.world in
      let (enabled, h1) = ite_read bus m.address 0x50 h in
      let updates = is_true (as_flag (configured (codes "VBATNeedUpdates") c)) in
      record d {
        world = (m, (record ite { vbat_updates = updates }, refresh_vbat bus updates m.address h1));
      }

  unfoldable pub add_voltage_of : Source → Option (Bytes × Bytes) → ℕ → IteDevice → IteDevice
  unfolding it87x add_derived
  add_voltage_of source none index d = d
  add_voltage_of source (some (key, type)) index d =
      (add_derived (it87x bus) key type 2 voltage index source.ri source.rf source.vf d).1

  unfoldable pub add_voltage_if_known : Option Source → ℕ → IteDevice → IteDevice
  unfolding find_named voltage_keys
  add_voltage_if_known none index d = d
  add_voltage_if_known (some source) index d =
      add_voltage_of source (find_named source.name voltage_keys) index d

  -- The body of the loop over the voltages.
  unfoldable pub add_voltage : Option Dictionary → ℕ → IteDevice → IteDevice
  unfolding configured indexed process_sensor_entry
  add_voltage c i d =
      add_voltage_if_known (process_sensor_entry (configured (indexed (codes "VIN") i) c)) i d

  -- One key of one byte that controls a fan.
  unfoldable pub add_control : Bytes → SensorGroup → ℕ → IteDevice → IteDevice
  unfolding it87x add_derived
  add_control key group index d =
      (add_derived (it87x bus) key (codes "ui8") 1 group index 0 1 0 d).1

  unfoldable pub add_fan_controls : List (Bytes × SensorGroup) → ℕ → IteDevice → IteDevice
  unfolding fan_key add_control
  add_fan_controls [] i d = d
  add_fan_controls ((suffix, group) ∷ keys) i d =
      add_fan_controls keys i (add_control (fan_key i suffix) group i d)

  -- The body of the loop over the tachometers: a fan that turns or has a name becomes one.
  unfoldable pub add_fan_if_present : Option Dictionary → ℕ → IteDevice → IteDevice
  unfolding reading ite_read_tachometer configured indexed it87x add_tachometer
  add_fan_if_present c i d =
      let name = name_or_null (as_text (configured (indexed (codes "FANIN") i) c)) in
      let is_named : Bool = elim name [ none ↦ false | some _ ↦ true ] in
      let (speed, d1) = reading (ite_read_tachometer bus i) d in
      if ltb 10 speed || is_named then (add_tachometer (it87x bus) i name d1).1 else d1

  unfoldable pub is_guarded : Option Dictionary → Bool
  unfolding configured
  is_guarded c = is_true (as_flag (configured (codes "SmartGuardian") c))

  unfoldable pub add_ite_fan : Option Dictionary → ℕ → IteDevice → IteDevice
  unfolding add_fan_if_present change_own is_guarded add_fan_controls smart_guardian_keys
  add_ite_fan c i d =
      let d1 =
        change_own (λ ite. record ite { has_smart_guardian = is_guarded c })
          (add_fan_if_present c i d) in
      if is_guarded c then add_fan_controls smart_guardian_keys i d1 else d1

  -- start, with the configuration that was found.
  unfoldable pub start_ite_with : Option Dictionary → IteDevice → IteDevice
  unfolding add_temperatures prepare_voltages for_loop add_voltage add_ite_fan add_control
      is_guarded
  start_ite_with c d =
      let d1 = prepare_voltages c (add_temperatures c d) in
      let d2 = for_loop 5 0 (add_ite_fan c) (for_loop 9 0 (add_voltage c) d1) in
      if is_guarded c
      then add_control (codes "FMCR") (extended 11) 0
          (add_control (codes "FMCL") (extended 10) 0 d2)
      else d2

  unfoldable pub start_chosen : Outcome (Option Dictionary) → IteDevice → Outcome IteDevice
  unfolding start_ite_with
  start_chosen crashed d = crashed
  start_chosen (done c) d = done (start_ite_with c d)

  -- start
  unfoldable pub start_ite : Option Dictionary → Option Platform → IteDevice → Outcome IteDevice
  unfolding choose_configuration
  start_ite lists platform d = start_chosen (choose_configuration lists platform) d

  -- stop
  unfoldable pub stop_ite : IteDevice → IteDevice
  unfolding it87x
  stop_ite d = stop (it87x bus) d
