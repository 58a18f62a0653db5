-- ===== src/SuperIo/Winbond/Class/Start.antt =====
-- plugins/SuperIOSensors/WinbondW836x/WinbondW836x.cpp: the start of the monitor, behind that of the
-- base class. The branch for isCpuCore_i, which is always false, is not modelled.
use fake_smc3_with_plugins.Prelude.{
  for_loop, ltb, ◌==◌, if◌then◌else◌, Bytes, codes, ℕ, ◌/◌, ◌%◌, Bool, true, false, not, ◌||◌,
  Option, none, some, List, [], ◌∷◌,
}
use fake_smc3_with_plugins.Smc.Device.{Device}
use fake_smc3_with_plugins.SuperIo.Sensor.{temperature, voltage}
use fake_smc3_with_plugins.SuperIo.Bus.{Bus, Monitor}
use fake_smc3_with_plugins.SuperIo.Own.{reading, change_own, acting}
use fake_smc3_with_plugins.SuperIo.Config.{
  Dictionary, Platform, Outcome, crashed, done, Source, configured, as_text, as_flag, as_number,
  is_true, indexed, process_sensor_entry, find_named, choose_configuration,
}
use fake_smc3_with_plugins.SuperIo.Monitor.{World, add_derived, add_tachometer, same_string}
use fake_smc3_with_plugins.SuperIo.Fintek.{name_or_null}
use fake_smc3_with_plugins.SuperIo.Winbond.Fans.{
  WinbondWorld, bank_read, mark_obsolete, update_tachometers, winbond_read_tachometer,
}
use fake_smc3_with_plugins.SuperIo.Winbond.Class.{w836x}

-- The keys and their types for the names of the voltages.
unfoldable pub winbond_voltage_keys : List (Bytes × (Bytes × Bytes))
winbond_voltage_keys =
    (codes "CPU", (codes "VS0C", codes "fp2e"))
    ∷ (codes "Memory", (codes "VM0R", codes "fp2e"))
    ∷ (codes "+5VC", (codes "Vp1C", codes "sp4b"))
    ∷ (codes "+5VSB", (codes "Vp2C", codes "sp4b"))
    ∷ (codes "+12VC", (codes "VP0R", codes "sp4b"))
    ∷ (codes "-12VC", (codes "Vp0C", codes "sp4b"))
    ∷ (codes "3VCC", (codes "Vp3C", codes "fp2e"))
    ∷ (codes "3VSB", (codes "Vp4C", codes "fp2e"))
    ∷ (codes "VBAT", (codes "VBAT", codes "fp2e"))
    ∷ (codes "AVCC", (codes "Vp5C", codes "fp2e"))
    ∷ []

-- The factors that replace those of a source with Ri = 0.
unfoldable pub standard_factors : Source → Source
unfolding same_string
standard_factors s =
    if not (s.ri == 0)
    then s
    else if same_string s.name (codes "+5VC") || same_string s.name (codes "+5VSB")
    then record s { ri = 20; rf = 10 }
    else if same_string s.name (codes "+12VC")
    then record s { ri = 60; rf = 10 }
    else if same_string s.name (codes "-12VC")
    then record s { ri = 232; rf = 10; vf = 2048 }
    else s

-- The limit of the configuration, an UInt8.
abbrev pub limit_or : Option ℕ → ℕ → ℕ
limit_or none old = old
limit_or (some n) old = n % 256

module _ {H : Type 0} (bus : Bus H) where
  abbrev pub WinbondDevice : Type 0
  WinbondDevice = Device (World (WinbondWorld H))

  unfoldable pub add_winbond_heat : Bytes → ℕ → WinbondDevice → WinbondDevice
  unfolding w836x add_derived
  add_winbond_heat key index d =
      (add_derived (w836x bus) key (codes "sp78") 2 temperature index 0 1 0 d).1

  -- readByte(0, WINBOND_TEMPERATURE_SOURCE_SELECT_REG)
  unfoldable pub read_source_select : Monitor → WinbondWorld H → ℕ × WinbondWorld H
  unfolding bank_read
  read_source_select m (own, h) = let (flag, h1) = bank_read bus 0 0x49 m h in (flag, (own, h1))

  -- The heatsink's sensor, or else the ambient one, each unless it reads PECI and is not forced; then
  -- the northbridge's.
  unfoldable pub add_selected_heats :
      Option Dictionary → Bool → Bool → WinbondDevice → WinbondDevice
  unfolding add_winbond_heat configured
  add_selected_heats c is_free0 is_free1 d =
      let forced0 = is_true (as_flag (configured (codes "TEMPIN0FORCED") c)) in
      let forced1 = is_true (as_flag (configured (codes "TEMPIN1FORCED") c)) in
      let d1 =
        if is_free0 || forced0
        then add_winbond_heat (codes "Th0H") 0 d
        else if is_free1 || forced1
        then add_winbond_heat (codes "TA0P") 1 d
        else d in
      add_winbond_heat (codes "TN0P") 2 d1

  -- The sensors of the chips that do not read PECI.
  unfoldable pub add_all_heats : WinbondDevice → WinbondDevice
  unfolding add_winbond_heat
  add_all_heats d =
      let d1 =
        add_winbond_heat (codes "TN0P") 2
          (add_winbond_heat (codes "TA0P") 1 (add_winbond_heat (codes "Th0H") 0 d)) in
      if ltb d.world.0.model 0xb470 then d1 else add_winbond_heat (codes "Tm0P") 3 d1

  unfoldable pub add_winbond_temperatures : Option Dictionary → WinbondDevice → WinbondDevice
  unfolding reading read_source_select add_selected_heats add_all_heats
  add_winbond_temperatures c d =
      let model = d.world.0.model in
      let (flag, d1) = reading read_source_select d in
      if model == 0xa510 || model == 0xb350
      then add_selected_heats c (flag / 4 % 2 == 0) (flag / 64 % 2 == 0) d1
      else if model == 0xa020 || model == 0xb070
      then add_selected_heats c (flag % 8 == 0) (flag / 16 % 8 == 0) d1
      else add_all_heats d

  unfoldable pub add_winbond_voltage_of :
      Source → Option (Bytes × Bytes) → ℕ → WinbondDevice → WinbondDevice
  unfolding w836x add_derived
  add_winbond_voltage_of source none index d = d
  add_winbond_voltage_of source (some (key, type)) index d =
      (add_derived (w836x bus) key type 2 voltage index source.ri source.rf source.vf d).1

  unfoldable pub add_winbond_voltage_if_known : Option Source → ℕ → WinbondDevice → WinbondDevice
  unfolding find_named winbond_voltage_keys add_winbond_voltage_of standard_factors
  add_winbond_voltage_if_known none index d = d
  add_winbond_voltage_if_known (some source) index d =
      add_winbond_voltage_of (standard_factors source) (find_named source.name winbond_voltage_keys)
        index d

  -- The body of the loop over the voltages.
  unfoldable pub add_winbond_voltage : Option Dictionary → ℕ → WinbondDevice → WinbondDevice
  unfolding configured indexed process_sensor_entry add_winbond_voltage_if_known
  add_winbond_voltage c i d =
      add_winbond_voltage_if_known (process_sensor_entry (configured (indexed (codes "VIN") i) c)) i
        d

  -- The body of the last loop: a fan that turns or has a name gets its tachometer.
  unfoldable pub add_winbond_fan : Option Dictionary → ℕ → WinbondDevice → WinbondDevice
  unfolding reading winbond_read_tachometer configured indexed w836x add_tachometer
  add_winbond_fan c i d =
      let name = name_or_null (as_text (configured (indexed (codes "FANIN") i) c)) in
      let is_named : Bool = elim name [ none ↦ false | some _ ↦ true ] in
      let (speed, d1) = reading (winbond_read_tachometer bus i) d in
      if ltb 10 speed || is_named then (add_tachometer (w836x bus) i name d1).1 else d1

  -- Every fan's speed is marked as obsolete and then read anew.
  unfoldable pub prepare_fans : Monitor → WinbondWorld H → WinbondWorld H
  unfolding for_loop mark_obsolete update_tachometers
  prepare_fans m (own, h) = update_tachometers bus m (for_loop own.fan_limit 0 mark_obsolete own, h)

  unfoldable pub add_winbond_fans : Option Dictionary → WinbondDevice → WinbondDevice
  unfolding for_loop acting prepare_fans add_winbond_fan
  add_winbond_fans c d =
      for_loop d.world.1.0.fan_limit 0 (add_winbond_fan c) (acting prepare_fans d)

  -- start, with the configuration that was found.
  unfoldable pub start_winbond_with : Option Dictionary → WinbondDevice → WinbondDevice
  unfolding change_own configured add_winbond_temperatures for_loop add_winbond_voltage
      add_winbond_fans
  start_winbond_with c d =
      let limited =
        change_own
          (λ own. record own {
            fan_limit = limit_or (as_number (configured (codes "FANINLIMIT") c)) own.fan_limit;
          })
          d in
      add_winbond_fans c (for_loop 9 0 (add_winbond_voltage c) (add_winbond_temperatures c limited))

  abbrev pub start_winbond_chosen :
      Outcome (Option Dictionary) → WinbondDevice → Outcome WinbondDevice
  unfolding start_winbond_with
  start_winbond_chosen crashed d = crashed
  start_winbond_chosen (done c) d = done (start_winbond_with c d)

  -- start
  unfoldable pub start_winbond :
      Option Dictionary → Option Platform → WinbondDevice → Outcome WinbondDevice
  unfolding choose_configuration
  start_winbond lists platform d = start_winbond_chosen (choose_configuration lists platform) d
