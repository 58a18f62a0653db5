-- ===== src/SuperIo/Ite/Laws.antt =====
-- What ITEIT87x.cpp keeps of the SMC while it starts.
use fake_smc3_with_plugins.Prelude.{
  for_loop, ltb, Bool, true, false, ◌||◌, for_loop-invariant, if-both, ltb→lt, All, Bytes, codes, ℕ,
  ◌≡◌, refl, Option, none, some, List, [], ◌∷◌,
}
use fake_smc3_with_plugins.Smc.Store.Lookup.{FourChars}
use fake_smc3_with_plugins.Smc.Store.Invariant.{IsConsistent, IsConsistent-same_keys}
use fake_smc3_with_plugins.Smc.Load.Laws.{four_of}
use fake_smc3_with_plugins.SuperIo.Sensor.{SensorGroup, temperature, voltage, extended}
use fake_smc3_with_plugins.SuperIo.Bus.{Bus}
use fake_smc3_with_plugins.SuperIo.Own.{reading, change_own}
use fake_smc3_with_plugins.SuperIo.Config.{
  Dictionary, Source, configured, as_text, indexed, process_sensor_entry, find_named,
}
use fake_smc3_with_plugins.SuperIo.Config.Laws.{find_named-All}
use fake_smc3_with_plugins.SuperIo.Monitor.{fan_key, add_tachometer}
use fake_smc3_with_plugins.SuperIo.Monitor.Laws.{
  fan_key-FourChars, add_derived-IsConsistent, add_tachometer-IsConsistent,
}
use fake_smc3_with_plugins.SuperIo.Fintek.{name_or_null}
use fake_smc3_with_plugins.SuperIo.Ite.Class.{it87x, ite_read_temperature, ite_read_tachometer}
use fake_smc3_with_plugins.SuperIo.Ite.Start.{
  temperature_keys, voltage_keys, smart_guardian_keys, IteDevice, add_heat_sensor,
  add_heat_if_known, key_of_name, add_configured_heat, add_standard_heat, add_temperatures,
  prepare_voltages, add_voltage_of, add_voltage_if_known, add_voltage, add_control,
  add_fan_controls, add_fan_if_present, is_guarded, add_ite_fan, start_ite_with,
}

temperature_keys-FourChars : All (λ (r : Bytes × Bytes). FourChars r.1) temperature_keys
unfolding temperature_keys
temperature_keys-FourChars = (
  four_of _ refl refl refl refl,
  (
    four_of _ refl refl refl refl,
    (four_of _ refl refl refl refl, (four_of _ refl refl refl refl, tt)),
  ),
)

voltage_keys-FourChars : All (λ (r : Bytes × (Bytes × Bytes)). FourChars r.1.0) voltage_keys
unfolding voltage_keys
voltage_keys-FourChars = (
  four_of _ refl refl refl refl,
  (
    four_of _ refl refl refl refl,
    (
      four_of _ refl refl refl refl,
      (
        four_of _ refl refl refl refl,
        (
          four_of _ refl refl refl refl,
          (
            four_of _ refl refl refl refl,
            (
              four_of _ refl refl refl refl,
              (four_of _ refl refl refl refl, (four_of _ refl refl refl refl, tt)),
            ),
          ),
        ),
      ),
    ),
  ),
)

-- A suffix of two characters makes the keys of all fans names of four.
abbrev IsSuffix : Bytes → Type 0
IsSuffix suffix = (i : ℕ) → FourChars (fan_key i suffix)

smart_guardian_keys-IsSuffix : All (λ (r : Bytes × SensorGroup). IsSuffix r.0) smart_guardian_keys
unfolding smart_guardian_keys
smart_guardian_keys-IsSuffix = (
  (λ i. fan_key-FourChars i _ _ (ltb→lt 0 0x54 refl) (ltb→lt 0 0x67 refl)),
  (
    (λ i. fan_key-FourChars i _ _ (ltb→lt 0 0x53 refl) (ltb→lt 0 0x74 refl)),
    (
      (λ i. fan_key-FourChars i _ _ (ltb→lt 0 0x53 refl) (ltb→lt 0 0x73 refl)),
      (
        (λ i. fan_key-FourChars i _ _ (ltb→lt 0 0x46 refl) (ltb→lt 0 0x74 refl)),
        (
          (λ i. fan_key-FourChars i _ _ (ltb→lt 0 0x50 refl) (ltb→lt 0 0x74 refl)),
          (
            (λ i. fan_key-FourChars i _ _ (ltb→lt 0 0x46 refl) (ltb→lt 0 0x6f refl)),
            ((λ i. fan_key-FourChars i _ _ (ltb→lt 0 0x43 refl) (ltb→lt 0 0x74 refl)), tt),
          ),
        ),
      ),
    ),
  ),
)

module _ {H : Type 0} (bus : Bus H) where
  add_heat_sensor-IsConsistent :
      (key : Bytes) (i : ℕ) (d : IteDevice bus)
      → FourChars key
      → IsConsistent d
      → IsConsistent (add_heat_sensor bus key i d)
  unfolding add_heat_sensor
  add_heat_sensor-IsConsistent key i d four c =
      add_derived-IsConsistent (it87x bus) key (codes "sp78") 2 temperature i 0 1 0 d four c

  add_heat_if_known-IsConsistent :
      (name : Option Bytes) (i : ℕ) (d : IteDevice bus)
      → IsConsistent d
      → IsConsistent (add_heat_if_known bus (key_of_name bus name) i d)
  unfolding add_heat_if_known key_of_name
  add_heat_if_known-IsConsistent none i d c = c
  add_heat_if_known-IsConsistent (some name) i d c = known (find_named name temperature_keys) refl
    where
      known :
          (r : Option Bytes)
          → find_named name temperature_keys ≡ r
          → IsConsistent (add_heat_if_known bus r i d)
      known none e = c
      known (some key) e =
          add_heat_sensor-IsConsistent key i d
            (find_named-All FourChars name temperature_keys temperature_keys-FourChars e) c

  add_configured_heat-IsConsistent :
      (conf : Option Dictionary) (i : ℕ) (d : IteDevice bus)
      → IsConsistent d
      → IsConsistent (add_configured_heat bus conf i d)
  unfolding add_configured_heat reading
  add_configured_heat-IsConsistent conf i d c =
      let (t, d1) = reading (ite_read_temperature bus i) d in
      let name = as_text (configured (indexed (codes "TEMPIN") i) conf) in
      let c1 : IsConsistent d1 = IsConsistent-same_keys refl c in
      if-both IsConsistent (ltb t 127) (add_heat_if_known bus (key_of_name bus name) i d1) d1
        (add_heat_if_known-IsConsistent name i d1 c1) c1

  add_standard_heat-IsConsistent :
      (key : Bytes) (i : ℕ) (d : IteDevice bus)
      → FourChars key
      → IsConsistent d
      → IsConsistent (add_standard_heat bus key i d)
  unfolding add_standard_heat reading
  add_standard_heat-IsConsistent key i d four c =
      let (t, d1) = reading (ite_read_temperature bus i) d in
      let c1 : IsConsistent d1 = IsConsistent-same_keys refl c in
      if-both IsConsistent (ltb t 127) (add_heat_sensor bus key i d1) d1
        (add_heat_sensor-IsConsistent key i d1 four c1) c1

  add_temperatures-IsConsistent :
      (conf : Option Dictionary) (d : IteDevice bus)
      → IsConsistent d
      → IsConsistent (add_temperatures bus conf d)
  unfolding add_temperatures
  add_temperatures-IsConsistent none d c =
      add_standard_heat-IsConsistent _ 2 _ (four_of _ refl refl refl refl) (
        add_standard_heat-IsConsistent _ 1 _ (four_of _ refl refl refl refl)
          (add_standard_heat-IsConsistent _ 0 d (four_of _ refl refl refl refl) c))
  add_temperatures-IsConsistent (some conf) d c =
      for_loop-invariant IsConsistent 3 0 _ d (add_configured_heat-IsConsistent (some conf)) c

  add_voltage_of-IsConsistent :
      (source : Source) (i : ℕ) (d : IteDevice bus)
      → IsConsistent d
      → IsConsistent (add_voltage_of bus source (find_named source.name voltage_keys) i d)
  unfolding add_voltage_of
  add_voltage_of-IsConsistent source i d c = known (find_named source.name voltage_keys) refl
    where
      known :
          (r : Option (Bytes × Bytes))
          → find_named source.name voltage_keys ≡ r
          → IsConsistent (add_voltage_of bus source r i d)
      known none e = c
      known (some (key, type)) e =
          add_derived-IsConsistent (it87x bus) key type 2 voltage i source.ri source.rf source.vf d
            (find_named-All (λ r. FourChars r.0) source.name voltage_keys voltage_keys-FourChars e)
            c

  add_voltage-IsConsistent :
      (conf : Option Dictionary) (i : ℕ) (d : IteDevice bus)
      → IsConsistent d
      → IsConsistent (add_voltage bus conf i d)
  unfolding add_voltage add_voltage_if_known
  add_voltage-IsConsistent conf i d c =
      known (process_sensor_entry (configured (indexed (codes "VIN") i) conf))
    where
      known : (r : Option Source) → IsConsistent (add_voltage_if_known bus r i d)
      known none = c
      known (some source) = add_voltage_of-IsConsistent source i d c

  add_control-IsConsistent :
      (key : Bytes) (group : SensorGroup) (i : ℕ) (d : IteDevice bus)
      → FourChars key
      → IsConsistent d
      → IsConsistent (add_control bus key group i d)
  unfolding add_control
  add_control-IsConsistent key group i d four c =
      add_derived-IsConsistent (it87x bus) key (codes "ui8") 1 group i 0 1 0 d four c

  add_fan_controls-IsConsistent :
      (keys : List (Bytes × SensorGroup)) (i : ℕ) (d : IteDevice bus)
      → All (λ (r : Bytes × SensorGroup). IsSuffix r.0) keys
      → IsConsistent d
      → IsConsistent (add_fan_controls bus keys i d)
  unfolding add_fan_controls
  add_fan_controls-IsConsistent [] i d h c = c
  add_fan_controls-IsConsistent ((suffix, group) ∷ keys) i d h c =
      add_fan_controls-IsConsistent keys i _ h.1
        (add_control-IsConsistent (fan_key i suffix) group i d (h.0 i) c)

  add_fan_if_present-IsConsistent :
      (conf : Option Dictionary) (i : ℕ) (d : IteDevice bus)
      → IsConsistent d
      → IsConsistent (add_fan_if_present bus conf i d)
  unfolding add_fan_if_present reading
  add_fan_if_present-IsConsistent conf i d c =
      let name = name_or_null (as_text (configured (indexed (codes "FANIN") i) conf)) in
      let is_named : Bool = elim name [ none ↦ false | some _ ↦ true ] in
      let (speed, d1) = reading (ite_read_tachometer bus i) d in
      let c1 : IsConsistent d1 = IsConsistent-same_keys refl c in
      if-both IsConsistent (ltb 10 speed || is_named) (add_tachometer (it87x bus) i name d1).1 d1
        (add_tachometer-IsConsistent (it87x bus) i name d1 c1) c1

  add_ite_fan-IsConsistent :
      (conf : Option Dictionary) (i : ℕ) (d : IteDevice bus)
      → IsConsistent d
      → IsConsistent (add_ite_fan bus conf i d)
  unfolding add_ite_fan change_own
  add_ite_fan-IsConsistent conf i d c =
      let d1 =
        change_own (λ ite. record ite { has_smart_guardian = is_guarded bus conf })
          (add_fan_if_present bus conf i d) in
      let c1 : IsConsistent d1 =
        IsConsistent-same_keys refl (add_fan_if_present-IsConsistent conf i d c) in
      if-both IsConsistent (is_guarded bus conf) (add_fan_controls bus smart_guardian_keys i d1) d1
        (add_fan_controls-IsConsistent smart_guardian_keys i d1 smart_guardian_keys-IsSuffix c1) c1

  -- The start of the monitor for ITE's chips keeps every key of the SMC well formed, #KEY first and
  -- the names unique, whatever the configuration holds and the chip answers.
  pub start_ite_with-IsConsistent :
      (conf : Option Dictionary) (d : IteDevice bus)
      → IsConsistent d
      → IsConsistent (start_ite_with bus conf d)
  unfolding start_ite_with prepare_voltages
  start_ite_with-IsConsistent conf d c =
      let d0 = add_temperatures bus conf d in
      let d1 = prepare_voltages bus conf d0 in
      let c1 : IsConsistent d1 =
        IsConsistent-same_keys refl (add_temperatures-IsConsistent conf d c) in
      let d2 = for_loop 9 0 (add_voltage bus conf) d1 in
      let c2 : IsConsistent d2 =
        for_loop-invariant IsConsistent 9 0 _ d1 (add_voltage-IsConsistent conf) c1 in
      let d3 = for_loop 5 0 (add_ite_fan bus conf) d2 in
      let c3 : IsConsistent d3 =
        for_loop-invariant IsConsistent 5 0 _ d2 (add_ite_fan-IsConsistent conf) c2 in
      let d4 = add_control bus (codes "FMCL") (extended 10) 0 d3 in
      if-both IsConsistent (is_guarded bus conf) (add_control bus (codes "FMCR") (extended 11) 0 d4)
        d3
        (add_control-IsConsistent _ (extended 11) 0 d4 (four_of _ refl refl refl refl)
          (add_control-IsConsistent _ (extended 10) 0 d3 (four_of _ refl refl refl refl) c3))
        c3
