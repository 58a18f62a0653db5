-- ===== src/SuperIo/Winbond/Class/Laws.antt =====
-- What WinbondW836x.cpp finds, and what it keeps of the SMC while it starts.
use fake_smc3_with_plugins.Prelude.{
  for_loop-invariant, if-both, for_loop, ltb, ◌==◌, if◌then◌else◌, All, Bytes, codes, ℕ, ◌/◌, ◌%◌,
  ◌≡◌, refl, Bool, true, false, ◌||◌, Option, none, some,
}
use fake_smc3_with_plugins.Smc.Store.Lookup.{FourChars}
use fake_smc3_with_plugins.Smc.Store.Invariant.{IsConsistent, IsConsistent-same_keys}
use fake_smc3_with_plugins.Smc.Load.Laws.{four_of}
use fake_smc3_with_plugins.SuperIo.Sensor.{temperature, voltage}
use fake_smc3_with_plugins.SuperIo.Bus.{Bus}
use fake_smc3_with_plugins.SuperIo.Own.{reading, change_own, acting}
use fake_smc3_with_plugins.SuperIo.Config.{
  Dictionary, Source, configured, as_text, as_flag, as_number, is_true, indexed,
  process_sensor_entry, find_named,
}
use fake_smc3_with_plugins.SuperIo.Config.Laws.{find_named-All}
use fake_smc3_with_plugins.SuperIo.Monitor.{add_tachometer}
use fake_smc3_with_plugins.SuperIo.Monitor.Laws.{
  add_derived-IsConsistent, add_tachometer-IsConsistent,
}
use fake_smc3_with_plugins.SuperIo.Fintek.{name_or_null}
use fake_smc3_with_plugins.SuperIo.Winbond.Fans.{winbond_read_tachometer}
use fake_smc3_with_plugins.SuperIo.Winbond.Class.{w836x}
use fake_smc3_with_plugins.SuperIo.Winbond.Class.Start.{
  winbond_voltage_keys, standard_factors, limit_or, WinbondDevice, add_winbond_heat,
  read_source_select, add_selected_heats, add_all_heats, add_winbond_temperatures,
  add_winbond_voltage_of, add_winbond_voltage_if_known, add_winbond_voltage, add_winbond_fan,
  prepare_fans, add_winbond_fans, start_winbond_with,
}

winbond_voltage_keys-FourChars :
    All (λ (r : Bytes × (Bytes × Bytes)). FourChars r.1.0) winbond_voltage_keys
unfolding winbond_voltage_keys
winbond_voltage_keys-FourChars = (
  four_of _ refl refl refl refl,
  (
    four_of _ refl refl refl refl,
    (
      four_of _ refl refl refl refl,
      (
        four_of _ refl refl refl refl,
        (
          four_of _ refl refl refl refl,
          (
            four_of _ refl refl refl refl,
            (
              four_of _ refl refl refl refl,
              (
                four_of _ refl refl refl refl,
                (four_of _ refl refl refl refl, (four_of _ refl refl refl refl, tt)),
              ),
            ),
          ),
        ),
      ),
    ),
  ),
)

module _ {H : Type 0} (bus : Bus H) where
  add_winbond_heat-IsConsistent :
      (key : Bytes) (i : ℕ) (d : WinbondDevice bus)
      → FourChars key
      → IsConsistent d
      → IsConsistent (add_winbond_heat bus key i d)
  unfolding add_winbond_heat
  add_winbond_heat-IsConsistent key i d four c =
      add_derived-IsConsistent (w836x bus) key (codes "sp78") 2 temperature i 0 1 0 d four c

  add_selected_heats-IsConsistent :
      (conf : Option Dictionary) (is_free0 is_free1 : Bool) (d : WinbondDevice bus)
      → IsConsistent d
      → IsConsistent (add_selected_heats bus conf is_free0 is_free1 d)
  unfolding add_selected_heats
  add_selected_heats-IsConsistent conf is_free0 is_free1 d c =
      let forced0 = is_true (as_flag (configured (codes "TEMPIN0FORCED") conf)) in
      let forced1 = is_true (as_flag (configured (codes "TEMPIN1FORCED") conf)) in
      let heatsink = add_winbond_heat bus (codes "Th0H") 0 d in
      let ambient = add_winbond_heat bus (codes "TA0P") 1 d in
      let other = if is_free1 || forced1 then ambient else d in
      let c1 : IsConsistent (if is_free0 || forced0 then heatsink else other) =
        if-both IsConsistent (is_free0 || forced0) heatsink other
          (add_winbond_heat-IsConsistent _ 0 d (four_of _ refl refl refl refl) c)
          (if-both IsConsistent (is_free1 || forced1) ambient d
            (add_winbond_heat-IsConsistent _ 1 d (four_of _ refl refl refl refl) c) c) in
      add_winbond_heat-IsConsistent _ 2 _ (four_of _ refl refl refl refl) c1

  add_all_heats-IsConsistent :
      (d : WinbondDevice bus) → IsConsistent d → IsConsistent (add_all_heats bus d)
  unfolding add_all_heats
  add_all_heats-IsConsistent d c =
      let d1 =
        add_winbond_heat bus (codes "TN0P") 2
          (add_winbond_heat bus (codes "TA0P") 1 (add_winbond_heat bus (codes "Th0H") 0 d)) in
      let c1 : IsConsistent d1 =
        add_winbond_heat-IsConsistent _ 2 _ (four_of _ refl refl refl refl) (
          add_winbond_heat-IsConsistent _ 1 _ (four_of _ refl refl refl refl)
            (add_winbond_heat-IsConsistent _ 0 d (four_of _ refl refl refl refl) c)) in
      if-both IsConsistent (ltb d.world.0.model 0xb470) d1
        (add_winbond_heat bus (codes "Tm0P") 3 d1) c1
        (add_winbond_heat-IsConsistent _ 3 d1 (four_of _ refl refl refl refl) c1)

  add_winbond_temperatures-IsConsistent :
      (conf : Option Dictionary) (d : WinbondDevice bus)
      → IsConsistent d
      → IsConsistent (add_winbond_temperatures bus conf d)
  unfolding add_winbond_temperatures reading
  add_winbond_temperatures-IsConsistent conf d c =
      let model = d.world.0.model in
      let (flag, d1) = reading (read_source_select bus) d in
      let c1 : IsConsistent d1 = IsConsistent-same_keys refl c in
      let some_of = add_selected_heats bus conf (flag / 4 % 2 == 0) (flag / 64 % 2 == 0) d1 in
      let others = add_selected_heats bus conf (flag % 8 == 0) (flag / 16 % 8 == 0) d1 in
      if-both IsConsistent (model == 0xa510 || model == 0xb350) some_of
        (if model == 0xa020 || model == 0xb070 then others else add_all_heats bus d)
        (add_selected_heats-IsConsistent conf (flag / 4 % 2 == 0) (flag / 64 % 2 == 0) d1 c1)
        (if-both IsConsistent (model == 0xa020 || model == 0xb070) others (add_all_heats bus d)
          (add_selected_heats-IsConsistent conf (flag % 8 == 0) (flag / 16 % 8 == 0) d1 c1)
          (add_all_heats-IsConsistent d c))

  add_winbond_voltage_of-IsConsistent :
      (name : Bytes) (source : Source) (i : ℕ) (d : WinbondDevice bus)
      → IsConsistent d
      → IsConsistent (add_winbond_voltage_of bus source (find_named name winbond_voltage_keys) i d)
  unfolding add_winbond_voltage_of
  add_winbond_voltage_of-IsConsistent name source i d c =
      known (find_named name winbond_voltage_keys) refl
    where
      known :
          (r : Option (Bytes × Bytes))
          → find_named name winbond_voltage_keys ≡ r
          → IsConsistent (add_winbond_voltage_of bus source r i d)
      known none e = c
      known (some (key, type)) e =
          add_derived-IsConsistent (w836x bus) key type 2 voltage i source.ri source.rf source.vf d
            (find_named-All (λ r. FourChars r.0) name winbond_voltage_keys
              winbond_voltage_keys-FourChars e)
            c

  add_winbond_voltage-IsConsistent :
      (conf : Option Dictionary) (i : ℕ) (d : WinbondDevice bus)
      → IsConsistent d
      → IsConsistent (add_winbond_voltage bus conf i d)
  unfolding add_winbond_voltage add_winbond_voltage_if_known
  add_winbond_voltage-IsConsistent conf i d c =
      known (process_sensor_entry (configured (indexed (codes "VIN") i) conf))
    where
      known : (r : Option Source) → IsConsistent (add_winbond_voltage_if_known bus r i d)
      known none = c
      known (some source) =
          add_winbond_voltage_of-IsConsistent source.name (standard_factors source) i d c

  add_winbond_fan-IsConsistent :
      (conf : Option Dictionary) (i : ℕ) (d : WinbondDevice bus)
      → IsConsistent d
      → IsConsistent (add_winbond_fan bus conf i d)
  unfolding add_winbond_fan reading
  add_winbond_fan-IsConsistent conf i d c =
      let name = name_or_null (as_text (configured (indexed (codes "FANIN") i) conf)) in
      let is_named : Bool = elim name [ none ↦ false | some _ ↦ true ] in
      let (speed, d1) = reading (winbond_read_tachometer bus i) d in
      let c1 : IsConsistent d1 = IsConsistent-same_keys refl c in
      if-both IsConsistent (ltb 10 speed || is_named) (add_tachometer (w836x bus) i name d1).1 d1
        (add_tachometer-IsConsistent (w836x bus) i name d1 c1) c1

  -- The start of the monitor for the chips of Winbond and Nuvoton keeps every key of the SMC well
  -- formed, #KEY first and the names unique, whatever the configuration holds and the chip answers.
  pub start_winbond_with-IsConsistent :
      (conf : Option Dictionary) (d : WinbondDevice bus)
      → IsConsistent d
      → IsConsistent (start_winbond_with bus conf d)
  unfolding start_winbond_with change_own add_winbond_fans acting
  start_winbond_with-IsConsistent conf d c =
      let d0 =
        change_own
          (λ own. record own {
            fan_limit = limit_or (as_number (configured (codes "FANINLIMIT") conf)) own.fan_limit;
          })
          d in
      let c0 : IsConsistent d0 = IsConsistent-same_keys refl c in
      let d1 = add_winbond_temperatures bus conf d0 in
      let c1 = add_winbond_temperatures-IsConsistent conf d0 c0 in
      let d2 = for_loop 9 0 (add_winbond_voltage bus conf) d1 in
      let c2 : IsConsistent d2 =
        for_loop-invariant IsConsistent 9 0 _ d1 (add_winbond_voltage-IsConsistent conf) c1 in
      let d3 = acting (prepare_fans bus) d2 in
      let c3 : IsConsistent d3 = IsConsistent-same_keys refl c2 in
      for_loop-invariant IsConsistent d2.world.1.0.fan_limit 0 _ d3
        (add_winbond_fan-IsConsistent conf) c3
