-- ===== src/SuperIo/Nsc/Laws.antt =====
-- What PC8739x.cpp reads and adds.
use fake_smc3_with_plugins.Prelude.{
  ℕ, ◌≡◌, ◌∙◌, Bool, true, false, refl, Option, none, some, Bytes, codes, arith, if◌then◌else◌, ltb,
  ◌||◌,
}
use fake_smc3_with_plugins.Smc.Device.{Device}
use fake_smc3_with_plugins.Smc.Store.Lookup.{FourChars}
use fake_smc3_with_plugins.Smc.Store.Invariant.{IsConsistent, IsConsistent-same_keys}
use fake_smc3_with_plugins.Smc.Load.Laws.{four_of}
use fake_smc3_with_plugins.SuperIo.Codec.{encode_fpe2, decode_fpe2}
use fake_smc3_with_plugins.SuperIo.Codec.Laws.{decode_fpe2-encode_fpe2}
use fake_smc3_with_plugins.SuperIo.Sensor.{temperature}
use fake_smc3_with_plugins.SuperIo.Bus.{Bus, Monitor}
use fake_smc3_with_plugins.SuperIo.Monitor.{World, add_tachometer}
use fake_smc3_with_plugins.SuperIo.Monitor.Laws.{
  add_sensor-IsConsistent, add_tachometer-IsConsistent,
}
use fake_smc3_with_plugins.SuperIo.Fintek.{name_or_null}
use fake_smc3_with_plugins.SuperIo.Nsc.{
  speed_of, load_tachometer, nsc, memory_base, add_heat, add_fan_0, start_nsc,
}

module _ {H : Type 0} (bus : Bus H) (load : ℕ → H → ℕ × H) where
  -- A speed that the chip's monitor reads survives the encoding of its key: decoding gives it back.
  pub decode_fpe2-load_tachometer :
      (base index : ℕ) (m : Monitor) (h : H)
      → let speed = (load_tachometer bus load base index m h).0 in
        decode_fpe2 (encode_fpe2 speed) ≡ speed
  unfolding load_tachometer speed_of
  decode_fpe2-load_tachometer base index m h =
      decode_fpe2-encode_fpe2 ((load_tachometer bus load base index m h).0) ∙ omega arith

  add_heat-IsConsistent :
      (base : ℕ) (name : Bytes) (index : ℕ) (d : Device (World H))
      → FourChars name
      → IsConsistent d
      → IsConsistent (add_heat bus load base name index d)
  unfolding add_heat
  add_heat-IsConsistent base name index d four c =
      add_sensor-IsConsistent (nsc bus load base) name (codes "sp78") 2 temperature index 0 1 0 d
        four c

  add_fan_0-IsConsistent :
      (base : ℕ) (name : Option Bytes) (d : Device (World H))
      → IsConsistent d
      → IsConsistent (add_fan_0 bus load base name d)
  unfolding add_fan_0
  add_fan_0-IsConsistent base name d c =
      let (speed, h') = load_tachometer bus load base 0 d.world.0 d.world.1 in
      let d' : Device (World H) = record d { world = (d.world.0, h') } in
      let is_named : Bool = elim (name_or_null name) [ none ↦ false | some _ ↦ true ] in
      chosen (ltb 10 speed || is_named)
        (add_tachometer (nsc bus load base) 0 (name_or_null name) d').1 d'
        (add_tachometer-IsConsistent (nsc bus load base) 0 (name_or_null name) d'
          (IsConsistent-same_keys refl c))
        (IsConsistent-same_keys refl c)
    where
      chosen :
          (b : Bool) (x y : Device (World H))
          → IsConsistent x
          → IsConsistent y
          → IsConsistent (if b then x else y)
      chosen true x y c c' = c
      chosen false x y c c' = c'

  -- The start of the monitor for the PC8739x keeps every key of the SMC well formed, #KEY first and
  -- the names unique, whatever the chip answers.
  pub start_nsc-IsConsistent :
      (name : Option Bytes) (d : Device (World H))
      → IsConsistent d
      → IsConsistent (start_nsc bus load name d)
  unfolding start_nsc
  start_nsc-IsConsistent name d c =
      let (base, h') = memory_base bus load d.world.0 d.world.1 in
      let d0 : Device (World H) = record d { world = (d.world.0, h') } in
      let c0 : IsConsistent d0 = IsConsistent-same_keys refl c in
      let c1 = add_heat-IsConsistent base (codes "Th0H") 2 d0 (four_of _ refl refl refl refl) c0 in
      let c2 = add_heat-IsConsistent base (codes "TN0P") 0 _ (four_of _ refl refl refl refl) c1 in
      let c3 = add_heat-IsConsistent base (codes "Tm0P") 1 _ (four_of _ refl refl refl refl) c2 in
      let c4 = add_heat-IsConsistent base (codes "TA0P") 3 _ (four_of _ refl refl refl refl) c3 in
      add_fan_0-IsConsistent base name _ c4
