-- ===== src/SuperIo/Fintek/Laws.antt =====
-- What F718x.cpp finds, reads and adds.
use fake_smc3_with_plugins.Prelude.{
  ◌*◌, arith, ℕ, zero, suc, ◌≡◌, ◌+◌, ◌%◌, Bool, true, false, refl, Option, none, some, Bytes,
  codes, if◌then◌else◌, ltb, ◌==◌, ◌||◌,
}
use fake_smc3_with_plugins.Smc.Device.{Device}
use fake_smc3_with_plugins.Smc.Store.Invariant.{IsConsistent, IsConsistent-same_keys}
use fake_smc3_with_plugins.Smc.Load.Laws.{four_of}
use fake_smc3_with_plugins.SuperIo.Sensor.{temperature, voltage}
use fake_smc3_with_plugins.SuperIo.Bus.{Bus, Monitor, listen_port_byte}
use fake_smc3_with_plugins.SuperIo.Bus.Laws.{IsAddress, get_logical_device_address-IsAddress}
use fake_smc3_with_plugins.SuperIo.Monitor.{World, add_tachometer}
use fake_smc3_with_plugins.SuperIo.Monitor.Laws.{
  add_sensor-IsConsistent, add_tachometer-IsConsistent,
}
use fake_smc3_with_plugins.SuperIo.Fintek.{
  add_sensor, read_tachometer, fintek, chip_of, is_absent, probe_device, probe_known, probe_port,
  name_or_null, add_tachometers, start,
}

-- Where the chip's id and revision are known, the model is their 16-bit number, and the hardware
-- monitor is the logical device 2 of the F71858, of id 5 and revision 7, and 4 of the others.
pub chip_of_lem :
    (id revision model ldn : ℕ)
    → chip_of id revision ≡ some (model, ldn)
    → (model ≡ id * 256 + revision) × (ldn ≡ (if model == 0x0507 then 2 else 4))
unfolding chip_of
chip_of_lem id revision model ldn e = (ground arith, ground arith)

module _ {H : Type 0} (bus : Bus H) where
  guarded :
      (b : Bool) (x y : Bool × Monitor × H)
      → x.0 ≡ false
      → ((y.0 ≡ true) → IsAddress y.1.address)
      → (if b then x else y).0 ≡ true
      → IsAddress (if b then x else y).1.address
  guarded true x y f good e = absurd (cc)
  guarded false x y f good e = good e

  probe_device-IsAddress :
      (model ldn : ℕ) (m : Monitor) (h : H)
      → (probe_device bus model ldn m h).0 ≡ true
      → IsAddress (probe_device bus model ldn m h).1.address
  unfolding probe_device
  probe_device-IsAddress model ldn m h e =
      guarded (model == 0) _ _ refl
        (get_logical_device_address-IsAddress bus 0x60 (record m { model = model }) _) e

  probe_known-IsAddress :
      (r : Option (ℕ × ℕ)) (m : Monitor) (h : H)
      → (probe_known bus r m h).0 ≡ true
      → IsAddress (probe_known bus r m h).1.address
  unfolding probe_known
  probe_known-IsAddress none m h e = probe_device-IsAddress m.model 0 m h e
  probe_known-IsAddress (some (model, ldn)) m h e = probe_device-IsAddress model ldn m h e

  -- A port that probePort accepts has an address for the hardware monitor: at least 0x100, below
  -- 0x1000, and a multiple of 8.
  pub probe_port-IsAddress :
      (m : Monitor) (h : H)
      → (probe_port bus m h).0 ≡ true
      → IsAddress (probe_port bus m h).1.address
  unfolding probe_port
  probe_port-IsAddress m h e =
      let (id, h1) = listen_port_byte bus 0x20 m h in
      let (revision, h2) = listen_port_byte bus 0x21 m h1 in
      guarded (is_absent (id % 256) (revision % 256)) (false, m, h2) _ refl
        (probe_known-IsAddress (chip_of (id % 256) (revision % 256)) m h2) e

  step-IsConsistent :
      (b : Bool) (x y : Device (World H))
      → IsConsistent x
      → IsConsistent y
      → IsConsistent (if b then x else y)
  step-IsConsistent true x y c c' = c
  step-IsConsistent false x y c c' = c'

  add_tachometers-IsConsistent :
      (names : ℕ → Option Bytes) (n i : ℕ) (d : Device (World H))
      → IsConsistent d
      → IsConsistent (add_tachometers bus names n i d)
  unfolding add_tachometers
  add_tachometers-IsConsistent names zero i d c = c
  add_tachometers-IsConsistent names (suc n) i d c =
      let (speed, h') = read_tachometer bus i d.world.0 d.world.1 in
      let d' : Device (World H) = record d { world = (d.world.0, h') } in
      let name = name_or_null (names i) in
      let is_named : Bool = elim name [ none ↦ false | some _ ↦ true ] in
      add_tachometers-IsConsistent names n (i + 1) _ (
        step-IsConsistent (ltb 10 speed || is_named) (add_tachometer (fintek bus) i name d').1 d'
          (add_tachometer-IsConsistent (fintek bus) i name d' (IsConsistent-same_keys refl c))
          (IsConsistent-same_keys refl c))

  -- The start of the monitor keeps every key of the SMC well formed, #KEY first and the names unique,
  -- whatever the chip answers.
  pub start-IsConsistent :
      (names : ℕ → Option Bytes) (d : Device (World H))
      → IsConsistent d
      → IsConsistent (start bus names d)
  unfolding start
  start-IsConsistent names d c =
      let four = four_of (codes "Th0H") refl refl refl refl in
      let c1 =
        add_sensor-IsConsistent (fintek bus) (codes "Th0H") heat 2 temperature 0 0 1 0 d four c in
      let c2 =
        add_sensor-IsConsistent (fintek bus) (codes "TN0P") heat 2 temperature 1 0 1 0 d1
          (four_of (codes "TN0P") refl refl refl refl) c1 in
      let c3 =
        add_sensor-IsConsistent (fintek bus) (codes "VC0c") (codes "fp2e") 2 voltage 1 0 1 0 d2
          (four_of (codes "VC0c") refl refl refl refl) c2 in
      add_tachometers-IsConsistent names (if d3.world.0.model == 0x0541 then 4 else 3) 0 d3
        (step-IsConsistent (d2.world.0.model == 0x0507) d2 _ c2 c3)
    where
      heat : Bytes
      heat = codes "sp78"

      d1 : Device (World H)
      d1 = (add_sensor (fintek bus) (codes "Th0H") heat 2 temperature 0 0 1 0 d).1

      d2 : Device (World H)
      d2 = (add_sensor (fintek bus) (codes "TN0P") heat 2 temperature 1 0 1 0 d1).1

      d3 : Device (World H)
      d3 =
          if d2.world.0.model == 0x0507
          then d2
          else (add_sensor (fintek bus) (codes "VC0c") (codes "fp2e") 2 voltage 1 0 1 0 d2).1
