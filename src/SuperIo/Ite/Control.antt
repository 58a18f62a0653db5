-- ===== src/SuperIo/Ite/Control.antt =====
-- The keys with which a host controls the fans of ITE's chips: a byte that is stored in the key goes
-- to the chip's register, and comes back from there.
use fake_smc3_with_plugins.SuperIo.Monitor.Found.{get_value_found, set_value_found}
use fake_smc3_with_plugins.Smc.Key.{get_value, set_value_from_buffer, Key}
use fake_smc3_with_plugins.Prelude.{
  overwrite, refl, Bool, [], ◌∷◌, Bytes, codes, read_bytes, load32, ℕ, ◌%◌, ◌<◌, ◌≡◌, ap, ◌∙◌, some,
  arith,
}
use fake_smc3_with_plugins.SuperIo.Sensor.{
  Sensor, SensorGroup, temperature, tachometer, voltage, frequency, extended, derived_with_owner,
  with_owner,
}
use fake_smc3_with_plugins.SuperIo.Bus.{Bus, Monitor}
use fake_smc3_with_plugins.SuperIo.Long.{divided}
use fake_smc3_with_plugins.SuperIo.Long.Laws.{divided_above}
use fake_smc3_with_plugins.SuperIo.Monitor.{
  World, monitor_callback, get_sensor, stored_value, value_bytes, encode_for, is_type, sensor_value,
  class_value,
}
use fake_smc3_with_plugins.SuperIo.Ite.Registers.{smart_guard_reg}
use fake_smc3_with_plugins.SuperIo.Ite.Class.{
  ite_write, write_smart_guard, ite_set_value, Ite, IteWorld, it87x, ite_read, read_smart_guard,
  ite_read_group, ite_value,
}

-- The sensor that start makes for a key of the SmartGuardian.
unfoldable pub control_sensor : Bytes → SensorGroup → ℕ → Sensor
unfolding derived_with_owner
control_sensor key group index = derived_with_owner key (codes "ui8") 1 group index 0 1 0

module _ {H : Type 0} (bus : Bus H) where
  ite_read_group-control :
      (group : SensorGroup) (index reg : ℕ) (m : Monitor) (w : IteWorld H)
      → smart_guard_reg group index ≡ some reg
      → ite_read_group bus group index m w ≡ read_smart_guard bus (some reg) m w
  unfolding ite_read_group smart_guard_reg
  ite_read_group-control temperature index reg m w e = absurd (cc)
  ite_read_group-control voltage index reg m w e = absurd (cc)
  ite_read_group-control tachometer index reg m w e = absurd (cc)
  ite_read_group-control frequency index reg m w e = ap (λ r. read_smart_guard bus r m w) e
  ite_read_group-control (extended n) index reg m w e = ap (λ r. read_smart_guard bus r m w) e

  -- What a control reads is its register.
  sensor_value-control :
      (key : Bytes) (group : SensorGroup) (index reg : ℕ) (m : Monitor) (ite : Ite) (h : H)
      → smart_guard_reg group index ≡ some reg
      → (ite_read bus m.address reg h).0 < 256
      → (sensor_value (it87x bus) (control_sensor key group index) (m, (ite, h))).0
        ≡ (ite_read bus m.address reg h).0
  unfolding sensor_value class_value it87x ite_value encode_for is_type load32 with_owner
      control_sensor derived_with_owner read_bytes read_smart_guard
  sensor_value-control key group index reg m ite h e small =
      ap (λ (x : ℕ × IteWorld H). divided (x.0 % 65536) 0 1 0 % 65536)
        (ite_read_group-control group index reg m (ite, h) e)
      ∙ (ap (λ x. x % 65536)
            (divided_above ((ite_read bus m.address reg h).0 % 65536) 0 1 0 (omega arith)
              (omega arith) (omega arith) (omega arith))
          ∙ omega arith)

  ite_set_value-control :
      (key : Bytes) (group : SensorGroup) (index reg value : ℕ) (m : Monitor) (ite : Ite) (h : H)
      → smart_guard_reg group index ≡ some reg
      → ite_set_value bus (control_sensor key group index) value m (ite, h)
        ≡ (ite, ite_write bus m.address reg value h)
  unfolding ite_set_value control_sensor derived_with_owner with_owner write_smart_guard
  ite_set_value-control key group index reg value m ite h e =
      ap (λ r. write_smart_guard bus r value m (ite, h)) e

  -- A byte that the SMC stores in the key of a control of the SmartGuardian is what the SMC reads
  -- from it then, if the chip's register keeps what is written to it.
  pub get_value-set_value :
      (k : Key) (handler v : ℕ) (key : Bytes) (group : SensorGroup) (index reg : ℕ) (m : Monitor)
      (ite : Ite) (h : H)
      → v < 256
      → k.handler ≡ some handler
      → get_sensor k.name m ≡ some (control_sensor key group index)
      → smart_guard_reg group index ≡ some reg
      → ((value : ℕ) (h' : H)
          → (ite_read bus m.address reg (ite_write bus m.address reg value h')).0 ≡ value % 256)
      → let call = monitor_callback (it87x bus) in
        let (stored, k', w) = set_value_from_buffer call (some (v ∷ [])) 1 k (m, (ite, h)) in
        (get_value call k' w).0.value ≡ v ∷ []
  unfolding it87x value_bytes overwrite read_bytes stored_value with_owner control_sensor
      derived_with_owner
  get_value-set_value k handler v key group index reg m ite h small answered found e remembers =
      ap
        (λ (r : Bool × Key × World (IteWorld H)).
          (get_value (monitor_callback (it87x bus)) r.1 r.2).0.value)
        (set_value_found (it87x bus) k handler v m (ite, h) s (ite_set_value bus) answered found
          refl refl)
      ∙ (get_value_found (it87x bus) (record k { size = 1; value = v ∷ [] }) handler m
            (ite_set_value bus s (stored_value (v ∷ [])) m (ite, h)) s answered found
          ∙ (ap (λ (w : IteWorld H). ((sensor_value (it87x bus) s (m, w)).0 % 256) ∷ [])
                (ite_set_value-control key group index reg (stored_value (v ∷ [])) m ite h e)
              ∙ ap (λ x. (x % 256) ∷ [])
                  (sensor_value-control key group index reg m ite h' e (omega arith) ∙ got)
              ∙ ap (λ x. x ∷ []) (omega arith)))
    where
      s : Sensor
      s = control_sensor key group index

      h' : H
      h' = ite_write bus m.address reg (stored_value (v ∷ [])) h

      got : (ite_read bus m.address reg h').0 ≡ v
      got = remembers (stored_value (v ∷ [])) h ∙ omega arith
