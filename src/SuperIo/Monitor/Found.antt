-- ===== src/SuperIo/Monitor/Found.antt =====
-- The SMC's calls of a monitor of SuperIOFamily.cpp for a key whose name is that of a sensor.
use fake_smc3_with_plugins.Prelude.{
  if◌then◌else◌, Bool, Bytes, read_bytes, overwrite, ℕ, ◌≡◌, ap, ◌∙◌, true, some, [], ◌∷◌,
}
use fake_smc3_with_plugins.Smc.Key.{
  IoReturn, success, bad_argument, Key, get_value, notify, store_value, set_value_from_buffer,
  get_value_callback, set_value_callback,
}
use fake_smc3_with_plugins.SuperIo.Sensor.{Sensor}
use fake_smc3_with_plugins.SuperIo.Bus.{Monitor, Chip}
use fake_smc3_with_plugins.SuperIo.Monitor.{
  World, value_bytes, get_sensor, sensor_value, stored_value, store_with, monitor_callback,
  answer_with,
}

module _ {H : Type 0} (chip : Chip H) where
  -- The key's value becomes the first bytes of its old value, the two first overwritten.
  pub get_value_found :
      (k : Key) (handler : ℕ) (m : Monitor) (h : H) (s : Sensor)
      → k.handler ≡ some handler
      → get_sensor k.name m ≡ some s
      → (get_value (monitor_callback chip) k (m, h)).0.value
        ≡ read_bytes k.size (overwrite (value_bytes (sensor_value chip s (m, h)).0) k.value)
  unfolding get_value notify monitor_callback
  get_value_found k handler m h s answered found =
      ap (λ r. (notify (monitor_callback chip) get_value_callback r k (m, h)).0.value) answered
      ∙ ap (λ r. read_bytes k.size (answer_with chip r k.value (m, h)).1) found

  -- A byte that the SMC stores in the key reaches the sensor of a derived class.
  pub set_value_found :
      (k : Key) (handler v : ℕ) (m : Monitor) (h : H) (s : Sensor)
      (write : Sensor → ℕ → Monitor → H → H)
      → k.handler ≡ some handler
      → get_sensor k.name m ≡ some s
      → chip.set_value ≡ some write
      → s.is_derived ≡ true
      → set_value_from_buffer (monitor_callback chip) (some (v ∷ [])) 1 k (m, h)
        ≡ (true, record k { size = 1; value = v ∷ [] }, (m, write s (stored_value (v ∷ [])) m h))
  unfolding set_value_from_buffer store_value notify monitor_callback store_with stored_value
      read_bytes
  set_value_found k handler v m h s write answered found writes derived =
      ap (λ r. done (notify (monitor_callback chip) set_value_callback r k' (m, h))) answered
      ∙ (ap (λ x. done (after (store_with chip x (get_sensor k.name m) (v ∷ []) (m, h)))) writes
          ∙ (ap (λ x. done (after (store_with chip (some write) x (v ∷ []) (m, h)))) found
              ∙ ap
                  (λ (b : Bool). done (
                    after (
                      if b
                      then (success, v ∷ [], (m, write s (stored_value (v ∷ [])) m h))
                      else (bad_argument, v ∷ [], (m, h)))))
                  derived))
    where
      k' : Key
      k' = record k { size = 1; value = v ∷ [] }

      after : IoReturn × Bytes × World H → Key × World H
      after (r, answer, w) = (record k' { value = read_bytes 1 answer }, w)

      done : Key × World H → Bool × Key × World H
      done (key, w) = (true, key, w)
