-- ===== src/SuperIo/Monitor/Laws.antt =====
-- What the monitor of SuperIOFamily.cpp and the SMC keep and answer together.
use fake_smc3_with_plugins.Prelude.{
  ◌/◌, ◌%◌, ◌∙◌, ◌++◌, ℕ, ◌≡◌, ◌<◌, Bool, true, false, refl, ap, Option, none, some, [], ◌∷◌, Bytes,
  codes, read_bytes, overwrite, get_or, take, ltb, ltb→lt, arith, if◌then◌else◌,
}
use fake_smc3_with_plugins.Smc.Key.{
  Key, get_value, notify, get_value_callback, success, error, bad_argument, unsupported,
}
use fake_smc3_with_plugins.Smc.Device.{Device}
use fake_smc3_with_plugins.Smc.Store.Lookup.{FourChars}
use fake_smc3_with_plugins.Smc.Store.Invariant.{IsConsistent, IsConsistent-same_keys}
use fake_smc3_with_plugins.Smc.Platform.{
  nothing, handler_found, value_found, Answer, PlatformCall, set_key_value, add_key_handler,
  get_key_value,
}
use fake_smc3_with_plugins.Smc.Platform.Laws.{
  IsNamed, call_platform_function-IsConsistent, remove_key_handler-kept,
}
use fake_smc3_with_plugins.SuperIo.Sensor.{Sensor, SensorGroup}
use fake_smc3_with_plugins.SuperIo.Bus.{Monitor, Chip}
use fake_smc3_with_plugins.SuperIo.Monitor.{
  World, self, smc, value_bytes, get_sensor, sensor_value, monitor_callback, answer_with,
  push_sensor, if_added, add_new, add_made, add_derived, add_sensor, hex_digit, fan_key,
  describe_fan, count_fan, add_fan, add_tachometer, stop,
}

hex_digit-pos : (n : ℕ) → 0 < hex_digit n
unfolding hex_digit
hex_digit-pos n = ground arith

four_positive : (x y z : ℕ) → 0 < x → 0 < y → 0 < z → FourChars (0x46 ∷ x ∷ y ∷ z ∷ [])
four_positive x y z p q r = record {
  first = omega arith;
  second = omega arith;
  third = omega arith;
  fourth = omega arith;
}

-- The name of a fan's key has four characters, whatever the number.
pub fan_key-FourChars : (fan a b : ℕ) → 0 < a → 0 < b → FourChars (fan_key fan (a ∷ b ∷ []))
unfolding fan_key
fan_key-FourChars fan a b p q = go (ltb fan 16)
  where
    go :
        (c : Bool)
        → FourChars (
            take 4 (
              0x46
              ∷ ((if c
                    then hex_digit fan ∷ []
                    else hex_digit (fan / 16) ∷ hex_digit (fan % 16) ∷ [])
                  ++ a ∷ b ∷ [])))
    go true = four_positive _ _ _ (hex_digit-pos fan) p q
    go false = four_positive _ _ _ (hex_digit-pos (fan / 16)) (hex_digit-pos (fan % 16)) p

module _ {H : Type 0} (chip : Chip H) where
  -- The SMC's question to the monitor for a key of two bytes whose name is that of a sensor is
  -- answered with the sensor's reading, least significant byte first.
  pub get_value-sensor :
      (k : Key) (handler : ℕ) (m : Monitor) (h : H) (s : Sensor)
      → k.handler ≡ some handler
      → k.size ≡ 2
      → get_sensor k.name m ≡ some s
      → (get_value (monitor_callback chip) k (m, h)).0.value
        ≡ value_bytes (sensor_value chip s (m, h)).0
  unfolding get_value notify monitor_callback value_bytes read_bytes overwrite
  get_value-sensor k handler m h s answered two found =
      ap (λ r. (notify (monitor_callback chip) get_value_callback r k (m, h)).0.value) answered
      ∙ (ap (λ r. read_bytes k.size (answer_with chip r k.value (m, h)).1) found
          ∙ ap (λ n. read_bytes n (overwrite (value_bytes (sensor_value chip s (m, h)).0) k.value))
              two)

  smc-IsConsistent :
      (c : PlatformCall) (d : Device (World H))
      → IsNamed c
      → IsConsistent d
      → IsConsistent (smc chip c d).2
  unfolding smc
  smc-IsConsistent c d n ok = call_platform_function-IsConsistent (monitor_callback chip) c d n ok

  if_added-IsConsistent :
      (s : Sensor) (a : Answer (World H)) → IsConsistent a.2 → IsConsistent (if_added chip s a).1
  if_added-IsConsistent s (success, out, d) c = c
  if_added-IsConsistent s (error, out, d) c = c
  if_added-IsConsistent s (bad_argument, out, d) c = c
  if_added-IsConsistent s (unsupported, out, d) c = c

  add_made-IsConsistent :
      (r : Option Sensor) (s : Sensor) (name type : Bytes) (size : ℕ) (d : Device (World H))
      → FourChars name
      → IsConsistent d
      → IsConsistent (add_made chip r s name type size d).1
  unfolding add_made push_sensor
  add_made-IsConsistent (some old) s name type size d four c = c
  add_made-IsConsistent none s name type size d four c = if_added-IsConsistent _ _ (
      smc-IsConsistent (add_key_handler (some name) (some type) size (some self))
        (push_sensor chip s d) four (IsConsistent-same_keys refl c))

  -- addSensor keeps every key of the SMC well formed, #KEY first and the names unique, if the name
  -- has four characters.
  pub add_sensor-IsConsistent :
      (name type : Bytes) (size : ℕ) (group : SensorGroup) (index ri rf vf : ℕ)
      (d : Device (World H))
      → FourChars name
      → IsConsistent d
      → IsConsistent (add_sensor chip name type size group index ri rf vf d).1
  unfolding add_sensor add_new
  add_sensor-IsConsistent name type size group index ri rf vf d four c =
      add_made-IsConsistent (get_sensor name d.world.0) _ name type size d four c

  pub add_derived-IsConsistent :
      (name type : Bytes) (size : ℕ) (group : SensorGroup) (index ri rf vf : ℕ)
      (d : Device (World H))
      → FourChars name
      → IsConsistent d
      → IsConsistent (add_derived chip name type size group index ri rf vf d).1
  unfolding add_derived
  add_derived-IsConsistent name type size group index ri rf vf d four c =
      add_made-IsConsistent (get_sensor name d.world.0) _ name type size d four c

  describe_fan-IsConsistent :
      (fan : ℕ) (id : Option Bytes) (d : Device (World H))
      → IsConsistent d
      → IsConsistent (describe_fan chip fan id d)
  unfolding describe_fan
  describe_fan-IsConsistent fan none d c = c
  describe_fan-IsConsistent fan (some id) d c =
      smc-IsConsistent _ d (fan_key-FourChars fan _ _ (ltb→lt 0 0x49 refl) (ltb→lt 0 0x44 refl)) c

  count_fan-IsConsistent :
      (fan : ℕ) (id : Option Bytes) (r : Option Sensor × Device (World H))
      → IsConsistent r.1
      → IsConsistent (count_fan chip fan id r).1
  unfolding count_fan
  count_fan-IsConsistent fan id (none, d) c = c
  count_fan-IsConsistent fan id (some s, d) c =
      smc-IsConsistent (set_key_value _ 1 _) _ tt (describe_fan-IsConsistent fan id d c)

  add_fan-IsConsistent :
      (index : ℕ) (id : Option Bytes) (a : Answer (World H))
      → IsConsistent a.2
      → IsConsistent (add_fan chip index id a).1
  unfolding add_fan
  add_fan-IsConsistent index id (success, value_found size bytes, d) c =
      count_fan-IsConsistent (get_or bytes 0 0) id _ (
        add_sensor-IsConsistent _ _ 2 _ index 0 1 0 d
          (fan_key-FourChars (get_or bytes 0 0) _ _ (ltb→lt 0 0x41 refl) (ltb→lt 0 0x63 refl)) c)
  add_fan-IsConsistent index id (success, nothing, d) c = c
  add_fan-IsConsistent index id (success, handler_found h, d) c = c
  add_fan-IsConsistent index id (error, out, d) c = c
  add_fan-IsConsistent index id (bad_argument, out, d) c = c
  add_fan-IsConsistent index id (unsupported, out, d) c = c

  -- addTachometer keeps every key of the SMC well formed, #KEY first and the names unique.
  pub add_tachometer-IsConsistent :
      (index : ℕ) (id : Option Bytes) (d : Device (World H))
      → IsConsistent d
      → IsConsistent (add_tachometer chip index id d).1
  unfolding add_tachometer
  add_tachometer-IsConsistent index id d c =
      add_fan-IsConsistent index id _
        (smc-IsConsistent (get_key_value (some (codes "FNum"))) d tt c)

  -- A monitor that stops leaves the SMC as it was: its keys keep it as their handler.
  pub stop-kept : (d : Device (World H)) → stop chip d ≡ d
  unfolding stop smc
  stop-kept d =
      ap (λ (a : Answer (World H)). a.2) (remove_key_handler-kept (monitor_callback chip) self d)
