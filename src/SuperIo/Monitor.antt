-- ===== src/SuperIo/Monitor.antt =====
-- plugins/SuperIOSensors/SuperIOFamily/SuperIOFamily.cpp: the monitor that answers for its sensors'
-- keys. The SMC is the device of fakesmc/, whose outside world `World` is this one monitor, the
-- handler of all keys that have one, and its hardware. A `long` is a number modulo 2^64.
pub mod Laws
pub mod Host
pub mod Found
pub mod Probe
use fake_smc3_with_plugins.Prelude.{
  zero, ◌&&◌, ℕ, suc, ◌+◌, ◌-◌, ◌*◌, ◌/◌, ◌%◌, Bool, true, false, Option, none, some, List, [], ◌∷◌,
  ◌++◌, Bytes, codes, load32, read_bytes, overwrite, take, drop, length, get_or, c_str, ltb, ◌==◌,
  if◌then◌else◌,
}
use fake_smc3_with_plugins.Smc.Key.{
  Callback, Request, get_value_callback, set_value_callback, IoReturn, success, error, bad_argument,
  unsupported,
}
use fake_smc3_with_plugins.Smc.Device.{Device}
use fake_smc3_with_plugins.Smc.Platform.{
  PlatformCall, Output, nothing, handler_found, value_found, Answer, set_key_value, add_key_handler,
  add_key_value, get_key_value, remove_key_handler, call_platform_function,
}
use fake_smc3_with_plugins.SuperIo.Codec.{encode_fp2e, encode_sp4b, encode_fpe2}
use fake_smc3_with_plugins.SuperIo.Sensor.{
  Sensor, SensorGroup, temperature, tachometer, voltage, frequency, extended, with_owner,
  derived_with_owner, find_sensor,
}
use fake_smc3_with_plugins.SuperIo.Bus.{Monitor, Chip, select_port}

unfoldable pub is_type : Bytes → Bytes → Bool
is_type type name = load32 type == load32 name

-- The encoding that getValue chooses by the type's first four bytes.
unfoldable pub encode_for : Bytes → ℕ → ℕ
unfolding is_type encode_fp2e encode_sp4b encode_fpe2
encode_for type value =
    if is_type type (codes "fp2e")
    then encode_fp2e value
    else if is_type type (codes "sp4b")
    then encode_sp4b value
    else if is_type type (codes "fpe2")
    then encode_fpe2 value
    else value

-- bcopy(&value, data, 2): least significant byte first.
unfoldable pub value_bytes : ℕ → Bytes
value_bytes value = (value % 256) ∷ (value / 256 % 256) ∷ []

unfoldable pub hex_digit : ℕ → ℕ
hex_digit n = if ltb n 10 then 0x30 + n else 0x37 + n

-- snprintf(name, 5, "F%X…", fan) with what follows the number; the number is an UInt8.
unfoldable pub fan_key : ℕ → Bytes → Bytes
unfolding hex_digit
fan_key fan suffix = take 4 (
    0x46
    ∷ ((if ltb fan 16 then hex_digit fan ∷ [] else hex_digit (fan / 16) ∷ hex_digit (fan % 16) ∷ [])
        ++ suffix))

-- A FanTypeDescStruct: FAN_PWM_TACH, zone 1, LEFT_LOWER_FRONT, the padding, which the code does not
-- set and which is taken as 0, and strncpy.
unfoldable pub fan_description : Bytes → Bytes
fan_description id = 0 ∷ 1 ∷ 0 ∷ 0 ∷ read_bytes 12 (take 12 (c_str id))

-- strcmp(a, b) == 0, of strings without their 0.
unfoldable pub same_string : Bytes → Bytes → Bool
same_string [] [] = true
same_string (a ∷ s) (b ∷ t) = a == b && same_string s t
same_string s t = false

-- The bytes of a `long` in memory.
unfoldable pub little_endian : ℕ → ℕ → Bytes
little_endian zero value = []
little_endian (suc n) value = (value % 256) ∷ little_endian n (value / 256)

unfoldable pub is_success : IoReturn → Bool
is_success success = true
is_success r = false

-- The first sensor of the monitor with the name.
unfoldable pub get_sensor : Bytes → Monitor → Option Sensor
unfolding find_sensor
get_sensor key m = find_sensor (load32 key) m.sensors

abbrev pub World : Type 0 → Type 0
World H = Monitor × H

-- `this` of the monitor, as the SMC knows its handler.
abbrev pub self : ℕ
self = 1

-- bcopy(data, &value, 2); what stands behind a shorter buffer is not known, and taken as 0.
unfoldable pub stored_value : Bytes → ℕ
stored_value bytes = get_or bytes 0 0 % 256 + get_or bytes 1 0 % 256 * 256

module _ {H : Type 0} (chip : Chip H) where
  unfoldable pub read_group : SensorGroup → ℕ → World H → ℕ × H
  read_group temperature index (m, h) = chip.read_temperature index m h
  read_group voltage index (m, h) = chip.read_voltage index m h
  read_group tachometer index (m, h) = chip.read_tachometer index m h
  read_group frequency index (m, h) = (0, h)
  read_group (extended n) index (m, h) = (0, h)

  -- SuperIOSensor::getValue
  unfoldable pub base_value : Sensor → World H → ℕ × World H
  unfolding read_group encode_for
  base_value s (m, h) =
      let (value, h1) = read_group s.group s.index (m, h) in
      (encode_for s.type (value % 65536), (m, h1))

  unfoldable pub class_value : Bool → Sensor → World H → ℕ × World H
  unfolding base_value
  class_value false s w = base_value s w
  class_value true s (m, h) = let (value, h1) = chip.derived_value s m h in (value % 65536, (m, h1))

  -- getValue of the sensor's class, as the UInt16 that callPlatformFunction keeps.
  unfoldable pub sensor_value : Sensor → World H → ℕ × World H
  unfolding class_value
  sensor_value s w = class_value s.is_derived s w

  abbrev answer_with : Option Sensor → Bytes → World H → IoReturn × Bytes × World H
  answer_with none bytes w = (bad_argument, bytes, w)
  answer_with (some s) bytes w =
      let (value, w') = sensor_value s w in (success, overwrite (value_bytes value) bytes, w')

  abbrev pub store_with :
      Option (Sensor → ℕ → Monitor → H → H)
      → Option Sensor
      → Bytes
      → World H
      → IoReturn × Bytes × World H
  unfolding stored_value
  store_with none r bytes w = (unsupported, bytes, w)
  store_with (some write) none bytes w = (bad_argument, bytes, w)
  store_with (some write) (some s) bytes (m, h) =
      if s.is_derived
      then (success, bytes, (m, write s (stored_value bytes) m h))
      else (bad_argument, bytes, (m, h))

  -- callPlatformFunction of SuperIOMonitor, and of the chips that override it, as the SMC calls it.
  unfoldable pub monitor_callback : Callback (World H)
  unfolding get_sensor value_bytes sensor_value
  monitor_callback get_value_callback handler name bytes size (m, h) =
      answer_with (get_sensor name m) bytes (m, h)
  monitor_callback set_value_callback handler name bytes size w =
      store_with chip.set_value (get_sensor name w.0) bytes w

  abbrev pub smc : PlatformCall → Device (World H) → Answer (World H)
  unfolding monitor_callback call_platform_function
  smc = call_platform_function monitor_callback

  -- sensors->setObject(sensor)
  unfoldable pub push_sensor : Sensor → Device (World H) → Device (World H)
  push_sensor s d =
      let (m, h) = d.world in record d { world = (record m { sensors = m.sensors ++ s ∷ [] }, h) }

  abbrev pub if_added : Sensor → Answer (World H) → Option Sensor × Device (World H)
  if_added s (success, out, d) = (some s, d)
  if_added s (error, out, d) = (none, d)
  if_added s (bad_argument, out, d) = (none, d)
  if_added s (unsupported, out, d) = (none, d)

  abbrev pub add_made :
      Option Sensor
      → Sensor
      → Bytes
      → Bytes
      → ℕ
      → Device (World H)
      → Option Sensor × Device (World H)
  unfolding push_sensor
  add_made (some old) s name type size d = (none, d)
  add_made none s name type size d =
      if_added s (smc (add_key_handler (some name) (some type) size (some self)) (push_sensor s d))

  abbrev pub add_new :
      Option Sensor
      → Bytes
      → Bytes
      → ℕ
      → SensorGroup
      → ℕ
      → Device (World H)
      → Option Sensor × Device (World H)
  unfolding push_sensor with_owner
  add_new r name type size group index d =
      add_made r (with_owner name type size group index 0 1 0) name type size d

  -- addSensor; the three factors that it is given are not passed on.
  unfoldable pub add_sensor :
      Bytes
      → Bytes
      → ℕ
      → SensorGroup
      → ℕ
      → ℕ
      → ℕ
      → ℕ
      → Device (World H)
      → Option Sensor × Device (World H)
  unfolding get_sensor
  add_sensor name type size group index ri rf vf d =
      add_new (get_sensor name d.world.0) name type size group index d

  -- addSensor of a chip that derives a class of sensors.
  unfoldable pub add_derived :
      Bytes
      → Bytes
      → ℕ
      → SensorGroup
      → ℕ
      → ℕ
      → ℕ
      → ℕ
      → Device (World H)
      → Option Sensor × Device (World H)
  unfolding get_sensor derived_with_owner
  add_derived name type size group index ri rf vf d =
      add_made (get_sensor name d.world.0) (derived_with_owner name type size group index ri rf vf)
        name type size d

  -- The key with the fan's description, if there is a name for it.
  unfoldable pub describe_fan : ℕ → Option Bytes → Device (World H) → Device (World H)
  unfolding fan_key fan_description
  describe_fan fan none d = d
  describe_fan fan (some id) d =
      (smc
        (add_key_value (some (fan_key fan (codes "ID"))) (some (codes "{fds")) 16
          (some (fan_description id)))
        d).2

  abbrev pub count_fan :
      ℕ → Option Bytes → Option Sensor × Device (World H) → Option Sensor × Device (World H)
  unfolding describe_fan
  count_fan fan id (none, d) = (none, d)
  count_fan fan id (some s, d) = (
    some s,
    (smc (set_key_value (some (codes "FNum")) 1 (some ((fan + 1) % 256 ∷ [])))
        (describe_fan fan id d)).2,
  )

  abbrev pub add_fan : ℕ → Option Bytes → Answer (World H) → Option Sensor × Device (World H)
  unfolding add_sensor fan_key
  add_fan index id (success, value_found size bytes, d) =
      let fan = get_or bytes 0 0 in
      count_fan fan id
        (add_sensor (fan_key fan (codes "Ac")) (codes "fpe2") 2 tachometer index 0 1 0 d)
  add_fan index id (r, out, d) = (none, d)

  -- addTachometer
  unfoldable pub add_tachometer :
      ℕ → Option Bytes → Device (World H) → Option Sensor × Device (World H)
  add_tachometer index id d = add_fan index id (smc (get_key_value (some (codes "FNum"))) d)

  -- Where updateSensor compares the whole types.
  unfoldable pub encode_updated : Bytes → ℕ → ℕ
  unfolding encode_fp2e encode_fpe2 same_string
  encode_updated type value =
      if same_string (c_str type) (codes "fp2e")
      then encode_fp2e (value % 65536)
      else if same_string (c_str type) (codes "fpe2")
      then encode_fpe2 (value % 65536)
      else value

  -- updateSensor; the value's bytes stand least significant first.
  unfoldable pub update_sensor :
      Bytes → Bytes → ℕ → SensorGroup → ℕ → Device (World H) → Bool × Device (World H)
  unfolding encode_updated read_group little_endian is_success
  update_sensor key type size group index d =
      let (value, h') = read_group group index d.world in
      let (r, out, d') =
        smc (set_key_value (some key) size (some (little_endian 8 (encode_updated type value))))
          (record d { world = (d.world.0, h') }) in
      (is_success r, d')

  -- The loop of probe from port `i` on, with `n` ports left.
  unfoldable pub probe_from : ℕ → ℕ → World H → Bool × World H
  unfolding select_port
  probe_from zero i w = (false, w)
  probe_from (suc n) i (m, h) =
      let m1 = select_port i m in
      let (found, m2, h2) = chip.probe_port m1 (chip.enter m1 h) in
      let w : World H = (m2, chip.exit m2 h2) in
      let rest = probe_from n (i + 1) w in if found then (true, w) else rest

  unfoldable pub probe : World H → Bool × World H
  unfolding probe_from
  probe w = probe_from chip.ports_count 0 w

  -- stop
  unfoldable pub stop : Device (World H) → Device (World H)
  stop d = (smc (remove_key_handler (some self)) d).2
