-- ===== src/SuperIo/Monitor/Host.antt =====
-- A host that reads a sensor's key through the ports of fakesmc/: addSensor of SuperIOFamily.cpp, the
-- SMC's call of the key's handler, and the sensor's answer together.
use fake_smc3_with_plugins.Prelude.{
  ltb→lt, ne→==, ◌+◌, ℕ, ◌≡◌, ◌∙◌, refl, sym, ap, Option, none, some, List, [], ◌∷◌, ◌++◌, All,
  Bytes, IsByte, load32, length, take, read_bytes, ==-refl, arith,
}
use fake_smc3_with_plugins.Smc.Key.{Key, init_named, init}
use fake_smc3_with_plugins.Smc.Key.Laws.{IsWellFormed, init-IsWellFormed}
use fake_smc3_with_plugins.Smc.Device.{Device}
use fake_smc3_with_plugins.Smc.Store.{find_key, get_key}
use fake_smc3_with_plugins.Smc.Store.Lookup.{FourChars, strlen-ne-zero}
use fake_smc3_with_plugins.Smc.Store.Counter.{counted}
use fake_smc3_with_plugins.Smc.Store.Handler.{
  load32-made_for, made_for, add_key_with_handler_appends, find_key-made_for,
}
use fake_smc3_with_plugins.Smc.Port.Protocol.{IsSized, host_read}
use fake_smc3_with_plugins.Smc.Port.Protocol.Read.{host_read_found}
use fake_smc3_with_plugins.Smc.Port.Protocol.ReadBack.{bytes_read}
use fake_smc3_with_plugins.Smc.Platform.{added, call_platform_function}
use fake_smc3_with_plugins.SuperIo.Sensor.{Sensor, SensorGroup, with_owner, find_sensor}
use fake_smc3_with_plugins.SuperIo.Bus.{Monitor, Chip}
use fake_smc3_with_plugins.SuperIo.Monitor.{
  add_made, World, self, smc, value_bytes, get_sensor, sensor_value, monitor_callback, push_sensor,
  if_added, add_new, add_sensor,
}
use fake_smc3_with_plugins.SuperIo.Monitor.Laws.{get_value-sensor}

find_sensor-append :
    (q : ℕ) (sensors : List Sensor) (s : Sensor)
    → find_sensor q sensors ≡ none
    → q ≡ load32 s.name
    → find_sensor q (sensors ++ s ∷ []) ≡ some s
unfolding find_sensor
find_sensor-append q [] s e n = rw (n, ==-refl (load32 s.name))
find_sensor-append q (x ∷ sensors) s e n = ground (arith, find_sensor-append q sensors s)

-- The sensor that addSensor makes, and the monitor with it.
abbrev pub sensor_for : Bytes → Bytes → SensorGroup → ℕ → Sensor
sensor_for name type group index = with_owner name type 2 group index 0 1 0

abbrev pub monitor_with : {H : Type 0} → Sensor → World H → World H
monitor_with s w = (record w.0 { sensors = w.0.sensors ++ s ∷ [] }, w.1)

module _ {H : Type 0} (chip : Chip H) where
  -- A new sensor under a new name, with #KEY answered by no handler: the sensor goes behind the
  -- monitor's others, and a key that the monitor answers for behind the SMC's.
  add_made_appends :
      (s : Sensor) (name type : Bytes) (d : Device (World H)) (k : Key) (ks : List Key)
      → FourChars name
      → d.keys ≡ k ∷ ks
      → k.handler ≡ none
      → get_key name d ≡ none
      → get_sensor name d.world.0 ≡ none
      → add_made chip (get_sensor name d.world.0) s name type 2 d ≡ (
        some s,
        record d {
          keys =
              counted k (length d.keys + 1) ∷ (ks ++ made_for name (some type) 2 (some self) ∷ []);
          world = monitor_with s d.world;
        },
      )
  unfolding add_made smc call_platform_function push_sensor get_key
  add_made_appends s name type d k ks four e plain absent fresh =
      ap (λ r. add_made chip r s name type 2 d) fresh
      ∙ ap (λ r. if_added chip s (added r))
          (add_key_with_handler_appends (monitor_callback chip) name (some type) 2 (some self)
            (push_sensor chip s d) k ks four e plain absent)

  -- The key that addSensor adds is well formed, bears the sensor's name, and is answered by the
  -- monitor.
  made_for-IsWellFormed :
      (name type : Bytes) → FourChars name → IsWellFormed (made_for name (some type) 2 (some self))
  unfolding init made_for
  made_for-IsWellFormed name type four =
      init-IsWellFormed (some name) (some type) 2 none (some self) (ltb→lt 2 256 refl)
        (rw (ne→== _ _ (strlen-ne-zero name four)))

  made_sensor-found :
      (s : Sensor) (name type : Bytes) (m : Monitor)
      → FourChars name
      → load32 s.name ≡ load32 name
      → get_sensor name m ≡ none
      → get_sensor
          (made_for name (some type) 2 (some self)).name
          (record m { sensors = m.sensors ++ s ∷ [] })
        ≡ some s
  unfolding get_sensor
  made_sensor-found s name type m four same fresh =
      ap (λ q. find_sensor q (m.sensors ++ s ∷ []))
        (load32-made_for name (some type) 2 (some self) four)
      ∙ find_sensor-append (load32 name) m.sensors s fresh (sym same)

  -- A host reads from a key that was made with its sensor what the sensor's class reads.
  pub host_read-add_made :
      (s : Sensor) (a b c e : ℕ) (type : Bytes) (d : Device (World H)) (k : Key) (ks : List Key)
      → load32 s.name ≡ load32 (a ∷ b ∷ c ∷ e ∷ [])
      → All IsByte (a ∷ b ∷ c ∷ e ∷ [])
      → FourChars (a ∷ b ∷ c ∷ e ∷ [])
      → IsSized d.status
      → d.keys ≡ k ∷ ks
      → k.handler ≡ none
      → get_key (a ∷ b ∷ c ∷ e ∷ []) d ≡ none
      → get_sensor (a ∷ b ∷ c ∷ e ∷ []) d.world.0 ≡ none
      → let name = a ∷ b ∷ c ∷ e ∷ [] in
        bytes_read (
          host_read
            (monitor_callback chip)
            name
            2
            (add_made chip (get_sensor name d.world.0) s name type 2 d).1)
        ≡ some (value_bytes (sensor_value chip s (monitor_with s d.world)).0)
  unfolding get_key made_for init_named value_bytes
  host_read-add_made s a b c e type d k ks same h four sized keys plain absent fresh =
      ap
        (λ (x : Option Sensor × Device (World H)).
          bytes_read (host_read (monitor_callback chip) name 2 x.1))
        (add_made_appends s name type d k ks four keys plain absent fresh)
      ∙ (ap bytes_read (
            host_read_found (monitor_callback chip) a b c e 2 d' (length (k ∷ ks)) made h
              (ltb→lt 0 2 refl) (omega arith) sized (made_for-IsWellFormed name type four)
              (find_key-made_for name (some type) 2 (some self) k ks (length d.keys + 1) four
                (ap (find_key (load32 name)) (sym keys) ∙ absent)))
          ∙ ap (λ bytes. some (take 2 bytes))
              (get_value-sensor chip made self d'.world.0 d'.world.1 s refl refl
                (made_sensor-found s name type d.world.0 four same fresh)))
    where
      name : Bytes
      name = a ∷ b ∷ c ∷ e ∷ []

      made : Key
      made = made_for name (some type) 2 (some self)

      d' : Device (World H)
      d' = record d {
        keys = counted k (length d.keys + 1) ∷ (ks ++ made ∷ []);
        world = monitor_with s d.world;
      }

  -- After addSensor of a sensor of two bytes, under a name of four characters that neither the SMC
  -- nor the monitor has, with #KEY answered by no handler, a host that reads two bytes of that key
  -- gets the sensor's reading, least significant byte first.
  pub host_read-add_sensor :
      (a b c e : ℕ) (type : Bytes) (group : SensorGroup) (index ri rf vf : ℕ) (d : Device (World H))
      (k : Key) (ks : List Key)
      → All IsByte (a ∷ b ∷ c ∷ e ∷ [])
      → FourChars (a ∷ b ∷ c ∷ e ∷ [])
      → IsSized d.status
      → d.keys ≡ k ∷ ks
      → k.handler ≡ none
      → get_key (a ∷ b ∷ c ∷ e ∷ []) d ≡ none
      → get_sensor (a ∷ b ∷ c ∷ e ∷ []) d.world.0 ≡ none
      → let name = a ∷ b ∷ c ∷ e ∷ [] in
        let s = sensor_for name type group index in
        bytes_read (
          host_read
            (monitor_callback chip)
            name
            2
            (add_sensor chip name type 2 group index ri rf vf d).1)
        ≡ some (value_bytes (sensor_value chip s (monitor_with s d.world)).0)
  unfolding add_sensor add_new with_owner read_bytes load32
  host_read-add_sensor a b c e type group index ri rf vf d k ks h four sized keys plain absent
        fresh =
      host_read-add_made (sensor_for (a ∷ b ∷ c ∷ e ∷ []) type group index) a b c e type d k ks refl
        h four sized keys plain absent fresh
