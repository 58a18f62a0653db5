-- ===== src/SuperIo/Tests.antt =====
-- The Super I/O sensors at concrete inputs.
mod Ite
mod Winbond
use fake_smc3_with_plugins.SuperIo.Encode.{encode_value}
use fake_smc3_with_plugins.SuperIo.Encode.Laws.{encode_value_lem}
use fake_smc3_with_plugins.Smc.Load.Laws.{four_of}
use fake_smc3_with_plugins.Prelude.{
  ◌==◌, if◌then◌else◌, ltb→lt, Bytes, codes, load32, length-zeros, ℕ, ◌%◌, ◌≡◌, refl, false, none,
  some, [], ◌∷◌, arith, ◌+◌, ◌*◌, ◌≤◌, ◌<◌,
}
use fake_smc3_with_plugins.Smc.Key.{Key, get_value}
use fake_smc3_with_plugins.Smc.Device.{Device, clear_status}
use fake_smc3_with_plugins.Smc.Store.{find_key, get_key}
use fake_smc3_with_plugins.Smc.Store.Invariant.{IsConsistent}
use fake_smc3_with_plugins.SuperIo.Codec.{
  encode_sp4b, swap_value, encode_fp2e, encode_fpe2, decode_fpe2,
}
use fake_smc3_with_plugins.SuperIo.Codec.Laws.{decode_fpe2-encode_fpe2, swap_value-encode_fp2e}
use fake_smc3_with_plugins.SuperIo.Sensor.{Sensor, tachometer, find_sensor}
use fake_smc3_with_plugins.SuperIo.Bus.{
  Bus, Monitor, listen_port_byte, listen_port_word, is_bad_address, get_logical_device_address,
}
use fake_smc3_with_plugins.SuperIo.Bus.Laws.{IsAddress}
use fake_smc3_with_plugins.SuperIo.Monitor.{
  add_sensor, World, value_bytes, get_sensor, sensor_value, monitor_callback, stop,
}
use fake_smc3_with_plugins.SuperIo.Monitor.Laws.{get_value-sensor, stop-kept}
use fake_smc3_with_plugins.SuperIo.Monitor.Host.{sensor_for, monitor_with, host_read-add_sensor}
use fake_smc3_with_plugins.Smc.Port.Protocol.{IsSized, host_read}
use fake_smc3_with_plugins.Smc.Port.Protocol.ReadBack.{bytes_read}
use fake_smc3_with_plugins.SuperIo.Nsc.{load_tachometer, start_nsc}
use fake_smc3_with_plugins.SuperIo.Nsc.Laws.{decode_fpe2-load_tachometer, start_nsc-IsConsistent}
use fake_smc3_with_plugins.SuperIo.Fintek.{
  fintek, probe_port, probe_known, probe_device, start, chip_of, is_absent,
}
use fake_smc3_with_plugins.SuperIo.Fintek.Laws.{
  chip_of_lem, probe_port-IsAddress, start-IsConsistent,
}

decode_fpe2-encode_fpe2_example : decode_fpe2 (encode_fpe2 1200) ≡ 1200 % 16384
decode_fpe2-encode_fpe2_example = decode_fpe2-encode_fpe2 1200

-- A chip F71882 at the address 0x290; its state is the register that was written last.
abbrev board : Bus ℕ
board = record {
  outb = λ port value h. value;
  inb = λ port h. (
    if h == 0x20
        then 0x05
        else if h == 0x21
        then 0x41
        else if h == 0x60
        then 0x02
        else if h == 0x61
        then 0x90
        else 0x10,
    h,
  );
  sleep = λ milliseconds h. h;
}

abbrev fan_sensor : Sensor
fan_sensor = record {
  name = codes "F0Ac";
  type = codes "fpe2";
  size = 2;
  group = tachometer;
  index = 0;
  scale = 1000;
  ri = 0;
  rf = 1;
  vf = 0;
  is_derived = false;
}

abbrev monitor : Monitor
monitor = record {
  address = 0x290;
  register_port = 0x2e;
  value_port = 0x2f;
  model = 0x0541;
  sensors = fan_sensor ∷ [];
}

abbrev fan_key : Key
fan_key = record {
  name = 0x46 ∷ 0x30 ∷ 0x41 ∷ 0x63 ∷ 0 ∷ [];
  type = 0x66 ∷ 0x70 ∷ 0x65 ∷ 0x32 ∷ 0 ∷ [];
  size = 2;
  value = 0 ∷ 0 ∷ [];
  handler = some 1;
}

abbrev pub sharp_key : Key
sharp_key = record {
  name = 0x23 ∷ 0x4b ∷ 0x45 ∷ 0x59 ∷ 0 ∷ [];
  type = 0x75 ∷ 0x69 ∷ 0x33 ∷ 0x32 ∷ 0 ∷ [];
  size = 4;
  value = 0 ∷ 0 ∷ 0 ∷ 2 ∷ [];
  handler = none;
}

-- "FNum", with no fan counted.
abbrev pub count_key : Key
count_key = record {
  name = 0x46 ∷ 0x4e ∷ 0x75 ∷ 0x6d ∷ 0 ∷ [];
  type = 0x75 ∷ 0x69 ∷ 0x38 ∷ 0 ∷ 0 ∷ [];
  size = 1;
  value = 0 ∷ [];
  handler = none;
}

abbrev pub smc_device : Device (World ℕ)
smc_device = record {
  status = clear_status;
  keys = sharp_key ∷ count_key ∷ [];
  values = [];
  nvram = none;
  debug = false;
  is_rev_less = false;
  interrupt = record { target = 0; handler = 0; refcon = 0; source = 0 };
  world = (record monitor { sensors = [] }, 0);
}

pub smc_device-IsConsistent : IsConsistent smc_device
unfolding find_key load32
smc_device-IsConsistent = record {
  well_formed = omega arith;
  sharp_first = refl;
  distinct = (refl, (refl, tt));
}

-- "F1Ac", a name that the device and its monitor do not have.
abbrev new_name : Bytes
new_name = 0x46 ∷ 0x31 ∷ 0x41 ∷ 0x63 ∷ []

smc_device-IsSized : IsSized smc_device.status
unfolding clear_status
smc_device-IsSized = record {
  key_length = length-zeros 4;
  value_length = length-zeros 255;
  info_length = length-zeros 6;
}

new_name-absent : get_key new_name smc_device ≡ none
unfolding get_key find_key load32
new_name-absent = refl

new_name-fresh : get_sensor new_name smc_device.world.0 ≡ none
unfolding get_sensor find_sensor
new_name-fresh = refl

host_read-add_sensor_example :
    bytes_read (
      host_read
        (monitor_callback (fintek board))
        new_name
        2
        (add_sensor (fintek board) new_name (codes "fpe2") 2 tachometer 1 0 1 0 smc_device).1)
    ≡ some (
        value_bytes
          (sensor_value
            (fintek board)
            (sensor_for new_name (codes "fpe2") tachometer 1)
            (monitor_with (sensor_for new_name (codes "fpe2") tachometer 1) smc_device.world)).0)
host_read-add_sensor_example =
    host_read-add_sensor (fintek board) 0x46 0x31 0x41 0x63 (codes "fpe2") tachometer 1 0 1 0
      smc_device sharp_key (count_key ∷ []) (omega arith) (four_of new_name refl refl refl refl)
      smc_device-IsSized refl refl new_name-absent new_name-fresh

-- Memory that holds its address modulo 256.
abbrev memory : ℕ → ℕ → ℕ × ℕ
memory address h = (address % 256, h)

encode_value_lem_example :
    (encode_value (codes "fp2e") 2 1250 1 ≡ encode_fp2e 1250)
    × (encode_value (codes "sp4b") 2 1250 1 ≡ encode_sp4b 1250)
    × (encode_value (codes "fpe2") 2 1250 1000 ≡ encode_fpe2 1250)
encode_value_lem_example = encode_value_lem 1250 (ltb→lt 1250 32768 refl)
