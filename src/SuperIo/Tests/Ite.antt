-- ===== src/SuperIo/Tests/Ite.antt =====
-- The monitor for ITE's chips, and what it shares with the others, at concrete inputs.
use fake_smc3_with_plugins.Prelude.{
  read_bytes, leb, ◌==◌, if◌then◌else◌, ltb→lt, codes, c_str, load32, ℕ, ◌+◌, ◌-◌, ◌*◌, ◌/◌, ◌%◌,
  ◌≡◌, refl, subst, true, false, none, some, [], ◌∷◌, arith,
}
use fake_smc3_with_plugins.Smc.Key.{Key, get_value, set_value_from_buffer}
use fake_smc3_with_plugins.Smc.Device.{Device, clear_status}
use fake_smc3_with_plugins.Smc.Store.{find_key}
use fake_smc3_with_plugins.Smc.Store.Invariant.{IsConsistent}
use fake_smc3_with_plugins.SuperIo.Sensor.{with_owner, derived_with_owner, frequency, find_sensor}
use fake_smc3_with_plugins.SuperIo.Bus.{
  listen_port_word, listen_port_byte, get_logical_device_address, is_bad_address,
  select_logical_device, Bus, Monitor,
}
use fake_smc3_with_plugins.SuperIo.Long.{divided, long_range}
use fake_smc3_with_plugins.SuperIo.Long.Laws.{divided_lem}
use fake_smc3_with_plugins.SuperIo.Config.{
  done, Dictionary, entry, empty, text, flag, Platform, choose_configuration, find_named, vendors,
  vendor_id, fits_array,
}
use fake_smc3_with_plugins.SuperIo.Config.Laws.{
  IsFitting, expected_configuration, choose_configuration-at_path,
}
use fake_smc3_with_plugins.SuperIo.Monitor.{
  probe_from, World, get_sensor, monitor_callback, probe, same_string,
}
use mathlib.Core.Option.{some_inj}
use fake_smc3_with_plugins.SuperIo.Ite.Registers.{ite_models, model_in, smart_guard_reg}
use fake_smc3_with_plugins.SuperIo.Ite.Class.{
  ite_enter, ite_exit, ite_probe_port, probe_model, check_address, check_chip, Ite, IteWorld, it87x,
  ite_read, ite_write,
}
use fake_smc3_with_plugins.SuperIo.Ite.Control.{control_sensor, get_value-set_value}
use fake_smc3_with_plugins.SuperIo.Ite.Probe.{IsFound, probe-IsFound}
use fake_smc3_with_plugins.SuperIo.Tests.{sharp_key, count_key}

-- A chip at the address 0x290, whose registers keep what is written to them.
abbrev Registers : Type 0
Registers = ℕ × (ℕ → ℕ)

abbrev chip_bus : Bus Registers
chip_bus = record {
  outb = λ port value h.
      if port == 0x296 then (h.0, λ r. if r == h.0 then value else h.1 r) else (value, h.1);
  inb = λ port h. (h.1 h.0, h);
  sleep = λ milliseconds h. h;
}

abbrev control_key : Key
control_key = record {
  name = 0x46 ∷ 0x30 ∷ 0x54 ∷ 0x67 ∷ 0 ∷ [];
  type = 0x75 ∷ 0x69 ∷ 0x38 ∷ 0 ∷ 0 ∷ [];
  size = 1;
  value = 0 ∷ [];
  handler = some 1;
}

abbrev ite_monitor : Monitor
ite_monitor = record {
  address = 0x290;
  register_port = 0x2e;
  value_port = 0x2f;
  model = 0x8720;
  sensors = control_sensor (codes "F0Tg") frequency 0 ∷ [];
}

abbrev ite_fields : Ite
ite_fields = record {
  voltage_gain = 16;
  has16bit_fan_counter = true;
  has_smart_guardian = true;
  vbat_updates = false;
}

abbrev silent : Registers
silent = (0, λ r. 0)

control_key-found :
    get_sensor control_key.name ite_monitor ≡ some (control_sensor (codes "F0Tg") frequency 0)
unfolding get_sensor find_sensor load32 control_sensor derived_with_owner with_owner read_bytes
control_key-found = refl

control_register : smart_guard_reg frequency 0 ≡ some 0x15
unfolding smart_guard_reg
control_register = refl

register_kept :
    (value : ℕ) (h : Registers)
    → (ite_read chip_bus 0x290 0x15 (ite_write chip_bus 0x290 0x15 value h)).0 ≡ value % 256
unfolding ite_read ite_write
register_kept value h = omega arith

get_value-set_value_example :
    let call = monitor_callback (it87x chip_bus) in
    let (stored, k', w) =
      set_value_from_buffer call
        (some (200 ∷ []))
        1
        control_key
        (ite_monitor, (ite_fields, silent)) in
    (get_value call k' w).0.value ≡ 200 ∷ []
get_value-set_value_example =
    get_value-set_value chip_bus control_key 1 200 (codes "F0Tg") frequency 0 0x15 ite_monitor
      ite_fields silent (ltb→lt 200 256 refl) refl control_key-found control_register register_kept

-- A chip that answers the byte that stands in the table for the register last written to.
abbrev answers : ℕ → ℕ
answers reg =
    if reg == 0x20
    then 0x87
    else if reg == 0x21
    then 0x20
    else if reg == 0x60
    then 0x02
    else if reg == 0x61
    then 0x90
    else if reg == 0x58
    then 0x90
    else if reg == 0x00
    then 0x10
    else 0x08

abbrev ite_board : Bus ℕ
ite_board = record {
  outb = λ port value h. value;
  inb = λ port h. (answers h, h);
  sleep = λ milliseconds h. h;
}

abbrev fresh_monitor : Monitor
fresh_monitor = record ite_monitor { sensors = [] }

found_on_board : (probe (it87x ite_board) (fresh_monitor, (ite_fields, 0))).0 ≡ true
unfolding probe probe_from it87x ite_enter ite_exit ite_probe_port listen_port_word listen_port_byte
    get_logical_device_address is_bad_address select_logical_device probe_model check_address
    check_chip ite_read ite_models model_in
found_on_board = refl

probe-IsFound_example : IsFound (probe (it87x ite_board) (fresh_monitor, (ite_fields, 0))).1.0
probe-IsFound_example = probe-IsFound ite_board (fresh_monitor, (ite_fields, 0)) found_on_board

-- Two voltages through a divider of 20 to 10: above the reference, and below it.
divided_lem_example : divided 1000 232 10 2048 ≡ (
    if leb 2048 1000
    then (1000 + (1000 - 2048) * 232 / 10) % 65536
    else (1000 + (long_range - (2048 - 1000) * 232 / 10) % long_range) % 65536)
divided_lem_example =
    divided_lem 1000 232 10 2048 (ltb→lt _ _ refl) (ltb→lt _ _ refl) (ltb→lt _ _ refl)
      (ltb→lt _ _ refl) (ltb→lt _ _ refl)

abbrev ite_configuration : Dictionary
ite_configuration =
    entry (codes "TEMPIN0") (text (codes "CPU")) (
      entry (codes "VIN0") (text (codes "Memory"))
        (entry (codes "SmartGuardian") (flag true) empty))

abbrev ite_device : Device (World (IteWorld ℕ))
ite_device = record {
  status = clear_status;
  keys = sharp_key ∷ count_key ∷ [];
  values = [];
  nvram = none;
  debug = false;
  is_rev_less = false;
  interrupt = record { target = 0; handler = 0; refcon = 0; source = 0 };
  world = (fresh_monitor, (ite_fields, 0));
}

ite_device-IsConsistent : IsConsistent ite_device
unfolding find_key load32
ite_device-IsConsistent = record {
  well_formed = omega arith;
  sharp_first = refl;
  distinct = (refl, (refl, tt));
}

abbrev asus : Platform
asus = record {
  oem_vendor = some (codes "ASUSTeK COMPUTER INC.");
  oem_board = some (codes "P5K");
  oem_product = none;
}

asus-IsFitting : IsFitting asus
unfolding fits_array
asus-IsFitting = record {
  vendor_fits =
      λ v e. subst (λ x. fits_array x ≡ true) {x = codes "ASUSTeK COMPUTER INC."} (cc) refl;
  product_fits = λ v e. subst (λ x. fits_array x ≡ true) {x = codes "P5K"} (cc) refl;
}

choose_configuration-at_path_example :
    choose_configuration (some ite_configuration) (some asus)
    ≡ done (expected_configuration ite_configuration (some asus))
choose_configuration-at_path_example =
    choose_configuration-at_path ite_configuration (some asus)
      (λ q e. subst IsFitting (some_inj.0 e) asus-IsFitting)

asus_nick : vendor_id (c_str (codes "ASUSTeK COMPUTER INC.")) ≡ some (codes "ASUS")
unfolding vendor_id find_named vendors same_string c_str
asus_nick = refl

asus_fits : fits_array (codes "ASUSTeK COMPUTER INC.") ≡ true
unfolding fits_array
asus_fits = refl
