-- ===== src/Acpi/Start.antt =====
-- plugins/ACPIMonitor/ACPIMonitor.cpp: addSensor, addTachometer, start and stop.
use fake_smc3_with_plugins.Prelude.{
  ◌==◌, if◌then◌else◌, get_or, take, Bytes, codes, ℕ, zero, suc, ◌+◌, ◌%◌, Bool, true, false, not,
  ◌||◌, Option, none, some, List, [], ◌∷◌, ◌++◌,
}
use fake_smc3_with_plugins.Smc.Key.{success}
use fake_smc3_with_plugins.Smc.Device.{Device}
use fake_smc3_with_plugins.Smc.Platform.{
  Answer, PlatformCall, value_found, add_key_handler, add_key_value, set_key_value, get_key_value,
  remove_key_handler, call_platform_function,
}
use fake_smc3_with_plugins.SuperIo.Monitor.{self, is_success, hex_digit, fan_key, fan_description}
use fake_smc3_with_plugins.Pci.{set_object}
use fake_smc3_with_plugins.Acpi.{Acpi, AcpiWorld, acpi_callback}

abbrev pub AcpiDevice : Type 0 → Type 0
AcpiDevice H = Device (AcpiWorld H)

-- The arguments of an addSensor in start.
pub record MethodKey : Type 0 where
  pub method : Bytes
  pub key : Bytes
  pub type : Bytes
  pub size : ℕ

abbrev pub key_of : Bytes → Bytes → Bytes → ℕ → MethodKey
key_of method key type size = record { method = method; key = key; type = type; size = size }

-- The sensors that start adds where there is the method, in its order.
unfoldable pub method_keys : List MethodKey
method_keys =
    key_of (codes "TCPU") (codes "Th0H") (codes "sp78") 2
    ∷ key_of (codes "TSYS") (codes "TN0P") (codes "sp78") 2
    ∷ key_of (codes "TDIM") (codes "Tm0P") (codes "sp78") 2
    ∷ key_of (codes "TAMB") (codes "TA0P") (codes "sp78") 2
    ∷ key_of (codes "TCPP") (codes "TC0P") (codes "sp78") 2
    ∷ key_of (codes "VCPU") (codes "VC0C") (codes "fp2e") 2
    ∷ key_of (codes "VMEM") (codes "VM0R") (codes "fp2e") 2
    ∷ key_of (codes "VP0R") (codes "VP0R") (codes "sp4b") 2
    ∷ key_of (codes "VSN0") (codes "Vp0C") (codes "sp4b") 2
    ∷ key_of (codes "VSN1") (codes "Vp1C") (codes "sp4b") 2
    ∷ key_of (codes "VSN2") (codes "Vp2C") (codes "sp4b") 2
    ∷ key_of (codes "VSN3") (codes "Vp3C") (codes "fp2e") 2
    ∷ key_of (codes "VSN4") (codes "Vp4C") (codes "fp2e") 2
    ∷ key_of (codes "VSN5") (codes "Vp5C") (codes "fp2e") 2
    ∷ key_of (codes "ISN0") (codes "ICAC") (codes "ui16") 2
    ∷ key_of (codes "ISN1") (codes "Ip0C") (codes "ui16") 2
    ∷ key_of (codes "ISN2") (codes "Ip1C") (codes "ui16") 2
    ∷ key_of (codes "ISN3") (codes "Ip2C") (codes "ui16") 2
    ∷ key_of (codes "PSN0") (codes "PC0C") (codes "ui16") 2
    ∷ key_of (codes "PSN1") (codes "PC1C") (codes "ui16") 2
    ∷ key_of (codes "ACDC") (codes "ACEN") (codes "ui8") 1
    ∷ key_of (codes "ACDC") (codes "ACFP") (codes "flag") 1
    ∷ key_of (codes "ACDC") (codes "ACIN") (codes "flag") 1
    ∷ key_of (codes "BAK0") (codes "B0AC") (codes "si16") 2
    ∷ key_of (codes "BAK1") (codes "B0AV") (codes "ui16") 2
    ∷ []

-- aKey[5] behind a '-' in aKey[4].
unfoldable pub type_of_length : ℕ → Bytes × ℕ
type_of_length c =
    if c == 0x30
    then (codes "flag", 1)
    else if c == 0x31
    then (codes "ui8", 1)
    else if c == 0x34
    then (codes "ui32", 4)
    else if c == 0x33
    then (codes "sp78", 2)
    else (codes "ui16", 2)

-- A key of the property list: `text` is in the array aKey, whose bytes behind a short text are taken
-- as 0.
unfoldable pub custom_key : Bytes → Bytes → MethodKey
unfolding type_of_length
custom_key method text =
    let (type, size) = type_of_length (get_or (take 7 text) 5 0) in
    if get_or (take 7 text) 4 0 == 0x2d
    then key_of method (take 4 text) type size
    else key_of method (take 7 text) (codes "ui16") 2

-- fanNames->getObject(i) as a string
unfoldable pub fan_name : Option (List (Option Bytes)) → ℕ → Option Bytes
fan_name none i = none
fan_name (some names) i = get_or names i none

module _ {H : Type 0} (p : Acpi H) where
  unfoldable pub acpi_smc : PlatformCall → AcpiDevice H → Answer (AcpiWorld H)
  unfolding acpi_callback call_platform_function
  acpi_smc = call_platform_function (acpi_callback p)

  -- addSensor
  unfoldable pub add_acpi_sensor : MethodKey → AcpiDevice H → Bool × AcpiDevice H
  unfolding acpi_smc is_success set_object
  add_acpi_sensor k d =
      let (r, out, d1) =
        acpi_smc (add_key_handler (some k.key) (some k.type) k.size (some self)) d in
      let s = d1.world.0 in
      let added = record d1 {
        world = (record s { sensors = set_object k.key k.method s.sensors }, d1.world.1);
      } in
      if is_success r then (true, added) else (false, d1)

  unfoldable pub describe_acpi_fan : ℕ → Option Bytes → AcpiDevice H → AcpiDevice H
  unfolding acpi_smc fan_key fan_description
  describe_acpi_fan fan none d = d
  describe_acpi_fan fan (some id) d =
      (acpi_smc
        (add_key_value (some (fan_key fan (codes "ID"))) (some (codes "{fds")) 16
          (some (fan_description id)))
        d).2

  -- addTachometer behind the call that gets the number of fans.
  unfoldable pub add_acpi_fan : Bytes → Option Bytes → Answer (AcpiWorld H) → AcpiDevice H
  unfolding acpi_smc add_acpi_sensor fan_key describe_acpi_fan
  add_acpi_fan method id (success, value_found size bytes, d) =
      let fan = get_or bytes 0 0 in
      let (ok, d1) =
        add_acpi_sensor (key_of method (fan_key fan (codes "Ac")) (codes "fpe2") 2) d in
      if ok
      then (acpi_smc (set_key_value (some (codes "FNum")) 1 (some ((fan + 1) % 256 ∷ [])))
          (describe_acpi_fan fan id d1)).2
      else d1
  add_acpi_fan method id (r, out, d) = d

  -- addTachometer, whose answer start only prints.
  unfoldable pub add_acpi_tachometer : Bytes → Option Bytes → AcpiDevice H → AcpiDevice H
  unfolding acpi_smc add_acpi_fan
  add_acpi_tachometer method id d =
      add_acpi_fan method id (acpi_smc (get_key_value (some (codes "FNum"))) d)

  -- The loop over the fans from `i` on, with `n` left.
  unfoldable pub add_acpi_fans : Option (List (Option Bytes)) → ℕ → ℕ → AcpiDevice H → AcpiDevice H
  unfolding hex_digit add_acpi_tachometer fan_name
  add_acpi_fans names zero i d = d
  add_acpi_fans names (suc n) i d =
      let fan = codes "FAN" ++ hex_digit i ∷ [] in
      let ftn = codes "FTN" ++ hex_digit i ∷ [] in
      let method = if p.is_valid fan then fan else ftn in
      let rest = add_acpi_fans names n (i + 1) (add_acpi_tachometer method (fan_name names i) d) in
      if p.is_valid fan || p.is_valid ftn then rest else d

  unfoldable pub add_method_keys : List MethodKey → AcpiDevice H → AcpiDevice H
  unfolding add_acpi_sensor
  add_method_keys [] d = d
  add_method_keys (k ∷ ks) d =
      add_method_keys ks (if p.is_valid k.method then (add_acpi_sensor k d).1 else d)

  -- A key of the property list, with its name and its string, if it is one. Behind an 'F' the string
  -- stands for the method.
  unfoldable pub add_custom : Bytes → Option Bytes → AcpiDevice H → AcpiDevice H
  unfolding add_acpi_tachometer custom_key add_acpi_sensor
  add_custom name none d = d
  add_custom name (some text) d =
      let method = take 4 name in
      if not (p.is_valid method)
      then d
      else if get_or text 0 0 == 0x46
      then add_acpi_tachometer (take 7 text) (some method) d
      else (add_acpi_sensor (custom_key method text) d).1

  unfoldable pub add_customs : List (Bytes × Option Bytes) → AcpiDevice H → AcpiDevice H
  unfolding add_custom
  add_customs [] d = d
  add_customs ((name, text) ∷ customs) d = add_customs customs (add_custom name text d)

  -- start; without keysToAdd the last list is empty.
  unfoldable pub start_acpi :
      Option (List (Option Bytes)) → List (Bytes × Option Bytes) → AcpiDevice H → AcpiDevice H
  unfolding add_acpi_fans add_method_keys method_keys add_customs
  start_acpi names customs d =
      add_customs customs (add_method_keys method_keys (add_acpi_fans names 10 0 d))

  -- stop
  unfoldable pub stop_acpi : AcpiDevice H → AcpiDevice H
  unfolding acpi_smc
  stop_acpi d =
      (acpi_smc (remove_key_handler (some self))
        (record d { world = (record d.world.0 { sensors = [] }, d.world.1) })).2
