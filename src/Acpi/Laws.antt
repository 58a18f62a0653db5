-- ===== src/Acpi/Laws.antt =====
-- What ACPIMonitor.cpp keeps of the SMC while it starts.
use fake_smc3_with_plugins.Prelude.{
  ◌%◌, ◌≡◌, true, ◌&&◌, arith, if-both, ◌==◌, ltb→lt, get_or, take, All, Bytes, codes, ℕ, zero, suc,
  ◌+◌, refl, Bool, false, not, Option, none, some, List, [], ◌∷◌, ltb,
}
pub mod Fans
use fake_smc3_with_plugins.Smc.Key.{IoReturn, success, error, bad_argument, unsupported}
use fake_smc3_with_plugins.Smc.Store.Lookup.{FourChars}
use fake_smc3_with_plugins.Smc.Store.Invariant.{IsConsistent, IsConsistent-same_keys}
use fake_smc3_with_plugins.Smc.Platform.{
  Answer, PlatformCall, Output, nothing, handler_found, value_found, add_key_handler, add_key_value,
  set_key_value, get_key_value,
}
use fake_smc3_with_plugins.Smc.Platform.Laws.{IsNamed, call_platform_function-IsConsistent}
use fake_smc3_with_plugins.Smc.Load.Laws.{four_of}
use fake_smc3_with_plugins.SuperIo.Monitor.{self, is_success, fan_key, fan_description}
use fake_smc3_with_plugins.SuperIo.Monitor.Laws.{fan_key-FourChars}
use fake_smc3_with_plugins.Acpi.{Acpi, AcpiWorld, acpi_callback}
use fake_smc3_with_plugins.Acpi.Start.{
  AcpiDevice, MethodKey, key_of, method_keys, custom_key, type_of_length, fan_name, acpi_smc,
  add_acpi_sensor, describe_acpi_fan, add_acpi_fan, add_acpi_tachometer, add_acpi_fans,
  add_method_keys, add_custom, add_customs, start_acpi,
}

-- The strings of the property list have at least four characters.
abbrev pub AreNamed : List (Bytes × Option Bytes) → Type 0
AreNamed [] = Unit
AreNamed ((name, none) ∷ customs) = AreNamed customs
AreNamed ((name, some text) ∷ customs) = FourChars text × AreNamed customs

take-FourChars :
    (n : ℕ) (text : Bytes) → FourChars text → FourChars (take (suc (suc (suc (suc n)))) text)
take-FourChars n [] f = absurd (f.first refl)
take-FourChars n (a ∷ []) f = absurd (f.second refl)
take-FourChars n (a ∷ b ∷ []) f = absurd (f.third refl)
take-FourChars n (a ∷ b ∷ c ∷ []) f = absurd (f.fourth refl)
take-FourChars n (a ∷ b ∷ c ∷ d ∷ text) f = record {
  first = f.first;
  second = f.second;
  third = f.third;
  fourth = f.fourth;
}

custom_key-FourChars :
    (method text : Bytes) → FourChars text → FourChars (custom_key method text).key
unfolding custom_key
custom_key-FourChars method text f =
    if-both (λ (k : MethodKey). FourChars k.key) (get_or (take 7 text) 4 0 == 0x2d) _ _
      (take-FourChars 0 text f) (take-FourChars 3 text f)

-- A test of the names, which runs on the table.
unfoldable is_named : Bytes → Bool
is_named name =
    not (get_or name 0 0 == 0)
    && not (get_or name 1 0 == 0)
    && not (get_or name 2 0 == 0)
    && not (get_or name 3 0 == 0)

is_named-FourChars : (name : Bytes) → is_named name ≡ true → FourChars name
unfolding is_named
is_named-FourChars name e = record {
  first = ground arith;
  second = ground arith;
  third = ground arith;
  fourth = ground arith;
}

unfoldable are_named : List MethodKey → Bool
unfolding is_named
are_named [] = true
are_named (k ∷ ks) = is_named k.key && are_named ks

are_named-FourChars :
    (ks : List MethodKey) → are_named ks ≡ true → All (λ (k : MethodKey). FourChars k.key) ks
unfolding are_named
are_named-FourChars [] e = tt
are_named-FourChars (k ∷ ks) e =
    (is_named-FourChars k.key (ground arith), are_named-FourChars ks (ground arith))

method_keys-FourChars : All (λ (k : MethodKey). FourChars k.key) method_keys
unfolding method_keys are_named
method_keys-FourChars = are_named-FourChars method_keys refl

module _ {H : Type 0} (p : Acpi H) where
  acpi_smc-IsConsistent :
      (c : PlatformCall) (d : AcpiDevice H)
      → IsNamed c
      → IsConsistent d
      → IsConsistent (acpi_smc p c d).2
  unfolding acpi_smc
  acpi_smc-IsConsistent c d n ok = call_platform_function-IsConsistent (acpi_callback p) c d n ok

  add_acpi_sensor-IsConsistent :
      (k : MethodKey) (d : AcpiDevice H)
      → FourChars k.key
      → IsConsistent d
      → IsConsistent (add_acpi_sensor p k d).1
  unfolding add_acpi_sensor
  add_acpi_sensor-IsConsistent k d chars c =
      let request = add_key_handler (some k.key) (some k.type) k.size (some self) in
      let (r, out, d1) = acpi_smc p request d in
      let c1 = acpi_smc-IsConsistent request d chars c in
      if-both (λ (x : Bool × AcpiDevice H). IsConsistent x.1) (is_success r) _ (false, d1)
        (IsConsistent-same_keys refl c1) c1

  describe_acpi_fan-IsConsistent :
      (fan : ℕ) (id : Option Bytes) (d : AcpiDevice H)
      → IsConsistent d
      → IsConsistent (describe_acpi_fan p fan id d)
  unfolding describe_acpi_fan
  describe_acpi_fan-IsConsistent fan none d c = c
  describe_acpi_fan-IsConsistent fan (some id) d c =
      acpi_smc-IsConsistent
        (add_key_value (some (fan_key fan (codes "ID"))) (some (codes "{fds")) 16
          (some (fan_description id)))
        d (fan_key-FourChars fan _ _ (ltb→lt 0 0x49 refl) (ltb→lt 0 0x44 refl)) c

  add_acpi_fan-IsConsistent :
      (method : Bytes) (id : Option Bytes) (a : Answer (AcpiWorld H))
      → IsConsistent a.2
      → IsConsistent (add_acpi_fan p method id a)
  unfolding add_acpi_fan
  add_acpi_fan-IsConsistent method id (success, value_found size bytes, d) c =
      let fan = get_or bytes 0 0 in
      let k = key_of method (fan_key fan (codes "Ac")) (codes "fpe2") 2 in
      let (ok, d1) = add_acpi_sensor p k d in
      let c1 =
        add_acpi_sensor-IsConsistent k d
          (fan_key-FourChars fan _ _ (ltb→lt 0 0x41 refl) (ltb→lt 0 0x63 refl)) c in
      if-both IsConsistent ok _ d1
        (acpi_smc-IsConsistent (set_key_value (some (codes "FNum")) 1 (some ((fan + 1) % 256 ∷ [])))
          (describe_acpi_fan p fan id d1) tt (describe_acpi_fan-IsConsistent fan id d1 c1))
        c1
  add_acpi_fan-IsConsistent method id (success, nothing, d) c = c
  add_acpi_fan-IsConsistent method id (success, handler_found h, d) c = c
  add_acpi_fan-IsConsistent method id (error, out, d) c = c
  add_acpi_fan-IsConsistent method id (bad_argument, out, d) c = c
  add_acpi_fan-IsConsistent method id (unsupported, out, d) c = c

  add_acpi_tachometer-IsConsistent :
      (method : Bytes) (id : Option Bytes) (d : AcpiDevice H)
      → IsConsistent d
      → IsConsistent (add_acpi_tachometer p method id d)
  unfolding add_acpi_tachometer
  add_acpi_tachometer-IsConsistent method id d c =
      add_acpi_fan-IsConsistent method id _
        (acpi_smc-IsConsistent (get_key_value (some (codes "FNum"))) d tt c)

  add_acpi_fans-IsConsistent :
      (names : Option (List (Option Bytes))) (n i : ℕ) (d : AcpiDevice H)
      → IsConsistent d
      → IsConsistent (add_acpi_fans p names n i d)
  unfolding add_acpi_fans
  add_acpi_fans-IsConsistent names zero i d c = c
  add_acpi_fans-IsConsistent names (suc n) i d c =
      if-both IsConsistent _ _ d
        (add_acpi_fans-IsConsistent names n (i + 1) _
          (add_acpi_tachometer-IsConsistent _ (fan_name names i) d c))
        c

  add_method_keys-IsConsistent :
      (ks : List MethodKey) (d : AcpiDevice H)
      → All (λ (k : MethodKey). FourChars k.key) ks
      → IsConsistent d
      → IsConsistent (add_method_keys p ks d)
  unfolding add_method_keys
  add_method_keys-IsConsistent [] d chars c = c
  add_method_keys-IsConsistent (k ∷ ks) d chars c = add_method_keys-IsConsistent ks _ chars.1 (
      if-both IsConsistent (p.is_valid k.method) _ d (add_acpi_sensor-IsConsistent k d chars.0 c) c)

  add_custom-IsConsistent :
      (name text : Bytes) (d : AcpiDevice H)
      → FourChars text
      → IsConsistent d
      → IsConsistent (add_custom p name (some text) d)
  unfolding add_custom
  add_custom-IsConsistent name text d chars c =
      if-both IsConsistent (not (p.is_valid (take 4 name))) d _ c (
        if-both IsConsistent (get_or text 0 0 == 0x46) _ _
          (add_acpi_tachometer-IsConsistent (take 7 text) (some (take 4 name)) d c)
          (add_acpi_sensor-IsConsistent (custom_key (take 4 name) text) d
            (custom_key-FourChars (take 4 name) text chars) c))

  add_customs-IsConsistent :
      (customs : List (Bytes × Option Bytes)) (d : AcpiDevice H)
      → AreNamed customs
      → IsConsistent d
      → IsConsistent (add_customs p customs d)
  unfolding add_customs add_custom
  add_customs-IsConsistent [] d named c = c
  add_customs-IsConsistent ((name, none) ∷ customs) d named c =
      add_customs-IsConsistent customs d named c
  add_customs-IsConsistent ((name, some text) ∷ customs) d named c =
      add_customs-IsConsistent customs _ named.1 (add_custom-IsConsistent name text d named.0 c)

  -- The start of the monitor for ACPI leaves every key of the SMC well formed, #KEY first and the
  -- names unique, whatever methods there are, if the strings of the property list's keys have at
  -- least four characters.
  pub start_acpi-IsConsistent :
      (names : Option (List (Option Bytes))) (customs : List (Bytes × Option Bytes))
      (d : AcpiDevice H)
      → AreNamed customs
      → IsConsistent d
      → IsConsistent (start_acpi p names customs d)
  unfolding start_acpi
  start_acpi-IsConsistent names customs d named c = add_customs-IsConsistent customs _ named (
      add_method_keys-IsConsistent method_keys _ method_keys-FourChars
        (add_acpi_fans-IsConsistent names 10 0 d c))
