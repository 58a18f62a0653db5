-- ===== src/Acpi/Tests.antt =====
-- The monitor for ACPI at concrete inputs.
use fake_smc3_with_plugins.Prelude.{
  ◌==◌, get_or, codes, c_str, load32, ℕ, ◌≡◌, refl, false, none, some, [], ◌∷◌, arith,
}
use fake_smc3_with_plugins.Smc.Key.{success, get_value_callback, set_value_callback}
use fake_smc3_with_plugins.Smc.Device.{clear_status}
use fake_smc3_with_plugins.Smc.Store.{find_key}
use fake_smc3_with_plugins.Smc.Load.Laws.{four_of}
use fake_smc3_with_plugins.Smc.Store.Invariant.{IsConsistent}
use fake_smc3_with_plugins.SuperIo.Codec.{encode_fpe2}
use fake_smc3_with_plugins.SuperIo.Monitor.{self, same_string, value_bytes}
use fake_smc3_with_plugins.Pci.{get_object}
use fake_smc3_with_plugins.Acpi.{Acpi, AcpiMonitor, acpi_callback}
use fake_smc3_with_plugins.Acpi.Start.{AcpiDevice, start_acpi}
use fake_smc3_with_plugins.Acpi.Laws.{start_acpi-IsConsistent}
use fake_smc3_with_plugins.Acpi.Laws.Fans.{acpi_callback-acpi_callback}

-- Methods that keep the number that they are given last, and answer with it.
abbrev keeping : Acpi ℕ
keeping = record {
  is_valid = λ method. get_or method 3 0 == 0x30;
  evaluate = λ method numbers h. (success, h, get_or numbers 0 h);
}

abbrev one_fan : AcpiMonitor
one_fan = record { sensors = (codes "F0Ac", codes "FAN0") ∷ []; overran = false }

acpi_callback-acpi_callback_example :
    let w =
      (acpi_callback keeping set_value_callback self
        (codes "F0Ac")
        (value_bytes (encode_fpe2 1200))
        2
        (one_fan, 0)).2 in
    let (r, out, w1) =
      acpi_callback keeping get_value_callback self (codes "F0Ac") (0 ∷ 0 ∷ []) 2 w in
    (r ≡ success) × (out ≡ value_bytes (encode_fpe2 1200))
unfolding get_object same_string c_str
acpi_callback-acpi_callback_example =
    acpi_callback-acpi_callback keeping (codes "F0Ac") (codes "FAN0") 1200 one_fan 0 refl refl refl
      (omega arith) (λ v k. refl) (λ v k. refl)

-- #KEY and "FNum", with no fan counted.
abbrev acpi_device : AcpiDevice ℕ
acpi_device = record {
  status = clear_status;
  keys =
      record {
        name = 0x23 ∷ 0x4b ∷ 0x45 ∷ 0x59 ∷ 0 ∷ [];
        type = 0x75 ∷ 0x69 ∷ 0x33 ∷ 0x32 ∷ 0 ∷ [];
        size = 4;
        value = 0 ∷ 0 ∷ 0 ∷ 2 ∷ [];
        handler = none;
      }
      ∷ record {
        name = 0x46 ∷ 0x4e ∷ 0x75 ∷ 0x6d ∷ 0 ∷ [];
        type = 0x75 ∷ 0x69 ∷ 0x38 ∷ 0 ∷ 0 ∷ [];
        size = 1;
        value = 0 ∷ [];
        handler = none;
      }
      ∷ [];
  values = [];
  nvram = none;
  debug = false;
  is_rev_less = false;
  interrupt = record { target = 0; handler = 0; refcon = 0; source = 0 };
  world = (record one_fan { sensors = [] }, 0);
}

acpi_device-IsConsistent : IsConsistent acpi_device
unfolding find_key load32
acpi_device-IsConsistent = record {
  well_formed = omega arith;
  sharp_first = refl;
  distinct = (refl, (refl, tt));
}

start_acpi-IsConsistent_example : IsConsistent (
    start_acpi keeping
      (some (some (codes "System") ∷ []))
      ((codes "TVR0", some (codes "TV0P-3")) ∷ [])
      acpi_device)
start_acpi-IsConsistent_example =
    start_acpi-IsConsistent keeping (some (some (codes "System") ∷ []))
      ((codes "TVR0", some (codes "TV0P-3")) ∷ []) acpi_device (four_of _ refl refl refl refl, tt)
      acpi_device-IsConsistent
