-- ===== src/Pci/Tests.antt =====
-- The monitors of the devices on the PCI bus at concrete inputs.
use fake_smc3_with_plugins.Prelude.{
  codes, c_str, load32, ℕ, ◌+◌, ◌≡◌, refl, true, false, none, some, [], ◌∷◌, arith,
}
use fake_smc3_with_plugins.Smc.Key.{Key, get_value_callback}
use fake_smc3_with_plugins.Smc.Device.{clear_status}
use fake_smc3_with_plugins.Smc.Store.{find_key}
use fake_smc3_with_plugins.Smc.Store.Invariant.{IsConsistent}
use fake_smc3_with_plugins.SuperIo.Monitor.{self, same_string}
use fake_smc3_with_plugins.Pci.{get_object, Pci, PciMonitor, PciDevice}
use fake_smc3_with_plugins.Pci.Amd.{start_amd, probe_amd}
use fake_smc3_with_plugins.Pci.Mch.{mch_callback, start_mch}
use fake_smc3_with_plugins.Pci.X3100.{start_x3100}
use fake_smc3_with_plugins.Pci.Laws.{starts-IsConsistent}
use fake_smc3_with_plugins.Pci.Laws.Mapping.{mch_callback-is_outside}

abbrev board : Pci ℕ
board = record {
  config_read32 = λ card register h. (0xfed10001, h);
  can_map = λ address size. true;
  read8 = λ address h. (45, h);
  read16 = λ address h. (0x2c2d, h);
  write32 = λ address value h. h;
  sleep = λ milliseconds h. h + milliseconds;
}

abbrev fresh_monitor : PciMonitor
fresh_monitor = record {
  sensors = (codes "TN0P", 0) ∷ (codes "Tm0P", 0) ∷ (codes "Tm1P", 1) ∷ [];
  num_card = 0;
  mmio_base = some 0xfed10000;
  is_outside = false;
}

abbrev sharp_key : Key
sharp_key = record {
  name = 0x23 ∷ 0x4b ∷ 0x45 ∷ 0x59 ∷ 0 ∷ [];
  type = 0x75 ∷ 0x69 ∷ 0x33 ∷ 0x32 ∷ 0 ∷ [];
  size = 4;
  value = 0 ∷ 0 ∷ 0 ∷ 1 ∷ [];
  handler = none;
}

abbrev pci_device : PciDevice ℕ
pci_device = record {
  status = clear_status;
  keys = sharp_key ∷ [];
  values = [];
  nvram = none;
  debug = false;
  is_rev_less = false;
  interrupt = record { target = 0; handler = 0; refcon = 0; source = 0 };
  world = (fresh_monitor, 0);
}

pci_device-IsConsistent : IsConsistent pci_device
unfolding find_key load32
pci_device-IsConsistent = record {
  well_formed = omega arith;
  sharp_first = refl;
  distinct = (refl, tt);
}

starts-IsConsistent_example :
    IsConsistent (start_amd board (some 3) pci_device).1
    × IsConsistent (start_mch board (some 3) pci_device).1
    × IsConsistent (start_x3100 board (some 3) pci_device).1
starts-IsConsistent_example = starts-IsConsistent board (some 3) pci_device pci_device-IsConsistent

mch_callback-is_outside_example :
    ((mch_callback board get_value_callback self
        (codes "TN0P")
        (0 ∷ 0 ∷ [])
        2
        (fresh_monitor, 0)).2.0.is_outside
      ≡ true)
    × ((mch_callback board get_value_callback self
          (codes "Tm1P")
          (0 ∷ 0 ∷ [])
          2
          (fresh_monitor, 0)).2.0.is_outside
        ≡ true)
unfolding get_object same_string c_str
mch_callback-is_outside_example =
    mch_callback-is_outside board (codes "Tm1P") 1 (0 ∷ 0 ∷ []) 2 (fresh_monitor, 0) refl refl

-- A device without the property keeps what the one before it left, and is taken for AMD's.
carried_id :
    probe_amd (
      record { vendor_id = some 0x1022; device_id = some 0x1463; class_code = none }
      ∷ record { vendor_id = none; device_id = none; class_code = none }
      ∷ [])
    ≡ some 1
unfolding probe_amd
carried_id = refl
