-- ===== src/Pci/Laws.antt =====
-- What the monitors of the devices on the PCI bus keep of the SMC while they start, and where they read.
pub mod Mapping
use fake_smc3_with_plugins.Prelude.{
  for_loop-invariant, if-both, Bytes, codes, ℕ, zero, suc, ◌+◌, refl, Bool, true, false, Option,
  none, some, arith, ltb,
}
use fake_smc3_with_plugins.Smc.Key.{Callback, get_value_callback}
use fake_smc3_with_plugins.Smc.Store.Lookup.{FourChars}
use fake_smc3_with_plugins.Smc.Store.Invariant.{IsConsistent, IsConsistent-same_keys}
use fake_smc3_with_plugins.Smc.Platform.{add_key_handler, get_key_value, call_platform_function}
use fake_smc3_with_plugins.Smc.Platform.Laws.{call_platform_function-IsConsistent}
use fake_smc3_with_plugins.Smc.Load.Laws.{four_of}
use fake_smc3_with_plugins.SuperIo.Monitor.{self, is_success, hex_digit}
use fake_smc3_with_plugins.Cpu.Intel.Laws.Names.{four, digit-pos}
use fake_smc3_with_plugins.Pci.{
  Pci, PciNode, PciWorld, PciDevice, PciMonitor, get_object, mark, map_registers, add_pci_sensor,
}
use fake_smc3_with_plugins.Pci.Amd.{amd_callback, start_amd}
use fake_smc3_with_plugins.Pci.Mch.{
  mch_window, mch_callback, answer_dimm, channel_register, dimm_key, add_dimm, start_mch,
}
use fake_smc3_with_plugins.Pci.X3100.{
  x3100_window, x3100_callback, diode_key, try_key, try_keys, finish_x3100, start_x3100,
}

dimm_key-FourChars : (i : ℕ) → FourChars (dimm_key i)
unfolding dimm_key
dimm_key-FourChars i = four _ _ _ _ (omega arith) (omega arith) (digit-pos i) (omega arith)

diode_key-FourChars : (i : ℕ) → FourChars (diode_key i)
unfolding diode_key
diode_key-FourChars i = four _ _ _ _ (omega arith) (omega arith) (digit-pos i) (omega arith)

module _ {H : Type 0} where
  add_pci_sensor-IsConsistent :
      (call : Callback (PciWorld H)) (name type : Bytes) (size index : ℕ) (d : PciDevice H)
      → FourChars name
      → IsConsistent d
      → IsConsistent (add_pci_sensor call name type size index d).1
  unfolding add_pci_sensor
  add_pci_sensor-IsConsistent call name type size index d chars c =
      let request = add_key_handler (some name) (some type) size (some self) in
      let (r, out, d1) = call_platform_function call request d in
      let c1 = call_platform_function-IsConsistent call request d chars c in
      if-both (λ (x : Bool × PciDevice H). IsConsistent x.1) (is_success r) _ (false, d1)
        (IsConsistent-same_keys refl c1) c1

  module _ (p : Pci H) where
    start_amd-IsConsistent :
        (card : Option ℕ) (d : PciDevice H) → IsConsistent d → IsConsistent (start_amd p card d).1
    unfolding start_amd
    start_amd-IsConsistent none d c = c
    start_amd-IsConsistent (some card) d c =
        let call = amd_callback p card in
        let (r, out, d1) = call_platform_function call (get_key_value (some (codes "TC0P"))) d in
        let c1 =
          call_platform_function-IsConsistent call (get_key_value (some (codes "TC0P"))) d tt c in
        if-both (λ (x : Bool × PciDevice H). IsConsistent x.1) (is_success r) (false, d1) _ c1
          (add_pci_sensor-IsConsistent call (codes "TC0P") (codes "sp78") 2 0 d1
            (four_of _ refl refl refl refl) c1)

    add_dimm-IsConsistent :
        (i : ℕ) (x : Bool × PciDevice H) → IsConsistent x.1 → IsConsistent (add_dimm p i x).1
    unfolding add_dimm
    add_dimm-IsConsistent i x c =
        add_pci_sensor-IsConsistent (mch_callback p) (dimm_key i) (codes "sp78") 2 i x.1
          (dimm_key-FourChars i) c

    start_mch-IsConsistent :
        (card : Option ℕ) (d : PciDevice H) → IsConsistent d → IsConsistent (start_mch p card d).1
    unfolding start_mch
    start_mch-IsConsistent none d c = c
    start_mch-IsConsistent (some card) d c =
        let (mapped, w) = map_registers p mch_window card 0x40 d.world in
        let d0 : PciDevice H = record d { world = w } in
        let c0 : IsConsistent d0 = IsConsistent-same_keys refl c in
        if-both (λ (x : Bool × PciDevice H). IsConsistent x.1) mapped _ (true, d0)
          (for_loop-invariant (λ (x : Bool × PciDevice H). IsConsistent x.1) 4 0 (add_dimm p)
            (add_pci_sensor (mch_callback p) (codes "TN0P") (codes "sp78") 2 0 d0)
            add_dimm-IsConsistent
            (add_pci_sensor-IsConsistent (mch_callback p) (codes "TN0P") (codes "sp78") 2 0 d0
              (four_of _ refl refl refl refl) c0))
          c0

    try_key-IsConsistent :
        (i : ℕ) (d : PciDevice H) → IsConsistent d → IsConsistent (try_key p i d).1
    unfolding try_key
    try_key-IsConsistent i d c =
        let call = x3100_callback p in
        let (r, out, d1) = call_platform_function call (get_key_value (some (diode_key i))) d in
        let c1 =
          call_platform_function-IsConsistent call (get_key_value (some (diode_key i))) d tt c in
        if-both (λ (x : Bool × PciDevice H). IsConsistent x.1) (is_success r) (false, d1) _ c1
          (add_pci_sensor-IsConsistent call (diode_key i) (codes "sp78") 2 i d1
            (diode_key-FourChars i) c1)

    try_keys-IsConsistent :
        (n i tried : ℕ) (d : PciDevice H) → IsConsistent d → IsConsistent (try_keys p n i tried d).1
    unfolding try_keys
    try_keys-IsConsistent zero i tried d c = c
    try_keys-IsConsistent (suc n) i tried d c =
        let (is_added, d1) = try_key p i d in
        let c1 = try_key-IsConsistent i d c in
        if-both (λ (x : ℕ × PciDevice H). IsConsistent x.1) is_added _ (try_keys p n (i + 1) i d1)
          (IsConsistent-same_keys refl c1) (try_keys-IsConsistent n (i + 1) i d1 c1)

    start_x3100-IsConsistent :
        (card : Option ℕ) (d : PciDevice H) → IsConsistent d → IsConsistent (start_x3100 p card d).1
    unfolding start_x3100 finish_x3100
    start_x3100-IsConsistent none d c = c
    start_x3100-IsConsistent (some card) d c =
        let (mapped, w) = map_registers p x3100_window card 0x48 d.world in
        let d0 : PciDevice H = record d { world = w } in
        let c0 : IsConsistent d0 = IsConsistent-same_keys refl c in
        let (tried, d1) = try_keys p 16 0 0 d0 in
        if-both (λ (x : Bool × PciDevice H). IsConsistent x.1) mapped _ (true, d0)
          (call_platform_function-IsConsistent (x3100_callback p)
            (add_key_handler (some (diode_key tried)) (some (codes "sp78")) 2 (some self)) d1
            (diode_key-FourChars tried) (try_keys-IsConsistent 16 0 0 d0 c0))
          c0

    -- The starts of the monitors for AMD's processors, for Intel's memory controller and for the
    -- X3100 leave every key of the SMC well formed, #KEY first and the names unique, whether or not
    -- there is a device and whatever its registers hold.
    pub starts-IsConsistent :
        (card : Option ℕ) (d : PciDevice H)
        → IsConsistent d
        → IsConsistent (start_amd p card d).1
          × IsConsistent (start_mch p card d).1
          × IsConsistent (start_x3100 p card d).1
    starts-IsConsistent card d c = (
      start_amd-IsConsistent card d c,
      start_mch-IsConsistent card d c,
      start_x3100-IsConsistent card d c,
    )
