-- ===== src/Pci.antt =====
-- The monitors of a device on the PCI bus: plugins/CPUSensors/AmdCPUMonitor, plugins/IntelMCHMonitor and
-- plugins/GPUSensors/IntelX3100. What the three files share: the search for the device, the dictionary
-- `sensors`, addSensor, and the mapping of the device's registers. The bus is a parameter, over a
-- state `H`. A read behind the part that was mapped, or without a mapping, sets `is_outside`.
use fake_smc3_with_plugins.Prelude.{
  if◌then◌else◌, Bytes, ℕ, ◌+◌, ◌*◌, ◌/◌, ◌%◌, Bool, true, false, not, ◌||◌, Option, none, some,
  List, [], ◌∷◌, ltb,
}
pub mod Amd
pub mod Mch
pub mod X3100
pub mod Laws
mod Tests
use fake_smc3_with_plugins.Smc.Key.{Callback}
use fake_smc3_with_plugins.Smc.Device.{Device}
use fake_smc3_with_plugins.Smc.Platform.{add_key_handler, call_platform_function}
use fake_smc3_with_plugins.SuperIo.Monitor.{self, same_string, is_success}

-- configRead32 of a device, whether so many bytes at an address can be mapped, and the registers in memory.
pub record Pci (H : Type 0) : Type 0 where
  pub config_read32 : ℕ → ℕ → H → ℕ × H
  pub can_map : ℕ → ℕ → Bool
  pub read8 : ℕ → H → ℕ × H
  pub read16 : ℕ → H → ℕ × H
  pub write32 : ℕ → ℕ → H → H
  pub sleep : ℕ → H → H

-- The properties of a device that the search reads.
pub record PciNode : Type 0 where
  pub vendor_id : Option ℕ
  pub device_id : Option ℕ
  pub class_code : Option ℕ

-- What a property holds; without it the variable keeps what the device before left.
unfoldable pub property_or : Option ℕ → ℕ → ℕ
property_or none old = old
property_or (some n) old = n

-- The search that goes on behind a match: VCard is the last one, by its place on the bus.
unfoldable pub last_card : (ℕ → ℕ → ℕ → Bool) → List PciNode → ℕ → ℕ → ℕ → ℕ → Option ℕ → Option ℕ
unfolding property_or
last_card matches [] vendor device class i card = card
last_card matches (n ∷ nodes) vendor device class i card =
    let vendor1 = property_or n.vendor_id vendor in
    let device1 = property_or n.device_id device in
    let class1 = property_or n.class_code class in
    last_card matches nodes vendor1 device1 class1 (i + 1)
      (if matches vendor1 device1 class1 then some i else card)

-- OSDictionary, from names to objects.
abbrev pub Objects : Type 0 → Type 0
Objects A = List (Bytes × A)

unfoldable pub set_object : {A : Type 0} → Bytes → A → Objects A → Objects A
unfolding same_string
set_object name i [] = (name, i) ∷ []
set_object name i ((n, j) ∷ names) =
    let rest = set_object name i names in
    if same_string name n then (name, i) ∷ names else (n, j) ∷ rest

unfoldable pub get_object : {A : Type 0} → Bytes → Objects A → Option A
unfolding same_string
get_object name [] = none
get_object name ((n, j) ∷ names) =
    let rest = get_object name names in if same_string name n then some j else rest

-- The fields of the three classes.
pub record PciMonitor : Type 0 where
  pub sensors : Objects ℕ
  pub num_card : ℕ
  pub mmio_base : Option ℕ
  pub is_outside : Bool

abbrev pub PciWorld : Type 0 → Type 0
PciWorld H = PciMonitor × H

abbrev pub PciDevice : Type 0 → Type 0
PciDevice H = Device (PciWorld H)

-- Whether a read of `width` bytes stays inside of the `size` bytes that are mapped.
unfoldable pub is_inside : Option ℕ → ℕ → ℕ → ℕ → Bool
is_inside none size width offset = false
is_inside (some base) size width offset = not (ltb size (offset + width))

unfoldable pub base_of : Option ℕ → ℕ
base_of none = 0
base_of (some base) = base

unfoldable pub mark : ℕ → ℕ → ℕ → PciMonitor → PciMonitor
unfolding is_inside
mark size width offset s = record s {
  is_outside = s.is_outside || not (is_inside s.mmio_base size width offset);
}

module _ {H : Type 0} (p : Pci H) where
  -- INVID8 and INVID16
  unfoldable pub invid8 : ℕ → ℕ → PciWorld H → ℕ × PciWorld H
  unfolding base_of mark
  invid8 size offset (s, h) =
      let (value, h1) = p.read8 (base_of s.mmio_base + offset) h in
      (value % 256, (mark size 1 offset s, h1))

  unfoldable pub invid16 : ℕ → ℕ → PciWorld H → ℕ × PciWorld H
  unfolding base_of mark
  invid16 size offset (s, h) =
      let (value, h1) = p.read16 (base_of s.mmio_base + offset) h in
      (value % 65536, (mark size 2 offset s, h1))

  -- The mapping of `size` bytes at the start, at the address that a register of the device's configuration holds.
  unfoldable pub map_registers : ℕ → ℕ → ℕ → PciWorld H → Bool × PciWorld H
  map_registers size card register (s, h) =
      let (value, h1) = p.config_read32 card register h in
      let bar = value % 4294967296 / 16 * 16 in
      if p.can_map bar size
      then (true, (record s { mmio_base = some bar }, h1))
      else (false, (s, h1))

-- addSensor
unfoldable pub add_pci_sensor :
    {H : Type 0} → Callback (PciWorld H) → Bytes → Bytes → ℕ → ℕ → PciDevice H → Bool × PciDevice H
unfolding call_platform_function is_success set_object
add_pci_sensor call name type size index d =
    let (r, out, d1) =
      call_platform_function call (add_key_handler (some name) (some type) size (some self)) d in
    let s = d1.world.0 in
    let added = record d1 {
      world = (record s { sensors = set_object name (index % 4294967296) s.sensors }, d1.world.1);
    } in
    if is_success r then (true, added) else (false, d1)
