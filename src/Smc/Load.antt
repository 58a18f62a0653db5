-- ===== src/Smc/Load.antt =====
-- fakesmc/FakeSMCDevice.cpp, loadKeysFromDictionary and loadKeysFromClover: the keys that the
-- property list of the kext and the boot loader give.
pub mod Laws
pub mod RevLess
use fake_smc3_with_plugins.Prelude.{
  ℕ, Bool, Option, none, some, List, [], ◌∷◌, Bytes, codes, read_bytes, strncmp_eq, ◌%◌, not, ◌&&◌,
  ◌||◌, if◌then◌else◌, length,
}
use fake_smc3_with_plugins.Smc.Key.{Callback}
use fake_smc3_with_plugins.Smc.Device.{Device}
use fake_smc3_with_plugins.Smc.Store.{add_key_with_value}

-- An OSObject, as far as the code tells objects apart.
pub data Item : Type 0 where
  text : Bytes → Item
  blob : Bytes → Item
  other_item : Item

pub data Object : Type 0 where
  array : List Item → Object
  other_object : Object

-- OSDynamicCast(OSString, …) and OSDynamicCast(OSData, …) of the first two objects of the array.
unfoldable pub type_and_value : List Item → Option (Bytes × Bytes)
type_and_value (text type ∷ blob value ∷ rest) = some (type, value)
type_and_value items = none

-- The condition on the name, `is_rev_less` being isRevLess.
unfoldable pub may_load : Bool → Bytes → Bool
may_load is_rev_less key =
    not is_rev_less
    || (is_rev_less
        && (not (strncmp_eq 4 key (codes "REV "))
            && (not (strncmp_eq 4 key (codes "EPCI")) && not (strncmp_eq 4 key (codes "RBr ")))))

-- The properties of the registry node /efi/platform that hold data.
pub record CloverNode : Type 0 where
  pub rplt : Option Bytes
  pub rbr : Option Bytes
  pub rev : Option Bytes
  pub rvbf : Option Bytes
  pub epci : Option Bytes
  pub bemb : Option Bytes
  pub wktp : Option Bytes
  pub clwk : Option Bytes

module _ {W : Type 0} (call : Callback W) where
  -- The length is cast to an unsigned char.
  unfoldable pub load_entry : Bytes → Option (Bytes × Bytes) → Device W → Device W
  unfolding may_load
  load_entry key none d = d
  load_entry key (some (type, value)) d =
      if may_load d.is_rev_less key
      then (add_key_with_value call key (some type) (length value % 256) (some value) d).1
      else d

  unfoldable pub load_object : Bytes → Object → Device W → Device W
  unfolding load_entry type_and_value
  load_object key other_object d = d
  load_object key (array items) d = load_entry key (type_and_value items) d

  unfoldable pub load_entries : List (Bytes × Object) → Device W → Device W
  load_entries [] d = d
  load_entries ((key, object) ∷ entries) d = load_entries entries (load_object key object d)

  -- loadKeysFromDictionary
  unfoldable pub load_keys_from_dictionary : Option (List (Bytes × Object)) → Device W → Device W
  load_keys_from_dictionary none d = d
  load_keys_from_dictionary (some dictionary) d = load_entries dictionary d

  -- if (data) addKeyWithValue(name, type, size, data)
  unfoldable pub add_data : Bytes → Bytes → ℕ → Option Bytes → Device W → Device W
  add_data name type size none d = d
  add_data name type size (some bytes) d =
      (add_key_with_value call name (some type) size (some (read_bytes size bytes)) d).1

  -- The data that is left in the node, and the device: a device that is rev-less removes the
  -- property, and another one adds a key.
  unfoldable pub add_unless_rev_less :
      Bytes → Bytes → ℕ → Option Bytes → Device W → Option Bytes × Device W
  unfolding add_data
  add_unless_rev_less name type size bytes d =
      if d.is_rev_less then (none, d) else (bytes, add_data name type size bytes d)

  unfoldable pub load_node : CloverNode → Device W → CloverNode × Device W
  unfolding add_data
  load_node node d =
      let d0 = add_data (codes "RPlt") (codes "ch8*") 8 node.rplt d in
      let (rbr, d1) = add_unless_rev_less (codes "RBr ") (codes "ch8*") 8 node.rbr d0 in
      let (rev, d2) = add_unless_rev_less (codes "REV ") (codes "{rev") 6 node.rev d1 in
      let (rvbf, d3) = add_unless_rev_less (codes "RVBF ") (codes "{rev") 6 node.rvbf d2 in
      let (epci, d4) = add_unless_rev_less (codes "EPCI") (codes "ui32") 4 node.epci d3 in
      let d5 = add_data (codes "BEMB") (codes "flag") 1 node.bemb d4 in
      let d6 = add_data (codes "WKTP") (codes "ui8 ") 1 node.wktp d5 in
      let d7 = add_data (codes "CLWK") (codes "ui16") 2 node.clwk d6 in
      (record node { rbr = rbr; rev = rev; rvbf = rvbf; epci = epci }, d7)

  -- loadKeysFromClover
  unfoldable pub load_keys_from_clover : Option CloverNode → Device W → Option CloverNode × Device W
  load_keys_from_clover none d = (none, d)
  load_keys_from_clover (some node) d = let (node', d') = load_node node d in (some node', d')
