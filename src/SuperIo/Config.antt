-- ===== src/SuperIo/Config.antt =====
-- The configuration of a chip's sensors: process_sensor_entry of utils/utils.h, vendorID of
-- plugins/SuperIOSensors/SuperIOFamily/SuperIOFamily.cpp, and the choice of the configuration that
-- ITEIT87x.cpp and WinbondW836x.cpp have in common. The objects of the property list are data.
use fake_smc3_with_plugins.Prelude.{
  leb, ◌==◌, if◌then◌else◌, length, Bytes, codes, c_str, ℕ, ◌%◌, Bool, false, Option, none, some,
  List, [], ◌∷◌, ◌++◌,
}
pub mod Laws
use fake_smc3_with_plugins.SuperIo.Monitor.{same_string, hex_digit}

mutual
  -- OSObject: a string, a Boolean, a number or a dictionary.
  pub data Entry : Type 0 where
    text : Bytes → Entry
    flag : Bool → Entry
    number : ℕ → Entry
    dictionary : Dictionary → Entry

  -- OSDictionary
  pub data Dictionary : Type 0 where
    empty : Dictionary
    entry : Bytes → Entry → Dictionary → Dictionary

-- OSDictionary::getObject
unfoldable pub get_object : Bytes → Dictionary → Option Entry
unfolding same_string
get_object key empty = none
get_object key (entry name object rest) =
    let later = get_object key rest in if same_string key name then some object else later

-- OSDynamicCast of an object that may be missing.
abbrev pub as_text : Option Entry → Option Bytes
as_text (some (text s)) = some s
as_text r = none

abbrev pub as_flag : Option Entry → Option Bool
as_flag (some (flag b)) = some b
as_flag r = none

abbrev pub as_number : Option Entry → Option ℕ
as_number (some (number n)) = some n
as_number r = none

abbrev pub as_dictionary : Option Entry → Option Dictionary
as_dictionary (some (dictionary d)) = some d
as_dictionary r = none

abbrev pub number_or : Option ℕ → ℕ → ℕ
number_or none default = default
number_or (some n) default = n % 18446744073709551616

-- configuration ? configuration->getObject(key) : 0
unfoldable pub configured : Bytes → Option Dictionary → Option Entry
unfolding get_object
configured key none = none
configured key (some d) = get_object key d

-- flag && flag->isTrue()
abbrev pub is_true : Option Bool → Bool
is_true none = false
is_true (some b) = b

-- snprintf(key, …, "…%X", i), for an index below 16.
unfoldable pub indexed : Bytes → ℕ → Bytes
unfolding hex_digit
indexed prefix i = prefix ++ hex_digit i ∷ []

-- The name and the factors Ri, Rf and Vf that process_sensor_entry finds, if it returns true.
pub record Source : Type 0 where
  pub name : Bytes
  pub ri : ℕ
  pub rf : ℕ
  pub vf : ℕ

unfoldable pub nonzero_or_1 : ℕ → ℕ
nonzero_or_1 rf = if rf == 0 then 1 else rf

abbrev pub source_of_dictionary : Option Bytes → Dictionary → Option Source
unfolding get_object nonzero_or_1
source_of_dictionary none d = none
source_of_dictionary (some name) d = some (record {
  name = name;
  ri = number_or (as_number (get_object (codes "Ri") d)) 0;
  rf = nonzero_or_1 (number_or (as_number (get_object (codes "Rf") d)) 1);
  vf = number_or (as_number (get_object (codes "VRef") d)) 0;
})

-- process_sensor_entry
unfoldable pub process_sensor_entry : Option Entry → Option Source
unfolding get_object
process_sensor_entry (some (text name)) = some (record { name = name; ri = 0; rf = 1; vf = 0 })
process_sensor_entry (some (dictionary d)) =
    source_of_dictionary (as_text (get_object (codes "Name") d)) d
process_sensor_entry r = none

-- What stands behind the first name of a table that is equal.
unfoldable pub find_named {ℓ} : {V : Type ℓ} → Bytes → List (Bytes × V) → Option V
unfolding same_string
find_named name [] = none
find_named name ((n, v) ∷ table) =
    let later = find_named name table in if same_string name n then some v else later

-- The table of vendorID.
unfoldable pub vendors : List (Bytes × Bytes)
vendors =
    (codes "Alienware", codes "Alienware")
    ∷ (codes "Apple Inc.", codes "Apple")
    ∷ (codes "ASRock", codes "ASRock")
    ∷ (codes "ASUSTeK Computer INC.", codes "ASUS")
    ∷ (codes "ASUSTeK COMPUTER INC.", codes "ASUS")
    ∷ (codes "Dell Inc.", codes "Dell")
    ∷ (codes "DFI", codes "DFI")
    ∷ (codes "DFI Inc.", codes "DFI")
    ∷ (codes "ECS", codes "ECS")
    ∷ (codes "EPoX COMPUTER CO., LTD", codes "EPoX")
    ∷ (codes "EVGA", codes "EVGA")
    ∷ (codes "First International Computer, Inc.", codes "FIC")
    ∷ (codes "FUJITSU", codes "FUJITSU")
    ∷ (codes "FUJITSU SIEMENS", codes "FUJITSU")
    ∷ (codes "Gigabyte Technology Co., Ltd.", codes "Gigabyte")
    ∷ (codes "Hewlett-Packard", codes "HP")
    ∷ (codes "IBM", codes "IBM")
    ∷ (codes "Intel", codes "Intel")
    ∷ (codes "Intel Corp.", codes "Intel")
    ∷ (codes "Intel Corporation", codes "Intel")
    ∷ (codes "INTEL Corporation", codes "Intel")
    ∷ (codes "Lenovo", codes "Lenovo")
    ∷ (codes "LENOVO", codes "Lenovo")
    ∷ (codes "Micro-Star International", codes "MSI")
    ∷ (codes "MICRO-STAR INTERNATIONAL CO., LTD", codes "MSI")
    ∷ (codes "MICRO-STAR INTERNATIONAL CO.,LTD", codes "MSI")
    ∷ (codes "MSI", codes "MSI")
    ∷ (codes "Shuttle", codes "Shuttle")
    ∷ (codes "TOSHIBA", codes "TOSHIBA")
    ∷ (codes "XFX", codes "XFX")
    ∷ []

-- vendorID
unfoldable pub vendor_id : Bytes → Option Bytes
unfolding find_named vendors
vendor_id manufacturer = find_named manufacturer vendors

-- The properties of /efi/platform.
pub record Platform : Type 0 where
  pub oem_vendor : Option Bytes
  pub oem_board : Option Bytes
  pub oem_product : Option Bytes

-- What a start of a plugin comes to: it crashes where it uses a null pointer or writes behind an
-- array.
pub data Outcome {ℓ} (A : Type ℓ) : Type ℓ where
  crashed : Outcome A
  done : A → Outcome A

-- bcopy of the data into an array of 40 zeros.
unfoldable pub fits_array : Bytes → Bool
fits_array data_bytes = leb (length data_bytes) 40

abbrev pub board_or_product : Platform → Option Bytes
board_or_product p = elim p.oem_board [ none ↦ p.oem_product | some board ↦ some board ]

-- link->getObject(product), of a link that may be missing.
abbrev pub linked : Option Dictionary → Bytes → Outcome (Option Dictionary)
unfolding configured
linked none product = done none
linked (some link) product = done (as_dictionary (configured (c_str product) (some link)))

-- With the vendor's short name; `lists` is used without a test.
abbrev pub configuration_of_board :
    Option Dictionary → Bytes → Option Bytes → Outcome (Option Dictionary)
unfolding get_object fits_array
configuration_of_board lists nick none = done none
configuration_of_board none nick (some product) = crashed
configuration_of_board (some lists) nick (some product) =
    if fits_array product then linked (as_dictionary (get_object nick lists)) product else crashed

abbrev pub configuration_of_nick :
    Option Dictionary → Option Bytes → Option Bytes → Outcome (Option Dictionary)
configuration_of_nick lists none product = done none
configuration_of_nick lists (some nick) product = configuration_of_board lists nick product

abbrev pub configuration_of_vendor :
    Option Dictionary → Option Bytes → Option Bytes → Outcome (Option Dictionary)
unfolding vendor_id fits_array
configuration_of_vendor lists none product = done none
configuration_of_vendor lists (some vendor) product =
    if fits_array vendor
    then configuration_of_nick lists (vendor_id (c_str vendor)) product
    else crashed

abbrev pub or_default :
    Option Dictionary → Outcome (Option Dictionary) → Outcome (Option Dictionary)
unfolding get_object
or_default lists crashed = crashed
or_default lists (done (some c)) = done (some c)
or_default none (done none) = done none
or_default (some l) (done none) = done (as_dictionary (get_object (codes "Default") l))

-- The configuration that start takes: that of the vendor's board in "Sensors Configuration", or the
-- default one.
unfoldable pub choose_configuration :
    Option Dictionary → Option Platform → Outcome (Option Dictionary)
choose_configuration lists none = or_default lists (done none)
choose_configuration lists (some p) =
    or_default lists (configuration_of_vendor lists p.oem_vendor (board_or_product p))
