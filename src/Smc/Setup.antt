-- ===== src/Smc/Setup.antt =====
-- fakesmc/FakeSMCDevice.cpp, init: the device as the service starts it. The calls of the I/O Kit that
-- make objects succeed; the boot arguments, the registry and the property list are the argument.
pub mod Laws
use fake_smc3_with_plugins.Prelude.{
  c_str, ℕ, Bool, true, false, Option, none, some, List, [], ◌∷◌, ◌++◌, Bytes, codes, if◌then◌else◌,
}
use fake_smc3_with_plugins.Smc.Key.{Key, Callback, with_value}
use fake_smc3_with_plugins.Smc.Device.{clear_status, Device}
use fake_smc3_with_plugins.Smc.Load.{
  Object, CloverNode, load_keys_from_dictionary, load_keys_from_clover,
}
use fake_smc3_with_plugins.Smc.Message.{set_debug}
use fake_smc3_with_plugins.Smc.Model.{is_model_rev_less}

-- What init finds: the boot arguments -withREV and -noREV, /efi/platform with the bytes of its
-- property Model, the entries of the property list, and whether there is an NVRAM.
pub record Setting : Type 0 where
  pub with_rev : Bool
  pub no_rev : Bool
  pub model : Option Bytes
  pub node : Option CloverNode
  pub keys : Option (List (Bytes × Object))
  pub smc_compatible : Option Bytes
  pub debug : Option Bool
  pub has_nvram : Bool

-- What init leaves: the device, the registry node, and the properties of the nub that the system's
-- driver matches on.
pub record Started (W : Type 0) : Type 0 where
  pub device : Device W
  pub node : Option CloverNode
  pub name : Bytes
  pub compatible : Bytes
  pub sta : ℕ
  pub memory_start : ℕ
  pub memory_length : ℕ
  pub interrupt_line : ℕ

-- raw[0], raw[2], …: the characters of the UTF-16 string.
unfoldable pub every_second : Bytes → Bytes
every_second [] = []
every_second (c ∷ []) = c ∷ []
every_second (c ∷ _ ∷ rest) = c ∷ every_second rest

-- The bytes up to the first 0.
unfoldable pub model_of : Bytes → Bytes
unfolding every_second
model_of raw = c_str (every_second raw)

-- What the model of the node decides. A node without a model is a null pointer that init follows.
abbrev pub rev_less_by : Option Bytes → Option Bool
unfolding is_model_rev_less model_of
rev_less_by none = none
rev_less_by (some raw) = is_model_rev_less (some (model_of raw))

-- isRevLess; the field of a new object is false.
unfoldable pub decide_rev_less : Setting → Option Bool
unfolding rev_less_by
decide_rev_less x =
    if x.with_rev
    then some false
    else if x.no_rev
    then some true
    else elim x.node [ none ↦ some false | some node ↦ rev_less_by x.model ]

-- strlen + 1 bytes.
unfoldable pub compatible_of : Option Bytes → Bytes
compatible_of none = codes "smc-napa" ++ 0 ∷ []
compatible_of (some name) = name ++ 0 ∷ []

-- The literal "\1" has two bytes, of which init reads four.
unfoldable pub first_keys : List Key
unfolding with_value
first_keys = elim (with_value (some (codes "#KEY")) (some (codes "ui32")) 4 (some (1 ∷ 0 ∷ []))) [
  | none ↦ []
  | some k ↦ k ∷ []
]

module _ {W : Type 0} where
  unfoldable pub fresh : Bool → W → Device W
  unfolding clear_status first_keys
  fresh is_rev_less w = record {
    status = clear_status;
    keys = first_keys;
    values = [];
    nvram = none;
    debug = false;
    is_rev_less = is_rev_less;
    interrupt = record { target = 0; handler = 0; refcon = 0; source = 0 };
    world = w;
  }

module _ {W : Type 0} (call : Callback W) where
  abbrev pub start_device : Bool → Setting → W → Started W
  unfolding fresh compatible_of
  start_device is_rev_less x w =
      let (node, d) =
        load_keys_from_clover call x.node
          (load_keys_from_dictionary call x.keys (fresh is_rev_less w)) in
      let debug : Bool = elim x.debug [ none ↦ true | some b ↦ b ] in
      record {
        device = record (set_debug debug d) { nvram = if x.has_nvram then some [] else none };
        node = node;
        name = codes "APP0001" ++ 0 ∷ [];
        compatible = compatible_of x.smc_compatible;
        sta = 0x0000000b;
        memory_start = 0x300;
        memory_length = 0x20;
        interrupt_line = 0x06;
      }

  abbrev pub started : Option Bool → Setting → W → Option (Started W)
  started none x w = none
  started (some is_rev_less) x w = some (start_device is_rev_less x w)

  -- init, after that of the base class; `none` is a fault.
  unfoldable pub init_device : Setting → W → Option (Started W)
  unfolding decide_rev_less
  init_device x w = started (decide_rev_less x) x w
