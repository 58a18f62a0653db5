-- ===== src/Smc/Key.antt =====
-- fakesmc/FakeSMCKey.cpp: one key of the emulated SMC. A `FakeSMCKey *` that the caller may find
-- null is an `Option`; memory that is asked for is always given, so the null tests on the results of
-- `new` and `IOMalloc` are not modelled. The service that answers for a key is outside this code: it
-- is the parameter `call`, over a state `W` of its own.
pub mod Laws
use fake_smc3_with_plugins.Prelude.{
  ℕ, zero, suc, ◌+◌, Bool, true, false, Option, none, some, List, [], ◌∷◌, Bytes, codes, read_bytes,
  c_str, strlen, strncmp_eq, zeros, take, ◌==◌, if◌then◌else◌,
}

-- IOReturn
pub data IoReturn : Type 0 where
  success error bad_argument unsupported : IoReturn

-- The function names that a handler is called with.
pub data Request : Type 0 where
  get_value_callback set_value_callback : Request

-- handler->callPlatformFunction(request, false, name, value, size, 0): what the handler returns,
-- and the bytes that it leaves at `value`.
abbrev pub Callback : Type 0 → Type 0
Callback W = Request → ℕ → Bytes → Bytes → ℕ → W → IoReturn × Bytes × W

pub record Key : Type 0 where
  pub name : Bytes
  pub type : Bytes
  pub size : ℕ
  pub value : Bytes
  pub handler : Option ℕ

-- bzero(to, 5), then at most four characters.
unfoldable pub copy_symbol : Bytes → Bytes
copy_symbol from = read_bytes 5 (take 4 (c_str from))

unfoldable pub default_type : ℕ → Bytes
default_type size =
    if size == 1
    then codes "ui8"
    else if size == 2
    then codes "ui16"
    else if size == 4
    then codes "ui32"
    else codes "ch8*"

unfoldable pub type_or_default : Option Bytes → ℕ → Bytes
type_or_default none size = default_type size
type_or_default (some t) size = if strlen t == 0 then default_type size else t

unfoldable pub value_or_zeros : Option Bytes → ℕ → Bytes
value_or_zeros none size = zeros size
value_or_zeros (some v) size = read_bytes size v

unfoldable pub init_named : Bytes → Option Bytes → ℕ → Option Bytes → Option ℕ → Key
unfolding copy_symbol type_or_default default_type value_or_zeros
init_named name type size value handler =
    let size' = if size == 0 then size + 1 else size in
    record {
      name = copy_symbol name;
      type = copy_symbol (type_or_default type size);
      size = size';
      value = value_or_zeros value size';
      handler = handler;
    }

unfoldable pub init : Option Bytes → Option Bytes → ℕ → Option Bytes → Option ℕ → Option Key
unfolding init_named
init none type size value handler = none
init (some name) type size value handler =
    if strlen name == 0 then none else some (init_named name type size value handler)

unfoldable pub with_value : Option Bytes → Option Bytes → ℕ → Option Bytes → Option Key
unfolding init
with_value name type size value = init name type size value none

unfoldable pub with_handler : Option Bytes → Option Bytes → ℕ → Option ℕ → Option Key
unfolding init
with_handler name type size handler = init name type size none handler

module _ {W : Type 0} (call : Callback W) where
  -- if (handler) …: the call writes at most the key's own bytes, and leaves them as its answer.
  unfoldable pub notify : Request → Option ℕ → Key → W → Key × W
  notify request none k w = (k, w)
  notify request (some h) k w =
      let (_, answer, w') = call request h k.name k.value k.size w in
      (record k { value = read_bytes k.size answer }, w')

  -- The value is the field of the key that comes back.
  unfoldable pub get_value : Key → W → Key × W
  get_value k w = notify get_value_callback k.handler k w

  unfoldable pub store_value : Bytes → ℕ → Key → W → Key × W
  store_value buffer size k w =
      notify set_value_callback k.handler (record k { size = size; value = read_bytes size buffer })
        w

  unfoldable pub set_value_from_buffer : Option Bytes → ℕ → Key → W → Bool × Key × W
  unfolding store_value
  set_value_from_buffer none size k w = (false, k, w)
  set_value_from_buffer (some buffer) size k w =
      if size == 0
      then (false, k, w)
      else let (k', w') = store_value buffer size k w in (true, k', w')

unfoldable pub set_handler : Option ℕ → Key → Bool × Key
set_handler none k = (false, k)
set_handler (some h) k = (true, record k { handler = some h })

-- isEqualTo(const char *)
unfoldable pub is_equal_to_name : Key → Bytes → Bool
is_equal_to_name k a = strncmp_eq 4 k.name a

-- isEqualTo(FakeSMCKey *)
unfoldable pub is_equal_to : Key → Option Key → Bool
unfolding is_equal_to_name
is_equal_to k none = false
is_equal_to k (some a) = is_equal_to_name a k.name
