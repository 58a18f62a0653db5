-- ===== src/Smc/Platform.antt =====
-- fakesmc/FakeSMCDevice.cpp, callPlatformFunction: the calls by which the sensor plugins reach the
-- store. The name of the function and the casts of its four parameters are the constructor and its
-- arguments; a pointer that may be null is an `Option`, an object a number.
use fake_smc3_with_plugins.Prelude.{
  ◌==◌, if◌then◌else◌, Bytes, ℕ, ◌%◌, Bool, false, Option, none, some, map,
}
pub mod Laws
pub mod Values
use fake_smc3_with_plugins.Smc.Key.{
  Key, Callback, IoReturn, success, error, bad_argument, unsupported, get_value,
  set_value_from_buffer, set_handler,
}
use fake_smc3_with_plugins.Smc.Device.{Device}
use fake_smc3_with_plugins.Smc.Store.{get_key, put_key, add_key_with_value, add_key_with_handler}

pub data PlatformCall : Type 0 where
  set_key_value : Option Bytes → ℕ → Option Bytes → PlatformCall
  add_key_handler : Option Bytes → Option Bytes → ℕ → Option ℕ → PlatformCall
  get_key_handler : Option Bytes → Bool → PlatformCall
  remove_key_handler : Option ℕ → PlatformCall
  add_key_value : Option Bytes → Option Bytes → ℕ → Option Bytes → PlatformCall
  get_key_value : Option Bytes → PlatformCall
  other_function : PlatformCall

-- What a call writes through its pointers.
pub data Output : Type 0 where
  nothing : Output
  handler_found : ℕ → Output
  value_found : ℕ → Bytes → Output

abbrev pub Answer : Type 0 → Type 0
Answer W = IoReturn × Output × Device W

-- key->getHandler() == handler
unfoldable pub has_handler : ℕ → Key → Bool
has_handler h k = elim k.handler [ none ↦ false | some h' ↦ h' == h ]

-- The body of the loop of kFakeSMCRemoveKeyHandler.
unfoldable pub drop_handler : ℕ → Key → Key
unfolding has_handler
drop_handler h k = if has_handler h k then (set_handler none k).1 else k

module _ {W : Type 0} where
  abbrev pub answer : IoReturn → Device W → Answer W
  answer r d = (r, nothing, d)

  -- if (add…) success else error
  abbrev pub added : Option ℕ × Device W → Answer W
  added (none, d) = answer error d
  added (some i, d) = answer success d

  -- The branch of kFakeSMCGetKeyHandler behind getKey; `out` tells that there is a place for the
  -- handler.
  abbrev handler_of : Option (ℕ × Key) → Bool → Device W → Answer W
  handler_of none out d = answer error d
  handler_of (some (i, k)) out d = elim k.handler [
    | none ↦ answer error d
    | some h ↦ if out then (success, handler_found h, d) else answer bad_argument d
  ]

  unfoldable pub remove_handler : ℕ → Device W → Device W
  unfolding drop_handler
  remove_handler h d = record d { keys = map (drop_handler h) d.keys }

module _ {W : Type 0} (call : Callback W) where
  abbrev set_found : Option (ℕ × Key) → ℕ → Bytes → Device W → Answer W
  set_found none size value d = answer error d
  set_found (some (i, k)) size value d =
      let (done, k', w') = set_value_from_buffer call (some value) size k d.world in
      if done then answer success (put_key i k' w' d) else answer error (put_key i k' w' d)

  abbrev value_of : Option (ℕ × Key) → Device W → Answer W
  value_of none d = answer error d
  value_of (some (i, k)) d =
      let (k', w') = get_value call k d.world in
      (success, value_found k.size k'.value, put_key i k' w' d)

  -- callPlatformFunction. A size is cast to an unsigned char.
  unfoldable pub call_platform_function : PlatformCall → Device W → Answer W
  unfolding get_key
  call_platform_function (set_key_value (some name) size (some value)) d =
      if size % 256 == 0
      then answer bad_argument d
      else set_found (get_key name d) (size % 256) value d
  call_platform_function (set_key_value name size value) d = answer bad_argument d
  call_platform_function (add_key_handler (some name) (some type) size handler) d =
      if size % 256 == 0
      then answer bad_argument d
      else added (add_key_with_handler call name (some type) (size % 256) handler d)
  call_platform_function (add_key_handler name type size handler) d = answer bad_argument d
  call_platform_function (get_key_handler none out) d = answer bad_argument d
  call_platform_function (get_key_handler (some name) out) d = handler_of (get_key name d) out d
  call_platform_function (remove_key_handler none) d = answer bad_argument d
  call_platform_function (remove_key_handler (some h)) d = answer success (remove_handler h d)
  call_platform_function (add_key_value (some name) (some type) size value) d =
      if size % 256 == 0
      then answer bad_argument d
      else added (add_key_with_value call name (some type) (size % 256) value d)
  call_platform_function (add_key_value name type size value) d = answer bad_argument d
  call_platform_function (get_key_value none) d = answer bad_argument d
  call_platform_function (get_key_value (some name)) d = value_of (get_key name d) d
  call_platform_function other_function d = answer unsupported d
