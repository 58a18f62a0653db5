-- ===== src/Smc/Platform/Values.antt =====
-- The values that plugins write and read with callPlatformFunction of fakesmc/FakeSMCDevice.cpp.
use fake_smc3_with_plugins.Prelude.{
  ℕ, ◌<◌, ◌≡◌, ◌∙◌, ◌%◌, ap, none, some, Bytes, read_bytes, load32, ne→==, arith, refl,
}
use fake_smc3_with_plugins.Smc.Key.{Key, Callback, success}
use fake_smc3_with_plugins.Smc.Key.Laws.{set_value_from_buffer_plain, get_value_plain}
use fake_smc3_with_plugins.Smc.Device.{Device}
use fake_smc3_with_plugins.Smc.Store.{get_key, put_key}
use fake_smc3_with_plugins.Smc.Store.Lookup.{find_key-set_self}
use fake_smc3_with_plugins.Smc.Platform.{
  value_found, answer, set_key_value, get_key_value, set_found, value_of, call_platform_function,
}

module _ {W : Type 0} (call : Callback W) where
  set_key_value_plain :
      (name value : Bytes) (size : ℕ) (d : Device W) (i : ℕ) (k : Key)
      → get_key name d ≡ some (i, k)
      → k.handler ≡ none
      → 0 < size % 256
      → call_platform_function call (set_key_value (some name) size (some value)) d
        ≡ answer success (
            put_key i
              (record k { size = size % 256; value = read_bytes (size % 256) value })
              d.world
              d)
  unfolding call_platform_function
  set_key_value_plain name value size d i k found plain pos =
      rw (ne→== (size % 256) 0 (omega arith)) (
        ap (λ r. set_found call r (size % 256) value d) found
        ∙ rw (set_value_from_buffer_plain call value (size % 256) k d.world pos plain))

  -- What a plugin sets as the value of a key that no handler answers for is what the next plugin
  -- gets, with the size modulo 256, if that is not 0.
  pub get_key_value-set_key_value :
      (name value : Bytes) (size : ℕ) (d : Device W) (i : ℕ) (k : Key)
      → get_key name d ≡ some (i, k)
      → k.handler ≡ none
      → 0 < size % 256
      → let d' = (call_platform_function call (set_key_value (some name) size (some value)) d).2 in
        (call_platform_function call (get_key_value (some name)) d').1
        ≡ value_found (size % 256) (read_bytes (size % 256) value)
  unfolding call_platform_function get_key
  get_key_value-set_key_value name value size d i k found plain pos =
      rw (set_key_value_plain name value size d i k found plain pos) (
        ap (λ r. (value_of call r (put_key i k' d.world d)).1)
          (find_key-set_self (load32 name) d.keys k' refl found)
        ∙ rw (get_value_plain call k' d.world plain))
    where
      k' : Key
      k' = record k { size = size % 256; value = read_bytes (size % 256) value }
