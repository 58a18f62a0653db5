-- ===== src/Smc/Tests/Store.antt =====
-- The laws of the keys of fakesmc/ at concrete inputs.
use fake_smc3_with_plugins.Prelude.{
  ◌==◌, if◌then◌else◌, Bytes, read_bytes, c_str, strlen, load32, ◌+◌, ◌≡◌, refl, none, some, [],
  ◌∷◌, arith,
}
use fake_smc3_with_plugins.Smc.Key.{Key, init}
use fake_smc3_with_plugins.Smc.Store.{
  find_key, get_key, get_count, add_key_with_value, add_key_with_handler,
}
use fake_smc3_with_plugins.Smc.Store.Lookup.{FourChars}
use fake_smc3_with_plugins.Smc.Store.Invariant.{
  IsConsistent, add_key_with_value-IsConsistent, add_key_with_handler-IsConsistent,
}
use fake_smc3_with_plugins.Smc.Store.Counter.{get_count-add_key_with_value}
use fake_smc3_with_plugins.Smc.Store.Update.{stored, stored-add_key_with_value}
use fake_smc3_with_plugins.Smc.Tests.Device.{silent, sharp_key, heat_key, demo, demo-IsConsistent}

-- "F0Ac"
abbrev pub fan_name : Bytes
fan_name = 0x46 ∷ 0x30 ∷ 0x41 ∷ 0x63 ∷ []

pub fan_name-FourChars : FourChars fan_name
fan_name-FourChars = record {
  first = omega arith;
  second = omega arith;
  third = omega arith;
  fourth = omega arith;
}

pub fan_is_new : get_key fan_name demo ≡ none
unfolding get_key find_key load32
fan_is_new = refl

abbrev fan_key : Key
fan_key = record {
  name = 0x46 ∷ 0x30 ∷ 0x41 ∷ 0x63 ∷ 0 ∷ [];
  type = 0x75 ∷ 0x69 ∷ 0x31 ∷ 0x36 ∷ 0 ∷ [];
  size = 2;
  value = 5 ∷ 6 ∷ [];
  handler = none;
}

init_of_fan : init (some fan_name) none 2 (some (5 ∷ 6 ∷ [])) none ≡ some fan_key
unfolding init c_str read_bytes
init_of_fan = refl

add_key_with_value-IsConsistent_example :
    IsConsistent (add_key_with_value silent fan_name none 2 (some (5 ∷ 6 ∷ [])) demo).1
add_key_with_value-IsConsistent_example =
    add_key_with_value-IsConsistent silent fan_name none 2 (some (5 ∷ 6 ∷ [])) demo
      fan_name-FourChars (omega arith) demo-IsConsistent

add_key_with_handler-IsConsistent_example :
    IsConsistent (add_key_with_handler silent fan_name none 2 (some 7) demo).1
add_key_with_handler-IsConsistent_example =
    add_key_with_handler-IsConsistent silent fan_name none 2 (some 7) demo fan_name-FourChars
      (omega arith) demo-IsConsistent

get_count-add_key_with_value_example :
    get_count (add_key_with_value silent fan_name none 2 (some (5 ∷ 6 ∷ [])) demo).1
    ≡ elim (get_key fan_name demo) [
      | none ↦ if strlen fan_name == 0 then get_count demo else get_count demo + 1
      | some _ ↦ get_count demo
    ]
get_count-add_key_with_value_example =
    get_count-add_key_with_value silent fan_name none 2 (some (5 ∷ 6 ∷ [])) demo

stored-add_key_with_value_example :
    stored fan_name (add_key_with_value silent fan_name none 2 (some (5 ∷ 6 ∷ [])) demo).1 ≡ (
      if load32 fan_name == load32 fan_name
      then some (2, read_bytes 2 (5 ∷ 6 ∷ []), none)
      else stored fan_name demo)
unfolding get_key find_key load32
stored-add_key_with_value_example =
    stored-add_key_with_value silent fan_name fan_name none 2 (5 ∷ 6 ∷ []) demo sharp_key
      (heat_key ∷ []) fan_name-FourChars (omega arith) refl refl tt (omega arith)
