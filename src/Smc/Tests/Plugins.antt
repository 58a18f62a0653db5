-- ===== src/Smc/Tests/Plugins.antt =====
-- The ports, the plugins' calls and the messages of fakesmc/ at concrete inputs.
use fake_smc3_with_plugins.Prelude.{
  load32, read_bytes, ltb→lt, ◌≡◌, refl, none, some, [], ◌∷◌, true, codes,
}
use fake_smc3_with_plugins.Smc.Key.{success}
use fake_smc3_with_plugins.Smc.Store.Invariant.{IsConsistent}
use fake_smc3_with_plugins.Smc.Platform.{
  value_found, set_key_value, get_key_value, nothing, add_key_value, remove_key_handler,
  call_platform_function,
}
use fake_smc3_with_plugins.Smc.Platform.Laws.{
  call_platform_function-IsConsistent, remove_key_handler-kept,
}
use fake_smc3_with_plugins.Smc.Store.{find_key, get_key}
use fake_smc3_with_plugins.Smc.Platform.Values.{get_key_value-set_key_value}
use fake_smc3_with_plugins.Smc.Message.{put_entry, used_freed, Message, set_properties}
use fake_smc3_with_plugins.Smc.Message.Laws.{set_properties-populate_values}
use fake_smc3_with_plugins.Smc.Tests.Device.{sharp_key, heat_key, silent, demo, demo-IsConsistent}
use fake_smc3_with_plugins.Smc.Tests.Store.{fan_name, fan_name-FourChars}

call_platform_function-IsConsistent_example :
    IsConsistent
      (call_platform_function silent
        (add_key_value (some fan_name) (some (codes "ui16")) 2 (some (5 ∷ 6 ∷ [])))
        demo).2
call_platform_function-IsConsistent_example =
    call_platform_function-IsConsistent silent
      (add_key_value (some fan_name) (some (codes "ui16")) 2 (some (5 ∷ 6 ∷ []))) demo
      fan_name-FourChars demo-IsConsistent

remove_key_handler-kept_example :
    call_platform_function silent (remove_key_handler (some 7)) demo ≡ (success, nothing, demo)
remove_key_handler-kept_example = remove_key_handler-kept silent 7 demo

abbrev populate_all : Message
populate_all = record { update_key_value = none; populate_values = true; populate_list = none }

set_properties-populate_values_example :
    set_properties silent (some populate_all) demo ≡ used_freed (put_entry silent 0 sharp_key demo)
set_properties-populate_values_example =
    set_properties-populate_values silent populate_all demo sharp_key (heat_key ∷ []) refl refl refl

-- "TC0D", the name of the demo's second key.
heat_found : get_key (codes "TC0D") demo ≡ some (1, heat_key)
unfolding get_key find_key load32
heat_found = refl

get_key_value-set_key_value_example :
    (call_platform_function silent
      (get_key_value (some (codes "TC0D")))
      (call_platform_function silent
        (set_key_value (some (codes "TC0D")) 2 (some (7 ∷ 8 ∷ [])))
        demo).2).1
    ≡ value_found 2 (read_bytes 2 (7 ∷ 8 ∷ []))
get_key_value-set_key_value_example =
    get_key_value-set_key_value silent (codes "TC0D") (7 ∷ 8 ∷ []) 2 demo 1 heat_key heat_found refl
      (ltb→lt 0 2 refl)
