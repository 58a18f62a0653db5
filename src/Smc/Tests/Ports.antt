-- ===== src/Smc/Tests/Ports.antt =====
-- The transfers at the ports of fakesmc/ at concrete inputs.
use fake_smc3_with_plugins.Prelude.{
  ◌==◌, if◌then◌else◌, replicate, Bytes, load32, length-zeros, ◌≡◌, refl, ◌≢◌, none, some, [], ◌∷◌,
  arith,
}
use fake_smc3_with_plugins.Smc.Key.{init_named, notify, get_value}
use fake_smc3_with_plugins.Smc.Device.{Status, clear_status}
use fake_smc3_with_plugins.Smc.Store.{nvram_name, find_key, get_key, get_key_at}
use fake_smc3_with_plugins.Smc.Store.Update.{stored}
use fake_smc3_with_plugins.Smc.Port.{get_key_by_index_cmd, get_key_type_cmd, cmd_writeb, data_readb}
use fake_smc3_with_plugins.Smc.Port.Transfer.{drain}
use fake_smc3_with_plugins.Smc.Port.Protocol.{IsSized, host_read, host_write}
use fake_smc3_with_plugins.Smc.Port.Protocol.Read.{host_read_found, after_read}
use fake_smc3_with_plugins.Smc.Port.Protocol.RoundTrip.{stored-host_write}
use fake_smc3_with_plugins.Smc.Port.Protocol.ReadBack.{bytes_read, host_read-host_write}
use fake_smc3_with_plugins.Smc.Port.Protocol.LongWrite.{keys-host_write_long}
use fake_smc3_with_plugins.Smc.Port.Protocol.Query.{
  host_ask, host_ask_index_found, host_ask_index_missing,
}
use fake_smc3_with_plugins.Smc.Port.Protocol.Nvram.{nvram-host_write}
use fake_smc3_with_plugins.Smc.Port.Protocol.Bounds.{data_readb_in_bounds, type_command_reads_out}
use fake_smc3_with_plugins.Smc.Tests.Device.{
  silent, sharp_key, heat_key, demo, demo-IsSized, demo-IsConsistent,
}
use fake_smc3_with_plugins.Smc.Tests.Store.{fan_is_new, fan_name, fan_name-FourChars}

abbrev heat_name : Bytes
heat_name = 0x54 ∷ 0x43 ∷ 0x30 ∷ 0x44 ∷ []

heat_is_known : get_key heat_name demo ≡ some (1, heat_key)
unfolding get_key find_key load32
heat_is_known = refl

host_read-host_write_example :
    bytes_read (host_read silent fan_name 2 (host_write silent fan_name (9 ∷ 8 ∷ []) demo))
    ≡ some (9 ∷ 8 ∷ [])
unfolding get_key find_key load32
host_read-host_write_example =
    host_read-host_write silent 0x46 0x30 0x41 0x63 9 (8 ∷ []) demo sharp_key (heat_key ∷ [])
      (omega arith) fan_name-FourChars (omega arith) (omega arith) demo-IsSized demo-IsConsistent
      refl refl tt (omega arith)

stored-host_write_example : stored heat_name (host_write silent fan_name (9 ∷ 8 ∷ []) demo) ≡ (
    if load32 heat_name == load32 fan_name
    then some (2, 9 ∷ 8 ∷ [], none)
    else stored heat_name demo)
unfolding get_key find_key load32
stored-host_write_example =
    stored-host_write silent 0x46 0x30 0x41 0x63 9 (8 ∷ []) heat_name demo sharp_key (heat_key ∷ [])
      (omega arith) fan_name-FourChars (omega arith) (omega arith) demo-IsSized refl refl tt
      (omega arith)

host_read_found_example :
    host_read silent heat_name 2 demo
    ≡ some (0x2d ∷ 0 ∷ [], after_read silent heat_name 2 1 heat_key demo)
unfolding get_value notify
host_read_found_example =
    host_read_found silent 0x54 0x43 0x30 0x44 2 demo 1 heat_key (omega arith) (omega arith)
      (omega arith) demo-IsSized (omega arith) heat_is_known

keys-host_write_long_example : (host_write silent fan_name (replicate 253 1) demo).keys ≡ demo.keys
unfolding replicate
keys-host_write_long_example =
    keys-host_write_long silent 0x46 0x30 0x41 0x63 (replicate 253 1) demo (omega arith)
      (omega arith) (omega arith) (omega arith) demo-IsSized

host_ask_index_found_example :
    let d = host_ask silent get_key_by_index_cmd (0 ∷ 0 ∷ 0 ∷ 1 ∷ []) demo in
    drain 4 d.status ≡ some (heat_name, record d.status { data_pos = 4; status = 0x00 })
unfolding get_key_at
host_ask_index_found_example =
    host_ask_index_found silent 0 0 0 1 demo heat_key 0x54 0x43 0x30 0x44 (0 ∷ []) (omega arith)
      refl refl

host_ask_index_missing_example :
    let d = host_ask silent get_key_by_index_cmd (0 ∷ 0 ∷ 0 ∷ 9 ∷ []) demo in
    (d.status.status_1e ≡ 0xb8) × (drain 4 d.status ≡ some (replicate 4 0, d.status))
unfolding get_key_at
host_ask_index_missing_example = host_ask_index_missing silent 0 0 0 9 4 demo (omega arith) refl

data_readb_in_bounds_example : data_readb demo.status ≢ none
unfolding clear_status
data_readb_in_bounds_example =
    data_readb_in_bounds demo.status demo-IsSized (omega arith) (λ h. omega arith)

-- The registers after a read of a key of nine bytes.
abbrev after_long : Status
after_long = record clear_status { data_len = 9; data_pos = 9 }

after_long-IsSized : IsSized after_long
unfolding clear_status
after_long-IsSized = record {
  key_length = length-zeros 4;
  value_length = length-zeros 255;
  info_length = length-zeros 6;
}

type_command_reads_out_example : drain 7 (cmd_writeb get_key_type_cmd after_long) ≡ none
type_command_reads_out_example =
    type_command_reads_out after_long after_long-IsSized (omega arith) (omega arith)

nvram-host_write_example :
    (host_write silent fan_name (9 ∷ 8 ∷ []) demo).nvram
    ≡ some ((nvram_name (init_named fan_name none 2 none none), 9 ∷ 8 ∷ []) ∷ [])
nvram-host_write_example =
    nvram-host_write silent 0x46 0x30 0x41 0x63 9 (8 ∷ []) demo sharp_key (heat_key ∷ []) []
      (omega arith) fan_name-FourChars (omega arith) (omega arith) demo-IsSized refl refl fan_is_new
      refl
