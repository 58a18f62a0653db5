-- ===== src/SuperIo/Tests/Winbond.antt =====
-- The monitor for the chips of Winbond and Nuvoton at concrete inputs.
use fake_smc3_with_plugins.Prelude.{
  for_loop, ◌==◌, if◌then◌else◌, ltb→lt, codes, load32, ℕ, ◌≡◌, refl, true, false, none, some, [],
  ◌∷◌, arith,
}
use fake_smc3_with_plugins.Smc.Device.{Device, clear_status}
use fake_smc3_with_plugins.Smc.Store.{find_key}
use fake_smc3_with_plugins.Smc.Store.Invariant.{IsConsistent}
use fake_smc3_with_plugins.SuperIo.Bus.{Bus, Monitor}
use fake_smc3_with_plugins.SuperIo.Config.{Dictionary, entry, empty, text, number}
use fake_smc3_with_plugins.SuperIo.Monitor.{World}
use fake_smc3_with_plugins.SuperIo.Winbond.Models.{
  identify, winbond_model, nuvoton_model, high_nibble,
}
use fake_smc3_with_plugins.SuperIo.Winbond.Bits.{bit, set_bit, fan_offset, set_offset}
use fake_smc3_with_plugins.SuperIo.Winbond.Bits.Laws.{bit-set_bit}
use fake_smc3_with_plugins.SuperIo.Winbond.Bits.Offsets.{fan_offset-set_offset}
use fake_smc3_with_plugins.SuperIo.Winbond.Fans.{
  Winbond, WinbondWorld, update_fan, update_tachometers, winbond_read_tachometer,
}
use fake_smc3_with_plugins.SuperIo.Winbond.Fans.Laws.{
  IsNear, for_loop-update_fan-IsNear, winbond_read_tachometer_inside, update_tachometers_outside,
}
use fake_smc3_with_plugins.SuperIo.Winbond.Class.Start.{start_winbond_with}
use fake_smc3_with_plugins.SuperIo.Winbond.Class.Laws.{start_winbond_with-IsConsistent}
use fake_smc3_with_plugins.SuperIo.Tests.{sharp_key, count_key}

bit-set_bit_example : bit (set_bit 1024 36 1) 10 ≡ (if 10 == 36 then 1 else bit 1024 10)
bit-set_bit_example = bit-set_bit 1024 36 1 10 (ltb→lt 1 2 refl) (ltb→lt 36 64 refl)

fan_offset-set_offset_example :
    fan_offset (set_offset 4 5 0) 4 ≡ (if 4 == 4 then 5 else fan_offset 0 4)
fan_offset-set_offset_example =
    fan_offset-set_offset 0 5 4 4 (ltb→lt 5 8 refl) (ltb→lt 4 5 refl) (ltb→lt 4 5 refl)

-- A chip whose registers all hold 0x60, a count of 96.
abbrev winbond_board : Bus ℕ
winbond_board = record {
  outb = λ port value h. value;
  inb = λ port h. (0x60, h);
  sleep = λ milliseconds h. h;
}

abbrev winbond_monitor : Monitor
winbond_monitor = record {
  address = 0x290;
  register_port = 0x2e;
  value_port = 0x2f;
  model = 0xa020;
  sensors = [];
}

abbrev winbond_fields : Winbond
winbond_fields = record {
  fan_limit = 5;
  fan_value = 0 ∷ 0 ∷ 0 ∷ 0 ∷ 0 ∷ [];
  fan_obsolete = true ∷ true ∷ true ∷ true ∷ true ∷ [];
  faulted = false;
}

for_loop-update_fan-IsNear_example : IsNear (fan_offset 0x6060606060 2) (
    fan_offset
      (for_loop 5 0
        (update_fan winbond_board 0x6060606060 winbond_monitor)
        (0x6060606060, (winbond_fields, 0))).0
      2)
for_loop-update_fan-IsNear_example =
    for_loop-update_fan-IsNear winbond_board 5 0x6060606060 2 winbond_monitor (winbond_fields, 0)
      (omega arith) (omega arith)

winbond_read_tachometer_inside_example :
    (winbond_read_tachometer winbond_board 1 winbond_monitor (winbond_fields, 0)).1.0.faulted
    ≡ false
winbond_read_tachometer_inside_example =
    winbond_read_tachometer_inside winbond_board 1 winbond_monitor (winbond_fields, 0) (omega arith)
      (omega arith) refl

-- An NCT6776F, for which probePort counts six fans.
nct6776f : identify 0xc3 0x33 ≡ (0xc330, 6)
unfolding identify winbond_model nuvoton_model high_nibble
nct6776f = refl

update_tachometers_outside_example :
    (update_tachometers winbond_board
      (record winbond_monitor { model = 0xc330 })
      (record winbond_fields { fan_limit = (identify 0xc3 0x33).1 }, 0)).0.faulted
    ≡ true
unfolding identify winbond_model nuvoton_model high_nibble
update_tachometers_outside_example =
    update_tachometers_outside winbond_board (record winbond_monitor { model = 0xc330 })
      (record winbond_fields { fan_limit = (identify 0xc3 0x33).1 }, 0) (ltb→lt 5 6 refl)

abbrev winbond_configuration : Dictionary
winbond_configuration =
    entry (codes "VIN0") (text (codes "CPU"))
      (entry (codes "FANINLIMIT") (number 3) (entry (codes "FANIN0") (text (codes "CPU")) empty))

abbrev winbond_device : Device (World (WinbondWorld ℕ))
winbond_device = record {
  status = clear_status;
  keys = sharp_key ∷ count_key ∷ [];
  values = [];
  nvram = none;
  debug = false;
  is_rev_less = false;
  interrupt = record { target = 0; handler = 0; refcon = 0; source = 0 };
  world = (winbond_monitor, (winbond_fields, 0));
}

winbond_device-IsConsistent : IsConsistent winbond_device
unfolding find_key load32
winbond_device-IsConsistent = record {
  well_formed = omega arith;
  sharp_first = refl;
  distinct = (refl, (refl, tt));
}

start_winbond_with-IsConsistent_example :
    IsConsistent (start_winbond_with winbond_board (some winbond_configuration) winbond_device)
start_winbond_with-IsConsistent_example =
    start_winbond_with-IsConsistent winbond_board (some winbond_configuration) winbond_device
      winbond_device-IsConsistent
