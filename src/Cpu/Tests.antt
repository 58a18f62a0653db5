-- ===== src/Cpu/Tests.antt =====
-- The monitors of the processor at concrete inputs.
use fake_smc3_with_plugins.Prelude.{
  if◌then◌else◌, ◌+◌, ◌-◌, ◌*◌, ◌/◌, ◌%◌, inl, ltb, replicate, overwrite, load32, get_or, ℕ, ◌≡◌,
  refl, true, false, none, some, [], ◌∷◌, arith,
}
use fake_smc3_with_plugins.Smc.Key.{Key, get_value_callback, success}
use fake_smc3_with_plugins.Smc.Device.{Device, clear_status}
use fake_smc3_with_plugins.Smc.Store.{find_key}
use fake_smc3_with_plugins.Smc.Store.Invariant.{IsConsistent}
use fake_smc3_with_plugins.SuperIo.Monitor.{hex_digit, self, value_bytes}
use fake_smc3_with_plugins.Cpu.Intel.{Processor, Intel, IntelWorld}
use fake_smc3_with_plugins.Cpu.Intel.Start.{core_index, core_char, intel_callback, start_intel}
use fake_smc3_with_plugins.Cpu.Intel.Laws.{LeavesConsistent, start_intel-LeavesConsistent}
use fake_smc3_with_plugins.Cpu.Intel.Laws.Names.{core_index-core_char}
use fake_smc3_with_plugins.Cpu.Intel.Laws.Thermal.{intel_callback-core_char}

eleventh_letter : core_char 10 ≡ some 0x41
unfolding core_char hex_digit
eleventh_letter = refl

-- The eleventh core is "A", which is read as the index 0.
core_index-core_char_example : core_index 0x41 ≡ some (if ltb 10 10 then 10 else 10 - 10)
core_index-core_char_example = core_index-core_char 10 0x41 eleventh_letter

-- A processor of two cores, whose distances from the limit are 32 and 33.
abbrev thermal_status : ℕ → ℕ
thermal_status cpu = 0x80200000 + cpu * 65536

abbrev two_cores : Processor ℕ
two_cores = record {
  rdmsr = λ cpu register h. (thermal_status cpu, h);
  wrmsr = λ cpu register value h. h;
  rdpmc = λ cpu counter h. (1000 + h, h + 1);
  sleep = λ milliseconds h. h + 100;
  order = 1 ∷ 0 ∷ [];
  current = 0;
}

abbrev fresh_intel : Intel
fresh_intel = record {
  thermal_value = replicate 128 0;
  thermal_obsolete = replicate 128 false;
  state = replicate 128 0;
  state64 = 0;
  init_flags = replicate 128 false;
  ucc = replicate 128 0;
  ucr = replicate 128 0;
  last_ucc = replicate 128 0;
  last_ucr = replicate 128 0;
  frequency = replicate 128 0;
  voltage = 0;
  base_freq_ratio = 34;
  active = false;
  loop_lock = false;
  bus_clock = 100;
  fsb_clock = 400;
  family = 6;
  model = 0x2a;
  stepping = 7;
  is_mobile = false;
  count = 2;
  threads = 2;
  tjmax = replicate 128 98;
  user_tjmax = 0;
  nehalem_arch = true;
  sandy_arch = true;
}

second_digit : core_char 1 ≡ some 0x31
unfolding core_char hex_digit
second_digit = refl

-- The key "TC1D" of the second core.
intel_callback-core_char_example :
    let (code, out, w1) =
      intel_callback two_cores get_value_callback self
        (0x54 ∷ 0x43 ∷ 0x31 ∷ 0x44 ∷ [])
        (0 ∷ 0 ∷ [])
        2
        (fresh_intel, 0) in
    (code ≡ success)
    × (out
        ≡ overwrite
            (value_bytes
              ((get_or fresh_intel.tjmax 1 0 + 65536 - thermal_status 1 / 65536 % 128) % 65536))
            (0 ∷ 0 ∷ []))
unfolding replicate
intel_callback-core_char_example =
    intel_callback-core_char two_cores thermal_status (λ cpu h. refl) 1 0x31 (0 ∷ 0 ∷ []) 2
      (fresh_intel, 0) second_digit refl refl refl (inl refl) refl refl

abbrev sharp_key : Key
sharp_key = record {
  name = 0x23 ∷ 0x4b ∷ 0x45 ∷ 0x59 ∷ 0 ∷ [];
  type = 0x75 ∷ 0x69 ∷ 0x33 ∷ 0x32 ∷ 0 ∷ [];
  size = 4;
  value = 0 ∷ 0 ∷ 0 ∷ 1 ∷ [];
  handler = none;
}

abbrev intel_device : Device (IntelWorld ℕ)
intel_device = record {
  status = clear_status;
  keys = sharp_key ∷ [];
  values = [];
  nvram = none;
  debug = false;
  is_rev_less = false;
  interrupt = record { target = 0; handler = 0; refcon = 0; source = 0 };
  world = (fresh_intel, 0);
}

intel_device-IsConsistent : IsConsistent intel_device
unfolding find_key load32
intel_device-IsConsistent = record {
  well_formed = omega arith;
  sharp_first = refl;
  distinct = (refl, tt);
}

start_intel-LeavesConsistent_example :
    LeavesConsistent two_cores (start_intel two_cores none 400000000 intel_device)
start_intel-LeavesConsistent_example =
    start_intel-LeavesConsistent two_cores none 400000000 intel_device intel_device-IsConsistent
