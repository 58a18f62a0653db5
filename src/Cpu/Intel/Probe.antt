-- ===== src/Cpu/Intel/Probe.antt =====
-- plugins/CPUSensors/IntelCPUMonitor/IntelCPUMonitor.cpp, probe: what the monitor takes the processor
-- for, and the highest temperatures of its cores.
use fake_smc3_with_plugins.Prelude.{
  for_loop, ltb, ◌==◌, if◌then◌else◌, get_or, set, ℕ, ◌/◌, ◌%◌, Bool, true, false, not, ◌||◌,
  Option, none, some, List, [], ◌∷◌,
}
use fake_smc3_with_plugins.Cpu.Intel.{Processor, Intel, IntelWorld}

-- cpuid_info(), with the tests of the vendor and of the feature MSR, and the property "TjMax".
pub record CpuInfo : Type 0 where
  pub is_intel : Bool
  pub has_msr : Bool
  pub core_count : ℕ
  pub thread_count : ℕ
  pub cpuid_family : ℕ
  pub cpuid_model : ℕ
  pub cpuid_stepping : ℕ
  pub user_limit : Option ℕ

-- The models that tell the temperature themselves.
unfoldable pub nehalem_models : List ℕ
nehalem_models =
    0x1a ∷ 0x1e ∷ 0x1f ∷ 0x25 ∷ 0x2c ∷ 0x2e ∷ 0x2f ∷ 0x2a ∷ 0x3a ∷ 0x2d ∷ 0x3c ∷ 0x3f ∷ 0x45 ∷ 0x46
    ∷ 0x3d ∷ 0x3e ∷ 0x47 ∷ 0x4c ∷ 0x4d ∷ 0x4e ∷ 0x4f ∷ 0x56 ∷ 0x57 ∷ 0x5a ∷ 0x5c ∷ 0x5d ∷ 0x5e
    ∷ 0x55 ∷ 0x66 ∷ 0x85 ∷ 0x8e ∷ 0x9e ∷ 0x9f ∷ 0xa5 ∷ 0xa6 ∷ 0x6a ∷ 0x6c ∷ 0x7d ∷ 0x7e ∷ 0x8c
    ∷ 0x8d ∷ 0xa7 ∷ 0x97 ∷ 0xb7 ∷ 0x9a ∷ 0xbf ∷ 0xaa ∷ 0xc6 ∷ 0xc5 ∷ 0xb5 ∷ []

unfoldable pub is_among : ℕ → List ℕ → Bool
is_among n [] = false
is_among n (m ∷ models) = n == m || is_among n models

-- The limit of the 65 nm models by stepping, number of cores, and whether they are mobile.
unfoldable pub merom_limit : ℕ → ℕ → Bool → ℕ
merom_limit stepping count is_mobile =
    if stepping == 0x02
    then 80
    else if stepping == 0x06
    then (if count == 2 then 80 else if count == 4 then 90 else 85)
    else if stepping == 0x0b
    then 90
    else if stepping == 0x0a || stepping == 0x0d
    then (if is_mobile then 100 else 85)
    else 85

-- tjmax[0] and CpuMobile of the models with a limit of their own, by bit 28 of the register 0x17.
unfoldable pub limit_of : ℕ → ℕ → ℕ → Bool → Option (ℕ × Bool)
unfolding merom_limit
limit_of model stepping count bit28 =
    if model == 0x0d || model == 0x16
    then some (100, true)
    else if model == 0x0e
    then some (85, bit28)
    else if model == 0x0f
    then some (merom_limit stepping count bit28, bit28)
    else if model == 0x17
    then (if bit28 then some (105, true) else some ((if stepping == 7 then 95 else 100), false))
    else if model == 0x1c
    then some ((if stepping == 0x02 || stepping == 0x0a then 100 else 90), false)
    else none

unfoldable pub is_sandy : ℕ → Bool
is_sandy model = model == 0x2a || model == 0x2d || not (ltb model 0x3a)

unfoldable pub fill_limits : ℕ → Intel → Intel
unfolding for_loop
fill_limits limit s = record s {
  tjmax = for_loop s.count 0 (λ i limits. set limits i (limit % 256)) s.tjmax;
}

-- The end of probe: the user's limit, or that of the first core, for all cores.
unfoldable pub choose_limits : Intel → Intel
unfolding fill_limits
choose_limits s =
    if not (s.user_tjmax == 0)
    then fill_limits s.user_tjmax s
    else if s.nehalem_arch
    then s
    else fill_limits (get_or s.tjmax 0 0) s

-- What probe copies before the switch.
unfoldable pub describe : CpuInfo → Intel → Intel
describe info s = record s {
  count = info.core_count % 256;
  threads = info.thread_count % 256;
  family = info.cpuid_family;
  model = info.cpuid_model;
  stepping = info.cpuid_stepping;
  is_mobile = false;
  user_tjmax = elim info.user_limit [ none ↦ 0 | some n ↦ n % 4294967296 ];
}

module _ {H : Type 0} (p : Processor H) where
  -- tjmax[i] of a processor that tells it.
  unfoldable pub read_limit : ℕ → IntelWorld H → IntelWorld H
  read_limit i (s, h) =
      let (msr, h1) = p.rdmsr p.current 0x1a2 h in
      (record s { tjmax = set s.tjmax i (msr / 65536 % 256) }, h1)

  -- Behind the switch, with BaseOperatingFreq.
  unfoldable pub finish_probe : IntelWorld H → IntelWorld H
  unfolding is_sandy choose_limits
  finish_probe (s, h) =
      let (msr, h1) = p.rdmsr p.current 0xce h in
      if is_sandy s.model
      then (choose_limits (record s { sandy_arch = true; base_freq_ratio = msr / 256 % 256 }), h1)
      else (choose_limits (record s { sandy_arch = false }), h)

  unfoldable pub probe_limit : Option (ℕ × Bool) → IntelWorld H → Option (IntelWorld H)
  unfolding finish_probe
  probe_limit none w = none
  probe_limit (some (limit, is_mobile)) (s, h) =
      some (finish_probe (record s { tjmax = set s.tjmax 0 limit; is_mobile = is_mobile }, h))

  -- Whether the model's case reads the register 0x17.
  unfoldable pub reads_17 : ℕ → Bool
  reads_17 model = model == 0x0e || model == 0x0f || model == 0x17

  -- The switch over the models of the family 6.
  unfoldable pub probe_family : IntelWorld H → Option (IntelWorld H)
  unfolding nehalem_models is_among for_loop read_limit finish_probe limit_of probe_limit reads_17
  probe_family (s, h) =
      let (msr, h1) = p.rdmsr p.current 0x17 h in
      let limits = for_loop s.count 0 read_limit (record s { nehalem_arch = true }, h) in
      if is_among s.model nehalem_models
      then some (finish_probe limits)
      else probe_limit (limit_of s.model s.stepping s.count (msr / 268435456 % 2 == 1))
          (s, (if reads_17 s.model then h1 else h))

  -- probe; `none` is the answer that the kext will not load. The names of the keys are made in start.
  unfoldable pub probe_intel : CpuInfo → IntelWorld H → Option (IntelWorld H)
  unfolding describe probe_family
  probe_intel info (s, h) =
      let probed = probe_family (describe info s, h) in
      if not info.is_intel || not info.has_msr || info.core_count % 256 == 0
      then none
      else if info.cpuid_family == 6
      then probed
      else none
