-- ===== src/Cpu/Intel.antt =====
-- plugins/CPUSensors/IntelCPUMonitor/IntelCPUMonitor.cpp: the monitor for Intel's processors. The
-- processor is a parameter, over a state `H` of its own: the model-specific registers and the
-- performance counters of each core, and the order in which mp_rendezvous_no_intrs runs a function
-- on the cores. The arrays of the file and the fields of the class are one record. The arrays have
-- 128 elements; what lies behind them reads as 0 and is not written.
use fake_smc3_with_plugins.Prelude.{
  for_loop, ltb, ◌==◌, if◌then◌else◌, get_or, set, replicate, ℕ, ◌+◌, ◌-◌, ◌*◌, ◌/◌, ◌%◌, ◌^◌, Bool,
  true, false, not, ◌&&◌, ◌||◌, List, [], ◌∷◌,
}
pub mod Probe
pub mod Start
pub mod Laws
use fake_smc3_with_plugins.Cpu.Float.{float_of, float_multiply, float_divide, to_int}

pub record Processor (H : Type 0) : Type 0 where
  pub rdmsr : ℕ → ℕ → H → ℕ × H
  pub wrmsr : ℕ → ℕ → ℕ → H → H
  pub rdpmc : ℕ → ℕ → H → ℕ × H
  pub sleep : ℕ → H → H
  pub order : List ℕ
  pub current : ℕ

-- The static arrays, and the fields of IntelCPUMonitor that a computation reads.
pub record Intel : Type 0 where
  pub thermal_value : List ℕ
  pub thermal_obsolete : List Bool
  pub state : List ℕ
  pub state64 : ℕ
  pub init_flags : List Bool
  pub ucc : List ℕ
  pub ucr : List ℕ
  pub last_ucc : List ℕ
  pub last_ucr : List ℕ
  pub frequency : List ℕ
  pub voltage : ℕ
  pub base_freq_ratio : ℕ
  pub active : Bool
  pub loop_lock : Bool
  pub bus_clock : ℕ
  pub fsb_clock : ℕ
  pub family : ℕ
  pub model : ℕ
  pub stepping : ℕ
  pub is_mobile : Bool
  pub count : ℕ
  pub threads : ℕ
  pub tjmax : List ℕ
  pub user_tjmax : ℕ
  pub nehalem_arch : Bool
  pub sandy_arch : Bool

abbrev pub IntelWorld : Type 0 → Type 0
IntelWorld H = Intel × H

-- What a counter has advanced by, as the code computes it where the counter has wrapped.
unfoldable pub counter_delta : ℕ → ℕ → ℕ
counter_delta last now = if ltb now last then 18446744073709551615 - last + now else now - last

-- The frequency by the counters of a Sandy Bridge; the divisor is not 0.
unfoldable pub turbo_frequency : ℕ → ℕ → ℕ → ℕ → ℕ
unfolding float_of float_multiply float_divide to_int
turbo_frequency delta_ucc delta_ucr ratio bus_clock =
    bus_clock
    * to_int
        (float_divide (float_multiply (float_of delta_ucc) (float_of ratio)) (float_of delta_ucr))
    % 4294967296

-- The frequency by the FID of the older architectures.
unfoldable pub fid_frequency : ℕ → ℕ → ℕ
fid_frequency fid bus_clock =
    let bus = bus_clock % 4294967296 in
    let fsb = if fid / 128 % 2 == 0 then bus else bus / 2 in
    (fid % 32 * fsb + fid / 64 % 2 * (bus / 2)) % 4294967296

-- IntelGetFrequency
unfoldable pub intel_get_frequency : ℕ → Intel → ℕ
unfolding counter_delta turbo_frequency fid_frequency
intel_get_frequency cpu s =
    let control = get_or s.state cpu 0 in
    let delta_ucc = counter_delta (get_or s.last_ucc cpu 0) (get_or s.ucc cpu 0) in
    let delta_ucr = counter_delta (get_or s.last_ucr cpu 0) (get_or s.ucr cpu 0) in
    if s.sandy_arch && ltb 0 delta_ucr
    then turbo_frequency delta_ucc delta_ucr s.base_freq_ratio (s.bus_clock % 4294967296)
    else if not s.nehalem_arch
    then fid_frequency (control / 256 % 256) s.bus_clock
    else (if s.sandy_arch then control / 256 else control)
      % 64
      * (s.bus_clock % 4294967296)
      % 4294967296

-- IntelGetVoltage; ~vid & 0x3f is 63 - vid % 64.
unfoldable pub intel_get_voltage : ℕ → ℕ → ℕ
intel_get_voltage model vid =
    if model == 0x0d || model == 0x16
    then 700 + vid % 64 * 16
    else if model == 0x0e
    then (1425 + vid % 64 * 25) / 2
    else if model == 0x0f
    then (1650 + vid % 64 * 25) / 2
    else if model == 0x17 || model == 0x1c
    then 1500 - (63 - vid % 64) * 25 / 2
    else 0

-- Deactivate, without the timer.
unfoldable pub deactivate : Intel → Intel
deactivate s = record s { active = false }

-- What setPowerState clears on waking.
unfoldable pub wake : Intel → Intel
wake s = record s {
  ucc = replicate 128 0;
  ucr = replicate 128 0;
  last_ucc = replicate 128 0;
  last_ucr = replicate 128 0;
  init_flags = replicate 128 false;
}

-- setPowerState
unfoldable pub set_power_state : ℕ → Intel → Intel
unfolding wake
set_power_state which s = if which == 1 then wake s else s

-- The slot of a core: with more threads than cores, two of them share one.
unfoldable pub slot : Bool → ℕ → ℕ
slot is_shared cpu = if is_shared then cpu / 2 else cpu

-- mp_rendezvous_no_intrs
unfoldable pub rendezvous {ℓ} : {X : Type ℓ} → List ℕ → (ℕ → X → X) → X → X
rendezvous [] action x = x
rendezvous (cpu ∷ order) action x = rendezvous order action (action cpu x)

module _ {H : Type 0} (p : Processor H) where
  unfoldable pub init_pmc_counters : ℕ → IntelWorld H → IntelWorld H
  init_pmc_counters cpu (s, h) =
      if not (ltb cpu 128) || get_or s.init_flags cpu false then (s, h) else (
        record s { init_flags = set s.init_flags cpu true },
        p.wrmsr cpu 0x38f (7 * 2 ^ 32) (p.wrmsr cpu 0x38d 0x222 h),
      )

  -- UCState
  unfoldable pub uc_state : ℕ → IntelWorld H → IntelWorld H
  unfolding init_pmc_counters
  uc_state cpu w =
      let (s, h) = init_pmc_counters cpu w in
      let (ucc, h1) = p.rdpmc cpu 0x40000001 h in
      let (ucr, h2) = p.rdpmc cpu 0x40000002 h1 in
      let read : Intel = record s {
        last_ucc = set s.last_ucc cpu (get_or s.ucc cpu 0);
        last_ucr = set s.last_ucr cpu (get_or s.ucr cpu 0);
        ucc = set s.ucc cpu ucc;
        ucr = set s.ucr cpu ucr;
      } in
      if ltb cpu 128 then (read, h2) else w

  -- IntelState, where `i` is the core's number, and IntelState2, where it is half of that.
  unfoldable pub intel_state : ℕ → ℕ → IntelWorld H → IntelWorld H
  intel_state i cpu (s, h) =
      let (msr, h1) = p.rdmsr cpu 0x198 h in
      if ltb i 128
      then (record s { state = set s.state i (msr % 65536); state64 = msr }, h1)
      else (s, h)

  -- IntelThermal and IntelThermal2, likewise.
  unfoldable pub intel_thermal : ℕ → ℕ → IntelWorld H → IntelWorld H
  intel_thermal i cpu (s, h) =
      let (msr, h1) = p.rdmsr cpu 0x19c h in
      let read : Intel = record s {
        thermal_value = set s.thermal_value i (msr / 65536 % 128);
        thermal_obsolete = set s.thermal_obsolete i false;
      } in
      if ltb i 128 then ((if msr / 2147483648 % 2 == 0 then s else read), h1) else (s, h)

  unfoldable pub read_states : IntelWorld H → IntelWorld H
  unfolding rendezvous intel_state slot
  read_states w =
      rendezvous p.order (λ cpu. intel_state (slot (ltb w.0.count w.0.threads) cpu) cpu) w

  unfoldable pub read_thermals : IntelWorld H → IntelWorld H
  unfolding rendezvous intel_thermal slot
  read_thermals w =
      rendezvous p.order (λ cpu. intel_thermal (slot (ltb w.0.count w.0.threads) cpu) cpu) w

  -- The body of the loop of loopTimerEvent.
  unfoldable pub update_core : ℕ → Intel → Intel
  unfolding intel_get_frequency intel_get_voltage
  update_core i s = record s {
    frequency = set s.frequency i (intel_get_frequency i s);
    voltage =
        if s.sandy_arch
        then s.state64 / 2 ^ 35 % 4294967296
        else if not s.nehalem_arch
        then intel_get_voltage s.model (get_or s.state i 0 % 256)
        else 1000;
  }

  unfoldable pub read_counters : IntelWorld H → IntelWorld H
  unfolding rendezvous uc_state
  read_counters w =
      let (s, h) = rendezvous p.order uc_state w in rendezvous p.order uc_state (s, p.sleep 2 h)

  -- loopTimerEvent behind the test of LoopLock.
  unfoldable pub measure : IntelWorld H → IntelWorld H
  unfolding read_counters read_states for_loop update_core
  measure w =
      let counted = if w.0.sandy_arch then read_counters w else w in
      let (s, h) = read_states counted in
      (record (for_loop s.count 0 update_core s) { loop_lock = false }, h)

  -- loopTimerEvent; the answer is whether it is kIOReturnSuccess.
  unfoldable pub loop_timer_event : IntelWorld H → Bool × IntelWorld H
  unfolding measure
  loop_timer_event (s, h) =
      let measured = measure (record s { loop_lock = true }, h) in
      if s.loop_lock then (false, (s, h)) else (true, measured)

  unfoldable pub activate : IntelWorld H → IntelWorld H
  unfolding loop_timer_event
  activate (s, h) =
      let (done, w) = loop_timer_event (record s { active = true }, h) in
      if s.active then (s, h) else w
