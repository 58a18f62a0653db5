-- ===== src/Cpu/Intel/Laws.antt =====
-- What IntelCPUMonitor.cpp keeps of the SMC while it starts, and what it answers for the temperature
-- of a core.
use fake_smc3_with_plugins.Cpu.Intel.Laws.Names.{multiplier_key-FourChars, four, core_char-pos}
use fake_smc3_with_plugins.Prelude.{
  if◌then◌else◌, Bytes, codes, ℕ, zero, suc, ◌+◌, ◌<◌, ◌≡◌, refl, Bool, true, false, not, ◌&&◌,
  ◌||◌, Option, none, some, [], ◌∷◌, arith, if-both, ltb, take, ◌-◌, ◌/◌, ◌%◌, ◌++◌,
}
pub mod Names
pub mod Rendezvous
pub mod Thermal
use fake_smc3_with_plugins.Smc.Device.{Device}
use fake_smc3_with_plugins.Smc.Store.Lookup.{FourChars}
use fake_smc3_with_plugins.Smc.Store.Invariant.{IsConsistent, IsConsistent-same_keys}
use fake_smc3_with_plugins.Smc.Platform.{add_key_handler}
use fake_smc3_with_plugins.Smc.Platform.Laws.{call_platform_function-IsConsistent}
use fake_smc3_with_plugins.Smc.Load.Laws.{four_of}
use fake_smc3_with_plugins.SuperIo.Config.{Outcome, crashed, done}
use fake_smc3_with_plugins.SuperIo.Monitor.{self, hex_digit}
use fake_smc3_with_plugins.Cpu.Intel.{Processor, Intel, IntelWorld, activate}
use fake_smc3_with_plugins.Cpu.Intel.Start.{
  core_index, core_char, multiplier_key, intel_callback, IntelDevice, intel_smc, add_intel_key,
  add_core_extras, add_core_named, continue_with, add_cores, add_package, read_clocks,
  start_clocked, start_intel,
}

module _ {H : Type 0} (p : Processor H) where
  -- A start that does not crash leaves the keys of the SMC as they should be.
  abbrev pub LeavesConsistent : Outcome (Bool × IntelDevice p) → Type 0
  LeavesConsistent crashed = Unit
  LeavesConsistent (done (ok, d)) = IsConsistent d

  add_intel_key-IsConsistent :
      (name type : Bytes) (d : IntelDevice p)
      → FourChars name
      → IsConsistent d
      → IsConsistent (add_intel_key p name type d).1
  unfolding add_intel_key intel_smc
  add_intel_key-IsConsistent name type d chars c =
      call_platform_function-IsConsistent (intel_callback p)
        (add_key_handler (some name) (some type) 2 (some self)) d chars c

  add_core_extras-IsConsistent :
      (c i : ℕ) (d : IntelDevice p)
      → 0 < c
      → IsConsistent d
      → IsConsistent (add_core_extras p c i d)
  unfolding add_core_extras
  add_core_extras-IsConsistent c i d pos ok =
      let d1 = (add_intel_key p (0x46 ∷ 0x52 ∷ 0x43 ∷ c ∷ []) (codes "freq") d).1 in
      let c1 =
        add_intel_key-IsConsistent (0x46 ∷ 0x52 ∷ 0x43 ∷ c ∷ []) (codes "freq") d
          (four _ _ _ _ (omega arith) (omega arith) (omega arith) pos) ok in
      let old = d1.world.0 in
      let is_old = not old.nehalem_arch && not old.sandy_arch in
      let d1' = (add_intel_key p (multiplier_key i) (codes "ui16") d1).1 in
      let d2 = if is_old then d1' else d1 in
      let c2 : IsConsistent d2 =
        if-both IsConsistent is_old d1' d1
          (add_intel_key-IsConsistent (multiplier_key i) (codes "ui16") d1
            (multiplier_key-FourChars i) c1)
          c1 in
      if-both IsConsistent (not old.nehalem_arch || old.sandy_arch)
        (add_intel_key p (codes "VC0C") (codes "fp2e") d2).1 d2
        (add_intel_key-IsConsistent (codes "VC0C") (codes "fp2e") d2 (four_of _ refl refl refl refl)
          c2)
        c2

  add_core_named-LeavesConsistent :
      (r : Option ℕ) (i : ℕ) (d : IntelDevice p)
      → ((c : ℕ) → r ≡ some c → 0 < c)
      → IsConsistent d
      → LeavesConsistent (add_core_named p r i d)
  unfolding add_core_named
  add_core_named-LeavesConsistent none i d pos ok = tt
  add_core_named-LeavesConsistent (some c) i d pos ok =
      let (is_added, d1) = add_intel_key p (0x54 ∷ 0x43 ∷ c ∷ 0x44 ∷ []) (codes "sp78") d in
      let c1 =
        add_intel_key-IsConsistent (0x54 ∷ 0x43 ∷ c ∷ 0x44 ∷ []) (codes "sp78") d
          (four _ _ _ _ (omega arith) (omega arith) (pos c refl) (omega arith)) ok in
      if-both (λ (x : Bool × IntelDevice p). IsConsistent x.1) is_added
        (true, add_core_extras p c i d1) (false, d1)
        (add_core_extras-IsConsistent c i d1 (pos c refl) c1) c1

  continue_with-LeavesConsistent :
      (next : IntelDevice p → Outcome (Bool × IntelDevice p)) (o : Outcome (Bool × IntelDevice p))
      → ((d : IntelDevice p) → IsConsistent d → LeavesConsistent (next d))
      → LeavesConsistent o
      → LeavesConsistent (continue_with p next o)
  unfolding continue_with
  continue_with-LeavesConsistent next crashed h c = tt
  continue_with-LeavesConsistent next (done (false, d)) h c = c
  continue_with-LeavesConsistent next (done (true, d)) h c = h d c

  add_cores-LeavesConsistent :
      (n i : ℕ) (d : IntelDevice p) → IsConsistent d → LeavesConsistent (add_cores p n i d)
  unfolding add_cores continue_with
  add_cores-LeavesConsistent zero i d c = c
  add_cores-LeavesConsistent (suc n) i d c =
      continue_with-LeavesConsistent (add_cores p n (i + 1)) (add_core_named p (core_char i) i d)
        (add_cores-LeavesConsistent n (i + 1))
        (add_core_named-LeavesConsistent (core_char i) i d (core_char-pos i) c)

  add_package-LeavesConsistent :
      (d : IntelDevice p) → IsConsistent d → LeavesConsistent (add_package p d)
  unfolding add_package
  add_package-LeavesConsistent d c =
      if-both LeavesConsistent (d.world.0.nehalem_arch || d.world.0.sandy_arch) _ (done (true, d))
        (add_intel_key-IsConsistent (codes "MPkC") (codes "ui16") d (four_of _ refl refl refl refl)
          c)
        c

  start_clocked-LeavesConsistent :
      (o : Outcome Intel) (d : IntelDevice p)
      → IsConsistent d
      → LeavesConsistent (start_clocked p o d)
  unfolding start_clocked continue_with
  start_clocked-LeavesConsistent crashed d c = tt
  start_clocked-LeavesConsistent (done s) d c =
      continue_with-LeavesConsistent (add_package p) _ add_package-LeavesConsistent (
        add_cores-LeavesConsistent s.count 0 (record d { world = activate p (s, d.world.1) })
          (IsConsistent-same_keys refl c))

  -- The start of the monitor for Intel's processors, where it comes to an end, leaves every key of
  -- the SMC well formed, #KEY first and the names unique, whatever the processor answers.
  pub start_intel-LeavesConsistent :
      (platform : Option (Option ℕ)) (max_hz : ℕ) (d : IntelDevice p)
      → IsConsistent d
      → LeavesConsistent (start_intel p platform max_hz d)
  unfolding start_intel
  start_intel-LeavesConsistent platform max_hz d c =
      start_clocked-LeavesConsistent (read_clocks p platform max_hz d.world.0) d c
