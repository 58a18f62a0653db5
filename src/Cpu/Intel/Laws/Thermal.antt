-- ===== src/Cpu/Intel/Laws/Thermal.antt =====
-- The temperature that IntelCPUMonitor.cpp answers for a core.
use fake_smc3_with_plugins.Cpu.Intel.Laws.Rendezvous.{
  get_or-set_self, get_or-set_ne, IsAmong, rendezvous-reaches,
}
use fake_smc3_with_plugins.SuperIo.Monitor.{value_bytes, self}
use fake_smc3_with_plugins.Cpu.Intel.Start.{
  core_index, core_char, core_temperature, answer_value, answer_temperature, core_below,
  intel_callback,
}
use fake_smc3_with_plugins.Prelude.{
  ltb, ◌==◌, if◌then◌else◌, ltb→lt, length, get_or, set, length-set, Bytes, overwrite, ℕ, ◌+◌, ◌-◌,
  ◌/◌, ◌%◌, ◌<◌, ◌≡◌, refl, sym, ap, ◌∙◌, subst, ◌≢◌, Bool, true, false, none, some, List, [], ◌∷◌,
  arith, if-both,
}
use fake_smc3_with_plugins.Smc.Key.{get_value_callback, success}
use fake_smc3_with_plugins.Cpu.Intel.Laws.Names.{core_index-core_char}
use native.Mathlib.Decide.{ℕ_discrete}
use fake_smc3_with_plugins.Cpu.Intel.{
  slot, read_thermals, Intel, IntelWorld, intel_thermal, Processor, rendezvous,
}

core_below-known : (count i : ℕ) → ltb i count ≡ true → core_below count (some i) ≡ some i
unfolding core_below
core_below-known count i known = ap (λ b. if b then some i else none) known

module _ {H : Type 0} (p : Processor H) (msr : ℕ → ℕ)
    (reads : (cpu : ℕ) (h : H) → (p.rdmsr cpu 0x19c h).0 ≡ msr cpu) where
  abbrev HasSlots : List ℕ → IntelWorld H → Type 0
  HasSlots tjmax w = (length w.0.thermal_value ≡ 128) × (w.0.tjmax ≡ tjmax)

  abbrev Holds : ℕ → IntelWorld H → Type 0
  Holds i w = get_or w.0.thermal_value i 0 ≡ msr i / 65536 % 128

  intel_thermal-HasSlots :
      (tjmax : List ℕ) (i cpu : ℕ) (w : IntelWorld H)
      → HasSlots tjmax w
      → HasSlots tjmax (intel_thermal p i cpu w)
  unfolding intel_thermal
  intel_thermal-HasSlots tjmax i cpu w h =
      let m = (p.rdmsr cpu 0x19c w.1).0 in
      let h1 = (p.rdmsr cpu 0x19c w.1).1 in
      let read : Intel = record w.0 {
        thermal_value = set w.0.thermal_value i (m / 65536 % 128);
        thermal_obsolete = set w.0.thermal_obsolete i false;
      } in
      let set_ok : HasSlots tjmax (read, h1) =
        (length-set w.0.thermal_value i (m / 65536 % 128) ∙ h.0, h.1) in
      if-both (HasSlots tjmax) (ltb i 128) ((if m / 2147483648 % 2 == 0 then w.0 else read), h1) w
        (if-both (λ s. HasSlots tjmax (s, h1)) (m / 2147483648 % 2 == 0) w.0 read h set_ok) h

  intel_thermal-made :
      (i : ℕ) (tjmax : List ℕ) (w : IntelWorld H)
      → ltb i 128 ≡ true
      → msr i / 2147483648 % 2 == 0 ≡ false
      → HasSlots tjmax w
      → Holds i (intel_thermal p i i w)
  unfolding intel_thermal
  intel_thermal-made i tjmax w small valid h =
      let m = (p.rdmsr i 0x19c w.1).0 in
      let read : Intel = record w.0 {
        thermal_value = set w.0.thermal_value i (m / 65536 % 128);
        thermal_obsolete = set w.0.thermal_obsolete i false;
      } in
      let after : Bool → Bool → IntelWorld H =
        λ b v. if b then ((if v then w.0 else read), (p.rdmsr i 0x19c w.1).1) else w in
      let valid' : m / 2147483648 % 2 == 0 ≡ false =
        subst (λ x. x / 2147483648 % 2 == 0 ≡ false) (sym (reads i w.1)) valid in
      let stored : get_or read.thermal_value i 0 ≡ m / 65536 % 128 =
        get_or-set_self w.0.thermal_value i (m / 65536 % 128) 0
          (subst (λ n. i < n) (sym h.0) (ltb→lt i 128 small)) in
      subst (λ b. Holds i (after b (m / 2147483648 % 2 == 0))) (sym small)
        (subst (λ v. Holds i (after true v)) (sym valid')
          (stored ∙ ap (λ x. x / 65536 % 128) (reads i w.1)))

  intel_thermal-Holds :
      (i cpu : ℕ) (w : IntelWorld H) → i ≢ cpu → Holds i w → Holds i (intel_thermal p cpu cpu w)
  unfolding intel_thermal
  intel_thermal-Holds i cpu w other h =
      let m = (p.rdmsr cpu 0x19c w.1).0 in
      let h1 = (p.rdmsr cpu 0x19c w.1).1 in
      let read : Intel = record w.0 {
        thermal_value = set w.0.thermal_value cpu (m / 65536 % 128);
        thermal_obsolete = set w.0.thermal_obsolete cpu false;
      } in
      if-both (Holds i) (ltb cpu 128) ((if m / 2147483648 % 2 == 0 then w.0 else read), h1) w
        (if-both (λ s. Holds i (s, h1)) (m / 2147483648 % 2 == 0) w.0 read h
          (get_or-set_ne w.0.thermal_value cpu i (m / 65536 % 128) 0 (λ e. other (sym e)) ∙ h))
        h

  -- After the functions have run on the cores, the slot of a core whose reading is valid holds bits
  -- 16 to 22 of it.
  read_thermals-Holds :
      (i : ℕ) (w : IntelWorld H)
      → ltb i 128 ≡ true
      → msr i / 2147483648 % 2 == 0 ≡ false
      → IsAmong i p.order
      → ltb w.0.count w.0.threads ≡ false
      → length w.0.thermal_value ≡ 128
      → HasSlots w.0.tjmax (read_thermals p w) × Holds i (read_thermals p w)
  unfolding read_thermals slot
  read_thermals-Holds i w small valid among alone slots =
      let P : IntelWorld H → Type 0 = λ y. HasSlots w.0.tjmax y × Holds i y in
      subst (λ b. P (rendezvous p.order (λ cpu. intel_thermal p (slot b cpu) cpu) w)) (sym alone)
        (rendezvous-reaches (HasSlots w.0.tjmax) P p.order (λ cpu. intel_thermal p cpu cpu) w i
          among (λ cpu. intel_thermal-HasSlots w.0.tjmax cpu cpu)
          (λ y h. (
            intel_thermal-HasSlots w.0.tjmax i i y h,
            intel_thermal-made i w.0.tjmax y small valid h,
          ))
          (λ cpu y q. (
            intel_thermal-HasSlots w.0.tjmax cpu cpu y q.0,
            elim (ℕ_discrete i cpu) [
              | yes e ↦
                  subst (λ c. Holds i (intel_thermal p c c y)) e
                    (intel_thermal-made i w.0.tjmax y small valid q.0)
              | no n ↦ intel_thermal-Holds i cpu y n q.1.1
            ],
          ))
          (slots, refl))

  -- For one of the first ten cores, among those that there are and that run the function, with no
  -- more threads than cores and 128 slots, and thermal registers that hold still, the answer to the
  -- key that the start adds for the core's temperature is its TjMax less bits 16 to 22 of its own
  -- register, where that reading is marked as valid.
  pub intel_callback-core_char :
      (i c : ℕ) (bytes : Bytes) (size : ℕ) (w : IntelWorld H)
      → core_char i ≡ some c
      → ltb i 10 ≡ true
      → ltb i w.0.count ≡ true
      → msr i / 2147483648 % 2 == 0 ≡ false
      → IsAmong i p.order
      → ltb w.0.count w.0.threads ≡ false
      → length w.0.thermal_value ≡ 128
      → let (code, out, w1) =
          intel_callback p get_value_callback self (0x54 ∷ 0x43 ∷ c ∷ 0x44 ∷ []) bytes size w in
        (code ≡ success)
        × (out
            ≡ overwrite
                (value_bytes ((get_or w.0.tjmax i 0 + 65536 - msr i / 65536 % 128) % 65536))
                bytes)
  unfolding intel_callback answer_temperature answer_value core_temperature
  intel_callback-core_char i c bytes size w named small known valid among alone slots =
      let found : core_below w.0.count (core_index c) ≡ some i =
        ap (core_below w.0.count)
          (core_index-core_char i c named ∙ ap (λ b. some (if b then i else i - 10)) small)
        ∙ core_below-known w.0.count i known in
      let read = read_thermals-Holds i w (grind arith) valid among alone slots in
      let value =
        ap (λ t. (get_or t i 0 + 65536 - get_or (read_thermals p w).0.thermal_value i 0) % 65536)
          read.0.1
        ∙ ap (λ v. (get_or w.0.tjmax i 0 + 65536 - v) % 65536) read.1 in
      (
        ap (λ r. (answer_temperature p r bytes w).0) found,
        ap (λ r. (answer_temperature p r bytes w).1) found
            ∙ ap (λ v. overwrite (value_bytes v) bytes) value,
      )
