-- ===== src/Pci/Laws/Mapping.antt =====
-- Where the monitor for Intel's memory controller reads, of what it has mapped.
use fake_smc3_with_plugins.Prelude.{
  if◌then◌else◌, if-both, ◌==◌, get_or, Bytes, codes, c_str, overwrite, ℕ, ◌+◌, ◌%◌, ◌≡◌, refl, sym,
  ap, ◌∙◌, subst, Bool, true, false, not, ◌||◌, Option, none, some, [], ◌∷◌, ltb,
}
use fake_smc3_with_plugins.Smc.Key.{IoReturn, get_value_callback}
use fake_smc3_with_plugins.SuperIo.Monitor.{self, same_string}
use fake_smc3_with_plugins.Cpu.Intel.Start.{to_lower}
use fake_smc3_with_plugins.Pci.{
  Pci, PciWorld, PciMonitor, get_object, mark, is_inside, invid8, invid16,
}
use fake_smc3_with_plugins.Pci.Mch.{mch_callback, answer_dimm, channel_register}

or-true : (b : Bool) → (b || true) ≡ true
or-true true = refl
or-true false = refl

mark-outside :
    (width offset : ℕ) (s : PciMonitor)
    → ltb 4096 (offset + width) ≡ true
    → (mark 4096 width offset s).is_outside ≡ true
unfolding mark is_inside
mark-outside width offset s far = go s.mmio_base
  where
    go : (base : Option ℕ) → (s.is_outside || not (is_inside base 4096 width offset)) ≡ true
    go none = or-true s.is_outside
    go (some base) = ap (λ b. s.is_outside || not (not b)) far ∙ or-true s.is_outside

reaches_dimm :
    {A : Type 0} (P : A → Type 0) (c : ℕ) (x y z : A)
    → c ≡ 0x6d
    → P y
    → P (if c == 0x4e then x else if c == 0x6d then y else z)
reaches_dimm P c x y z e h =
    subst (λ k. P (if k == 0x4e then x else if k == 0x6d then y else z)) (sym e) h

channel_register-far : (index : ℕ) → ltb 4096 (channel_register index + 2) ≡ true
unfolding channel_register
channel_register-far index =
    if-both (λ r. ltb 4096 (r + 2) ≡ true) (index == 0 || index == 2) 0x58b0 0x58b4 refl refl

module _ {H : Type 0} (p : Pci H) where
  answer_dimm-outside :
      (r : Option ℕ) (index : ℕ) (bytes : Bytes) (w : PciWorld H)
      → r ≡ some index
      → (answer_dimm p r bytes w).2.0.is_outside ≡ true
  unfolding answer_dimm invid16
  answer_dimm-outside r index bytes w e =
      subst (λ q. (answer_dimm p q bytes w).2.0.is_outside ≡ true) (sym e)
        (mark-outside 2 (channel_register (index % 65536)) w.0
          (channel_register-far (index % 65536)))

  -- Every temperature that the monitor for Intel's memory controller answers with is read behind the
  -- page that its start maps: that of the package, and that of a memory module whose name the
  -- dictionary holds.
  pub mch_callback-is_outside :
      (name : Bytes) (index : ℕ) (bytes : Bytes) (size : ℕ) (w : PciWorld H)
      → get_or name 1 0 ≡ 0x6d
      → get_object (c_str name) w.0.sensors ≡ some index
      → ((mch_callback p get_value_callback self (codes "TN0P") bytes size w).2.0.is_outside ≡ true)
        × ((mch_callback p get_value_callback self name bytes size w).2.0.is_outside ≡ true)
  unfolding mch_callback invid8 same_string to_lower c_str
  mch_callback-is_outside name index bytes size w second held = (
    mark-outside 1 0x5978 w.0 refl,
    reaches_dimm (λ (a : IoReturn × Bytes × PciWorld H). a.2.0.is_outside ≡ true) (get_or name 1 0)
        _ _ _ second
        (answer_dimm-outside (get_object (c_str name) w.0.sensors) index (overwrite (0 ∷ []) bytes)
          w held),
  )
