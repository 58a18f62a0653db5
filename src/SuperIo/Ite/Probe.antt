-- ===== src/SuperIo/Ite/Probe.antt =====
-- What the search for a chip of ITE finds: probe of SuperIOFamily.cpp with probePort of ITEIT87x.cpp.
use fake_smc3_with_plugins.Prelude.{
  if-both, ◌==◌, ◌/◌, ◌%◌, sym, subst, not, ◌||◌, Bytes, ℕ, ◌≡◌, refl, ◌≢◌, Bool, true, false,
  Option, none, some,
}
use fake_smc3_with_plugins.SuperIo.Bus.{Bus, Monitor, listen_port_word}
use fake_smc3_with_plugins.SuperIo.Bus.Laws.{
  IsAddress, get_logical_device_address-IsAddress, get_logical_device_address-model,
}
use fake_smc3_with_plugins.SuperIo.Monitor.{World, probe}
use fake_smc3_with_plugins.SuperIo.Monitor.Probe.{probe-accepted}
use fake_smc3_with_plugins.SuperIo.Ite.Registers.{ite_models, model_in}
use fake_smc3_with_plugins.SuperIo.Ite.Class.{
  ite_read, Ite, IteWorld, it87x, check_chip, check_address, probe_model, ite_probe_port,
}

-- The monitor's chip is one of the class's models, and its address is usable.
pub record IsFound (m : Monitor) : Type 0 where
  pub address_ok : IsAddress m.address
  pub model_known : model_in m.model ite_models ≢ none

-- An answer that is yes only for a usable monitor.
abbrev Sound : {W : Type 0} → Bool × Monitor × W → Type 0
Sound x = (x.0 ≡ true) → IsFound x.1

module _ {H : Type 0} (bus : Bus H) where
  check_chip-Sound :
      (id : ℕ) (m : Monitor) (w : IteWorld H) → IsFound m → Sound (check_chip bus id m w)
  unfolding check_chip
  check_chip-Sound id m (ite, h) ok =
      let (vendor, h1) = ite_read bus m.address 0x58 h in
      let (config, h2) = ite_read bus m.address 0x00 h1 in
      if-both Sound (not (vendor == 0x90)) (false, m, (ite, h1)) _ (λ e. ok)
        (if-both Sound (config / 16 % 2 == 0) (false, m, (ite, h2)) _ (λ e. ok) (λ e. ok))

  check_address-Sound :
      (id : ℕ) (ite : Ite) (r : Bool × Monitor × H) → Sound r → Sound (check_address bus id ite r)
  unfolding check_address
  check_address-Sound id ite (false, m, h) ok = λ e. absurd (cc)
  check_address-Sound id ite (true, m, h) ok = check_chip-Sound id m (ite, h) (ok refl)

  probe_model-Sound :
      (id : ℕ) (m : Monitor) (w : IteWorld H)
      → Sound (probe_model bus (model_in id ite_models) id m w)
  unfolding probe_model
  probe_model-Sound id m (ite, h) = known (model_in id ite_models) refl
    where
      known :
          (r : Option Bytes) → model_in id ite_models ≡ r → Sound (probe_model bus r id m (ite, h))
      known none e = λ q. absurd (cc)
      known (some name) e = check_address-Sound id ite _ (λ q. record {
        address_ok = get_logical_device_address-IsAddress bus 0x60 (record m { model = id }) _ q;
        model_known =
            subst (λ x. model_in x ite_models ≢ none)
              (sym (get_logical_device_address-model bus 0x60 (record m { model = id }) _))
              (λ (gone : model_in id ite_models ≡ none). absurd (cc));
      })

  ite_probe_port-Sound : (m : Monitor) (w : IteWorld H) → Sound (ite_probe_port bus m w)
  unfolding ite_probe_port
  ite_probe_port-Sound m (ite, h) =
      let (id, h1) = listen_port_word bus 0x20 m h in
      if-both Sound (id == 0 || id == 0xffff) (false, m, (ite, h1))
        (probe_model bus (model_in id ite_models) id m
          (record ite { has_smart_guardian = false }, h1))
        (λ e. absurd (cc)) (probe_model-Sound id m (record ite { has_smart_guardian = false }, h1))

  -- Where the search for a chip of ITE succeeds, the chip is one of the 24 models, and its address
  -- is at least 0x100, below 0x1000, and a multiple of 8.
  pub probe-IsFound :
      (w : World (IteWorld H)) → (probe (it87x bus) w).0 ≡ true → IsFound (probe (it87x bus) w).1.0
  unfolding it87x
  probe-IsFound w e = probe-accepted (it87x bus) IsFound (λ m w q. ite_probe_port-Sound m w q) w e
