-- ===== src/SuperIo/Bus/Laws.antt =====
-- What getLogicalDeviceAddress of SuperIOFamily.cpp accepts.
use fake_smc3_with_plugins.Prelude.{
  if-both, refl, if◌then◌else◌, ℕ, ◌≡◌, ◌≤◌, ◌<◌, ◌%◌, Bool, true, false, arith,
}
use fake_smc3_with_plugins.SuperIo.Bus.{
  Bus, Monitor, listen_port_word, is_bad_address, confirm_address, get_logical_device_address,
}

-- An address of the hardware monitor: at least 0x100, below 0x1000, and a multiple of 8.
pub record IsAddress (address : ℕ) : Type 0 where
  pub above : 0x100 ≤ address
  pub below : address < 0x1000
  pub aligned : address % 8 ≡ 0

is_bad_address-IsAddress : (address : ℕ) → is_bad_address address ≡ false → IsAddress address
unfolding is_bad_address
is_bad_address-IsAddress address e = record {
  above = ground arith;
  below = ground arith;
  aligned = ground arith;
}

module _ {H : Type 0} (bus : Bus H) where
  guarded-IsAddress :
      (b : Bool) (x y : Bool × Monitor × H)
      → x.0 ≡ false
      → (b ≡ false → IsAddress y.1.address)
      → (if b then x else y).0 ≡ true
      → IsAddress (if b then x else y).1.address
  guarded-IsAddress true x y f good e = absurd (cc)
  guarded-IsAddress false x y f good e = good refl

  -- Where getLogicalDeviceAddress answers yes, the monitor's address is one that both readings gave:
  -- at least 0x100, below 0x1000, and a multiple of 8.
  pub get_logical_device_address-IsAddress :
      (reg : ℕ) (m : Monitor) (h : H)
      → (get_logical_device_address bus reg m h).0 ≡ true
      → IsAddress (get_logical_device_address bus reg m h).1.address
  unfolding get_logical_device_address confirm_address
  get_logical_device_address-IsAddress reg m h e =
      let (address, h1) = listen_port_word bus reg m h in
      guarded-IsAddress (is_bad_address address) (false, record m { address = address }, h1)
        (confirm_address bus address reg m h1) refl (is_bad_address-IsAddress address) e

  -- The model stays.
  pub get_logical_device_address-model :
      (reg : ℕ) (m : Monitor) (h : H) → (get_logical_device_address bus reg m h).1.model ≡ m.model
  unfolding get_logical_device_address confirm_address
  get_logical_device_address-model reg m h =
      let (address, h1) = listen_port_word bus reg m h in
      if-both (λ (x : Bool × Monitor × H). x.1.model ≡ m.model) (is_bad_address address)
        (false, record m { address = address }, h1) (confirm_address bus address reg m h1) refl refl
