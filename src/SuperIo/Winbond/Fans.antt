-- ===== src/SuperIo/Winbond/Fans.antt =====
-- plugins/SuperIOSensors/WinbondW836x/: the readings of the chip, and the cache of its fans' speeds.
-- The fields of the class W836x are a record beside the hardware. The quotient of floating-point
-- numbers is a whole number here: its operands are exact, and it is too far below the next whole
-- number to be rounded up to it. Where it does not fit an UInt16, or is divided by 0, C++ leaves the
-- conversion open: it is taken as that of x86, the lowest 16 bits, and 0.
use fake_smc3_with_plugins.Prelude.{
  for_loop, ltb, ◌==◌, if◌then◌else◌, get_or, set, ℕ, zero, suc, ◌+◌, ◌*◌, ◌/◌, ◌%◌, ◌^◌, Bool,
  true, false, not, ◌&&◌, ◌||◌, List, [], ◌∷◌,
}
pub mod Laws
use fake_smc3_with_plugins.SuperIo.Bus.{Bus, Monitor}
use fake_smc3_with_plugins.SuperIo.Winbond.Bits.{fan_offset, set_offset, next_offset}

-- The fields of the class W836x. `faulted` tells that an access left one of its two arrays, of five
-- elements each, or a table; such an access reads 0 and writes nothing here.
pub record Winbond : Type 0 where
  pub fan_limit : ℕ
  pub fan_value : List ℕ
  pub fan_obsolete : List Bool
  pub faulted : Bool

abbrev pub WinbondWorld : Type 0 → Type 0
WinbondWorld H = Winbond × H

-- Model numbers from which on the code takes the ways of the chips of Nuvoton.
abbrev pub nct6681 : ℕ
nct6681 = 0xb270

abbrev pub nct6791d : ℕ
nct6791d = 0xc803

-- WINBOND_TEMPERATURE, NUVOTON_NEW_TEMPERATURE1, WINBOND_VOLTAGE_REG, WINBOND_VOLTAGE_SCALE and
-- NUVOTON_VOLTAGE_REG.
unfoldable pub winbond_temperature : List ℕ
winbond_temperature = 0x150 ∷ 0x250 ∷ 0x27 ∷ []

unfoldable pub nuvoton_temperature : List ℕ
nuvoton_temperature = 0x75 ∷ 0x77 ∷ 0x73 ∷ 0x79 ∷ []

unfoldable pub winbond_voltage_reg : List ℕ
winbond_voltage_reg = 0x20 ∷ 0x21 ∷ 0x23 ∷ 0x22 ∷ 0x24 ∷ 0x25 ∷ 0x26 ∷ 0x550 ∷ 0x551 ∷ []

unfoldable pub winbond_voltage_scale : List ℕ
winbond_voltage_scale = 8 ∷ 8 ∷ 16 ∷ 16 ∷ 8 ∷ 8 ∷ 8 ∷ 16 ∷ 16 ∷ []

unfoldable pub nuvoton_voltage_reg : List ℕ
nuvoton_voltage_reg = 0x480 ∷ 0x482 ∷ 0x483 ∷ 0x484 ∷ 0x485 ∷ 0x481 ∷ 0x486 ∷ 0x487 ∷ 0x488 ∷ []

-- WINBOND_TACHOMETER, WINBOND_TACHOMETER_BANK, NUVOTON_TACHOMETER and WINBOND_TACHOMETER_DIVISOR.
unfoldable pub winbond_tachometer : List ℕ
winbond_tachometer = 0x28 ∷ 0x29 ∷ 0x2a ∷ 0x3f ∷ 0x53 ∷ []

unfoldable pub winbond_tachometer_bank : List ℕ
winbond_tachometer_bank = 0 ∷ 0 ∷ 0 ∷ 0 ∷ 5 ∷ []

unfoldable pub nuvoton_tachometer : List ℕ
nuvoton_tachometer = 0x4c0 ∷ 0x4c2 ∷ 0x4c4 ∷ 0x4c6 ∷ 0x4c8 ∷ 0x4ca ∷ []

unfoldable pub tachometer_divisor : List ℕ
tachometer_divisor = 0x47 ∷ 0x4b ∷ 0x4c ∷ 0x59 ∷ 0x5d ∷ []

-- fanValue[i] = value; fanValueObsolete[i] = false
unfoldable pub store_fan : ℕ → ℕ → Winbond → Winbond
store_fan i value own = record own {
  fan_value = set own.fan_value i (value % 65536);
  fan_obsolete = set own.fan_obsolete i false;
  faulted = own.faulted || not (ltb i 5);
}

-- fanValueObsolete[i] = true
unfoldable pub mark_obsolete : ℕ → Winbond → Winbond
mark_obsolete i own = record own {
  fan_obsolete = set own.fan_obsolete i true;
  faulted = own.faulted || not (ltb i 5);
}

-- (count < 0xff) ? 1.35e6 / (count * divisor) : 0, for the divisor of an exponent
unfoldable pub winbond_speed : ℕ → ℕ → ℕ
winbond_speed count offset = if ltb count 0xff then 1350000 / (count * 2 ^ offset) else 0

module _ {H : Type 0} (bus : Bus H) where
  -- readByte and writeByte of a bank.
  unfoldable pub bank_read : ℕ → ℕ → Monitor → H → ℕ × H
  bank_read bank reg m h =
      let index_port = (m.address + 5) % 65536 in
      let data_port = (m.address + 6) % 65536 in
      let (value, h1) = bus.inb data_port (
        bus.outb index_port (reg % 256)
          (bus.outb data_port (bank % 256) (bus.outb index_port 0x4e h))) in
      (value % 256, h1)

  unfoldable pub bank_write : ℕ → ℕ → ℕ → Monitor → H → H
  bank_write bank reg value m h =
      let index_port = (m.address + 5) % 65536 in
      let data_port = (m.address + 6) % 65536 in
      bus.outb data_port (value % 256) (
        bus.outb index_port (reg % 256)
          (bus.outb data_port (bank % 256) (bus.outb index_port 0x4e h)))

  -- value |= (readByte(bank, reg + 1) >> 7) & 1, if the bank is not 0.
  unfoldable pub half_degree : ℕ → ℕ → Monitor → H → ℕ × H
  unfolding bank_read
  half_degree bank reg m h =
      let (low, h1) = bank_read bank (reg + 1) m h in if bank == 0 then (0, h) else (low / 128, h1)

  -- readTemperature; the index stands inside of the model's table.
  unfoldable pub winbond_read_temperature : ℕ → Monitor → WinbondWorld H → ℕ × WinbondWorld H
  unfolding bank_read half_degree winbond_temperature nuvoton_temperature
  winbond_read_temperature index m (own, h) =
      let place =
        if ltb m.model nct6681
        then get_or winbond_temperature index 0
        else get_or nuvoton_temperature index 0 in
      let (high, h1) = bank_read (place / 256) (place % 256) m h in
      let (half, h2) = half_degree (place / 256) (place % 256) m h1 in
      ((if ltb 250 (high * 2 + half) then 0 else (high * 2 + half) / 2), (own, h2))

  -- Where the register is that of the battery, whether it is measured. The register is the lowest
  -- byte of its number in the table, the number that it is compared with is the whole one.
  unfoldable pub battery_checked : ℕ → ℕ → Monitor → H → ℕ × H
  unfolding bank_read
  battery_checked reg value m h =
      let (config, h1) = bank_read 0 0x5d m h in
      if ltb 0 value && reg == 0x551
      then ((if config % 2 == 0 then 0 else value), h1)
      else (value, h)

  -- readVoltage; the table is left behind the index 8.
  unfoldable pub winbond_read_voltage : ℕ → Monitor → WinbondWorld H → ℕ × WinbondWorld H
  unfolding bank_read battery_checked winbond_voltage_reg winbond_voltage_scale nuvoton_voltage_reg
  winbond_read_voltage index m (own, h) =
      let is_new = not (ltb m.model nct6791d) in
      let scale = if is_new then 8 else get_or winbond_voltage_scale index 0 in
      let place =
        if is_new then get_or nuvoton_voltage_reg index 0 else get_or winbond_voltage_reg index 0 in
      let (byte, h1) = bank_read (place / 256) (place % 256) m h in
      let (value, h2) = battery_checked (place % 256) (byte * scale) m h1 in
      if ltb index 9 then (value, (own, h2)) else (0, (record own { faulted = true }, h))

  -- The body of the loop for the chips of Nuvoton.
  unfoldable pub update_nuvoton_fan : Monitor → ℕ → WinbondWorld H → WinbondWorld H
  unfolding bank_read store_fan nuvoton_tachometer
  update_nuvoton_fan m i (own, h) =
      let place = get_or nuvoton_tachometer i 0 in
      let (high, h1) = bank_read (place / 256) (place % 256) m h in
      let (low, h2) = bank_read (place / 256) (place % 256 + 1) m h1 in
      (store_fan i (high * 256 + low) own, h2)

  -- The registers of the divisors as one number.
  unfoldable pub read_divisors : Monitor → H → ℕ × H
  unfolding for_loop bank_read tachometer_divisor
  read_divisors m h =
      for_loop 5 0
        (λ i (bits, h0).
          (let (byte, h1) = bank_read 0 (get_or tachometer_divisor i 0) m h0 in
            (bits * 256 + byte, h1)))
        (0, h)

  -- The body of the loop over the fans: what it keeps in `newBits` is the first component.
  unfoldable pub update_fan : ℕ → Monitor → ℕ → ℕ × WinbondWorld H → ℕ × WinbondWorld H
  unfolding bank_read store_fan winbond_speed fan_offset set_offset next_offset winbond_tachometer
      winbond_tachometer_bank
  update_fan bits m i (new_bits, (own, h)) =
      let offset = fan_offset bits i in
      let (count, h1) =
        bank_read (get_or winbond_tachometer_bank i 0) (get_or winbond_tachometer i 0) m h in
      (
        set_offset i (next_offset count offset) new_bits,
        (store_fan i (winbond_speed count offset) own, h1),
      )

  -- The loop that writes the divisors that have changed, the last register first. `n` registers are
  -- left.
  unfoldable pub write_divisors : ℕ → ℕ → ℕ → Monitor → H → H
  unfolding bank_write tachometer_divisor
  write_divisors zero bits new_bits m h = h
  write_divisors (suc n) bits new_bits m h = write_divisors n (bits / 256) (new_bits / 256) m (
      if bits % 256 == new_bits % 256
      then h
      else bank_write 0 (get_or tachometer_divisor n 0) (new_bits % 256) m h)

  unfoldable pub update_winbond_fans : Monitor → WinbondWorld H → WinbondWorld H
  unfolding read_divisors for_loop update_fan write_divisors
  update_winbond_fans m (own, h) =
      let (bits, h1) = read_divisors m h in
      let (new_bits, (own', h2)) = for_loop own.fan_limit 0 (update_fan bits m) (bits, (own, h1)) in
      (own', write_divisors 5 bits new_bits m h2)

  -- updateTachometers
  unfoldable pub update_tachometers : Monitor → WinbondWorld H → WinbondWorld H
  unfolding for_loop update_nuvoton_fan update_winbond_fans
  update_tachometers m w =
      if ltb m.model nct6681
      then update_winbond_fans m w
      else for_loop w.0.fan_limit 0 (update_nuvoton_fan m) w

  -- readTachometer
  unfoldable pub winbond_read_tachometer : ℕ → Monitor → WinbondWorld H → ℕ × WinbondWorld H
  unfolding update_tachometers mark_obsolete
  winbond_read_tachometer index m w =
      let updated = update_tachometers m w in
      let (own, h) = if get_or w.0.fan_obsolete index false then updated else w in
      (get_or own.fan_value index 0, (mark_obsolete index own, h))
