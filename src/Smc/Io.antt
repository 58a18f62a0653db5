-- ===== src/Smc/Io.antt =====
-- The port accesses of fakesmc/FakeSMCDevice.cpp: ioRead8 to ioWrite32. The mapping gives the
-- address that the offset is relative to.
use fake_smc3_with_plugins.Prelude.{◌==◌, if◌then◌else◌, ℕ, ◌+◌, ◌%◌, Option, none, some}
pub mod Laws
use fake_smc3_with_plugins.Smc.Key.{Callback}
use fake_smc3_with_plugins.Smc.Device.{Status, Device}
use fake_smc3_with_plugins.Smc.Port.{with_status, cmd_writeb, cmd_readb, data_readb, data_writeb}

abbrev pub data_port : ℕ
data_port = 0x300

abbrev pub cmd_port : ℕ
cmd_port = 0x304

abbrev pub error_code_port : ℕ
error_code_port = 0x31e

-- if (map) base = map->getVirtualAddress(), an UInt16; the sum is an int.
unfoldable pub port_of : Option ℕ → ℕ → ℕ
port_of none offset = 0 + offset
port_of (some address) offset = address % 65536 + offset

abbrev read_data : ℕ → Status → Option (ℕ × Status)
read_data port s = if port == data_port then data_readb s else some (0, s)

abbrev read_command : ℕ → ℕ × Status → ℕ × Status
read_command port (value, s) = if port == cmd_port then (cmd_readb s, s) else (value, s)

abbrev pub take_error : Status → ℕ × Status
take_error s = if s.status_1e == 0 then (0x0, s) else (s.status_1e, record s { status_1e = 0x00 })

abbrev read_error : ℕ → ℕ × Status → ℕ × Status
read_error port (value, s) = if port == error_code_port then take_error s else (value, s)

abbrev pub read_port : ℕ → Status → Option (ℕ × Status)
unfolding cmd_readb
read_port port s = elim (read_data port s) [
  | none ↦ none
  | some r ↦ some (read_error port (read_command port r))
]

-- ioRead8; `none` is an access outside of an array.
unfoldable pub io_read8 : ℕ → Option ℕ → Status → Option (ℕ × Status)
unfolding port_of
io_read8 offset address s = read_port (port_of address offset) s

unfoldable pub io_read16 : ℕ → Option ℕ → Status → ℕ × Status
io_read16 offset address s = (0, s)

unfoldable pub io_read32 : ℕ → Option ℕ → Status → ℕ × Status
io_read32 offset address s = (0, s)

module _ {W : Type 0} (call : Callback W) where
  abbrev pub write_port : ℕ → ℕ → Device W → Device W
  write_port port value d =
      let d' = if port == data_port then data_writeb call value d else d in
      if port == cmd_port then with_status (cmd_writeb value d'.status) d' else d'

  -- ioWrite8
  unfoldable pub io_write8 : ℕ → ℕ → Option ℕ → Device W → Device W
  unfolding port_of
  io_write8 offset value address d = write_port (port_of address offset) value d

unfoldable pub io_write16 : {W : Type 0} → ℕ → ℕ → Option ℕ → Device W → Device W
io_write16 offset value address d = d

unfoldable pub io_write32 : {W : Type 0} → ℕ → ℕ → Option ℕ → Device W → Device W
io_write32 offset value address d = d
