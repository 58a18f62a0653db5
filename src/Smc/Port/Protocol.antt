-- ===== src/Smc/Port/Protocol.antt =====
-- What a host does at the ports of fakesmc/FakeSMCDevice.cpp to read or write one key: the command,
-- four bytes of the name, the length, and the bytes.
use fake_smc3_with_plugins.Prelude.{length, Bytes, ℕ, ◌≡◌, Option, none, some, [], ◌∷◌, ◌++◌}
pub mod Read
pub mod Write
pub mod RoundTrip
pub mod Nvram
pub mod LongWrite
pub mod ReadBack
pub mod Query
pub mod TypeQuery
pub mod Bounds
use fake_smc3_with_plugins.Smc.Key.{Callback}
use fake_smc3_with_plugins.Smc.Device.{Status, Device}
use fake_smc3_with_plugins.Smc.Port.{read_cmd, write_cmd, cmd_writeb, with_status}
use fake_smc3_with_plugins.Smc.Port.Transfer.{drain, feed}

-- The arrays of the registers have the sizes of their declarations.
pub record IsSized (s : Status) : Type 0 where
  pub key_length : length s.key ≡ 4
  pub value_length : length s.value ≡ 255
  pub info_length : length s.key_info ≡ 6

-- The registers after command and name.
abbrev pub named : ℕ → Bytes → Status → Status
named cmd name s = record (cmd_writeb cmd s) { key = name; status = 0x04; read_pos = 4 }

abbrev pub command : {W : Type 0} → ℕ → Device W → Device W
command cmd d = with_status (cmd_writeb cmd d.status) d

abbrev pub collected : {W : Type 0} → Device W → Option (Bytes × Status) → Option (Bytes × Device W)
collected d none = none
collected d (some (bs, s)) = some (bs, with_status s d)

module _ {W : Type 0} (call : Callback W) where
  -- The bytes that a host reads under a name, and the device after it.
  unfoldable pub host_read : Bytes → ℕ → Device W → Option (Bytes × Device W)
  unfolding cmd_writeb
  host_read name len d =
      let asked = feed call (name ++ len ∷ []) (command read_cmd d) in
      collected asked (drain len asked.status)

  unfoldable pub host_write : Bytes → Bytes → Device W → Device W
  unfolding cmd_writeb
  host_write name bytes d =
      feed call bytes (feed call (name ++ length bytes ∷ []) (command write_cmd d))
