-- ===== src/Smc/Port/Protocol/TypeQuery.antt =====
-- A host's question for the size and type of a key: APPLESMC_GET_KEY_TYPE_CMD of
-- fakesmc/FakeSMCDevice.cpp.
use fake_smc3_with_plugins.Prelude.{
  ◌∙◌, Option, get_or, All, Bytes, IsByte, read_bytes, c_str, zeros, ℕ, zero, suc, ◌≡◌, refl, ap,
  some, [], ◌∷◌, ◌++◌, arith,
}
use native.Mathlib.Nat.{mod-eq_of_lt}
use fake_smc3_with_plugins.Smc.Key.{Key, Callback}
use fake_smc3_with_plugins.Smc.Device.{Status, Device}
use fake_smc3_with_plugins.Smc.Store.{get_key}
use fake_smc3_with_plugins.Smc.Port.{
  get_key_type_cmd, cmd_writeb, with_status, data_writeb, fill_info, fill_found_info, data_readb,
  type_byte, info_of,
}
use fake_smc3_with_plugins.Smc.Port.Transfer.{drain, feed, set_four}
use fake_smc3_with_plugins.Smc.Port.Protocol.{IsSized}
use fake_smc3_with_plugins.Smc.Port.Protocol.Query.{host_ask}

-- The loop's test against strlen cuts the type where its text ends.
type_byte-c_str : (t : Bytes) (i : ℕ) → type_byte t i ≡ get_or (c_str t) i 0
unfolding type_byte c_str
type_byte-c_str [] i = ground arith
type_byte-c_str (b ∷ t) zero = ground arith
type_byte-c_str (b ∷ t) (suc i) = ground (arith, type_byte-c_str t i)

read_bytes-four :
    (p : Bytes) → read_bytes 4 p ≡ get_or p 0 0 ∷ get_or p 1 0 ∷ get_or p 2 0 ∷ get_or p 3 0 ∷ []
unfolding read_bytes
read_bytes-four [] = refl
read_bytes-four (a ∷ []) = refl
read_bytes-four (a ∷ b ∷ []) = refl
read_bytes-four (a ∷ b ∷ c ∷ []) = refl
read_bytes-four (a ∷ b ∷ c ∷ e ∷ p) = refl

-- What the six bytes are: the size, the type as four characters padded with 0, and a 0.
info_of-eq : (k : Key) → info_of k ≡ k.size ∷ (read_bytes 4 (c_str k.type) ++ 0 ∷ [])
unfolding info_of
info_of-eq k = rw (
  read_bytes-four (c_str k.type),
  type_byte-c_str k.type 0,
  type_byte-c_str k.type 1,
  type_byte-c_str k.type 2,
  type_byte-c_str k.type 3,
)

abbrev asked_type : Bytes → Status → Status
asked_type name s = record (cmd_writeb get_key_type_cmd s) {
  key = name;
  status = 0x05;
  read_pos = 4;
  data_len = 6;
}

module _ {W : Type 0} (call : Callback W) where
  host_ask_type :
      (a b c e : ℕ) (d : Device W)
      → All IsByte (a ∷ b ∷ c ∷ e ∷ [])
      → IsSized d.status
      → host_ask call get_key_type_cmd (a ∷ b ∷ c ∷ e ∷ []) d
        ≡ fill_info (with_status (asked_type (a ∷ b ∷ c ∷ e ∷ []) d.status) d)
  unfolding host_ask feed data_writeb cmd_writeb
  host_ask_type a b c e d h sized =
      ap (λ name. fill_info (with_status (asked_type name d.status) d))
        (rw (mod-eq_of_lt h.0, mod-eq_of_lt h.1.0, mod-eq_of_lt h.1.1.0, mod-eq_of_lt h.1.1.1.0)
          (set_four d.status.key a b c e sized.key_length))

  host_ask_type-eq :
      (a b c e : ℕ) (d : Device W) (r : Option (ℕ × Key))
      → All IsByte (a ∷ b ∷ c ∷ e ∷ [])
      → IsSized d.status
      → get_key (a ∷ b ∷ c ∷ e ∷ []) d ≡ r
      → host_ask call get_key_type_cmd (a ∷ b ∷ c ∷ e ∷ []) d
        ≡ fill_found_info r (with_status (asked_type (a ∷ b ∷ c ∷ e ∷ []) d.status) d)
  unfolding fill_info get_key
  host_ask_type-eq a b c e d r h sized found =
      host_ask_type a b c e d h sized
      ∙ ap (λ o. fill_found_info o (with_status (asked_type (a ∷ b ∷ c ∷ e ∷ []) d.status) d)) found

  -- A host that asks for the type of a key reads its size, its type as four characters padded with
  -- 0, and a 0.
  pub host_ask_type_found :
      (a b c e : ℕ) (d : Device W) (i : ℕ) (k : Key)
      → All IsByte (a ∷ b ∷ c ∷ e ∷ [])
      → IsSized d.status
      → get_key (a ∷ b ∷ c ∷ e ∷ []) d ≡ some (i, k)
      → let d' = host_ask call get_key_type_cmd (a ∷ b ∷ c ∷ e ∷ []) d in
        drain 6 d'.status
        ≡ some (
          k.size ∷ (read_bytes 4 (c_str k.type) ++ 0 ∷ []),
          record d'.status { data_pos = 6; status = 0x00; key_info = zeros 6 },
        )
  unfolding drain data_readb info_of cmd_writeb
  host_ask_type_found a b c e d i k h sized found =
      rw (host_ask_type-eq a b c e d (some (i, k)) h sized found, ← info_of-eq k)
