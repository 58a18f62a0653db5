-- ===== src/Smc/Port/Protocol/Query.antt =====
-- A host's questions at the ports of fakesmc/FakeSMCDevice.cpp that return no value: the name of the
-- key with an index, and the size and type of a key.
use fake_smc3_with_plugins.Prelude.{
  read_bytes, zero, suc, refl, ◌∙◌, Option, replicate, ◌%◌, none, some, arith, All, Bytes, IsByte,
  ℕ, ◌+◌, ◌*◌, ◌≡◌, ap, [], ◌∷◌,
}
use fake_smc3_with_plugins.Smc.Key.{Key, Callback}
use fake_smc3_with_plugins.Smc.Device.{Status, Device}
use fake_smc3_with_plugins.Smc.Store.{get_key_at}
use fake_smc3_with_plugins.Smc.Port.{
  found_name, get_key_by_index_cmd, cmd_writeb, with_status, data_writeb, get_key_by_index,
  data_readb, copy_name,
}
use fake_smc3_with_plugins.Smc.Port.Transfer.{prepend, drain-suc, drain, feed}
use fake_smc3_with_plugins.Smc.Port.Protocol.{command}

-- Where no name is waiting, a read returns 0 and changes nothing.
drain_idle :
    (n : ℕ) (s : Status)
    → s.cmd ≡ get_key_by_index_cmd
    → s.status ≡ 0
    → drain n s ≡ some (replicate n 0, s)
unfolding drain replicate
drain_idle zero s c z = refl
drain_idle (suc n) s c z = drain-suc n s s 0 idle ∙ ap (prepend 0) (drain_idle n s c z)
  where
    idle : data_readb s ≡ some (0, s)
    idle = unfold data_readb in ground arith

module _ {W : Type 0} (call : Callback W) where
  -- The device after a command and the bytes behind it.
  unfoldable pub host_ask : ℕ → Bytes → Device W → Device W
  unfolding cmd_writeb
  host_ask cmd bytes d = feed call bytes (command cmd d)

  -- The registers after the four bytes of an index.
  abbrev asked_index : ℕ → Status → Status
  asked_index index s = record (cmd_writeb get_key_by_index_cmd s) {
    status = 0x05;
    read_pos = 4;
    key_index = index;
  }

  host_ask_index :
      (a b c e : ℕ) (d : Device W)
      → All IsByte (a ∷ b ∷ c ∷ e ∷ [])
      → let index = a * 16777216 + b * 65536 + c * 256 + e in
        host_ask get_key_by_index_cmd (a ∷ b ∷ c ∷ e ∷ []) d
        ≡ copy_name (get_key_by_index index (with_status (asked_index index d.status) d))
  unfolding host_ask feed data_writeb cmd_writeb
  host_ask_index a b c e d h =
      ap (λ n. copy_name (get_key_by_index n (with_status (asked_index n d.status) d)))
        (let wrapped : ((((0 + a * 16777216) % 4294967296 + b * 65536) % 4294967296 + c * 256)
                    % 4294967296
                  + e * 1)
                % 4294967296
              ≡ a * 16777216 + b * 65536 + c * 256 + e =
            omega arith in
          wrapped)

  host_ask_index-eq :
      (a b c e : ℕ) (d : Device W) (r : Option Key)
      → All IsByte (a ∷ b ∷ c ∷ e ∷ [])
      → let index = a * 16777216 + b * 65536 + c * 256 + e in
        get_key_at index d ≡ r
        → host_ask get_key_by_index_cmd (a ∷ b ∷ c ∷ e ∷ []) d
          ≡ copy_name (found_name r (with_status (asked_index index d.status) d))
  unfolding get_key_by_index
  host_ask_index-eq a b c e d r h found =
      let index = a * 16777216 + b * 65536 + c * 256 + e in
      host_ask_index a b c e d h
      ∙ ap (λ o. copy_name (found_name o (with_status (asked_index index d.status) d))) found

  -- A host that asks for the key with an index, the most significant byte first, reads the four
  -- characters of the name of the key that stands there.
  pub host_ask_index_found :
      (a b c e : ℕ) (d : Device W) (k : Key) (w x y z : ℕ) (rest : Bytes)
      → All IsByte (a ∷ b ∷ c ∷ e ∷ [])
      → get_key_at (a * 16777216 + b * 65536 + c * 256 + e) d ≡ some k
      → k.name ≡ w ∷ x ∷ y ∷ z ∷ rest
      → let d' = host_ask get_key_by_index_cmd (a ∷ b ∷ c ∷ e ∷ []) d in
        drain 4 d'.status
        ≡ some (w ∷ x ∷ y ∷ z ∷ [], record d'.status { data_pos = 4; status = 0x00 })
  unfolding drain data_readb read_bytes cmd_writeb
  host_ask_index_found a b c e d k w x y z rest h found name =
      rw (host_ask_index-eq a b c e d (some k) h found, name)

  -- Where no key has the index, the error register holds 0xb8, and every read returns 0.
  pub host_ask_index_missing :
      (a b c e n : ℕ) (d : Device W)
      → All IsByte (a ∷ b ∷ c ∷ e ∷ [])
      → get_key_at (a * 16777216 + b * 65536 + c * 256 + e) d ≡ none
      → let d' = host_ask get_key_by_index_cmd (a ∷ b ∷ c ∷ e ∷ []) d in
        (d'.status.status_1e ≡ 0xb8) × (drain n d'.status ≡ some (replicate n 0, d'.status))
  unfolding cmd_writeb
  host_ask_index_missing a b c e n d h missing =
      rw (host_ask_index-eq a b c e d none h missing) (refl, drain_idle n _ refl refl)
