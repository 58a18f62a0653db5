-- ===== src/Smc/Port/Protocol/Write.antt =====
-- A host's write of a key through the ports of fakesmc/FakeSMCDevice.cpp.
use fake_smc3_with_plugins.Smc.Port.Protocol.{command, IsSized, named, host_write}
use mathlib.Core.Path.{ap₂}
use native.Mathlib.Nat.{mod-eq_of_lt}
use fake_smc3_with_plugins.Prelude.{
  lt→ltb, le→ltb, eq→==, ne→==, length, set, All, Bytes, IsByte, ℕ, suc, ◌+◌, ◌-◌, ◌%◌, ◌≤◌, ◌<◌,
  ◌≡◌, refl, ap, ◌∙◌, inr, [], ◌∷◌, ◌++◌, arith,
}
use fake_smc3_with_plugins.Smc.Key.{Callback}
use fake_smc3_with_plugins.Smc.Device.{Status, Device}
use fake_smc3_with_plugins.Smc.Port.{
  cmd_writeb, write_cmd, with_status, data_writeb, write_writeb, store_byte, commit_write, bump,
}
use fake_smc3_with_plugins.Smc.Port.Transfer.{feed_name, feed-append, feed}

-- The value array after the bytes are stored from position `p` on.
abbrev pub put_bytes : Bytes → ℕ → Bytes → Bytes
put_bytes [] p v = v
put_bytes (b ∷ bs) p v = put_bytes bs (p + 1) (set v p b)

-- The registers after a byte that is not the last one.
abbrev stored_byte : ℕ → Status → Status
stored_byte b s = record s {
  value = set s.value s.data_pos b;
  data_pos = s.data_pos + 1;
  status = 0x05;
  read_pos = s.read_pos + 1;
}

-- The registers with which the last byte of a write is committed.
abbrev pub filled : Bytes → Status → Status
filled bs s = record s {
  value = put_bytes bs s.data_pos s.value;
  data_pos = s.data_len;
  status = 0x00;
  read_pos = s.read_pos + length bs - 1;
}

-- Where a write stands: the bytes that are left fit behind the position, and before read_pos wraps.
record IsOpen (left : ℕ) (s : Status) : Type 0 where
  writes : s.cmd ≡ write_cmd
  behind_length : 5 ≤ s.read_pos
  fits : s.data_pos + left ≡ s.data_len
  byte_length : s.data_len < 256
  no_wrap : s.read_pos + left ≤ 256

-- The registers after command, name and length.
abbrev pub announced : Bytes → ℕ → Status → Status
announced name len s = record (named write_cmd name s) {
  status = 0x05;
  data_pos = 0;
  data_len = len;
  read_pos = 5;
}

module _ {W : Type 0} (call : Callback W) where
  abbrev committed : Device W → Device W
  committed d = let d' = commit_write call d in with_status (bump d'.status) d'

  data_writeb_next :
      (b left : ℕ) (d : Device W)
      → b < 256
      → IsOpen (suc (suc left)) d.status
      → data_writeb call b d ≡ with_status (stored_byte b d.status) d
  unfolding data_writeb write_writeb store_byte
  data_writeb_next b left d h o = ground arith

  data_writeb_last :
      (b : ℕ) (d : Device W)
      → b < 256
      → IsOpen 1 d.status
      → data_writeb call b d ≡ committed (with_status (filled (b ∷ []) d.status) d)
  unfolding data_writeb write_writeb store_byte
  data_writeb_last b d h o =
      let s = d.status in
      rw
        (
          ne→== s.cmd 0x10 (omega arith),
          eq→== s.cmd write_cmd o.writes,
          le→ltb s.read_pos 4 (omega arith),
          ne→== s.read_pos 4 (omega arith),
          lt→ltb s.data_pos s.data_len (omega arith),
          eq→== ((s.data_pos + 1) % 256) s.data_len (omega arith),
          mod-eq_of_lt h,
        )
        (ap₂
          (λ (p r : ℕ).
            committed (with_status (record (filled (b ∷ []) s) { data_pos = p; read_pos = r }) d))
          (let e : (s.data_pos + 1) % 256 ≡ s.data_len = omega arith in e)
          (let e : s.read_pos ≡ s.read_pos + 1 - 1 = omega arith in e))

  -- The last byte of a write commits all of them.
  feed_rest :
      (b : ℕ) (bs : Bytes) (d : Device W)
      → All IsByte (b ∷ bs)
      → IsOpen (length (b ∷ bs)) d.status
      → feed call (b ∷ bs) d ≡ committed (with_status (filled (b ∷ bs) d.status) d)
  unfolding feed
  feed_rest b [] d h o = data_writeb_last b d h.0 o
  feed_rest b (c ∷ bs) d h o = rw (data_writeb_next b (length bs) d h.0 o) (
      feed_rest c bs (with_status (stored_byte b d.status) d) h.1 (omega arith)
      ∙ ap (λ n. committed (with_status (record (filled (b ∷ c ∷ bs) d.status) { read_pos = n }) d))
          (let e : d.status.read_pos + 1 + suc (length bs) - 1
                ≡ d.status.read_pos + suc (suc (length bs)) - 1 =
              omega arith in
            e))

  data_writeb-write_length :
      (len : ℕ) (d : Device W)
      → d.status.cmd ≡ write_cmd
      → d.status.read_pos ≡ 4
      → len < 256
      → data_writeb call len d
        ≡ with_status
            (record d.status { status = 0x05; data_pos = 0; data_len = len; read_pos = 5 })
            d
  unfolding data_writeb write_writeb
  data_writeb-write_length len d c p l = ground arith

  pub feed_announcement :
      (a b c e len : ℕ) (d : Device W)
      → All IsByte (a ∷ b ∷ c ∷ e ∷ [])
      → len < 256
      → IsSized d.status
      → feed call ((a ∷ b ∷ c ∷ e ∷ []) ++ len ∷ []) (command write_cmd d)
        ≡ with_status (announced (a ∷ b ∷ c ∷ e ∷ []) len d.status) d
  unfolding cmd_writeb
  feed_announcement a b c e len d h l sized =
      feed-append call (a ∷ b ∷ c ∷ e ∷ []) (len ∷ []) (command write_cmd d)
      ∙ rw (feed_name call a b c e (command write_cmd d) (inr refl) refl sized.key_length h) (
          unfold feed in
          data_writeb-write_length len
            (with_status (named write_cmd (a ∷ b ∷ c ∷ e ∷ []) d.status) d) refl refl l)

  -- A write of at most 251 bytes commits exactly those bytes under the name.
  pub host_write_commits :
      (a b c e : ℕ) (x : ℕ) (xs : Bytes) (d : Device W)
      → All IsByte (a ∷ b ∷ c ∷ e ∷ [])
      → All IsByte (x ∷ xs)
      → length (x ∷ xs) ≤ 251
      → IsSized d.status
      → host_write call (a ∷ b ∷ c ∷ e ∷ []) (x ∷ xs) d
        ≡ committed (
            with_status
              (filled (x ∷ xs) (announced (a ∷ b ∷ c ∷ e ∷ []) (length (x ∷ xs)) d.status))
              d)
  unfolding host_write cmd_writeb
  host_write_commits a b c e x xs d h hx short sized =
      rw (feed_announcement a b c e (length (x ∷ xs)) d h (omega arith) sized) (
        feed_rest x xs (with_status (announced (a ∷ b ∷ c ∷ e ∷ []) (length (x ∷ xs)) d.status) d)
          hx
          (record {
            writes = refl;
            behind_length = omega arith;
            fits = omega arith;
            byte_length = omega arith;
            no_wrap = omega arith;
          }))
