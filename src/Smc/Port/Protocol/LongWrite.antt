-- ===== src/Smc/Port/Protocol/LongWrite.antt =====
-- A host's write of more than 251 bytes through the ports of fakesmc/FakeSMCDevice.cpp. The byte
-- register read_pos counts the bytes of the name, the length and the data together, and wraps.
use fake_smc3_with_plugins.Prelude.{
  length-take, All-drop, subst, take, drop, length-drop, take-append-drop, All-take, sym, ap, ◌∙◌,
  ◌++◌, length, set, All, Bytes, IsByte, ℕ, suc, ◌+◌, ◌%◌, ◌≤◌, ◌<◌, ◌≡◌, refl, inr, [], ◌∷◌, arith,
}
use fake_smc3_with_plugins.Smc.Key.{Callback}
use fake_smc3_with_plugins.Smc.Device.{Status, Device}
use fake_smc3_with_plugins.Smc.Port.{
  write_cmd, cmd_writeb, with_status, data_writeb, write_writeb, store_byte,
}
use fake_smc3_with_plugins.Smc.Port.Transfer.{feed, feed-append, data_writeb-name, named_byte}
use fake_smc3_with_plugins.Smc.Port.Protocol.{IsSized, host_write}
use fake_smc3_with_plugins.Smc.Port.Protocol.Write.{announced, feed_announcement}

abbrev unfinished_byte : ℕ → Status → Status
unfinished_byte b s = record s {
  value = set s.value s.data_pos b;
  data_pos = s.data_pos + 1;
  status = 0x05;
  read_pos = (s.read_pos + 1) % 256;
}

-- `count` more bytes leave the write unfinished, and read_pos does not wrap before them.
record IsUnfinished (count : ℕ) (s : Status) : Type 0 where
  writes : s.cmd ≡ write_cmd
  behind_length : 5 ≤ s.read_pos
  fits : s.data_pos + count < s.data_len
  byte_length : s.data_len < 256
  no_wrap : s.read_pos + count < 257

module _ {W : Type 0} (call : Callback W) where
  data_writeb_unfinished :
      (b count : ℕ) (d : Device W)
      → b < 256
      → IsUnfinished (suc count) d.status
      → data_writeb call b d ≡ with_status (unfinished_byte b d.status) d
  unfolding data_writeb write_writeb store_byte
  data_writeb_unfinished b count d h o = ground arith

  feed_unfinished :
      (bs : Bytes) (d : Device W)
      → All IsByte bs
      → d.status.read_pos + length bs < 256
      → IsUnfinished (length bs) d.status
      → (s : Status) × (feed call bs d ≡ with_status s d)
        × (s.cmd ≡ write_cmd)
        × (s.read_pos ≡ d.status.read_pos + length bs)
        × (s.data_pos ≡ d.status.data_pos + length bs)
        × (s.data_len ≡ d.status.data_len)
  unfolding feed
  feed_unfinished [] d h l o = (d.status, refl, o.writes, omega arith, omega arith, refl)
  feed_unfinished (b ∷ bs) d h l o =
      let d' = with_status (unfinished_byte b d.status) d in
      let (s, fed, w, r, p, n) = feed_unfinished bs d' h.1 (omega arith) (omega arith) in
      (s, rw (data_writeb_unfinished b (length bs) d h.0 o) fed, w, omega arith, omega arith, n)

  feed_name_again :
      (bs : Bytes) (pos : ℕ) (d : Device W)
      → All IsByte bs
      → d.status.cmd ≡ write_cmd
      → d.status.read_pos ≡ pos
      → pos + length bs ≤ 4
      → (feed call bs d).keys ≡ d.keys
  unfolding feed
  feed_name_again [] pos d h c p l = refl
  feed_name_again (b ∷ bs) pos d h c p l =
      ap (λ (x : Device W). (feed call bs x).keys)
        (data_writeb-name call b pos d (inr c) p (omega arith) h.0)
      ∙ feed_name_again bs (pos + 1) (with_status (named_byte pos b d.status) d) h.1 c refl
          (omega arith)

  -- The byte on which read_pos wraps, and what follows it: the name is written over.
  feed_past_wrap :
      (b : ℕ) (rest : Bytes) (d : Device W)
      → b < 256
      → All IsByte rest
      → d.status.read_pos ≡ 255
      → length rest ≤ 4
      → IsUnfinished 1 d.status
      → (feed call (b ∷ rest) d).keys ≡ d.keys
  unfolding feed
  feed_past_wrap b rest d hb hr r short o =
      ap (λ (x : Device W). (feed call rest x).keys) (data_writeb_unfinished b 0 d hb o)
      ∙ feed_name_again rest 0 (with_status (unfinished_byte b d.status) d) hr o.writes
          (omega arith) (omega arith)

  feed_wrapped :
      (xs : Bytes) (b : ℕ) (rest : Bytes) (d : Device W)
      → All IsByte xs
      → b < 256
      → All IsByte rest
      → d.status.read_pos ≡ 5
      → length xs ≡ 250
      → length rest ≤ 4
      → IsUnfinished 251 d.status
      → (feed call (xs ++ b ∷ rest) d).keys ≡ d.keys
  unfolding feed
  feed_wrapped xs b rest d hx hb hr r lx short o =
      let (s, fed, w, r', p', n') = feed_unfinished xs d hx (omega arith) (omega arith) in
      ap (λ (x : Device W). x.keys) (feed-append call xs (b ∷ rest) d)
      ∙ ap (λ (x : Device W). (feed call (b ∷ rest) x).keys) fed
      ∙ feed_past_wrap b rest (with_status s d) hb hr (omega arith) short (omega arith)

  feed_long :
      (bs : Bytes) (d : Device W)
      → All IsByte bs
      → 252 ≤ length bs
      → length bs ≤ 255
      → d.status.read_pos ≡ 5
      → IsUnfinished 251 d.status
      → (feed call bs d).keys ≡ d.keys
  feed_long bs d h low high r o = go (drop 250 bs) refl
    where
      go : (end : Bytes) → drop 250 bs ≡ end → (feed call bs d).keys ≡ d.keys
      go [] e = absurd (omega (arith, length-drop 250 bs, ap (λ l. length l) e))
      go (b ∷ rest) e =
          let bytes = subst (All IsByte) e (All-drop IsByte 250 bs h) in
          ap (λ l. (feed call l d).keys)
            (sym (take-append-drop 250 bs) ∙ ap (λ l. take 250 bs ++ l) e)
          ∙ feed_wrapped (take 250 bs) b rest d (All-take IsByte 250 bs h) bytes.0 bytes.1 r
              (omega (arith, length-take 250 bs))
              (omega (arith, length-drop 250 bs, ap (λ l. length l) e)) o

  -- A write of 252 bytes or more is lost: no key is added or changed.
  pub keys-host_write_long :
      (a b c e : ℕ) (bs : Bytes) (d : Device W)
      → All IsByte (a ∷ b ∷ c ∷ e ∷ [])
      → All IsByte bs
      → 252 ≤ length bs
      → length bs ≤ 255
      → IsSized d.status
      → (host_write call (a ∷ b ∷ c ∷ e ∷ []) bs d).keys ≡ d.keys
  unfolding host_write cmd_writeb
  keys-host_write_long a b c e bs d h hb low high sized =
      ap (λ (x : Device W). (feed call bs x).keys)
        (feed_announcement call a b c e (length bs) d h (omega arith) sized)
      ∙ feed_long bs (with_status (announced (a ∷ b ∷ c ∷ e ∷ []) (length bs) d.status) d) hb low
          high refl
          (record {
            writes = refl;
            behind_length = omega arith;
            fits = omega arith;
            byte_length = omega arith;
            no_wrap = omega arith;
          })
