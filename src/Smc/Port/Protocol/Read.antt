-- ===== src/Smc/Port/Protocol/Read.antt =====
-- A host's read of a key through the ports of fakesmc/FakeSMCDevice.cpp.
use fake_smc3_with_plugins.Smc.Key.Laws.{size-get_value, get_value-IsWellFormed, IsWellFormed}
use fake_smc3_with_plugins.Prelude.{
  length, take, drop, take-append_le, All, Bytes, IsByte, read_bytes, overwrite, length-read_bytes,
  read_bytes_self, length-overwrite, ℕ, zero, suc, ◌≤◌, ◌<◌, ◌≡◌, refl, ap, ◌∙◌, inl, some, [], ◌∷◌,
  ◌++◌, arith,
}
use fake_smc3_with_plugins.Smc.Key.{Key, Callback, get_value}
use fake_smc3_with_plugins.Smc.Device.{Status, Device}
use fake_smc3_with_plugins.Smc.Store.{get_key, put_key}
use fake_smc3_with_plugins.Smc.Port.{read_cmd, cmd_writeb, with_status}
use fake_smc3_with_plugins.Smc.Port.Transfer.{
  drain_rest, drained, feed, feed-append, feed_name, requested, data_writeb-read_length,
}
use fake_smc3_with_plugins.Smc.Port.Protocol.{named, host_read, IsSized, command}

module _ {W : Type 0} (call : Callback W) where
  feed_request :
      (a b c e len : ℕ) (d : Device W) (i : ℕ) (k : Key)
      → All IsByte (a ∷ b ∷ c ∷ e ∷ [])
      → len < 256
      → IsSized d.status
      → get_key (a ∷ b ∷ c ∷ e ∷ []) d ≡ some (i, k)
      → let (k', w') = get_value call k d.world in
        feed call ((a ∷ b ∷ c ∷ e ∷ []) ++ len ∷ []) (command read_cmd d)
        ≡ with_status
            (requested len k' (named read_cmd (a ∷ b ∷ c ∷ e ∷ []) d.status))
            (put_key i k' w' d)
  unfolding cmd_writeb get_key
  feed_request a b c e len d i k h l sized found =
      feed-append call (a ∷ b ∷ c ∷ e ∷ []) (len ∷ []) (command read_cmd d)
      ∙ rw (feed_name call a b c e (command read_cmd d) (inl refl) refl sized.key_length h) (
          unfold feed in
          data_writeb-read_length call len
            (with_status (named read_cmd (a ∷ b ∷ c ∷ e ∷ []) d.status) d) i k refl refl l found)

  -- The device after a read of `len` bytes: the handler, if there is one, has answered, and the
  -- registers are those of a transfer that has ended.
  abbrev pub after_read : Bytes → ℕ → ℕ → Key → Device W → Device W
  after_read name len i k d =
      let (k', w') = get_value call k d.world in
      with_status (drained (requested len k' (named read_cmd name d.status))) (put_key i k' w' d)

  -- A host that reads at most as many bytes as the key holds gets the first bytes of its value, the
  -- one that the handler leaves if there is one.
  pub host_read_found :
      (a b c e len : ℕ) (d : Device W) (i : ℕ) (k : Key)
      → All IsByte (a ∷ b ∷ c ∷ e ∷ [])
      → 0 < len
      → len ≤ k.size
      → IsSized d.status
      → IsWellFormed k
      → get_key (a ∷ b ∷ c ∷ e ∷ []) d ≡ some (i, k)
      → host_read call (a ∷ b ∷ c ∷ e ∷ []) len d
        ≡ some
            (take len (get_value call k d.world).0.value, after_read (a ∷ b ∷ c ∷ e ∷ []) len i k d)
  unfolding host_read
  host_read_found a b c e zero d i k h pos le sized wf found = absurd (omega arith)
  host_read_found a b c e (suc n) d i k h pos le sized wf found =
      rw (feed_request a b c e (suc n) d i k h (omega (arith, wf.size_byte)) sized found) (
        rw (drain_rest n asked refl (omega (arith, wf.size_byte)) whole (omega arith))
          (ap (λ bs. some (bs, after_read (a ∷ b ∷ c ∷ e ∷ []) (suc n) i k d)) start))
    where
      k' : Key
      k' = (get_value call k d.world).0

      wf' : IsWellFormed k'
      wf' = get_value-IsWellFormed call k d.world wf

      asked : Status
      asked = requested (suc n) k' (named read_cmd (a ∷ b ∷ c ∷ e ∷ []) d.status)

      whole : length asked.value ≡ 255
      whole =
          length-overwrite (read_bytes k'.size k'.value) d.status.value
            (omega (arith, length-read_bytes k'.size k'.value, wf'.size_byte, sized.value_length))
          ∙ sized.value_length

      start : take (suc n) (drop 0 asked.value) ≡ take (suc n) k'.value
      start =
          unfold overwrite in
          take-append_le (suc n) (read_bytes k'.size k'.value) _
            (omega (arith, length-read_bytes k'.size k'.value, size-get_value call k d.world))
          ∙ ap (take (suc n)) (read_bytes_self k'.size k'.value wf'.value_length)
