-- ===== src/Smc/Port/Protocol/Nvram.antt =====
-- What a host's write leaves in the NVRAM: applesmc_io_data_writeb and saveKeyToNVRAM of
-- fakesmc/FakeSMCDevice.cpp.
use fake_smc3_with_plugins.Smc.Port.Protocol.Write.{host_write_commits}
use fake_smc3_with_plugins.Smc.Port.Protocol.RoundTrip.{read_bytes-put_bytes, full_write}
use fake_smc3_with_plugins.Smc.Port.Protocol.{host_write, IsSized}
use fake_smc3_with_plugins.Prelude.{
  length, get_elem?, get_elem?-append_length, All, Bytes, IsByte, zeros, ℕ, ◌+◌, ◌≤◌, ◌≡◌, refl, ap,
  ◌∙◌, Option, none, some, List, [], ◌∷◌, ◌++◌, arith,
}
use fake_smc3_with_plugins.Smc.Key.{value_or_zeros, Key, Callback, init_named}
use fake_smc3_with_plugins.Smc.Key.Laws.{get_value_plain}
use fake_smc3_with_plugins.Smc.Device.{Device}
use fake_smc3_with_plugins.Smc.Store.{get_key, nvram_name, save_entry, save_key_to_nvram}
use fake_smc3_with_plugins.Smc.Store.Lookup.{FourChars, strlen-ne-zero}
use fake_smc3_with_plugins.Smc.Store.Counter.{counted, append_key_plain}
use fake_smc3_with_plugins.Smc.Store.Update.{add_key_with_value_new, init_named_contents}
use fake_smc3_with_plugins.Smc.Port.{cmd_writeb, with_status, commit_write, save_added}

module _ {W : Type 0} (call : Callback W) where
  nvram-save_key_to_nvram :
      (i : ℕ) (d : Device W) (k : Key) (entries : List (Bytes × Bytes))
      → get_elem? d.keys i ≡ some k
      → k.handler ≡ none
      → d.nvram ≡ some entries
      → (save_key_to_nvram call i d).nvram ≡ some ((nvram_name k, k.value) ∷ entries)
  unfolding save_key_to_nvram
  nvram-save_key_to_nvram i d k entries g plain kept =
      ap (λ r. (save_entry call d.nvram r i d).nvram) g
      ∙ (ap (λ n. (save_entry call n (some k) i d).nvram) kept
          ∙ rw (get_value_plain call k d.world plain) refl)

  nvram-commit_write :
      (d : Device W) (s : Key) (ks : List Key) (entries : List (Bytes × Bytes))
      → FourChars d.status.key
      → d.keys ≡ s ∷ ks
      → s.handler ≡ none
      → get_key d.status.key d ≡ none
      → d.nvram ≡ some entries
      → let made = init_named d.status.key none d.status.data_len (some d.status.value) none in
        (commit_write call d).nvram ≡ some ((nvram_name made, made.value) ∷ entries)
  unfolding commit_write init_named
  nvram-commit_write d s ks entries four keys plain absent kept =
      ap
        (λ (r : Option ℕ × Device W).
          (save_added call (r.0, with_status (record r.1.status { value = zeros 255 }) r.1)).nvram)
        (add_key_with_value_new call d.status.key none d.status.data_len (some d.status.value) d
            absent (strlen-ne-zero d.status.key four)
          ∙ ap (λ (x : Device W). (some (length d.keys), x))
              (append_key_plain call s ks made d keys plain))
      ∙ nvram-save_key_to_nvram (length d.keys) _ made entries
          (ap (λ n. get_elem? (counted s (length d.keys + 1) ∷ (ks ++ made ∷ [])) n)
              (ap length keys)
            ∙ get_elem?-append_length (counted s (length d.keys + 1) ∷ ks) made [])
          refl kept
    where
      made : Key
      made = init_named d.status.key none d.status.data_len (some d.status.value) none

  -- A host's write of at most 251 bytes under a new name of four characters, with #KEY answered by no
  -- handler, leaves the bytes in the NVRAM, under the name "fakesmc-key-…" with the key's name and
  -- its default type, before the entries that were there.
  pub nvram-host_write :
      (a b c e x : ℕ) (xs : Bytes) (d : Device W) (s : Key) (ks : List Key)
      (entries : List (Bytes × Bytes))
      → All IsByte (a ∷ b ∷ c ∷ e ∷ [])
      → FourChars (a ∷ b ∷ c ∷ e ∷ [])
      → All IsByte (x ∷ xs)
      → length (x ∷ xs) ≤ 251
      → IsSized d.status
      → d.keys ≡ s ∷ ks
      → s.handler ≡ none
      → get_key (a ∷ b ∷ c ∷ e ∷ []) d ≡ none
      → d.nvram ≡ some entries
      → let name = a ∷ b ∷ c ∷ e ∷ [] in
        (host_write call name (x ∷ xs) d).nvram
        ≡ some ((nvram_name (init_named name none (length (x ∷ xs)) none none), x ∷ xs) ∷ entries)
  unfolding get_key cmd_writeb nvram_name init_named value_or_zeros
  nvram-host_write a b c e x xs d s ks entries h four hx short sized keys plain absent kept =
      let name : Bytes = a ∷ b ∷ c ∷ e ∷ [] in
      let full : Device W = full_write name (x ∷ xs) d in
      rw (host_write_commits call a b c e x xs d h hx short sized) (
        nvram-commit_write full s ks entries four keys plain absent kept
        ∙ ap
            (λ (bs : Bytes).
              some ((nvram_name (init_named name none (length (x ∷ xs)) none none), bs) ∷ entries))
            ((init_named_contents name none (length (x ∷ xs)) full.status.value (omega arith)).1
              ∙ read_bytes-put_bytes (x ∷ xs) d.status.value (omega (arith, sized.value_length))))
