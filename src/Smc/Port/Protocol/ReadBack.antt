-- ===== src/Smc/Port/Protocol/ReadBack.antt =====
-- A host that writes a key through the ports of fakesmc/FakeSMCDevice.cpp, and then reads it.
use fake_smc3_with_plugins.Prelude.{
  All-get_elem?, ==-refl, length, get_elem?, take-length, All, Bytes, IsByte, load32, zeros,
  length-zeros, ℕ, ◌≤◌, ◌≡◌, refl, sym, ap, ◌∙◌, subst, ◌≢◌, Option, none, some, List, [], ◌∷◌,
  arith,
}
use fake_smc3_with_plugins.Smc.Key.{Key, Callback}
use fake_smc3_with_plugins.Smc.Key.Laws.{IsWellFormed, get_value_plain}
use fake_smc3_with_plugins.Smc.Device.{Status, Device}
use fake_smc3_with_plugins.Smc.Store.{get_key, save_key_to_nvram, save_entry, add_key_with_value}
use fake_smc3_with_plugins.Smc.Store.Lookup.{FourChars, find_key_sound}
use fake_smc3_with_plugins.Smc.Store.Invariant.{IsConsistent, add_key_with_value-IsConsistent}
use fake_smc3_with_plugins.Smc.Store.Update.{contents, IsPlain, status-add_key_with_value}
use fake_smc3_with_plugins.Smc.Port.{cmd_writeb, commit_write, save_added, bump}
use fake_smc3_with_plugins.Smc.Port.Protocol.{IsSized, host_read, host_write}
use fake_smc3_with_plugins.Smc.Port.Protocol.Read.{host_read_found}
use fake_smc3_with_plugins.Smc.Port.Protocol.Write.{host_write_commits}
use fake_smc3_with_plugins.Smc.Port.Protocol.RoundTrip.{
  full_write, keys-host_write, stored-host_write,
}

-- What is found is a key with the contents.
contents-found :
    (r : Option (ℕ × Key)) (n : ℕ) (bs : Bytes) (h : Option ℕ)
    → contents r ≡ some (n, bs, h)
    → (i : ℕ) × (k : Key) × (r ≡ some (i, k)) × (k.size ≡ n) × (k.value ≡ bs) × (k.handler ≡ h)
contents-found none n bs h e = absurd (cc)
contents-found (some (i, k)) n bs h e = (i, k, refl, cc, cc, cc)

-- The bytes that a read returned.
abbrev pub bytes_read : {W : Type 0} → Option (Bytes × Device W) → Option Bytes
bytes_read none = none
bytes_read (some (bs, d)) = some bs

module _ {W : Type 0} (call : Callback W) where
  status-save_entry :
      (entries : Option (List (Bytes × Bytes))) (k : Option Key) (i : ℕ) (d : Device W)
      → (save_entry call entries k i d).status ≡ d.status
  status-save_entry none k i d = refl
  status-save_entry (some entries) none i d = refl
  status-save_entry (some entries) (some k) i d = refl

  status-save_added : (r : Option ℕ) (d : Device W) → (save_added call (r, d)).status ≡ d.status
  unfolding save_key_to_nvram
  status-save_added none d = refl
  status-save_added (some i) d = status-save_entry d.nvram (get_elem? d.keys i) i d

  status-commit_write :
      (d : Device W) → (commit_write call d).status ≡ record d.status { value = zeros 255 }
  unfolding commit_write
  status-commit_write d =
      let (r, d') =
        add_key_with_value call d.status.key none d.status.data_len (some d.status.value) d in
      status-save_added r _
      ∙ ap (λ (s : Status). record s { value = zeros 255 })
          (status-add_key_with_value call d.status.key none d.status.data_len (some d.status.value)
            d)

  IsSized-host_write :
      (a b c e x : ℕ) (xs : Bytes) (d : Device W)
      → All IsByte (a ∷ b ∷ c ∷ e ∷ [])
      → All IsByte (x ∷ xs)
      → length (x ∷ xs) ≤ 251
      → IsSized d.status
      → IsSized (host_write call (a ∷ b ∷ c ∷ e ∷ []) (x ∷ xs) d).status
  unfolding cmd_writeb
  IsSized-host_write a b c e x xs d h hx short sized =
      rw (host_write_commits call a b c e x xs d h hx short sized) (
        subst (λ s. IsSized (bump s))
          (sym (status-commit_write (full_write (a ∷ b ∷ c ∷ e ∷ []) (x ∷ xs) d)))
          (record {
            key_length = refl;
            value_length = length-zeros 255;
            info_length = sized.info_length;
          }))

  -- A host that writes between 1 and 251 bytes and reads as many under the same name gets them back,
  -- if the name has four characters, is not #KEY, and no handler answers for it or for #KEY, and the
  -- SMC's registers have their sizes and its keys are as they should be: well formed, #KEY first, the
  -- names unique.
  pub host_read-host_write :
      (a b c e x : ℕ) (xs : Bytes) (d : Device W) (s : Key) (ks : List Key)
      → All IsByte (a ∷ b ∷ c ∷ e ∷ [])
      → FourChars (a ∷ b ∷ c ∷ e ∷ [])
      → All IsByte (x ∷ xs)
      → length (x ∷ xs) ≤ 251
      → IsSized d.status
      → IsConsistent d
      → d.keys ≡ s ∷ ks
      → s.handler ≡ none
      → IsPlain (get_key (a ∷ b ∷ c ∷ e ∷ []) d)
      → load32 (a ∷ b ∷ c ∷ e ∷ []) ≢ load32 s.name
      → bytes_read (
          host_read call
            (a ∷ b ∷ c ∷ e ∷ [])
            (length (x ∷ xs))
            (host_write call (a ∷ b ∷ c ∷ e ∷ []) (x ∷ xs) d))
        ≡ some (x ∷ xs)
  unfolding get_key
  host_read-host_write a b c e x xs d s ks h four hx short sized consistent keys plain safe ne =
      let (i, k, found, size, value, handler) = contents-found (get_key name d') n (x ∷ xs) none (
        stored-host_write call a b c e x xs name d s ks h four hx short sized keys plain safe ne
        ∙ rw (==-refl (load32 name))) in
      ap bytes_read (
        host_read_found call a b c e n d' i k h (omega arith) (omega arith)
          (IsSized-host_write a b c e x xs d h hx short sized)
          (All-get_elem? IsWellFormed d'.keys i well_formed
            (find_key_sound (load32 name) d'.keys found).0)
          found)
      ∙ rw (get_value_plain call k d'.world handler, value, take-length (x ∷ xs))
    where
      name : Bytes
      name = a ∷ b ∷ c ∷ e ∷ []

      n : ℕ
      n = length (x ∷ xs)

      d' : Device W
      d' = host_write call name (x ∷ xs) d

      full : Device W
      full = full_write name (x ∷ xs) d

      full-IsConsistent : IsConsistent full
      full-IsConsistent = record {
        well_formed = consistent.well_formed;
        sharp_first = consistent.sharp_first;
        distinct = consistent.distinct;
      }

      well_formed : All IsWellFormed d'.keys
      well_formed =
          subst (All IsWellFormed)
            (sym (keys-host_write call a b c e x xs d s ks h four hx short sized keys plain safe))
            (add_key_with_value-IsConsistent call name none n (some full.status.value) full four
              (omega arith) full-IsConsistent).well_formed
