-- ===== src/Smc/Port/Protocol/RoundTrip.antt =====
-- A host that writes a key through the ports of fakesmc/FakeSMCDevice.cpp and reads it back.
use mathlib.Core.Path.{ap₂}
use fake_smc3_with_plugins.Prelude.{
  ◌==◌, if◌then◌else◌, length, get_elem?, drop, length-append, set-append, set-get_elem?_self, All,
  Bytes, IsByte, read_bytes, load32, zeros, read_bytes-append, ℕ, ◌≤◌, ◌≡◌, refl, sym, ap, ◌∙◌, ◌≢◌,
  Option, none, some, List, [], ◌∷◌, ◌++◌, append_assoc, arith,
}
use fake_smc3_with_plugins.Smc.Key.{Key, Callback}
use fake_smc3_with_plugins.Smc.Key.Laws.{get_value_plain}
use fake_smc3_with_plugins.Smc.Device.{Status, Device}
use fake_smc3_with_plugins.Smc.Store.{
  find_key, get_key, save_key_to_nvram, save_entry, add_key_with_value,
}
use fake_smc3_with_plugins.Smc.Store.Lookup.{FourChars}
use fake_smc3_with_plugins.Smc.Store.Update.{
  stored, contents, IsPlain, EntryIsPlain, add_key_with_value-EntryIsPlain,
  stored-add_key_with_value,
}
use fake_smc3_with_plugins.Smc.Port.{cmd_writeb, with_status, commit_write, save_added}
use fake_smc3_with_plugins.Smc.Port.Protocol.{IsSized, host_write}
use fake_smc3_with_plugins.Smc.Port.Protocol.Write.{
  host_write_commits, put_bytes, filled, announced,
}

put_bytes-append :
    (bs pre rest : Bytes)
    → length bs ≤ length rest
    → put_bytes bs (length pre) (pre ++ rest) ≡ pre ++ (bs ++ drop (length bs) rest)
put_bytes-append [] pre rest h = refl
put_bytes-append (b ∷ bs) pre [] h = absurd (omega arith)
put_bytes-append (b ∷ bs) pre (r ∷ rest) h = rw (set-append pre r b rest) (
    ap₂ (λ n l. put_bytes bs n l) (sym (length-append pre (b ∷ [])))
      (sym (append_assoc pre (b ∷ []) rest))
    ∙ put_bytes-append bs (pre ++ b ∷ []) rest (omega arith)
    ∙ append_assoc pre (b ∷ []) (bs ++ drop (length bs) rest))

-- What a write stores is what the host sent, whatever the array held.
pub read_bytes-put_bytes :
    (bs v : Bytes) → length bs ≤ length v → read_bytes (length bs) (put_bytes bs 0 v) ≡ bs
read_bytes-put_bytes bs v h = rw (put_bytes-append bs [] v h) (read_bytes-append bs _)

EntryIsPlain-with_status :
    {W : Type 0} (r : Option ℕ) (d : Device W) (s : Status)
    → EntryIsPlain (r, d)
    → EntryIsPlain (r, with_status s d)
EntryIsPlain-with_status none d s p = p
EntryIsPlain-with_status (some i) d s p = p

-- The registers and the store at the moment at which a write is committed.
abbrev pub full_write : {W : Type 0} → Bytes → Bytes → Device W → Device W
full_write name bytes d = with_status (filled bytes (announced name (length bytes) d.status)) d

module _ {W : Type 0} (call : Callback W) where
  keys-save_entry :
      (entries : Option (List (Bytes × Bytes))) (i : ℕ) (d : Device W) (k : Key)
      → get_elem? d.keys i ≡ some k
      → k.handler ≡ none
      → (save_entry call entries (some k) i d).keys ≡ d.keys
  keys-save_entry none i d k g plain = refl
  keys-save_entry (some entries) i d k g plain =
      rw (get_value_plain call k d.world plain) (set-get_elem?_self d.keys i g)

  keys-save_key_to_nvram :
      (i : ℕ) (d : Device W) (k : Key)
      → get_elem? d.keys i ≡ some k
      → k.handler ≡ none
      → (save_key_to_nvram call i d).keys ≡ d.keys
  unfolding save_key_to_nvram
  keys-save_key_to_nvram i d k g plain =
      ap (λ r. (save_entry call d.nvram r i d).keys) g ∙ keys-save_entry d.nvram i d k g plain

  keys-save_added :
      (r : Option ℕ) (d : Device W) → EntryIsPlain (r, d) → (save_added call (r, d)).keys ≡ d.keys
  keys-save_added none d p = refl
  keys-save_added (some i) d (k, g, plain) = keys-save_key_to_nvram i d k g plain

  keys-commit_write :
      (d : Device W)
      → EntryIsPlain
          (add_key_with_value call d.status.key none d.status.data_len (some d.status.value) d)
      → (commit_write call d).keys
        ≡ (add_key_with_value call d.status.key none d.status.data_len
            (some d.status.value)
            d).1.keys
  unfolding commit_write
  keys-commit_write d p =
      let (r, d') =
        add_key_with_value call d.status.key none d.status.data_len (some d.status.value) d in
      keys-save_added r (with_status (record d'.status { value = zeros 255 }) d')
        (EntryIsPlain-with_status r d' _ p)

  -- The keys after a write are those that addKeyWithValue leaves.
  pub keys-host_write :
      (a b c e x : ℕ) (xs : Bytes) (d : Device W) (s : Key) (ks : List Key)
      → All IsByte (a ∷ b ∷ c ∷ e ∷ [])
      → FourChars (a ∷ b ∷ c ∷ e ∷ [])
      → All IsByte (x ∷ xs)
      → length (x ∷ xs) ≤ 251
      → IsSized d.status
      → d.keys ≡ s ∷ ks
      → s.handler ≡ none
      → IsPlain (get_key (a ∷ b ∷ c ∷ e ∷ []) d)
      → let full = full_write (a ∷ b ∷ c ∷ e ∷ []) (x ∷ xs) d in
        (host_write call (a ∷ b ∷ c ∷ e ∷ []) (x ∷ xs) d).keys
        ≡ (add_key_with_value call
            (a ∷ b ∷ c ∷ e ∷ [])
            none
            (length (x ∷ xs))
            (some full.status.value)
            full).1.keys
  unfolding get_key cmd_writeb
  keys-host_write a b c e x xs d s ks h four hx short sized keys plain safe =
      let name : Bytes = a ∷ b ∷ c ∷ e ∷ [] in
      let full : Device W = full_write name (x ∷ xs) d in
      rw (host_write_commits call a b c e x xs d h hx short sized) (
        keys-commit_write full (
          add_key_with_value-EntryIsPlain call name none (length (x ∷ xs)) full.status.value full s
            ks four (omega arith) keys plain safe))

  -- A host's write of between 1 and 251 bytes, under a name of four characters that no handler answers
  -- for, is the update of a map: the name holds the bytes that were sent, and every other name but
  -- #KEY what it held. The registers have their sizes, and #KEY is the first key and has no handler.
  pub stored-host_write :
      (a b c e x : ℕ) (xs other : Bytes) (d : Device W) (s : Key) (ks : List Key)
      → All IsByte (a ∷ b ∷ c ∷ e ∷ [])
      → FourChars (a ∷ b ∷ c ∷ e ∷ [])
      → All IsByte (x ∷ xs)
      → length (x ∷ xs) ≤ 251
      → IsSized d.status
      → d.keys ≡ s ∷ ks
      → s.handler ≡ none
      → IsPlain (get_key (a ∷ b ∷ c ∷ e ∷ []) d)
      → load32 other ≢ load32 s.name
      → stored other (host_write call (a ∷ b ∷ c ∷ e ∷ []) (x ∷ xs) d) ≡ (
          if load32 other == load32 (a ∷ b ∷ c ∷ e ∷ [])
          then some (length (x ∷ xs), x ∷ xs, none)
          else stored other d)
  unfolding get_key cmd_writeb
  stored-host_write a b c e x xs other d s ks h four hx short sized keys plain safe ne =
      ap (λ (l : List Key). contents (find_key (load32 other) l))
        (keys-host_write a b c e x xs d s ks h four hx short sized keys plain safe)
      ∙ stored-add_key_with_value call name other none n full.status.value full s ks four
          (omega arith) keys plain safe ne
      ∙ ap (λ bs. if load32 other == load32 name then some (n, bs, none) else stored other d)
          (read_bytes-put_bytes (x ∷ xs) d.status.value (omega (arith, sized.value_length)))
    where
      n : ℕ
      n = length (x ∷ xs)

      name : Bytes
      name = a ∷ b ∷ c ∷ e ∷ []

      full : Device W
      full = full_write name (x ∷ xs) d
