-- ===== src/Smc/Store.antt =====
-- fakesmc/FakeSMCDevice.cpp: the array of keys, its search, and the operations that add to it.
-- `OSArray` and `OSCollectionIterator` keep the order of insertion; appending succeeds.
pub mod Lookup
pub mod Counter
pub mod Update
pub mod Invariant
pub mod Handler
pub mod Absent
use fake_smc3_with_plugins.Prelude.{
  ℕ, suc, ◌+◌, ◌*◌, ◌%◌, ◌^◌, Bool, Option, none, some, List, [], ◌∷◌, ◌++◌, Bytes, codes, load32,
  c_str, take, length, set, get_elem?, ◌==◌, if◌then◌else◌,
}
use fake_smc3_with_plugins.Smc.Key.{
  Key, Callback, with_value, with_handler, get_value, set_value_from_buffer, set_handler,
}
use fake_smc3_with_plugins.Smc.Device.{Device}

-- One step further from the start of the array.
abbrev pub shift : Option (ℕ × Key) → Option (ℕ × Key)
shift none = none
shift (some (i, k)) = some (suc i, k)

-- The loop of getKey(const char *): the first key whose name loads as the word `key1`.
unfoldable pub find_key : ℕ → List Key → Option (ℕ × Key)
find_key key1 [] = none
find_key key1 (k ∷ keys) =
    let rest = find_key key1 keys in if key1 == load32 k.name then some (0, k) else shift rest

-- The four bytes of `count` as updateSharpKey writes them, each a cast to `char`.
unfoldable pub sharp_value : ℕ → Bytes
sharp_value count =
    (count * 2 ^ 24 % 2 ^ 32 % 256)
    ∷ (count * 2 ^ 16 % 2 ^ 32 % 256)
    ∷ (count * 2 ^ 8 % 2 ^ 32 % 256)
    ∷ (count % 256)
    ∷ []

-- snprintf(name, 32, "%s-%s-%s", kFakeSMCKeyPropertyPrefix, name, type)
unfoldable pub nvram_name : Key → Bytes
nvram_name k =
    take 31 (codes "fakesmc-key" ++ (codes "-" ++ (c_str k.name ++ (codes "-" ++ c_str k.type))))

module _ {W : Type 0} where
  -- getKey(const char *), with the key that the pointer points at.
  unfoldable pub get_key : Bytes → Device W → Option (ℕ × Key)
  get_key name d = find_key (load32 name) d.keys

  -- getKey(unsigned int)
  unfoldable pub get_key_at : ℕ → Device W → Option Key
  get_key_at index d = get_elem? d.keys index

  unfoldable pub get_count : Device W → ℕ
  get_count d = length d.keys

  -- What a method of the key with this index leaves.
  abbrev pub put_key : ℕ → Key → W → Device W → Device W
  put_key i k w d = record d { keys = set d.keys i k; world = w }

module _ {W : Type 0} (call : Callback W) where
  -- sharpKEY->setValueFromBuffer on the first element of the array.
  abbrev write_sharp : List Key → Device W → Device W
  write_sharp [] d = d
  write_sharp (k ∷ ks) d =
      let (_, k', w') =
        set_value_from_buffer call (some (sharp_value (length d.keys))) 4 k d.world in
      put_key 0 k' w' d

  unfoldable pub update_sharp_key : Device W → Device W
  update_sharp_key d = write_sharp d.keys d

  unfoldable pub append_key : Key → Device W → Device W
  unfolding update_sharp_key
  append_key k d = update_sharp_key (record d { keys = d.keys ++ k ∷ [] })

  -- The new key goes behind the others: its index is the old count.
  abbrev pub add_created : Option Key → Device W → Option ℕ × Device W
  add_created none d = (none, d)
  add_created (some k) d = (some (length d.keys), append_key k d)

  abbrev update_or_create :
      Option (ℕ × Key) → Bytes → Option Bytes → ℕ → Option Bytes → Device W → Option ℕ × Device W
  update_or_create (some (i, k)) name type size value d =
      let (_, k', w') = set_value_from_buffer call value size k d.world in
      (some i, put_key i k' w' d)
  update_or_create none name type size value d =
      add_created (with_value (some name) type size value) d

  unfoldable pub add_key_with_value :
      Bytes → Option Bytes → ℕ → Option Bytes → Device W → Option ℕ × Device W
  unfolding get_key
  add_key_with_value name type size value d =
      update_or_create (get_key name d) name type size value d

  abbrev handle_or_create :
      Option (ℕ × Key) → Bytes → Option Bytes → ℕ → Option ℕ → Device W → Option ℕ × Device W
  handle_or_create (some (i, k)) name type size handler d =
      (some i, put_key i (set_handler handler k).1 d.world d)
  handle_or_create none name type size handler d =
      add_created (with_handler (some name) type size handler) d

  unfoldable pub add_key_with_handler :
      Bytes → Option Bytes → ℕ → Option ℕ → Device W → Option ℕ × Device W
  unfolding get_key
  add_key_with_handler name type size handler d =
      handle_or_create (get_key name d) name type size handler d

  abbrev pub save_entry : Option (List (Bytes × Bytes)) → Option Key → ℕ → Device W → Device W
  save_entry none k i d = d
  save_entry (some entries) none i d = d
  save_entry (some entries) (some k) i d =
      let (k', w') = get_value call k d.world in
      record (put_key i k' w' d) { nvram = some ((nvram_name k, k'.value) ∷ entries) }

  -- saveKeyToNVRAM of the key with index `i`; the value is asked of its handler.
  unfoldable pub save_key_to_nvram : ℕ → Device W → Device W
  save_key_to_nvram i d = save_entry d.nvram (get_elem? d.keys i) i d
