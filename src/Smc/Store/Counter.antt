-- ===== src/Smc/Store/Counter.antt =====
-- The count of the keys and #KEY, in which fakesmc/FakeSMCDevice.cpp publishes it.
use fake_smc3_with_plugins.Prelude.{
  read_bytes, ap, ◌==◌, Bool-cases, get_elem?, set, length-append, length-set, strlen, refl, ◌∙◌,
  inl, inr, none, some, List, ◌++◌, if◌then◌else◌, length, get_or, Bytes, ℕ, ◌+◌, ◌*◌, ◌%◌, ◌≡◌,
  Option, [], ◌∷◌, arith,
}
use fake_smc3_with_plugins.Smc.Key.{Key, Callback, with_value}
use fake_smc3_with_plugins.Smc.Key.Laws.{set_value_from_buffer_plain}
use fake_smc3_with_plugins.Smc.Device.{Device}
use fake_smc3_with_plugins.Smc.Store.{
  get_key, get_count, sharp_value, write_sharp, update_sharp_key, append_key, add_key_with_value,
  update_or_create,
}

-- A number of four bytes, the most significant first, as a host reads a ui32 key.
pub big_endian : Bytes → ℕ
big_endian b = get_or b 3 0 + 256 * get_or b 2 0 + 65536 * get_or b 1 0 + 16777216 * get_or b 0 0

sharp_value-mod : (n : ℕ) → sharp_value n ≡ 0 ∷ 0 ∷ 0 ∷ n % 256 ∷ []
unfolding sharp_value
sharp_value-mod n = ground arith

big_endian-read_bytes : (n : ℕ) → big_endian (read_bytes 4 (sharp_value n)) ≡ n % 256
unfolding big_endian read_bytes
big_endian-read_bytes n = rw sharp_value-mod (omega arith)

-- What #KEY holds for `count` keys, if no handler answers for it.
abbrev pub counted : Key → ℕ → Key
counted sharp count = record sharp { size = 4; value = read_bytes 4 (sharp_value count) }

module _ {W : Type 0} (call : Callback W) where
  length-write_sharp :
      (ks : List Key) (d : Device W) → length (write_sharp call ks d).keys ≡ length d.keys
  length-write_sharp [] d = refl
  length-write_sharp (k ∷ ks) d = length-set d.keys 0 _

  pub length-append_key :
      (k : Key) (d : Device W) → length (append_key call k d).keys ≡ length d.keys + 1
  unfolding append_key
  length-append_key k d = length-write_sharp (d.keys ++ k ∷ []) _ ∙ length-append d.keys (k ∷ [])

  length-update_or_create :
      (r : Option (ℕ × Key)) (name : Bytes) (type : Option Bytes) (size : ℕ) (value : Option Bytes)
      (d : Device W)
      → length (update_or_create call r name type size value d).1.keys ≡ elim r [
        | none ↦ if strlen name == 0 then length d.keys else length d.keys + 1
        | some _ ↦ length d.keys
      ]
  unfolding with_value
  length-update_or_create (some (i, k)) name type size value d = length-set d.keys i _
  length-update_or_create none name type size value d = elim (Bool-cases (strlen name == 0)) [
    | inl e ↦ rw e
    | inr e ↦ rw e (length-append_key _ d)
  ]

  -- addKeyWithValue adds one key if no key has the name and the name is not empty, and none
  -- otherwise.
  pub get_count-add_key_with_value :
      (name : Bytes) (type : Option Bytes) (size : ℕ) (value : Option Bytes) (d : Device W)
      → get_count (add_key_with_value call name type size value d).1 ≡ elim (get_key name d) [
        | none ↦ if strlen name == 0 then get_count d else get_count d + 1
        | some _ ↦ get_count d
      ]
  unfolding get_count add_key_with_value
  get_count-add_key_with_value name type size value d =
      length-update_or_create (get_key name d) name type size value d

  write_sharp_plain :
      (s : Key) (ks : List Key) (d : Device W)
      → d.keys ≡ s ∷ ks
      → s.handler ≡ none
      → write_sharp call (s ∷ ks) d ≡ record d { keys = counted s (length d.keys) ∷ ks }
  write_sharp_plain s ks d e h =
      rw
        (set_value_from_buffer_plain call (sharp_value (length d.keys)) 4 s d.world (omega arith) h)
        (ap (λ l. record d { keys = set l 0 (counted s (length d.keys)) }) e)

  update_sharp_key_plain :
      (s : Key) (ks : List Key) (d : Device W)
      → d.keys ≡ s ∷ ks
      → s.handler ≡ none
      → update_sharp_key call d ≡ record d { keys = counted s (length d.keys) ∷ ks }
  unfolding update_sharp_key
  update_sharp_key_plain s ks d e h =
      ap (λ l. write_sharp call l d) e ∙ write_sharp_plain s ks d e h

  -- A new key goes behind the others, and #KEY takes the new count.
  pub append_key_plain :
      (s : Key) (ks : List Key) (k : Key) (d : Device W)
      → d.keys ≡ s ∷ ks
      → s.handler ≡ none
      → append_key call k d ≡ record d { keys = counted s (length d.keys + 1) ∷ (ks ++ k ∷ []) }
  unfolding append_key
  append_key_plain s ks k d e h =
      update_sharp_key_plain s (ks ++ k ∷ []) (record d { keys = d.keys ++ k ∷ [] })
        (ap (λ l. l ++ k ∷ []) e) h
      ∙ ap (λ n. record d { keys = counted s n ∷ (ks ++ k ∷ []) }) (length-append d.keys (k ∷ []))

-- The number of keys that a host reads from #KEY.
abbrev pub published : {W : Type 0} → Device W → Option ℕ
published d = elim (get_elem? d.keys 0) [ none ↦ none | some k ↦ some (big_endian k.value) ]

module _ {W : Type 0} (call : Callback W) where
  -- After the addition of a new key, #KEY reads as the number of keys modulo 256, if no handler
  -- answers for #KEY.
  pub published-append_key :
      (s : Key) (ks : List Key) (k : Key) (d : Device W)
      → d.keys ≡ s ∷ ks
      → s.handler ≡ none
      → published (append_key call k d) ≡ some (get_count (append_key call k d) % 256)
  unfolding get_count
  published-append_key s ks k d e h = rw (append_key_plain call s ks k d e h) (
      ap some (
        big_endian-read_bytes (length d.keys + 1)
        ∙ omega (arith, length-append ks (k ∷ []), ap (λ l. length l) e)))
