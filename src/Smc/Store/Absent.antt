-- ===== src/Smc/Store/Absent.antt =====
-- What addKeyWithValue of fakesmc/FakeSMCDevice.cpp leaves absent.
use fake_smc3_with_plugins.Prelude.{
  ℕ, ◌≡◌, ◌≢◌, ◌∙◌, refl, ap, Option, none, some, List, [], ◌∷◌, ◌++◌, Bytes, load32, length,
  get_elem?, ne→==,
}
use fake_smc3_with_plugins.Smc.Key.{Key, Callback, with_value, init}
use fake_smc3_with_plugins.Smc.Key.Laws.{name-set_value_from_buffer}
use fake_smc3_with_plugins.Smc.Device.{Device}
use fake_smc3_with_plugins.Smc.Store.{
  find_key, get_key, write_sharp, update_sharp_key, append_key, add_created, update_or_create,
  add_key_with_value, sharp_value,
}
use fake_smc3_with_plugins.Smc.Store.Lookup.{find_key_sound, find_key-append, FourChars}
use fake_smc3_with_plugins.Smc.Store.Invariant.{find_key-set-none, init-name}

module _ {W : Type 0} (call : Callback W) where
  -- No operation on the keys changes isRevLess.
  pub is_rev_less-add_key_with_value :
      (name : Bytes) (type : Option Bytes) (size : ℕ) (value : Option Bytes) (d : Device W)
      → (add_key_with_value call name type size value d).1.is_rev_less ≡ d.is_rev_less
  unfolding add_key_with_value
  is_rev_less-add_key_with_value name type size value d = updated (get_key name d)
    where
      sharp : (ks : List Key) (x : Device W) → (write_sharp call ks x).is_rev_less ≡ x.is_rev_less
      sharp [] x = refl
      sharp (k ∷ ks) x = refl

      created : (k : Option Key) → (add_created call k d).1.is_rev_less ≡ d.is_rev_less
      created none = refl
      created (some k) = unfold append_key update_sharp_key in sharp (d.keys ++ k ∷ []) _

      updated :
          (r : Option (ℕ × Key))
          → (update_or_create call r name type size value d).1.is_rev_less ≡ d.is_rev_less
      updated none = created _
      updated (some r) = refl

  write_sharp-absent :
      (q : ℕ) (ks : List Key) (d : Device W)
      → d.keys ≡ ks
      → find_key q ks ≡ none
      → find_key q (write_sharp call ks d).keys ≡ none
  write_sharp-absent q [] d e h = ap (find_key q) e ∙ h
  write_sharp-absent q (k ∷ ks) d e h =
      find_key-set-none q d.keys 0 _ (ap (λ l. get_elem? l 0) e)
        (name-set_value_from_buffer call (some (sharp_value (length d.keys))) 4 k d.world)
        (ap (find_key q) e ∙ h)

  append_key-absent :
      (q : ℕ) (k : Key) (d : Device W)
      → q ≢ load32 k.name
      → find_key q d.keys ≡ none
      → find_key q (append_key call k d).keys ≡ none
  unfolding append_key update_sharp_key
  append_key-absent q k d ne h =
      write_sharp-absent q (d.keys ++ k ∷ []) (record d { keys = d.keys ++ k ∷ [] }) refl
        (find_key-append q d.keys k h ∙ rw (ne→== q (load32 k.name) ne))

  add_created-absent :
      (q : ℕ) (name : Bytes) (type : Option Bytes) (size : ℕ) (value : Option Bytes)
      (made : Option Key) (d : Device W)
      → FourChars name
      → q ≢ load32 name
      → init (some name) type size value none ≡ made
      → find_key q d.keys ≡ none
      → find_key q (add_created call made d).1.keys ≡ none
  add_created-absent q name type size value none d four ne e h = h
  add_created-absent q name type size value (some k) d four ne e h =
      append_key-absent q k d (λ p. ne (p ∙ init-name call name type size value none four e)) h

  update_or_create-absent :
      (q : ℕ) (r : Option (ℕ × Key)) (name : Bytes) (type : Option Bytes) (size : ℕ)
      (value : Option Bytes) (d : Device W)
      → FourChars name
      → q ≢ load32 name
      → get_key name d ≡ r
      → find_key q d.keys ≡ none
      → find_key q (update_or_create call r name type size value d).1.keys ≡ none
  unfolding get_key with_value
  update_or_create-absent q none name type size value d four ne e h =
      add_created-absent q name type size value _ d four ne refl h
  update_or_create-absent q (some (i, k)) name type size value d four ne e h =
      find_key-set-none q d.keys i _ (find_key_sound _ d.keys e).0
        (name-set_value_from_buffer call value size k d.world) h

  -- A name that no key has is still that of no key after addKeyWithValue of another name.
  pub add_key_with_value-absent :
      (q : ℕ) (name : Bytes) (type : Option Bytes) (size : ℕ) (value : Option Bytes) (d : Device W)
      → FourChars name
      → q ≢ load32 name
      → find_key q d.keys ≡ none
      → find_key q (add_key_with_value call name type size value d).1.keys ≡ none
  unfolding add_key_with_value
  add_key_with_value-absent q name type size value d four ne h =
      update_or_create-absent q (get_key name d) name type size value d four ne refl h
