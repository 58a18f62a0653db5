-- ===== src/Smc/Store/Invariant.antt =====
-- The invariant of the array of keys of fakesmc/FakeSMCDevice.cpp.
use fake_smc3_with_plugins.Prelude.{
  sym, length, ap, Option-cases, get_elem?, set, All, All-append, All-set, All-get_elem?, Bytes,
  load32, ℕ, zero, suc, ◌<◌, ◌≡◌, refl, subst, inl, inr, Option, none, some, List, [], ◌∷◌, ◌++◌,
  arith,
}
use fake_smc3_with_plugins.Smc.Key.{
  Key, Callback, with_value, with_handler, init, get_value, set_value_from_buffer, set_handler,
  copy_symbol, init_named,
}
use fake_smc3_with_plugins.Smc.Key.Laws.{
  IsWellFormed, init-IsWellFormed, get_value-IsWellFormed, set_value_from_buffer-IsWellFormed,
  name-get_value, name-set_handler, set_handler-IsWellFormed, name-set_value_from_buffer,
}
use fake_smc3_with_plugins.Smc.Device.{Device}
use fake_smc3_with_plugins.Smc.Store.{
  handle_or_create, update_or_create, write_sharp, find_key, get_key, put_key, sharp_value,
  update_sharp_key, append_key, add_created, add_key_with_value, add_key_with_handler,
}
use fake_smc3_with_plugins.Smc.Store.Lookup.{
  find_key_sound, find_key-append, FourChars, load32-copy_symbol, strlen-ne-zero,
}

-- "#KEY" in a name's five bytes.
abbrev pub sharp_name : Bytes
sharp_name = 0x23 ∷ 0x4b ∷ 0x45 ∷ 0x59 ∷ 0 ∷ []

abbrev pub StartsWithSharp : List Key → Type 0
StartsWithSharp [] = ⊥
StartsWithSharp (k ∷ ks) = k.name ≡ sharp_name

-- No two keys have one name.
abbrev pub Distinct : List Key → Type 0
Distinct [] = Unit
Distinct (k ∷ ks) = (find_key (load32 k.name) ks ≡ none) × Distinct ks

-- Every key is well formed, the first is #KEY, and names are unique.
pub record IsConsistent {W : Type 0} (d : Device W) : Type 0 where
  pub well_formed : All IsWellFormed d.keys
  pub sharp_first : StartsWithSharp d.keys
  pub distinct : Distinct d.keys

-- Only the keys count.
pub IsConsistent-same_keys :
    {W : Type 0} {d d' : Device W} → d'.keys ≡ d.keys → IsConsistent d → IsConsistent d'
IsConsistent-same_keys {W = W} {d = d} {d' = d'} e c = record {
  well_formed = subst (All IsWellFormed) (sym e) c.well_formed;
  sharp_first = subst StartsWithSharp (sym e) c.sharp_first;
  distinct = subst Distinct (sym e) c.distinct;
}

pub find_key-set-none :
    (q : ℕ) (ks : List Key) (i : ℕ) {k : Key} (k' : Key)
    → get_elem? ks i ≡ some k
    → k'.name ≡ k.name
    → find_key q ks ≡ none
    → find_key q (set ks i k') ≡ none
unfolding find_key
find_key-set-none q [] i k' g n e = refl
find_key-set-none q (x ∷ ks) zero k' g n e = ground arith
find_key-set-none q (x ∷ ks) (suc i) k' g n e = elim (Option-cases (find_key q ks)) [
  | inl h ↦ ground (arith, find_key-set-none q ks i k' g n h)
  | inr (r, h) ↦ ground arith
]

Distinct-set :
    (ks : List Key) (i : ℕ) {k : Key} (k' : Key)
    → get_elem? ks i ≡ some k
    → k'.name ≡ k.name
    → Distinct ks
    → Distinct (set ks i k')
Distinct-set [] i k' g n h = tt
Distinct-set (x ∷ ks) zero k' g n h = (subst (λ m. find_key (load32 m) ks ≡ none) (cc) h.0, h.1)
Distinct-set (x ∷ ks) (suc i) k' g n h =
    (find_key-set-none (load32 x.name) ks i k' g n h.0, Distinct-set ks i k' g n h.1)

Distinct-append :
    (ks : List Key) (k : Key)
    → find_key (load32 k.name) ks ≡ none
    → Distinct ks
    → Distinct (ks ++ k ∷ [])
unfolding find_key
Distinct-append [] k e h = (refl, tt)
Distinct-append (x ∷ ks) k e h = elim (Option-cases (find_key (load32 k.name) ks)) [
  | inl m ↦ (ground (arith, find_key-append (load32 x.name) ks k h.0), Distinct-append ks k m h.1)
  | inr (r, m) ↦ ground arith
]

StartsWithSharp-set :
    (ks : List Key) (i : ℕ) {k : Key} (k' : Key)
    → get_elem? ks i ≡ some k
    → k'.name ≡ k.name
    → StartsWithSharp ks
    → StartsWithSharp (set ks i k')
StartsWithSharp-set [] i k' g n h = h
StartsWithSharp-set (x ∷ ks) zero k' g n h = cc
StartsWithSharp-set (x ∷ ks) (suc i) k' g n h = h

StartsWithSharp-append :
    (ks : List Key) (k : Key) → StartsWithSharp ks → StartsWithSharp (ks ++ k ∷ [])
StartsWithSharp-append [] k h = absurd h
StartsWithSharp-append (x ∷ ks) k h = h

module _ {W : Type 0} where
  -- A key may be replaced by a well-formed one of its name.
  pub put_key-IsConsistent :
      (d : Device W) (i : ℕ) {k : Key} (k' : Key) (w : W)
      → get_elem? d.keys i ≡ some k
      → k'.name ≡ k.name
      → IsWellFormed k'
      → IsConsistent d
      → IsConsistent (put_key i k' w d)
  put_key-IsConsistent d i k' w g n wf c = record {
    well_formed = All-set IsWellFormed d.keys i k' c.well_formed wf;
    sharp_first = StartsWithSharp-set d.keys i k' g n c.sharp_first;
    distinct = Distinct-set d.keys i k' g n c.distinct;
  }

module _ {W : Type 0} (call : Callback W) where
  pub set_value-IsConsistent :
      (d : Device W) (i : ℕ) (k : Key) (value : Option Bytes) (size : ℕ)
      → get_elem? d.keys i ≡ some k
      → size < 256
      → IsConsistent d
      → let (_, k', w') = set_value_from_buffer call value size k d.world in
        IsConsistent (put_key i k' w' d)
  set_value-IsConsistent d i k value size g small c =
      put_key-IsConsistent d i (set_value_from_buffer call value size k d.world).1 _ g
        (name-set_value_from_buffer call value size k d.world)
        (set_value_from_buffer-IsWellFormed call value size k d.world small
          (All-get_elem? IsWellFormed d.keys i c.well_formed g))
        c

  write_sharp-IsConsistent :
      (ks : List Key) (d : Device W)
      → d.keys ≡ ks
      → IsConsistent d
      → IsConsistent (write_sharp call ks d)
  write_sharp-IsConsistent [] d e c = c
  write_sharp-IsConsistent (k ∷ ks) d e c =
      set_value-IsConsistent d 0 k (some (sharp_value (length d.keys))) 4
        (ap (λ l. get_elem? l 0) e) (omega arith) c

  pub update_sharp_key-IsConsistent :
      (d : Device W) → IsConsistent d → IsConsistent (update_sharp_key call d)
  unfolding update_sharp_key
  update_sharp_key-IsConsistent d c = write_sharp-IsConsistent d.keys d refl c

  pub append_key-IsConsistent :
      (k : Key) (d : Device W)
      → IsWellFormed k
      → find_key (load32 k.name) d.keys ≡ none
      → IsConsistent d
      → IsConsistent (append_key call k d)
  unfolding append_key
  append_key-IsConsistent k d wf fresh c =
      update_sharp_key-IsConsistent (record d { keys = d.keys ++ k ∷ [] })
        (record {
          well_formed = All-append IsWellFormed d.keys (k ∷ []) c.well_formed (wf, tt);
          sharp_first = StartsWithSharp-append d.keys k c.sharp_first;
          distinct = Distinct-append d.keys k fresh c.distinct;
        })

  -- The key that init makes for a name of four characters bears that name.
  pub init-name :
      (name : Bytes) (type : Option Bytes) (size : ℕ) (value : Option Bytes) (handler : Option ℕ)
      {k : Key}
      → FourChars name
      → init (some name) type size value handler ≡ some k
      → load32 k.name ≡ load32 name
  unfolding init
  init-name name type size value handler four e =
      ground (arith, load32-copy_symbol name four, strlen-ne-zero name four, named)
    where
      named : (init_named name type size value handler).name ≡ copy_symbol name
      named = refl

  add_created-IsConsistent :
      (name : Bytes) (type : Option Bytes) (size : ℕ) (value : Option Bytes) (handler : Option ℕ)
      (made : Option Key) (d : Device W)
      → FourChars name
      → size < 256
      → get_key name d ≡ none
      → init (some name) type size value handler ≡ made
      → IsConsistent d
      → IsConsistent (add_created call made d).1
  unfolding get_key
  add_created-IsConsistent name type size value handler none d four small absent e c = c
  add_created-IsConsistent name type size value handler (some k) d four small absent e c =
      append_key-IsConsistent k d (init-IsWellFormed (some name) type size value handler small e)
        (rw (init-name name type size value handler four e) absent) c

  update_or_create-IsConsistent :
      (r : Option (ℕ × Key)) (name : Bytes) (type : Option Bytes) (size : ℕ) (value : Option Bytes)
      (d : Device W)
      → FourChars name
      → size < 256
      → get_key name d ≡ r
      → IsConsistent d
      → IsConsistent (update_or_create call r name type size value d).1
  unfolding get_key with_value
  update_or_create-IsConsistent none name type size value d four small e c =
      add_created-IsConsistent name type size value none _ d four small e refl c
  update_or_create-IsConsistent (some (i, k)) name type size value d four small e c =
      set_value-IsConsistent d i k value size (find_key_sound _ d.keys e).0 small c

  -- addKeyWithValue keeps every key well formed, #KEY first and the names unique, if the name has
  -- four characters and the size is that of an unsigned char.
  pub add_key_with_value-IsConsistent :
      (name : Bytes) (type : Option Bytes) (size : ℕ) (value : Option Bytes) (d : Device W)
      → FourChars name
      → size < 256
      → IsConsistent d
      → IsConsistent (add_key_with_value call name type size value d).1
  unfolding add_key_with_value
  add_key_with_value-IsConsistent name type size value d four small c =
      update_or_create-IsConsistent (get_key name d) name type size value d four small refl c

  handle_or_create-IsConsistent :
      (r : Option (ℕ × Key)) (name : Bytes) (type : Option Bytes) (size : ℕ) (handler : Option ℕ)
      (d : Device W)
      → FourChars name
      → size < 256
      → get_key name d ≡ r
      → IsConsistent d
      → IsConsistent (handle_or_create call r name type size handler d).1
  unfolding get_key with_handler
  handle_or_create-IsConsistent none name type size handler d four small e c =
      add_created-IsConsistent name type size none handler _ d four small e refl c
  handle_or_create-IsConsistent (some (i, k)) name type size handler d four small e c =
      let found = (find_key_sound _ d.keys e).0 in
      put_key-IsConsistent d i (set_handler handler k).1 d.world found (name-set_handler handler k)
        (set_handler-IsWellFormed handler k
          (All-get_elem? IsWellFormed d.keys i c.well_formed found))
        c

  -- addKeyWithHandler keeps every key well formed, #KEY first and the names unique, if the name has
  -- four characters and the size is that of an unsigned char.
  pub add_key_with_handler-IsConsistent :
      (name : Bytes) (type : Option Bytes) (size : ℕ) (handler : Option ℕ) (d : Device W)
      → FourChars name
      → size < 256
      → IsConsistent d
      → IsConsistent (add_key_with_handler call name type size handler d).1
  unfolding add_key_with_handler
  add_key_with_handler-IsConsistent name type size handler d four small c =
      handle_or_create-IsConsistent (get_key name d) name type size handler d four small refl c

  -- Asking a key for its value keeps the keys consistent.
  pub get_value-IsConsistent :
      (d : Device W) (i : ℕ) (k : Key)
      → get_elem? d.keys i ≡ some k
      → IsConsistent d
      → let (k', w') = get_value call k d.world in IsConsistent (put_key i k' w' d)
  get_value-IsConsistent d i k g c =
      put_key-IsConsistent d i (get_value call k d.world).0 _ g (name-get_value call k d.world)
        (get_value-IsWellFormed call k d.world
          (All-get_elem? IsWellFormed d.keys i c.well_formed g))
        c
