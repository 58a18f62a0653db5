-- ===== src/Smc/Store/Update.antt =====
-- What addKeyWithValue of fakesmc/FakeSMCDevice.cpp does to the keys, as equations.
use fake_smc3_with_plugins.Prelude.{
  get_elem?-set_self, get_elem?-lt-length, get_elem?-append_length, ◌%◌, eq→==, get_elem?, ◌+◌, sym,
  subst, ◌==◌, if◌then◌else◌, ==→eq, ne→==, Bool-cases, Option-cases, set, load32, refl, inl, inr,
  List, [], ◌∷◌, ◌++◌, arith, length, Bytes, read_bytes, strlen, ℕ, ◌<◌, ◌≡◌, ap, ◌∙◌, ◌≢◌, Option,
  none, some,
}
use fake_smc3_with_plugins.Smc.Key.{Key, Callback, with_value, init, init_named, value_or_zeros}
use fake_smc3_with_plugins.Smc.Key.Laws.{set_value_from_buffer_plain}
use fake_smc3_with_plugins.Smc.Device.{Device}
use fake_smc3_with_plugins.Smc.Store.{
  update_sharp_key, add_created, write_sharp, get_count, shift, find_key, get_key, put_key,
  append_key, add_key_with_value, update_or_create,
}
use fake_smc3_with_plugins.Smc.Store.Lookup.{
  FourChars, strlen-ne-zero, load32-copy_symbol, find_key-append, find_key-append_found,
  find_key-set_self, find_key-set_ne, find_key_sound,
}
use fake_smc3_with_plugins.Smc.Store.Counter.{
  published-append_key, published, counted, append_key_plain,
}

-- The size, the bytes and the handler that stand under a name.
abbrev pub contents : Option (ℕ × Key) → Option (ℕ × Bytes × Option ℕ)
contents none = none
contents (some (i, k)) = some (k.size, k.value, k.handler)

abbrev pub stored : {W : Type 0} → Bytes → Device W → Option (ℕ × Bytes × Option ℕ)
stored name d = contents (get_key name d)

-- No handler answers for what was found.
abbrev pub IsPlain : Option (ℕ × Key) → Type 0
IsPlain none = Unit
IsPlain (some (i, k)) = k.handler ≡ none

contents-shift : (r : Option (ℕ × Key)) → contents (shift r) ≡ contents r
contents-shift none = refl
contents-shift (some (i, k)) = refl

-- The search behind #KEY when its value changes and a key is added.
contents-append :
    (q : ℕ) (s s' k : Key) (ks : List Key)
    → s'.name ≡ s.name
    → q ≢ load32 s.name
    → (load32 k.name ≡ q → find_key q ks ≡ none)
    → contents (find_key q (s' ∷ (ks ++ k ∷ []))) ≡ (
        if q == load32 k.name
        then some (k.size, k.value, k.handler)
        else contents (find_key q (s ∷ ks)))
unfolding find_key
contents-append q s s' k ks n ne fresh = elim (Option-cases (find_key q ks)) [
  | inl e ↦ ground (arith, find_key-append q ks k e)
  | inr (r, e) ↦ ground (arith, find_key-append_found q ks k e, ne→== (load32 k.name) q)
]

contents-set :
    (q w : ℕ) (ks : List Key) (i : ℕ) (k k' : Key)
    → find_key w ks ≡ some (i, k)
    → k'.name ≡ k.name
    → contents (find_key q (set ks i k'))
      ≡ (if q == w then some (k'.size, k'.value, k'.handler) else contents (find_key q ks))
contents-set q w ks i k k' f n = elim (Bool-cases (q == w)) [
  | inl e ↦ rw (e, ==→eq q w e, find_key-set_self w ks k' n f)
  | inr e ↦ rw e (ap contents (find_key-set_ne q ks i k' g n (λ h. cc (e, eq→== q w (h ∙ l)))))
]
  where
    g : get_elem? ks i ≡ some k
    g = (find_key_sound w ks f).0

    l : load32 k.name ≡ w
    l = (find_key_sound w ks f).1

find_key-tail_none :
    (w : ℕ) (s : Key) (ks : List Key) → find_key w (s ∷ ks) ≡ none → find_key w ks ≡ none
unfolding find_key
find_key-tail_none w s ks h = elim (Option-cases (find_key w ks)) [
  | inl e ↦ e
  | inr (r, e) ↦ ground arith
]

pub init_named_contents :
    (name : Bytes) (type : Option Bytes) (size : ℕ) (value : Bytes)
    → 0 < size
    → let k = init_named name type size (some value) none in
      (k.size ≡ size) × (k.value ≡ read_bytes size value) × (k.handler ≡ none)
unfolding init_named value_or_zeros
init_named_contents name type size value pos = (ground arith, ground arith, refl)

module _ {W : Type 0} (call : Callback W) where
  -- A new name that is not empty: the key that init makes goes behind the others.
  pub add_key_with_value_new :
      (name : Bytes) (type : Option Bytes) (size : ℕ) (value : Option Bytes) (d : Device W)
      → get_key name d ≡ none
      → strlen name ≢ 0
      → add_key_with_value call name type size value d
        ≡ (some (length d.keys), append_key call (init_named name type size value none) d)
  unfolding add_key_with_value with_value init
  add_key_with_value_new name type size value d absent named =
      ap (λ r. update_or_create call r name type size value d) absent ∙ rw (ne→== _ _ named)

  -- A name that is there: the value of that key alone is replaced, if no handler answers for it.
  pub add_key_with_value_old :
      (name : Bytes) (type : Option Bytes) (size : ℕ) (value : Bytes) (d : Device W) (i : ℕ)
      (k : Key)
      → get_key name d ≡ some (i, k)
      → k.handler ≡ none
      → 0 < size
      → add_key_with_value call name type size (some value) d
        ≡ (some i, put_key i (record k { size = size; value = read_bytes size value }) d.world d)
  unfolding add_key_with_value
  add_key_with_value_old name type size value d i k found plain pos =
      ap (λ r. update_or_create call r name type size (some value) d) found
      ∙ rw (set_value_from_buffer_plain call value size k d.world pos plain)

  stored-append_key :
      (name other : Bytes) (type : Option Bytes) (size : ℕ) (value : Bytes) (d : Device W) (s : Key)
      (ks : List Key)
      → FourChars name
      → 0 < size
      → d.keys ≡ s ∷ ks
      → s.handler ≡ none
      → get_key name d ≡ none
      → load32 other ≢ load32 s.name
      → stored other (append_key call (init_named name type size (some value) none) d) ≡ (
          if load32 other == load32 name
          then some (size, read_bytes size value, none)
          else stored other d)
  unfolding get_key
  stored-append_key name other type size value d s ks four pos e plain absent ne =
      ap (λ (x : Device W). contents (find_key (load32 other) x.keys))
        (append_key_plain call s ks made d e plain)
      ∙ contents-append (load32 other) s (counted s (length d.keys + 1)) made ks refl ne (λ h.
        subst (λ w. find_key w ks ≡ none) (sym bears ∙ h)
          (find_key-tail_none (load32 name) s ks (ap (find_key (load32 name)) (sym e) ∙ absent)))
      ∙ rw (
        bears,
        (init_named_contents name type size value pos).0,
        (init_named_contents name type size value pos).1,
        (init_named_contents name type size value pos).2,
        e,
      )
    where
      made : Key
      made = init_named name type size (some value) none

      bears : load32 made.name ≡ load32 name
      bears = unfold init_named in load32-copy_symbol name four

  -- addKeyWithValue of at least one byte, for a name of four characters that no handler answers for,
  -- is the update of a map: the name holds the bytes that were written, and every other name but #KEY
  -- what it held. #KEY is the first key and has no handler.
  pub stored-add_key_with_value :
      (name other : Bytes) (type : Option Bytes) (size : ℕ) (value : Bytes) (d : Device W) (s : Key)
      (ks : List Key)
      → FourChars name
      → 0 < size
      → d.keys ≡ s ∷ ks
      → s.handler ≡ none
      → IsPlain (get_key name d)
      → load32 other ≢ load32 s.name
      → stored other (add_key_with_value call name type size (some value) d).1 ≡ (
          if load32 other == load32 name
          then some (size, read_bytes size value, none)
          else stored other d)
  unfolding get_key
  stored-add_key_with_value name other type size value d s ks four pos e plain safe ne =
      elim (Option-cases (get_key name d)) [
        | inl absent ↦
            rw
              (add_key_with_value_new name type size (some value) d absent
                (strlen-ne-zero name four))
              (stored-append_key name other type size value d s ks four pos e plain absent ne)
        | inr ((i, k), found) ↦
            rw
              (add_key_with_value_old name type size value d i k found (subst IsPlain found safe)
                pos)
              (contents-set (load32 other) (load32 name) d.keys i k _ found refl
                ∙ ap
                    (λ h.
                      if load32 other == load32 name
                      then some (size, read_bytes size value, h)
                      else stored other d)
                    (subst IsPlain found safe))
      ]

  -- After addKeyWithValue of a new name of four characters, #KEY reads as the number of keys modulo
  -- 256, if no handler answers for #KEY.
  pub published-add_key_with_value :
      (name : Bytes) (type : Option Bytes) (size : ℕ) (value : Option Bytes) (d : Device W)
      (s : Key) (ks : List Key)
      → FourChars name
      → d.keys ≡ s ∷ ks
      → s.handler ≡ none
      → get_key name d ≡ none
      → let d' = (add_key_with_value call name type size value d).1 in
        published d' ≡ some (get_count d' % 256)
  published-add_key_with_value name type size value d s ks four e plain absent =
      rw (add_key_with_value_new name type size value d absent (strlen-ne-zero name four))
        (published-append_key call s ks (init_named name type size value none) d e plain)

-- The key that was added or updated has no handler.
abbrev pub EntryIsPlain : {W : Type 0} → Option ℕ × Device W → Type 0
EntryIsPlain (none, d) = Unit
EntryIsPlain (some i, d) = (k : Key) × (get_elem? d.keys i ≡ some k) × (k.handler ≡ none)

module _ {W : Type 0} (call : Callback W) where
  pub add_key_with_value-EntryIsPlain :
      (name : Bytes) (type : Option Bytes) (size : ℕ) (value : Bytes) (d : Device W) (s : Key)
      (ks : List Key)
      → FourChars name
      → 0 < size
      → d.keys ≡ s ∷ ks
      → s.handler ≡ none
      → IsPlain (get_key name d)
      → EntryIsPlain (add_key_with_value call name type size (some value) d)
  unfolding get_key
  add_key_with_value-EntryIsPlain name type size value d s ks four pos e plain safe =
      elim (Option-cases (get_key name d)) [
        | inl absent ↦
            rw
              (add_key_with_value_new call name type size (some value) d absent
                (strlen-ne-zero name four))
              (
                init_named name type size (some value) none,
                ap (λ (x : Device W). get_elem? x.keys (length d.keys))
                      (append_key_plain call s ks (init_named name type size (some value) none) d e
                        plain)
                    ∙ ap
                        (λ (l : List Key).
                          get_elem?
                            (counted s (length d.keys + 1)
                              ∷ (ks ++ init_named name type size (some value) none ∷ []))
                            (length l))
                        e
                    ∙ get_elem?-append_length ks _ [],
                (unfold init_named in refl),
              )
        | inr ((i, k), found) ↦
            rw
              (add_key_with_value_old call name type size value d i k found
                (subst IsPlain found safe) pos)
              (
                record k { size = size; value = read_bytes size value },
                get_elem?-set_self d.keys i _
                    (get_elem?-lt-length d.keys i (find_key_sound (load32 name) d.keys found).0),
                subst IsPlain found safe,
              )
      ]

  -- addKeyWithValue leaves the registers alone.
  pub status-add_key_with_value :
      (name : Bytes) (type : Option Bytes) (size : ℕ) (value : Option Bytes) (d : Device W)
      → (add_key_with_value call name type size value d).1.status ≡ d.status
  unfolding add_key_with_value
  status-add_key_with_value name type size value d = updated (get_key name d)
    where
      sharp : (ks : List Key) (x : Device W) → (write_sharp call ks x).status ≡ x.status
      sharp [] x = refl
      sharp (k ∷ ks) x = refl

      created : (k : Option Key) → (add_created call k d).1.status ≡ d.status
      created none = refl
      created (some k) = unfold append_key update_sharp_key in sharp (d.keys ++ k ∷ []) _

      updated :
          (r : Option (ℕ × Key))
          → (update_or_create call r name type size value d).1.status ≡ d.status
      updated none = created _
      updated (some r) = refl
