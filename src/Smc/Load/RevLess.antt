-- ===== src/Smc/Load/RevLess.antt =====
-- The names that loadKeysFromDictionary of fakesmc/FakeSMCDevice.cpp leaves out for a model without
-- them.
use fake_smc3_with_plugins.Prelude.{
  subst, ◌⊎◌, inl, inr, ℕ, ◌≡◌, ◌∙◌, refl, sym, ap, Option, none, some, List, [], ◌∷◌, Bytes, codes,
  IsByte, All, load32, load32-injective, strncmp_eq, length, Bool, true, false, not, ◌&&◌,
  if◌then◌else◌, ◌%◌, arith,
}
use fake_smc3_with_plugins.Smc.Key.{Callback}
use fake_smc3_with_plugins.Smc.Device.{Device}
use fake_smc3_with_plugins.Smc.Store.{find_key, get_key, add_key_with_value}
use fake_smc3_with_plugins.Smc.Store.Lookup.{FourChars}
use fake_smc3_with_plugins.Smc.Store.Absent.{
  is_rev_less-add_key_with_value, add_key_with_value-absent,
}
use fake_smc3_with_plugins.Smc.Load.{
  Object, array, other_object, type_and_value, may_load, load_entry, load_object, load_entries,
  load_keys_from_dictionary,
}

-- Names of four characters that load as one word compare equal.
strncmp_eq-load32 :
    (key : Bytes) (a b c e : ℕ)
    → FourChars key
    → All IsByte key
    → All IsByte (a ∷ b ∷ c ∷ e ∷ [])
    → load32 (a ∷ b ∷ c ∷ e ∷ []) ≡ load32 key
    → strncmp_eq 4 key (a ∷ b ∷ c ∷ e ∷ []) ≡ true
unfolding strncmp_eq load32
strncmp_eq-load32 [] a b c e four k h p = absurd (four.first refl)
strncmp_eq-load32 (x ∷ []) a b c e four k h p = absurd (four.second refl)
strncmp_eq-load32 (x ∷ y ∷ []) a b c e four k h p = absurd (four.third refl)
strncmp_eq-load32 (x ∷ y ∷ z ∷ []) a b c e four k h p = absurd (four.fourth refl)
strncmp_eq-load32 (x ∷ y ∷ z ∷ w ∷ rest) a b c e four k h p =
    let (p0, p1, p2, p3) =
      load32-injective a b c e x y z w h (k.0, (k.1.0, (k.1.1.0, (k.1.1.1.0, tt)))) p in
    ground (arith, p0, p1, p2, p3)

abbrev pub AreBytes : Bytes × Object → Type 0
AreBytes (key, object) = FourChars key × All IsByte key

-- A device of a model without the key whose name loads as `q`, which it does not have.
abbrev Lacks : {W : Type 0} → ℕ → Device W → Type 0
Lacks q d = (d.is_rev_less ≡ true) × (find_key q d.keys ≡ none)

-- The names in the condition of the code are not loaded.
abbrev IsLeftOut : Bytes → Type 0
IsLeftOut name = (key : Bytes) → strncmp_eq 4 key name ≡ true → may_load true key ≡ false

rev-IsLeftOut : IsLeftOut (codes "REV ")
unfolding may_load
rev-IsLeftOut key e = rw e refl

epci-IsLeftOut : IsLeftOut (codes "EPCI")
unfolding may_load
epci-IsLeftOut key e = rw e (no_use (strncmp_eq 4 key (codes "REV ")))
  where
    no_use : (b : Bool) → (not b && false) ≡ false
    no_use true = refl
    no_use false = refl

rbr-IsLeftOut : IsLeftOut (codes "RBr ")
unfolding may_load
rbr-IsLeftOut key e =
    rw e (no_use (strncmp_eq 4 key (codes "REV ")) (strncmp_eq 4 key (codes "EPCI")))
  where
    no_use : (b c : Bool) → (not b && (not c && false)) ≡ false
    no_use true c = refl
    no_use false true = refl
    no_use false false = refl

module _ {W : Type 0} (call : Callback W) (a b c e : ℕ) where
  abbrev word : ℕ
  word = load32 (a ∷ b ∷ c ∷ e ∷ [])

  chosen :
      (t : Bool) (d d' : Device W)
      → Lacks word d
      → (t ≡ true → Lacks word d')
      → Lacks word (if t then d' else d)
  chosen true d d' h h' = h' refl
  chosen false d d' h h' = h

  load_entry-Lacks :
      (key : Bytes) (entry : Option (Bytes × Bytes)) (d : Device W)
      → All IsByte (a ∷ b ∷ c ∷ e ∷ [])
      → IsLeftOut (a ∷ b ∷ c ∷ e ∷ [])
      → FourChars key
      → All IsByte key
      → Lacks word d
      → Lacks word (load_entry call key entry d)
  unfolding load_entry
  load_entry-Lacks key none d bytes out four h l = l
  load_entry-Lacks key (some (type, value)) d bytes out four h l =
      chosen (may_load d.is_rev_less key) d
        (add_key_with_value call key (some type) (length value % 256) (some value) d).1 l
        (λ t. (
          is_rev_less-add_key_with_value call key (some type) (length value % 256) (some value) d
              ∙ l.0,
          add_key_with_value-absent call word key (some type) (length value % 256) (some value) d
              four
              (λ p. cc (
                out key (strncmp_eq-load32 key a b c e four h bytes p),
                sym (ap (λ r. may_load r key) l.0) ∙ t,
              ))
              l.1,
        ))

  load_object-Lacks :
      (key : Bytes) (object : Object) (d : Device W)
      → All IsByte (a ∷ b ∷ c ∷ e ∷ [])
      → IsLeftOut (a ∷ b ∷ c ∷ e ∷ [])
      → FourChars key
      → All IsByte key
      → Lacks word d
      → Lacks word (load_object call key object d)
  unfolding load_object
  load_object-Lacks key other_object d bytes out four h l = l
  load_object-Lacks key (array items) d bytes out four h l =
      load_entry-Lacks key (type_and_value items) d bytes out four h l

  load_entries-Lacks :
      (entries : List (Bytes × Object)) (d : Device W)
      → All IsByte (a ∷ b ∷ c ∷ e ∷ [])
      → IsLeftOut (a ∷ b ∷ c ∷ e ∷ [])
      → All AreBytes entries
      → Lacks word d
      → Lacks word (load_entries call entries d)
  unfolding load_entries
  load_entries-Lacks [] d bytes out h l = l
  load_entries-Lacks ((key, object) ∷ entries) d bytes out h l =
      load_entries-Lacks entries _ bytes out h.1
        (load_object-Lacks key object d bytes out h.0.0 h.0.1 l)

-- The keys that a rev-less model has not.
abbrev pub IsRevName : Bytes → Type 0
IsRevName name = (name ≡ codes "REV ") ⊎ ((name ≡ codes "EPCI") ⊎ (name ≡ codes "RBr "))

module _ {W : Type 0} (call : Callback W) where
  -- On a device whose model has no REV, EPCI and RBr, a key of one of these names that was absent is
  -- absent after the property list is loaded, if the list's names have four characters.
  pub load_keys_from_dictionary-rev_less :
      (entries : List (Bytes × Object)) (d : Device W) (name : Bytes)
      → All AreBytes entries
      → d.is_rev_less ≡ true
      → IsRevName name
      → get_key name d ≡ none
      → get_key name (load_keys_from_dictionary call (some entries) d) ≡ none
  unfolding load_keys_from_dictionary get_key
  load_keys_from_dictionary-rev_less entries d name h r named absent = go named
    where
      at :
          (other : Bytes)
          → name ≡ other
          → get_key other (load_entries call entries d) ≡ none
          → get_key name (load_entries call entries d) ≡ none
      at other p = subst (λ n. get_key n (load_entries call entries d) ≡ none) (sym p)

      missing : (other : Bytes) → name ≡ other → get_key other d ≡ none
      missing other p = subst (λ n. get_key n d ≡ none) p absent

      go : IsRevName name → get_key name (load_entries call entries d) ≡ none
      go (inl p) =
          at _ p
            (load_entries-Lacks call 0x52 0x45 0x56 0x20 entries d (omega arith) rev-IsLeftOut h
              (r, missing _ p)).1
      go (inr (inl p)) =
          at _ p
            (load_entries-Lacks call 0x45 0x50 0x43 0x49 entries d (omega arith) epci-IsLeftOut h
              (r, missing _ p)).1
      go (inr (inr p)) =
          at _ p
            (load_entries-Lacks call 0x52 0x42 0x72 0x20 entries d (omega arith) rbr-IsLeftOut h
              (r, missing _ p)).1
