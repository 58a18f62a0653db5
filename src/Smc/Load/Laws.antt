-- ===== src/Smc/Load/Laws.antt =====
-- What the loading of keys in fakesmc/FakeSMCDevice.cpp keeps.
use fake_smc3_with_plugins.Prelude.{
  ltb, ltb→lt, get_or, ◌≢◌, ℕ, ◌<◌, ◌≡◌, refl, Option, none, some, List, [], ◌∷◌, Bytes, codes, All,
  Bool, true, false, if◌then◌else◌, arith,
}
use fake_smc3_with_plugins.Smc.Key.{Callback}
use fake_smc3_with_plugins.Smc.Device.{Device}
use fake_smc3_with_plugins.Smc.Store.Lookup.{FourChars}
use fake_smc3_with_plugins.Smc.Store.Invariant.{IsConsistent, add_key_with_value-IsConsistent}
use fake_smc3_with_plugins.Smc.Load.{
  Object, array, other_object, CloverNode, type_and_value, may_load, load_entry, load_object,
  load_entries, load_keys_from_dictionary, add_data, add_unless_rev_less, load_node,
  load_keys_from_clover,
}

-- A name is of four characters if its first four bytes are not 0.
pub four_of :
    (name : Bytes)
    → ltb 0 (get_or name 0 0) ≡ true
    → ltb 0 (get_or name 1 0) ≡ true
    → ltb 0 (get_or name 2 0) ≡ true
    → ltb 0 (get_or name 3 0) ≡ true
    → FourChars name
four_of name a b c e = record {
  first = positive _ a;
  second = positive _ b;
  third = positive _ c;
  fourth = positive _ e;
}
  where
    positive : (n : ℕ) → ltb 0 n ≡ true → n ≢ 0
    positive n t = let l : 0 < n = ltb→lt 0 n t in omega arith

abbrev pub HasName : Bytes × Object → Type 0
HasName (name, object) = FourChars name

-- The names of a property list that may be missing have four characters.
abbrev pub AreNamed : Option (List (Bytes × Object)) → Type 0
AreNamed none = Unit
AreNamed (some entries) = All HasName entries

module _ {W : Type 0} (call : Callback W) where
  guarded-IsConsistent :
      (b : Bool) (d d' : Device W)
      → IsConsistent d
      → IsConsistent d'
      → IsConsistent (if b then d' else d)
  guarded-IsConsistent true d d' c c' = c'
  guarded-IsConsistent false d d' c c' = c

  load_entry-IsConsistent :
      (key : Bytes) (entry : Option (Bytes × Bytes)) (d : Device W)
      → FourChars key
      → IsConsistent d
      → IsConsistent (load_entry call key entry d)
  unfolding load_entry
  load_entry-IsConsistent key none d four c = c
  load_entry-IsConsistent key (some (type, value)) d four c =
      guarded-IsConsistent (may_load d.is_rev_less key) d _ c
        (add_key_with_value-IsConsistent call key (some type) _ (some value) d four (omega arith) c)

  load_object-IsConsistent :
      (key : Bytes) (object : Object) (d : Device W)
      → FourChars key
      → IsConsistent d
      → IsConsistent (load_object call key object d)
  unfolding load_object
  load_object-IsConsistent key other_object d four c = c
  load_object-IsConsistent key (array items) d four c =
      load_entry-IsConsistent key (type_and_value items) d four c

  load_entries-IsConsistent :
      (entries : List (Bytes × Object)) (d : Device W)
      → All HasName entries
      → IsConsistent d
      → IsConsistent (load_entries call entries d)
  unfolding load_entries
  load_entries-IsConsistent [] d named c = c
  load_entries-IsConsistent ((key, object) ∷ entries) d named c =
      load_entries-IsConsistent entries _ named.1 (load_object-IsConsistent key object d named.0 c)

  -- Loading the keys of the property list keeps every key well formed, #KEY first and the names
  -- unique, if the names of the list have four characters.
  pub load_keys_from_dictionary-IsConsistent :
      (dictionary : Option (List (Bytes × Object))) (d : Device W)
      → AreNamed dictionary
      → IsConsistent d
      → IsConsistent (load_keys_from_dictionary call dictionary d)
  unfolding load_keys_from_dictionary
  load_keys_from_dictionary-IsConsistent none d named c = c
  load_keys_from_dictionary-IsConsistent (some entries) d named c =
      load_entries-IsConsistent entries d named c

  add_data-IsConsistent :
      (name type : Bytes) (size : ℕ) (bytes : Option Bytes) (d : Device W)
      → FourChars name
      → size < 256
      → IsConsistent d
      → IsConsistent (add_data call name type size bytes d)
  unfolding add_data
  add_data-IsConsistent name type size none d four small c = c
  add_data-IsConsistent name type size (some bytes) d four small c =
      add_key_with_value-IsConsistent call name (some type) size _ d four small c

  add_unless_rev_less-IsConsistent :
      (name type : Bytes) (size : ℕ) (bytes : Option Bytes) (d : Device W)
      → FourChars name
      → size < 256
      → IsConsistent d
      → IsConsistent (add_unless_rev_less call name type size bytes d).1
  unfolding add_unless_rev_less
  add_unless_rev_less-IsConsistent name type size bytes d four small c =
      chosen d.is_rev_less (none, d) (bytes, add_data call name type size bytes d) c
        (add_data-IsConsistent name type size bytes d four small c)
    where
      chosen :
          (b : Bool) (x y : Option Bytes × Device W)
          → IsConsistent x.1
          → IsConsistent y.1
          → IsConsistent (if b then x else y).1
      chosen true x y c c' = c
      chosen false x y c c' = c'

  -- Loading the keys of the boot loader keeps every key well formed, #KEY first and the names
  -- unique.
  pub load_keys_from_clover-IsConsistent :
      (node : Option CloverNode) (d : Device W)
      → IsConsistent d
      → IsConsistent (load_keys_from_clover call node d).1
  unfolding load_keys_from_clover load_node
  load_keys_from_clover-IsConsistent none d c = c
  load_keys_from_clover-IsConsistent (some node) d c =
      let c0 =
        add_data-IsConsistent (codes "RPlt") _ 8 node.rplt d (four_of _ refl refl refl refl)
          (ltb→lt 8 256 refl) c in
      let c1 =
        add_unless_rev_less-IsConsistent (codes "RBr ") _ 8 node.rbr _
          (four_of _ refl refl refl refl) (ltb→lt 8 256 refl) c0 in
      let c2 =
        add_unless_rev_less-IsConsistent (codes "REV ") _ 6 node.rev _
          (four_of _ refl refl refl refl) (ltb→lt 6 256 refl) c1 in
      let c3 =
        add_unless_rev_less-IsConsistent (codes "RVBF ") _ 6 node.rvbf _
          (four_of _ refl refl refl refl) (ltb→lt 6 256 refl) c2 in
      let c4 =
        add_unless_rev_less-IsConsistent (codes "EPCI") _ 4 node.epci _
          (four_of _ refl refl refl refl) (ltb→lt 4 256 refl) c3 in
      let c5 =
        add_data-IsConsistent (codes "BEMB") _ 1 node.bemb _ (four_of _ refl refl refl refl)
          (ltb→lt 1 256 refl) c4 in
      let c6 =
        add_data-IsConsistent (codes "WKTP") _ 1 node.wktp _ (four_of _ refl refl refl refl)
          (ltb→lt 1 256 refl) c5 in
      add_data-IsConsistent (codes "CLWK") _ 2 node.clwk _ (four_of _ refl refl refl refl)
        (ltb→lt 2 256 refl) c6
