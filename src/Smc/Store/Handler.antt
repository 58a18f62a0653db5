-- ===== src/Smc/Store/Handler.antt =====
-- addKeyWithHandler of fakesmc/FakeSMCDevice.cpp for a new name.
use fake_smc3_with_plugins.Prelude.{
  ◌+◌, ℕ, ◌≡◌, ◌≢◌, ◌∙◌, refl, ap, Option, none, some, List, [], ◌∷◌, ◌++◌, Bytes, load32, strlen,
  length, ne→==, ==-refl,
}
use fake_smc3_with_plugins.Smc.Key.{Key, Callback, with_handler, init, init_named}
use fake_smc3_with_plugins.Smc.Device.{Device}
use fake_smc3_with_plugins.Smc.Store.{
  find_key, get_key, append_key, handle_or_create, add_key_with_handler,
}
use fake_smc3_with_plugins.Smc.Store.Lookup.{
  find_key-append, FourChars, load32-copy_symbol, strlen-ne-zero,
}
use fake_smc3_with_plugins.Smc.Store.Counter.{counted, append_key_plain}
use fake_smc3_with_plugins.Smc.Store.Invariant.{find_key-set-none}

-- The key that is made, with no value.
unfoldable pub made_for : Bytes → Option Bytes → ℕ → Option ℕ → Key
unfolding init_named
made_for name type size handler = init_named name type size none handler

pub load32-made_for :
    (name : Bytes) (type : Option Bytes) (size : ℕ) (handler : Option ℕ)
    → FourChars name
    → load32 (made_for name type size handler).name ≡ load32 name
unfolding made_for init_named
load32-made_for name type size handler four = load32-copy_symbol name four

module _ {W : Type 0} (call : Callback W) where
  add_key_with_handler_new :
      (name : Bytes) (type : Option Bytes) (size : ℕ) (handler : Option ℕ) (d : Device W)
      → get_key name d ≡ none
      → strlen name ≢ 0
      → add_key_with_handler call name type size handler d
        ≡ (some (length d.keys), append_key call (made_for name type size handler) d)
  unfolding add_key_with_handler with_handler init made_for
  add_key_with_handler_new name type size handler d absent named =
      ap (λ r. handle_or_create call r name type size handler d) absent ∙ rw (ne→== _ _ named)

  -- The new key goes behind the others, and #KEY takes the new count.
  pub add_key_with_handler_appends :
      (name : Bytes) (type : Option Bytes) (size : ℕ) (handler : Option ℕ) (d : Device W) (s : Key)
      (ks : List Key)
      → FourChars name
      → d.keys ≡ s ∷ ks
      → s.handler ≡ none
      → get_key name d ≡ none
      → add_key_with_handler call name type size handler d ≡ (
        some (length d.keys),
        record d {
          keys = counted s (length d.keys + 1) ∷ (ks ++ made_for name type size handler ∷ []);
        },
      )
  add_key_with_handler_appends name type size handler d s ks four e plain absent =
      add_key_with_handler_new name type size handler d absent (strlen-ne-zero name four)
      ∙ ap (λ (x : Device W). (some (length d.keys), x))
          (append_key_plain call s ks (made_for name type size handler) d e plain)

-- The new key is found under its name.
pub find_key-made_for :
    (name : Bytes) (type : Option Bytes) (size : ℕ) (handler : Option ℕ) (s : Key) (ks : List Key)
    (n : ℕ)
    → FourChars name
    → find_key (load32 name) (s ∷ ks) ≡ none
    → find_key (load32 name) (counted s n ∷ (ks ++ made_for name type size handler ∷ []))
      ≡ some (length (s ∷ ks), made_for name type size handler)
find_key-made_for name type size handler s ks n four absent =
    find_key-append (load32 name) (counted s n ∷ ks) (made_for name type size handler)
      (find_key-set-none (load32 name) (s ∷ ks) 0 (counted s n) refl refl absent)
    ∙ rw (load32-made_for name type size handler four, ==-refl (load32 name))
