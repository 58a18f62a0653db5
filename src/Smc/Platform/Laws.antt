-- ===== src/Smc/Platform/Laws.antt =====
-- What the calls of callPlatformFunction of fakesmc/FakeSMCDevice.cpp leave of the keys.
use fake_smc3_with_plugins.Prelude.{
  ◌==◌, if◌then◌else◌, ◌%◌, sym, subst, true, false, arith, Bool-cases, Bytes, ℕ, ◌<◌, ◌≡◌, refl,
  ap, inl, inr, Bool, Option, none, some, List, [], ◌∷◌, map,
}
use fake_smc3_with_plugins.Smc.Key.{
  set_value_from_buffer, bad_argument, error, Key, Callback, success, set_handler,
}
use fake_smc3_with_plugins.Smc.Device.{Device}
use fake_smc3_with_plugins.Smc.Store.{get_key, put_key}
use fake_smc3_with_plugins.Smc.Store.Lookup.{FourChars, find_key_sound}
use fake_smc3_with_plugins.Smc.Store.Invariant.{
  IsConsistent, add_key_with_value-IsConsistent, add_key_with_handler-IsConsistent,
  set_value-IsConsistent, get_value-IsConsistent,
}
use fake_smc3_with_plugins.Smc.Platform.{
  PlatformCall, Answer, nothing, set_key_value, add_key_handler, get_key_handler,
  remove_key_handler, add_key_value, get_key_value, other_function, added, answer, handler_of,
  has_handler, drop_handler, remove_handler, set_found, value_of, call_platform_function,
}

drop_handler-kept : (h : ℕ) (k : Key) → drop_handler h k ≡ k
unfolding drop_handler set_handler
drop_handler-kept h k = elim (Bool-cases (has_handler h k)) [ inl t ↦ rw t | inr f ↦ rw f ]

map-drop_handler : (h : ℕ) (ks : List Key) → map (drop_handler h) ks ≡ ks
map-drop_handler h [] = refl
map-drop_handler h (k ∷ ks) = rw (drop_handler-kept h k, map-drop_handler h ks)

-- kFakeSMCRemoveKeyHandler reports success and removes no handler: the device is as before.
pub remove_key_handler-kept :
    {W : Type 0} (call : Callback W) (h : ℕ) (d : Device W)
    → call_platform_function call (remove_key_handler (some h)) d ≡ (success, nothing, d)
unfolding call_platform_function remove_handler
remove_key_handler-kept call h d =
    ap (λ (ks : List Key). (success, nothing, record d { keys = ks })) (map-drop_handler h d.keys)

-- The names under which a call adds keys have four characters.
abbrev pub IsNamed : PlatformCall → Type 0
IsNamed (add_key_handler (some name) type size handler) = FourChars name
IsNamed (add_key_value (some name) type size value) = FourChars name
IsNamed c = Unit

module _ {W : Type 0} (call : Callback W) where
  guarded :
      (b : Bool) (d : Device W) (a : Answer W)
      → IsConsistent d
      → IsConsistent a.2
      → IsConsistent (if b then answer bad_argument d else a).2
  guarded true d a c h = c
  guarded false d a c h = h

  added-IsConsistent : (r : Option ℕ × Device W) → IsConsistent r.1 → IsConsistent (added r).2
  added-IsConsistent (none, d) c = c
  added-IsConsistent (some i, d) c = c

  handler_of-IsConsistent :
      (r : Option (ℕ × Key)) (out : Bool) (d : Device W)
      → IsConsistent d
      → IsConsistent (handler_of r out d).2
  handler_of-IsConsistent none out d c = c
  handler_of-IsConsistent (some (i, k)) out d c = subst IsConsistent (sym (device k.handler out)) c
    where
      device :
          (h : Option ℕ) (out : Bool)
          → (handler_of (some (i, record k { handler = h })) out d).2 ≡ d
      device none out = refl
      device (some h) true = refl
      device (some h) false = refl

  set_found-IsConsistent :
      (r : Option (ℕ × Key)) (size : ℕ) (value : Bytes) (name : Bytes) (d : Device W)
      → get_key name d ≡ r
      → size < 256
      → IsConsistent d
      → IsConsistent (set_found call r size value d).2
  unfolding get_key
  set_found-IsConsistent none size value name d e small c = c
  set_found-IsConsistent (some (i, k)) size value name d e small c =
      subst IsConsistent (sym (device (set_value_from_buffer call (some value) size k d.world)))
        (set_value-IsConsistent call d i k (some value) size (find_key_sound _ d.keys e).0 small c)
    where
      device :
          (r : Bool × Key × W)
          → (if r.0
              then answer success (put_key i r.1 r.2 d)
              else answer error (put_key i r.1 r.2 d)).2
            ≡ put_key i r.1 r.2 d
      device (true, k, w) = refl
      device (false, k, w) = refl

  value_of-IsConsistent :
      (r : Option (ℕ × Key)) (name : Bytes) (d : Device W)
      → get_key name d ≡ r
      → IsConsistent d
      → IsConsistent (value_of call r d).2
  unfolding get_key
  value_of-IsConsistent none name d e c = c
  value_of-IsConsistent (some (i, k)) name d e c =
      get_value-IsConsistent call d i k (find_key_sound _ d.keys e).0 c

  -- Every call of a plugin keeps the keys well formed, #KEY first and the names unique, if the names
  -- that it adds keys under have four characters.
  pub call_platform_function-IsConsistent :
      (c : PlatformCall) (d : Device W)
      → IsNamed c
      → IsConsistent d
      → IsConsistent (call_platform_function call c d).2
  unfolding call_platform_function
  call_platform_function-IsConsistent (set_key_value none size value) d n c = c
  call_platform_function-IsConsistent (set_key_value (some name) size none) d n c = c
  call_platform_function-IsConsistent (set_key_value (some name) size (some value)) d n c =
      guarded (size % 256 == 0) d _ c
        (set_found-IsConsistent (get_key name d) (size % 256) value name d refl (omega arith) c)
  call_platform_function-IsConsistent (add_key_handler none type size handler) d n c = c
  call_platform_function-IsConsistent (add_key_handler (some name) none size handler) d n c = c
  call_platform_function-IsConsistent (add_key_handler (some name) (some type) size handler) d n c =
      guarded (size % 256 == 0) d _ c (
        added-IsConsistent _ (
          add_key_with_handler-IsConsistent call name (some type) (size % 256) handler d n
            (omega arith) c))
  call_platform_function-IsConsistent (get_key_handler none out) d n c = c
  call_platform_function-IsConsistent (get_key_handler (some name) out) d n c =
      handler_of-IsConsistent (get_key name d) out d c
  call_platform_function-IsConsistent (remove_key_handler none) d n c = c
  call_platform_function-IsConsistent (remove_key_handler (some h)) d n c =
      subst (λ (a : Answer W). IsConsistent a.2) (sym (remove_key_handler-kept call h d)) c
  call_platform_function-IsConsistent (add_key_value none type size value) d n c = c
  call_platform_function-IsConsistent (add_key_value (some name) none size value) d n c = c
  call_platform_function-IsConsistent (add_key_value (some name) (some type) size value) d n c =
      guarded (size % 256 == 0) d _ c (
        added-IsConsistent _ (
          add_key_with_value-IsConsistent call name (some type) (size % 256) value d n (omega arith)
            c))
  call_platform_function-IsConsistent (get_key_value none) d n c = c
  call_platform_function-IsConsistent (get_key_value (some name)) d n c =
      value_of-IsConsistent (get_key name d) name d refl c
  call_platform_function-IsConsistent other_function d n c = c
