-- ===== src/Smc/Store/Lookup.antt =====
-- The search of the keys by name: getKey of fakesmc/FakeSMCDevice.cpp.
use fake_smc3_with_plugins.Prelude.{
  get_or, Bytes, read_bytes, c_str, strlen, Option-cases, ◌==◌, if◌then◌else◌, length, zero, suc,
  refl, inl, inr, [], ◌++◌, arith, ◌∷◌, load32, ◌≢◌, set, some, none, get_elem?, List, ℕ, ◌≡◌,
}
use fake_smc3_with_plugins.Smc.Key.{copy_symbol, Key}
use fake_smc3_with_plugins.Smc.Store.{find_key}

-- What is found stands at its index, and bears the name.
pub find_key_sound :
    (q : ℕ) (ks : List Key) {i : ℕ} {k : Key}
    → find_key q ks ≡ some (i, k)
    → (get_elem? ks i ≡ some k) × (load32 k.name ≡ q)
unfolding find_key
find_key_sound q [] e = absurd (cc)
find_key_sound q (x ∷ ks) e = elim (Option-cases (find_key q ks)) [
  | inl h ↦ ground arith
  | inr ((j, y), h) ↦ ground (arith, find_key_sound q ks h)
]

-- A key behind the others is found exactly by its name, where none before it has that name.
pub find_key-append :
    (q : ℕ) (ks : List Key) (k : Key)
    → find_key q ks ≡ none
    → find_key q (ks ++ k ∷ []) ≡ (if q == load32 k.name then some (length ks, k) else none)
unfolding find_key
find_key-append q [] k e = ground arith
find_key-append q (x ∷ ks) k e = ground (arith, find_key-append q ks k)

-- A key that was found stays found when another goes behind it.
pub find_key-append_found :
    (q : ℕ) (ks : List Key) (k : Key) {r : ℕ × Key}
    → find_key q ks ≡ some r
    → find_key q (ks ++ k ∷ []) ≡ some r
unfolding find_key
find_key-append_found q [] k e = absurd (cc)
find_key-append_found q (x ∷ ks) k e = elim (Option-cases (find_key q ks)) [
  | inl h ↦ ground arith
  | inr (r, h) ↦ ground (arith, find_key-append_found q ks k h)
]

-- A key that is replaced under its name is found, if it was, with what replaces it.
pub find_key-set_self :
    (q : ℕ) (ks : List Key) {i : ℕ} {k : Key} (k' : Key)
    → k'.name ≡ k.name
    → find_key q ks ≡ some (i, k)
    → find_key q (set ks i k') ≡ some (i, k')
unfolding find_key
find_key-set_self q [] k' n e = absurd (cc)
find_key-set_self q (x ∷ ks) {i = zero} k' n e = elim (Option-cases (find_key q ks)) [
  | inl h ↦ ground arith
  | inr (r, h) ↦ ground arith
]
find_key-set_self q (x ∷ ks) {i = suc i} {k = k} k' n e = elim (Option-cases (find_key q ks)) [
  | inl h ↦ ground arith
  | inr (r, h) ↦ ground (arith, find_key-set_self q ks {i = i} {k = k} k' n)
]

pub find_key-set_ne :
    (q : ℕ) (ks : List Key) (i : ℕ) {k : Key} (k' : Key)
    → get_elem? ks i ≡ some k
    → k'.name ≡ k.name
    → q ≢ load32 k.name
    → find_key q (set ks i k') ≡ find_key q ks
unfolding find_key
find_key-set_ne q [] i k' g n ne = refl
find_key-set_ne q (x ∷ ks) zero k' g n ne = ground arith
find_key-set_ne q (x ∷ ks) (suc i) k' g n ne = ground (arith, find_key-set_ne q ks i k' g n ne)

-- Four characters in a row, as every name of a key that the host can spell.
pub record FourChars (name : Bytes) : Type 0 where
  pub first : get_or name 0 0 ≢ 0
  pub second : get_or name 1 0 ≢ 0
  pub third : get_or name 2 0 ≢ 0
  pub fourth : get_or name 3 0 ≢ 0

-- The name that a new key stores loads as the word that it was created for.
pub load32-copy_symbol : (name : Bytes) → FourChars name → load32 (copy_symbol name) ≡ load32 name
unfolding load32 copy_symbol read_bytes c_str
load32-copy_symbol [] h = absurd (h.first refl)
load32-copy_symbol (a ∷ []) h = absurd (h.second refl)
load32-copy_symbol (a ∷ b ∷ []) h = absurd (h.third refl)
load32-copy_symbol (a ∷ b ∷ c ∷ []) h = absurd (h.fourth refl)
load32-copy_symbol (a ∷ b ∷ c ∷ d ∷ rest) h = ground arith

pub strlen-ne-zero : (name : Bytes) → FourChars name → strlen name ≢ 0
unfolding c_str
strlen-ne-zero [] h e = h.first refl
strlen-ne-zero (a ∷ name) h e = ground arith
