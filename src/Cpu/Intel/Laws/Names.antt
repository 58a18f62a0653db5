-- ===== src/Cpu/Intel/Laws/Names.antt =====
-- The names of the keys that IntelCPUMonitor.cpp makes, and the core that it reads from one of them.
use fake_smc3_with_plugins.Smc.Store.Lookup.{FourChars}
use fake_smc3_with_plugins.Cpu.Intel.Start.{core_index, multiplier_key, core_char}
use fake_smc3_with_plugins.SuperIo.Monitor.{hex_digit}
use fake_smc3_with_plugins.Prelude.{
  ltb, if◌then◌else◌, take, ℕ, ◌-◌, ◌/◌, ◌%◌, ◌<◌, ◌≡◌, Bool, true, false, some, [], ◌∷◌, ◌++◌,
  arith,
}

pub digit-pos : (n : ℕ) → 0 < hex_digit n
unfolding hex_digit
digit-pos n = ground arith

pub core_char-pos : (i c : ℕ) → core_char i ≡ some c → 0 < c
unfolding core_char hex_digit
core_char-pos i c e = ground arith

-- From the eleventh core on, the index that is read from the name of a core's key is too small by 10.
pub core_index-core_char :
    (i c : ℕ) → core_char i ≡ some c → core_index c ≡ some (if ltb i 10 then i else i - 10)
unfolding core_char core_index hex_digit
core_index-core_char i c e = ground arith

pub four : (a b c d : ℕ) → 0 < a → 0 < b → 0 < c → 0 < d → FourChars (a ∷ b ∷ c ∷ d ∷ [])
four a b c d p q r s = record {
  first = omega arith;
  second = omega arith;
  third = omega arith;
  fourth = omega arith;
}

pub multiplier_key-FourChars : (i : ℕ) → FourChars (multiplier_key i)
unfolding multiplier_key
multiplier_key-FourChars i = go (ltb i 16)
  where
    go :
        (b : Bool)
        → FourChars (
            take 4 (
              0x4d
              ∷ 0x43
              ∷ ((if b then hex_digit i ∷ [] else hex_digit (i / 16) ∷ hex_digit (i % 16) ∷ [])
                  ++ 0x43 ∷ [])))
    go true = four _ _ _ _ (omega arith) (omega arith) (digit-pos i) (omega arith)
    go false = four _ _ _ _ (omega arith) (omega arith) (digit-pos (i / 16)) (digit-pos (i % 16))
