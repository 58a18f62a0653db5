-- ===== src/Prelude/Memory.antt =====
-- Bytes in memory. A pointer is the list of the bytes from its address on; what a list does not
-- hold reads as 0, so a text needs no terminator of its own.
use Prim.Native.Nat.{ℕ, zero, suc, ◌+◌, ◌*◌, ◌≤◌, ◌<◌}
use Prim.Native.Char.{code}
use Prim.Native.String.{String}
use mathlib.Core.Path.{◌≡◌, refl, ap, subst}
use mathlib.Core.Bool.{Bool, true, false}
use mathlib.Core.List.{List, [], ◌∷◌, ◌++◌}
use native.Mathlib.Omega.{arith}
use fake_smc3_with_plugins.Prelude.Tests.{◌==◌, if◌then◌else◌}
use fake_smc3_with_plugins.Prelude.Lists.{
  length, get_or, drop, replicate, All, length-append, length-drop, length-replicate,
}

abbrev pub Bytes : Type 0
Bytes = List ℕ

abbrev pub IsByte : ℕ → Type 0
IsByte b = b < 256

-- The bytes of an ASCII literal.
abbrev pub codes : String → Bytes
codes String.[] = []
codes (String.◌∷◌ c s) = code c ∷ codes s

-- bcopy(p, …, n): the `n` bytes at `p`.
unfoldable pub read_bytes : ℕ → Bytes → Bytes
read_bytes zero p = []
read_bytes (suc n) [] = 0 ∷ read_bytes n []
read_bytes (suc n) (b ∷ p) = b ∷ read_bytes n p

-- The characters of a C string, without the terminating 0.
unfoldable pub c_str : Bytes → Bytes
c_str [] = []
c_str (b ∷ p) = let rest = c_str p in if b == 0 then [] else b ∷ rest

abbrev pub strlen : Bytes → ℕ
strlen p = length (c_str p)

-- strncmp(a, b, n) == 0
unfoldable pub strncmp_eq : ℕ → Bytes → Bytes → Bool
strncmp_eq zero a b = true
strncmp_eq (suc n) [] b = get_or b 0 0 == 0
strncmp_eq (suc n) (x ∷ a) b =
    let rest = strncmp_eq n a (drop 1 b) in
    if x == get_or b 0 0 then (if x == 0 then true else rest) else false

-- *(uint32_t *)p on a little-endian machine.
unfoldable pub load32 : Bytes → ℕ
load32 p = get_or p 0 0 + 256 * get_or p 1 0 + 65536 * get_or p 2 0 + 16777216 * get_or p 3 0

-- bcopy(src, dst, n) into the start of the array `dst`, `src` holding the `n` bytes.
unfoldable pub overwrite : Bytes → Bytes → Bytes
overwrite src dst = src ++ drop (length src) dst

-- bzero(dst, n) of an array of `n` bytes.
unfoldable pub zeros : ℕ → Bytes
zeros n = replicate n 0

pub length-read_bytes : (n : ℕ) (p : Bytes) → length (read_bytes n p) ≡ n
unfolding read_bytes
length-read_bytes zero p = refl
length-read_bytes (suc n) [] = ap suc (length-read_bytes n [])
length-read_bytes (suc n) (b ∷ p) = ap suc (length-read_bytes n p)

pub read_bytes-length : (p : Bytes) → read_bytes (length p) p ≡ p
unfolding read_bytes
read_bytes-length [] = refl
read_bytes-length (b ∷ p) = ap (λ l. b ∷ l) (read_bytes-length p)

-- A whole array is read as it is.
pub read_bytes_self : (n : ℕ) (p : Bytes) → length p ≡ n → read_bytes n p ≡ p
read_bytes_self n p e = subst (λ m. read_bytes m p ≡ p) e (read_bytes-length p)

pub read_bytes-append : (p q : Bytes) → read_bytes (length p) (p ++ q) ≡ p
unfolding read_bytes
read_bytes-append [] q = refl
read_bytes-append (b ∷ p) q = ap (λ l. b ∷ l) (read_bytes-append p q)

pub All-IsByte-read_bytes : (n : ℕ) (p : Bytes) → All IsByte p → All IsByte (read_bytes n p)
unfolding read_bytes
All-IsByte-read_bytes zero p h = tt
All-IsByte-read_bytes (suc n) [] h = (omega arith, All-IsByte-read_bytes n [] tt)
All-IsByte-read_bytes (suc n) (b ∷ p) h = (h.0, All-IsByte-read_bytes n p h.1)

pub length-overwrite :
    (src dst : Bytes) → length src ≤ length dst → length (overwrite src dst) ≡ length dst
unfolding overwrite
length-overwrite src dst h =
    omega (arith, length-append src (drop (length src) dst), length-drop (length src) dst)

pub length-zeros : (n : ℕ) → length (zeros n) ≡ n
unfolding zeros
length-zeros n = length-replicate n 0

-- Two names of four bytes are one if they load as one word.
pub load32-injective :
    (a b c d a' b' c' d' : ℕ)
    → All IsByte (a ∷ b ∷ c ∷ d ∷ [])
    → All IsByte (a' ∷ b' ∷ c' ∷ d' ∷ [])
    → load32 (a ∷ b ∷ c ∷ d ∷ []) ≡ load32 (a' ∷ b' ∷ c' ∷ d' ∷ [])
    → (a ≡ a') × (b ≡ b') × (c ≡ c') × (d ≡ d')
unfolding load32
load32-injective a b c d a' b' c' d' h h' e = (omega arith, omega arith, omega arith, omega arith)
