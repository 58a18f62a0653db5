-- ===== src/Smc/Model.antt =====
-- utils/utils.h, hw_strstr and isModelREVLess: whether a model of the Macintosh has no REV key. A
-- string is its characters without the 0; `none` is a write past one of the small buffers or a read
-- of a character that was never written.
pub mod Laws
use fake_smc3_with_plugins.Prelude.{
  ℕ, zero, suc, Bool, true, false, Option, none, some, List, [], ◌∷◌, Bytes, codes, length, take,
  drop, strncmp_eq, ltb, leb, ◌+◌, ◌*◌, ◌-◌, ◌==◌, not, ◌&&◌, ◌||◌, if◌then◌else◌,
}

-- Whether `prefix` is a start of the string.
unfoldable pub starts_with : Bytes → Bytes → Bool
starts_with [] str = true
starts_with (c ∷ prefix) [] = false
starts_with (c ∷ prefix) (s ∷ str) = c == s && starts_with prefix str

-- hw_strstr: whether it finds the string.
unfoldable pub hw_strstr : Bytes → Bytes → Bool
unfolding starts_with
hw_strstr [] prefix = starts_with prefix []
hw_strstr (c ∷ str) prefix = starts_with prefix (c ∷ str) || hw_strstr str prefix

-- The characters before the first comma, and those behind it.
unfoldable pub before_comma : Bytes → Bytes
before_comma [] = []
before_comma (c ∷ str) = let rest = before_comma str in if c == 0x2c then [] else c ∷ rest

unfoldable pub after_comma : Bytes → Bytes
after_comma [] = []
after_comma (c ∷ str) = let rest = after_comma str in if c == 0x2c then str else rest

-- strtol(…, 10) of a string without blanks and signs: the digits at its start.
unfoldable pub strtol_from : ℕ → Bytes → ℕ
strtol_from acc [] = acc
strtol_from acc (c ∷ str) =
    let rest = strtol_from (acc * 10 + (c - 0x30)) str in
    if leb 0x30 c && leb c 0x39 then rest else acc

unfoldable pub family : List Bytes
family =
    codes "MacPro"
    ∷ codes "MacBookAir"
    ∷ codes "MacBookPro"
    ∷ codes "MacBook"
    ∷ codes "Macmini"
    ∷ codes "iMacPro"
    ∷ codes "iMac"
    ∷ []

-- The test on the family and the two numbers.
unfoldable pub is_rev_less_version : Bytes → ℕ → ℕ → Bool
is_rev_less_version name maj rev =
    if strncmp_eq 7 name (codes "iMacPro")
    then (maj == 1 && leb 1 rev) || leb 1 maj
    else if strncmp_eq 7 name (codes "Macmini")
    then (maj == 8 && leb 1 rev) || leb 8 maj
    else if strncmp_eq 10 name (codes "MacBookAir")
    then (maj == 8 && leb 1 rev) || leb 8 maj
    else if strncmp_eq 10 name (codes "MacBookPro")
    then (maj == 15 && leb 1 rev) || leb 15 maj
    else false

abbrev pub checked_version : Bytes → Bytes → Bytes → Bool
unfolding strtol_from is_rev_less_version
checked_version name major minor =
    let maj = strtol_from 0 major in
    let rev = strtol_from 0 minor in
    if maj == 0 || rev == 0 then false else is_rev_less_version name maj rev

-- The branch for the family that is found: `suffix` has 6 bytes, the two numbers 3 each.
unfoldable pub parse_suffix : Bytes → Bytes → Option Bool
unfolding before_comma after_comma
parse_suffix name [] = none
parse_suffix name (c ∷ suffix) =
    if ltb 5 (length (c ∷ suffix))
    then none
    else if c == 0x2c
    then some false
    else if ltb 2 (length (before_comma (c ∷ suffix))) || ltb 2 (length (after_comma (c ∷ suffix)))
    then none
    else some (checked_version name (before_comma (c ∷ suffix)) (after_comma (c ∷ suffix)))

-- The loop over the families.
unfoldable pub find_family : List Bytes → Bytes → Option Bool
unfolding hw_strstr parse_suffix
find_family [] model = some false
find_family (name ∷ names) model =
    let rest = find_family names model in
    if hw_strstr model name then parse_suffix name (drop (length name) model) else rest

unfoldable pub is_model_rev_less : Option Bytes → Option Bool
unfolding find_family family
is_model_rev_less none = some false
is_model_rev_less (some model) = find_family family model
