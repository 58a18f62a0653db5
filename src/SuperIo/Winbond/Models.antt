-- ===== src/SuperIo/Winbond/Models.antt =====
-- plugins/SuperIOSensors/WinbondW836x/: the models of the chips, by the chip's id and revision, and
-- their names. The parts of the source that are commented out are not modelled.
use fake_smc3_with_plugins.Prelude.{
  ◌==◌, if◌then◌else◌, Bytes, codes, ℕ, ◌*◌, ◌/◌, ◌%◌, Bool, ◌||◌, List, [], ◌∷◌,
}

-- revision & 0xf0, of a byte
unfoldable pub high_nibble : ℕ → ℕ
high_nibble revision = revision / 16 % 16 * 16

-- The model, and how many fans it has, where the test holds; else the unknown model and 6 fans.
abbrev pub model_if : Bool → ℕ → ℕ → ℕ × ℕ
model_if b model fans = if b then (model, fans) else (0, 6)

-- The switch of probePort for the chips of Winbond; behind 0x52 it falls through to 0x59.
unfoldable pub winbond_model : ℕ → ℕ → ℕ × ℕ
unfolding high_nibble
winbond_model id revision =
    let high = high_nibble revision in
    if id == 0x52
    then (if high == 0x10 || high == 0x30 || high == 0x40
        then (0x5200, 3)
        else model_if (high == 0x50) 0x5950 3)
    else if id == 0x59
    then model_if (high == 0x50) 0x5950 3
    else if id == 0x60
    then model_if (high == 0x10) 0x6010 2
    else if id == 0x68
    then model_if (high == 0x10) 0x6810 2
    else if id == 0x70
    then model_if (high == 0x80) 0x7080 5
    else if id == 0x82
    then model_if (high == 0x80) 0x8280 3
    else if id == 0x85
    then model_if (revision == 0x41) 0x8541 3
    else if id == 0x88
    then model_if (high == 0x50 || high == 0x60) 0x8800 5
    else if id == 0xa0
    then model_if (high == 0x20) 0xa020 5
    else if id == 0xa2
    then model_if (high == 0x30) 0xa230 2
    else if id == 0xa5
    then model_if (high == 0x10) 0xa510 2
    else if id == 0xb0
    then model_if (high == 0x70) 0xb070 5
    else if id == 0xb3
    then model_if (high == 0x50) 0xb350 4
    else (0, 6)

-- The switch for the chips of Nuvoton, all but the first of which have six fans.
unfoldable pub nuvoton_model : ℕ → ℕ → ℕ × ℕ
unfolding high_nibble
nuvoton_model id revision =
    let high = high_nibble revision in
    if id == 0xc2
    then (0xb270, 5)
    else if id == 0xb4
    then model_if (high == 0x70) 0xb470 6
    else if id == 0xc3
    then model_if (high == 0x30) 0xc330 6
    else if id == 0xc5
    then model_if (high == 0x60) 0xc560 6
    else if id == 0xc7
    then (0xc730, 6)
    else if id == 0xc8
    then (0xc803, 6)
    else if id == 0xc9
    then (0xc911, 6)
    else if id == 0xd1
    then (0xd121, 6)
    else if id == 0xd3
    then (0xd352, 6)
    else if id == 0xd4
    then (if revision == 0x23
        then (0xd423, 6)
        else if revision == 0x28
        then (0xd428, 6)
        else if revision == 0x2b
        then (0xd42b, 6)
        else model_if (revision == 0x51) 0xd451 6)
    else (0, 6)

-- model and fanLimit behind the switch of probePort.
unfoldable pub identify : ℕ → ℕ → ℕ × ℕ
unfolding winbond_model nuvoton_model
identify id revision =
    let found = winbond_model id revision in
    if found.0 == 0 then nuvoton_model id revision else found

-- getModelName
unfoldable pub winbond_names : List (ℕ × Bytes)
winbond_names =
    (0xa020, codes "W83627DHG")
    ∷ (0xb070, codes "W83627DHG-P")
    ∷ (0x8800, codes "W83627EHF")
    ∷ (0x5200, codes "W83627HF")
    ∷ (0x8280, codes "W83627THF")
    ∷ (0xa510, codes "W83667HG")
    ∷ (0xb350, codes "W83667HG-B")
    ∷ (0x8541, codes "W83687THF")
    ∷ (0x5950, codes "W83627SF")
    ∷ (0x6010, codes "W83697HF")
    ∷ (0x7080, codes "W83637HF")
    ∷ (0xa230, codes "W83627UHG")
    ∷ (0x6810, codes "W83697SF")
    ∷ (0xb270, codes "NCT6681")
    ∷ (0xc730, codes "NCT6683")
    ∷ (0xb470, codes "NCT6771F")
    ∷ (0xc330, codes "NCT6776F")
    ∷ (0xc560, codes "NCT6779D")
    ∷ (0xc803, codes "NCT6791D")
    ∷ (0xc911, codes "NCT6792D")
    ∷ (0xd121, codes "NCT6793D")
    ∷ (0xd352, codes "NCT6795D")
    ∷ (0xd423, codes "NCT6796D")
    ∷ (0xd428, codes "NCT6798D")
    ∷ (0xd42b, codes "NCT679BD")
    ∷ (0xd451, codes "NCT6797D")
    ∷ []

unfoldable pub name_in : ℕ → List (ℕ × Bytes) → Bytes
name_in model [] = codes "unknown"
name_in model ((m, name) ∷ names) =
    let later = name_in model names in if model == m then name else later

unfoldable pub winbond_model_name : ℕ → Bytes
unfolding name_in winbond_names
winbond_model_name model = name_in model winbond_names
