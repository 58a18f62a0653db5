-- ===== src/SuperIo/Ite/Registers.antt =====
-- plugins/SuperIOSensors/ITE87x/: the registers and the models of the chips, and the numbers that are
-- computed from them. The quotient of floating-point numbers is a whole number here: its operands are
-- exact, and it is too far below the next whole number to be rounded up to it.
use fake_smc3_with_plugins.Prelude.{
  ltb, ◌==◌, if◌then◌else◌, get_or, Bytes, codes, ℕ, ◌+◌, ◌*◌, ◌/◌, ◌%◌, Bool, false, ◌&&◌, ◌||◌,
  Option, none, some, List, [], ◌∷◌,
}
use fake_smc3_with_plugins.SuperIo.Sensor.{
  SensorGroup, temperature, tachometer, voltage, frequency, extended,
}

-- ITE_FAN_TACHOMETER_REG, ITE_FAN_TACHOMETER_EXT_REG and ITE_VOLTAGE_REG. The indexes stand inside
-- of the tables.
unfoldable pub fan_reg : List ℕ
fan_reg = 0x0d ∷ 0x0e ∷ 0x0f ∷ 0x80 ∷ 0x82 ∷ []

unfoldable pub fan_ext_reg : List ℕ
fan_ext_reg = 0x18 ∷ 0x19 ∷ 0x1a ∷ 0x81 ∷ 0x83 ∷ []

unfoldable pub voltage_reg : List ℕ
voltage_reg = 0x20 ∷ 0x21 ∷ 0x22 ∷ 0x23 ∷ 0x24 ∷ 0x25 ∷ 0x26 ∷ 0x27 ∷ 0x28 ∷ []

-- The tables of the SmartGuardian: PWM_CONTROL, TEMPERATURE_STOP, TEMPERATURE_START,
-- TEMPERATURE_FULL_ON, START_PWM, TEMPERATURE_DELTA and CONTROL.
unfoldable pub pwm_control : List ℕ
pwm_control = 0x15 ∷ 0x16 ∷ 0x17 ∷ 0x88 ∷ 0x89 ∷ []

unfoldable pub temperature_stop : List ℕ
temperature_stop = 0x60 ∷ 0x68 ∷ 0x70 ∷ 0x90 ∷ 0x98 ∷ []

unfoldable pub temperature_start : List ℕ
temperature_start = 0x61 ∷ 0x69 ∷ 0x71 ∷ 0x91 ∷ 0x99 ∷ []

unfoldable pub temperature_full_on : List ℕ
temperature_full_on = 0x62 ∷ 0x6a ∷ 0x72 ∷ 0x92 ∷ 0x9a ∷ []

unfoldable pub start_pwm : List ℕ
start_pwm = 0x63 ∷ 0x6b ∷ 0x73 ∷ 0x93 ∷ 0x9b ∷ []

unfoldable pub temperature_delta : List ℕ
temperature_delta = 0x65 ∷ 0x6d ∷ 0x75 ∷ 0x95 ∷ 0x9d ∷ []

unfoldable pub smart_control : List ℕ
smart_control = 0x64 ∷ 0x6c ∷ 0x74 ∷ 0x94 ∷ 0x9c ∷ []

-- The register that the readSmartGuard… and writeSmartGuard… of a member of SuperIOSensorGroupEx
-- use; the first of these members has the number of kSuperIOFrequency.
unfoldable pub smart_guard_reg : SensorGroup → ℕ → Option ℕ
unfolding pwm_control temperature_stop temperature_start temperature_full_on start_pwm
    temperature_delta smart_control
smart_guard_reg frequency index = some (get_or pwm_control index 0)
smart_guard_reg (extended n) index =
    if n == 4
    then some (get_or temperature_stop index 0)
    else if n == 5
    then some (get_or temperature_start index 0)
    else if n == 6
    then some (get_or temperature_full_on index 0)
    else if n == 7
    then some (get_or start_pwm index 0)
    else if n == 8
    then some (get_or temperature_delta index 0)
    else if n == 9
    then some (get_or smart_control index 0)
    else if n == 10
    then some 0x13
    else if n == 11
    then some 0x14
    else none
smart_guard_reg temperature index = none
smart_guard_reg tachometer index = none
smart_guard_reg voltage index = none

-- value | 0x40, of a byte
unfoldable pub with_bit_6 : ℕ → ℕ
with_bit_6 value = if value / 64 % 2 == 1 then value else value + 64

-- (value > 0x3f && value < 0xffff) ? (1350000 + value) / (value * 2) : 0
unfoldable pub ite_fan_speed : ℕ → ℕ
ite_fan_speed value =
    if ltb 0x3f value && ltb value 0xffff then (1350000 + value) / (value * 2) else 0

-- enum IT87xModel, which are the chips that probePort takes, with their names.
unfoldable pub ite_models : List (ℕ × Bytes)
ite_models =
    (0x8512, codes "IT8512F")
    ∷ (0x8613, codes "IT8613F")
    ∷ (0x8620, codes "IT8620F")
    ∷ (0x8628, codes "IT8628F")
    ∷ (0x8655, codes "IT8655F")
    ∷ (0x8665, codes "IT8665F")
    ∷ (0x8686, codes "IT8686E")
    ∷ (0x8688, codes "IT8688E")
    ∷ (0x8689, codes "IT8689E")
    ∷ (0x8705, codes "IT8705F")
    ∷ (0x8708, codes "IT8708F")
    ∷ (0x8712, codes "IT8712F")
    ∷ (0x8716, codes "IT8716F")
    ∷ (0x8718, codes "IT8718F")
    ∷ (0x8720, codes "IT8720F")
    ∷ (0x8721, codes "IT8721F")
    ∷ (0x8726, codes "IT8726F")
    ∷ (0x8728, codes "IT8728F")
    ∷ (0x8752, codes "IT8752F")
    ∷ (0x8771, codes "IT8771E")
    ∷ (0x8772, codes "IT8772E")
    ∷ (0x8792, codes "IT8792E")
    ∷ (0x8795, codes "IT8795E")
    ∷ (0x8987, codes "IT8987E")
    ∷ []

unfoldable pub model_in : ℕ → List (ℕ × Bytes) → Option Bytes
model_in id [] = none
model_in id ((model, name) ∷ models) =
    let later = model_in id models in if id == model then some name else later

-- getModelName
unfoldable pub ite_model_name : ℕ → Bytes
unfolding model_in ite_models
ite_model_name model = elim (model_in model ite_models) [
  | none ↦ codes "unknown"
  | some name ↦ name
]

-- The chips whose readings of a voltage count 12 mV.
unfoldable pub fine_models : List ℕ
fine_models =
    0x8721 ∷ 0x8726 ∷ 0x8728 ∷ 0x8752 ∷ 0x8771 ∷ 0x8772 ∷ 0x8792 ∷ 0x8987 ∷ 0x8620 ∷ 0x8628 ∷ 0x8613
    ∷ 0x8795 ∷ 0x8655 ∷ 0x8665 ∷ 0x8686 ∷ 0x8688 ∷ 0x8689 ∷ []

unfoldable pub is_one_of : ℕ → List ℕ → Bool
is_one_of id [] = false
is_one_of id (m ∷ models) = id == m || is_one_of id models
