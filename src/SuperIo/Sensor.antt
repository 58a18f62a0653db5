-- ===== src/SuperIo/Sensor.antt =====
-- plugins/SuperIOSensors/SuperIOFamily/SuperIOFamily.cpp: the sensors of a monitor.
use fake_smc3_with_plugins.Prelude.{
  ℕ, ◌%◌, Option, none, some, List, [], ◌∷◌, Bytes, load32, read_bytes, ◌==◌, if◌then◌else◌, Bool,
  true, false,
}

-- SuperIOSensorGroup, and behind its four members those of a chip's own enumeration, by their number.
pub data SensorGroup : Type 0 where
  temperature tachometer voltage frequency : SensorGroup
  extended : ℕ → SensorGroup

-- class SuperIOSensor, without its owner. `name` and `type` are the four characters that are copied;
-- `is_derived` tells the objects of the class that the chip derives from it.
pub record Sensor : Type 0 where
  pub name : Bytes
  pub type : Bytes
  pub size : ℕ
  pub group : SensorGroup
  pub index : ℕ
  pub scale : ℕ
  pub ri : ℕ
  pub rf : ℕ
  pub vf : ℕ
  pub is_derived : Bool

unfoldable pub scale_of : SensorGroup → ℕ
scale_of temperature = 1000
scale_of tachometer = 1000
scale_of voltage = 1
scale_of frequency = 10
scale_of (extended n) = 0

-- initWithOwner; the size is an unsigned char.
unfoldable pub with_owner : Bytes → Bytes → ℕ → SensorGroup → ℕ → ℕ → ℕ → ℕ → Sensor
unfolding scale_of
with_owner name type size group index ri rf vf = record {
  name = read_bytes 4 name;
  type = read_bytes 4 type;
  size = size % 256;
  group = group;
  index = index;
  scale = scale_of group;
  ri = ri;
  rf = rf;
  vf = vf;
  is_derived = false;
}

-- withOwner of a class that a chip derives from SuperIOSensor.
unfoldable pub derived_with_owner : Bytes → Bytes → ℕ → SensorGroup → ℕ → ℕ → ℕ → ℕ → Sensor
unfolding with_owner
derived_with_owner name type size group index ri rf vf =
    record (with_owner name type size group index ri rf vf) { is_derived = true }

-- The loop of getSensor: the first sensor whose name loads as the word.
unfoldable pub find_sensor : ℕ → List Sensor → Option Sensor
find_sensor key1 [] = none
find_sensor key1 (s ∷ sensors) =
    let rest = find_sensor key1 sensors in if key1 == load32 s.name then some s else rest
