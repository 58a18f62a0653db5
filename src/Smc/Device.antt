-- ===== src/Smc/Device.antt =====
-- fakesmc/FakeSMCDevice.h: the port registers and the device. `W` is the state of what stands
-- outside, the handlers of the keys.
use fake_smc3_with_plugins.Prelude.{ℕ, Bool, Option, List, Bytes, zeros}
use fake_smc3_with_plugins.Smc.Key.{Key}

-- struct AppleSMCStatus
pub record Status : Type 0 where
  pub cmd : ℕ
  pub status : ℕ
  pub key : Bytes
  pub read_pos : ℕ
  pub data_len : ℕ
  pub data_pos : ℕ
  pub value : Bytes
  pub charactic : Bytes
  pub status_1e : ℕ
  pub key_index : ℕ
  pub key_info : Bytes

-- What bzero leaves of a fresh AppleSMCStatus.
unfoldable pub clear_status : Status
clear_status = record {
  cmd = 0;
  status = 0;
  key = zeros 4;
  read_pos = 0;
  data_len = 0;
  data_pos = 0;
  value = zeros 255;
  charactic = zeros 4;
  status_1e = 0;
  key_index = 0;
  key_info = zeros 6;
}

-- A registered interrupt; objects and pointers are numbers, and 0 is the null pointer.
pub record Interrupt : Type 0 where
  pub target : ℕ
  pub handler : ℕ
  pub refcon : ℕ
  pub source : ℕ

-- class FakeSMCDevice. The first of `keys` is the object that `sharpKEY` points at; a pointer to a
-- key is its index in `keys`, from which nothing is removed. `values` and `nvram` are the
-- dictionaries that setProperties and saveKeyToNVRAM write, latest entry first.
pub record Device (W : Type 0) : Type 0 where
  pub status : Status
  pub keys : List Key
  pub values : List (Bytes × Bytes)
  pub nvram : Option (List (Bytes × Bytes))
  pub debug : Bool
  pub is_rev_less : Bool
  pub interrupt : Interrupt
  pub world : W
