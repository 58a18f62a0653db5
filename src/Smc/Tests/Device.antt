-- ===== src/Smc/Tests/Device.antt =====
-- A small device of fakesmc/, with #KEY and one key, for the runs at concrete inputs.
use fake_smc3_with_plugins.Prelude.{load32, length-zeros, refl, false, none, some, [], ◌∷◌, arith}
use fake_smc3_with_plugins.Smc.Key.{Key, Callback, success}
use fake_smc3_with_plugins.Smc.Device.{Device, clear_status}
use fake_smc3_with_plugins.Smc.Store.{find_key}
use fake_smc3_with_plugins.Smc.Store.Invariant.{IsConsistent}
use fake_smc3_with_plugins.Smc.Port.Protocol.{IsSized}

-- A handler that leaves the value as it is.
abbrev pub silent : Callback (Unit {0})
silent request h name value size w = (success, value, w)

abbrev pub sharp_key : Key
sharp_key = record {
  name = 0x23 ∷ 0x4b ∷ 0x45 ∷ 0x59 ∷ 0 ∷ [];
  type = 0x75 ∷ 0x69 ∷ 0x33 ∷ 0x32 ∷ 0 ∷ [];
  size = 4;
  value = 0 ∷ 0 ∷ 0 ∷ 2 ∷ [];
  handler = none;
}

-- "TC0D", of type "sp78".
abbrev pub heat_key : Key
heat_key = record {
  name = 0x54 ∷ 0x43 ∷ 0x30 ∷ 0x44 ∷ 0 ∷ [];
  type = 0x73 ∷ 0x70 ∷ 0x37 ∷ 0x38 ∷ 0 ∷ [];
  size = 2;
  value = 0x2d ∷ 0 ∷ [];
  handler = none;
}

abbrev pub demo : Device (Unit {0})
demo = record {
  status = clear_status;
  keys = sharp_key ∷ heat_key ∷ [];
  values = [];
  nvram = some [];
  debug = false;
  is_rev_less = false;
  interrupt = record { target = 0; handler = 0; refcon = 0; source = 0 };
  world = tt;
}

pub demo-IsSized : IsSized demo.status
unfolding clear_status
demo-IsSized = record {
  key_length = length-zeros 4;
  value_length = length-zeros 255;
  info_length = length-zeros 6;
}

pub demo-IsConsistent : IsConsistent demo
unfolding find_key load32
demo-IsConsistent = record {
  well_formed = omega arith;
  sharp_first = refl;
  distinct = (refl, (refl, tt));
}
