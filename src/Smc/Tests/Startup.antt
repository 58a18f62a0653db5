-- ===== src/Smc/Tests/Startup.antt =====
-- The start of fakesmc/ at a concrete setting.
use fake_smc3_with_plugins.Prelude.{
  All, load32, inl, arith, ◌≡◌, refl, Bytes, Option, none, some, List, [], ◌∷◌, true, false, codes,
}
use fake_smc3_with_plugins.Smc.Store.Invariant.{IsConsistent}
use fake_smc3_with_plugins.Smc.Load.{
  load_keys_from_dictionary, Object, array, text, blob, CloverNode,
}
use fake_smc3_with_plugins.Smc.Load.Laws.{AreNamed}
use fake_smc3_with_plugins.Smc.Load.Laws.{four_of}
use fake_smc3_with_plugins.Smc.Load.RevLess.{AreBytes, load_keys_from_dictionary-rev_less}
use fake_smc3_with_plugins.Smc.Device.{Device}
use fake_smc3_with_plugins.Smc.Store.{find_key, get_key}
use fake_smc3_with_plugins.Smc.Setup.{Setting, Started, start_device, init_device, decide_rev_less}
use fake_smc3_with_plugins.Smc.Setup.Laws.{init_device-IsConsistent}
use fake_smc3_with_plugins.Smc.Tests.Device.{demo, silent}
use fake_smc3_with_plugins.Smc.Tests.Store.{fan_name, fan_name-FourChars}

abbrev dictionary : Option (List (Bytes × Object))
dictionary = some ((fan_name, array (text (codes "ui16") ∷ blob (5 ∷ 6 ∷ []) ∷ [])) ∷ [])

dictionary-AreNamed : AreNamed dictionary
dictionary-AreNamed = (fan_name-FourChars, tt)

abbrev node : CloverNode
node = record {
  rplt = some (codes "j43");
  rbr = some (codes "j43");
  rev = some (2 ∷ 13 ∷ 15 ∷ 0 ∷ 0 ∷ 7 ∷ []);
  rvbf = none;
  epci = some (0 ∷ 0xd0 ∷ 7 ∷ 0 ∷ []);
  bemb = some (1 ∷ []);
  wktp = none;
  clwk = none;
}

abbrev setting : Setting
setting = record {
  with_rev = true;
  no_rev = false;
  model = none;
  node = some node;
  keys = dictionary;
  smc_compatible = none;
  debug = none;
  has_nvram = true;
}

abbrev started_device : Started (Unit {0})
started_device = start_device silent false setting tt

setting_starts : init_device silent setting tt ≡ some started_device
unfolding init_device decide_rev_less
setting_starts = refl

init_device-IsConsistent_example : IsConsistent started_device.device
init_device-IsConsistent_example =
    init_device-IsConsistent silent setting tt dictionary-AreNamed setting_starts

abbrev rev_less_demo : Device (Unit {0})
rev_less_demo = record demo { is_rev_less = true }

abbrev with_rev : List (Bytes × Object)
with_rev =
    (codes "REV ", array (text (codes "{rev") ∷ blob (2 ∷ 13 ∷ 15 ∷ 0 ∷ 0 ∷ 7 ∷ []) ∷ []))
    ∷ (fan_name, array (text (codes "ui16") ∷ blob (5 ∷ 6 ∷ []) ∷ []))
    ∷ []

with_rev-AreBytes : All AreBytes with_rev
with_rev-AreBytes = (
  (four_of (codes "REV ") refl refl refl refl, omega arith),
  ((fan_name-FourChars, omega arith), tt),
)

rev_is_absent : get_key (codes "REV ") rev_less_demo ≡ none
unfolding get_key find_key load32
rev_is_absent = refl

load_keys_from_dictionary-rev_less_example :
    get_key (codes "REV ") (load_keys_from_dictionary silent (some with_rev) rev_less_demo) ≡ none
load_keys_from_dictionary-rev_less_example =
    load_keys_from_dictionary-rev_less silent with_rev rev_less_demo (codes "REV ")
      with_rev-AreBytes refl (inl refl) rev_is_absent
