-- ===== src/Smc/Setup/Laws.antt =====
-- The device that init of fakesmc/FakeSMCDevice.cpp leaves.
use fake_smc3_with_plugins.Prelude.{
  c_str, read_bytes, subst, ◌≡◌, refl, Bool, [], ◌∷◌, Option, none, some, codes, arith,
}
use fake_smc3_with_plugins.Smc.Key.{Callback, with_value, init}
use fake_smc3_with_plugins.Smc.Key.Laws.{init-IsWellFormed}
use fake_smc3_with_plugins.Smc.Store.{find_key}
use fake_smc3_with_plugins.Smc.Store.Invariant.{IsConsistent-same_keys, IsConsistent}
use fake_smc3_with_plugins.Smc.Load.Laws.{
  AreNamed, load_keys_from_dictionary-IsConsistent, load_keys_from_clover-IsConsistent,
}
use fake_smc3_with_plugins.Smc.Message.{set_debug}
use fake_smc3_with_plugins.Smc.Setup.{
  Setting, Started, decide_rev_less, first_keys, fresh, start_device, started, init_device,
}

fresh-IsConsistent : {W : Type 0} (b : Bool) (w : W) → IsConsistent (fresh b w)
unfolding fresh first_keys with_value init find_key c_str read_bytes
fresh-IsConsistent b w = record {
  well_formed = (
    init-IsWellFormed (some (codes "#KEY")) (some (codes "ui32")) 4 (some (1 ∷ 0 ∷ [])) none
        (omega arith) refl,
    tt,
  );
  sharp_first = refl;
  distinct = (refl, tt);
}

module _ {W : Type 0} (call : Callback W) where
  start_device-IsConsistent :
      (b : Bool) (x : Setting) (w : W)
      → AreNamed x.keys
      → IsConsistent (start_device call b x w).device
  unfolding set_debug start_device
  start_device-IsConsistent b x w named = IsConsistent-same_keys refl (
      load_keys_from_clover-IsConsistent call x.node _ (
        load_keys_from_dictionary-IsConsistent call x.keys (fresh b w) named
          (fresh-IsConsistent b w)))

  abbrev IsStartedConsistent : Option (Started W) → Type 0
  IsStartedConsistent none = Unit
  IsStartedConsistent (some s) = IsConsistent s.device

  started-IsConsistent :
      (r : Option Bool) (x : Setting) (w : W)
      → AreNamed x.keys
      → IsStartedConsistent (started call r x w)
  started-IsConsistent none x w named = tt
  started-IsConsistent (some b) x w named = start_device-IsConsistent b x w named

  -- The device that init starts has only well-formed keys, #KEY first and unique names, if the names
  -- of the property list have four characters.
  pub init_device-IsConsistent :
      (x : Setting) (w : W) {s : Started W}
      → AreNamed x.keys
      → init_device call x w ≡ some s
      → IsConsistent s.device
  unfolding init_device
  init_device-IsConsistent x w named e =
      subst IsStartedConsistent e (started-IsConsistent (decide_rev_less x) x w named)
