-- ===== src/Smc/Message/Laws.antt =====
-- The messages and interrupts of fakesmc/FakeSMCDevice.cpp.
use fake_smc3_with_plugins.Prelude.{
  length, get_elem?, zero, suc, ◌∙◌, ℕ, ◌≡◌, refl, ap, true, none, some, List, ◌∷◌, ◌==◌,
  if◌then◌else◌,
}
use fake_smc3_with_plugins.Smc.Key.{Key, Callback, success}
use fake_smc3_with_plugins.Smc.Device.{Device}
use fake_smc3_with_plugins.Smc.Store.Invariant.{IsConsistent}
use fake_smc3_with_plugins.Smc.Message.{
  release, advance, replied, is_freed, Reply, put_at, used_freed, with_collection, populate_keys,
  answer_message, Message, put_entry, update_key_value, populate_values, populate_list, populate,
  set_properties, register_interrupt, cause_interrupt,
}

module _ {W : Type 0} (call : Callback W) where
  abbrev pub IsReplyConsistent : Reply W → Type 0
  IsReplyConsistent (replied r d) = IsConsistent d
  IsReplyConsistent (used_freed d) = IsConsistent d

  -- An iterator with one reference does not survive the turn for the first key.
  populate_keys-first :
      (n : ℕ) (d : Device W)
      → populate_keys call (suc n) with_collection d
        ≡ used_freed (put_at call (get_elem? d.keys 0) 0 d)
  unfolding populate_keys with_collection is_freed advance release
  populate_keys-first zero d = refl
  populate_keys-first (suc n) d = refl

  -- A message that asks for the values of all keys, and for no single one, uses its iterator after the
  -- release as soon as the SMC has a key: by then the first key's value is stored, and no other.
  pub set_properties-populate_values :
      (m : Message) (d : Device W) (s : Key) (ks : List Key)
      → m.update_key_value ≡ none
      → m.populate_values ≡ true
      → d.keys ≡ s ∷ ks
      → set_properties call (some m) d ≡ used_freed (put_entry call 0 s d)
  unfolding set_properties populate_values populate answer_message
  set_properties-populate_values m d s ks u p e =
      ap (λ name. answer_message call name m.populate_values m.populate_list d) u
      ∙ ap (λ all. populate call all m.populate_list d) p
      ∙ ap (λ (l : List Key). populate_keys call (length l) with_collection d) e
      ∙ populate_keys-first (length ks) d
      ∙ ap (λ (l : List Key). used_freed (put_at call (get_elem? l 0) 0 d)) e

module _ {W : Type 0} where
  -- A caused interrupt calls the handler that was registered last, with its own target, refcon and
  -- source, whatever source is named; without a handler nothing is called.
  pub cause_interrupt-register_interrupt :
      (source source' target handler refcon : ℕ) (d : Device W)
      → cause_interrupt source' (register_interrupt source target handler refcon d).1 ≡ (
        success,
        if handler == 0
            then none
            else some
                (record { target = target; handler = handler; refcon = refcon; source = source }),
      )
  unfolding cause_interrupt register_interrupt
  cause_interrupt-register_interrupt source source' target handler refcon d = refl
