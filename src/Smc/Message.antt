-- ===== src/Smc/Message.antt =====
-- fakesmc/FakeSMCDevice.cpp, setProperties: the messages of the monitoring programs, and the
-- interrupt calls. The property kFakeSMCDeviceValues is a copy of the dictionary `values`, made at
-- the end of each message that succeeds.
pub mod Laws
use fake_smc3_with_plugins.Prelude.{
  length, get_elem?, ◌+◌, ◌-◌, ℕ, zero, suc, Bool, true, false, Option, none, some, List, [], ◌∷◌,
  Bytes, read_bytes, ◌==◌, if◌then◌else◌,
}
use fake_smc3_with_plugins.Smc.Key.{Key, Callback, IoReturn, success, unsupported, get_value}
use fake_smc3_with_plugins.Smc.Device.{Device, Interrupt}
use fake_smc3_with_plugins.Smc.Store.{get_key, put_key}

-- The entries of the dictionary: the string under kFakeSMCDeviceUpdateKeyValue, whether there is a
-- string under kFakeSMCDevicePopulateValues, and the names under kFakeSMCDevicePopulateList.
pub record Message : Type 0 where
  pub update_key_value : Option Bytes
  pub populate_values : Bool
  pub populate_list : Option (List Bytes)

-- An OSCollectionIterator over the array of keys: the index that it comes to next, and how many
-- references to it there are. Without one it is freed.
pub record KeyIterator : Type 0 where
  pub next : ℕ
  pub references : ℕ

-- OSCollectionIterator::withCollection
unfoldable pub with_collection : KeyIterator
with_collection = record { next = 0; references = 1 }

unfoldable pub is_freed : KeyIterator → Bool
is_freed it = it.references == 0

-- The step of getNextObject.
unfoldable pub advance : KeyIterator → KeyIterator
advance it = record it { next = it.next + 1 }

-- release
unfoldable pub release : KeyIterator → KeyIterator
release it = record it { references = it.references - 1 }

-- What a message comes to: a result, or the use of an iterator that is freed, with the device at that
-- moment.
pub data Reply (W : Type 0) : Type 0 where
  replied : IoReturn → Device W → Reply W
  used_freed : Device W → Reply W

module _ {W : Type 0} (call : Callback W) where
  -- values->setObject(key->getName(), OSData::withBytes(key->getValue(), key->getSize())) for the
  -- key with index `i`.
  unfoldable pub put_entry : ℕ → Key → Device W → Device W
  put_entry i k d =
      let (k', w') = get_value call k d.world in
      record (put_key i k' w' d) { values = (k'.name, read_bytes k'.size k'.value) ∷ d.values }

  abbrev pub put_found : Option (ℕ × Key) → Device W → Device W
  put_found none d = d
  put_found (some (i, k)) d = put_entry i k d

  abbrev pub update_found : Option (ℕ × Key) → Device W → IoReturn × Device W
  unfolding put_entry
  update_found none d = (unsupported, d)
  update_found (some (i, k)) d = (success, put_entry i k d)

  unfoldable pub update_key_value : Bytes → Device W → IoReturn × Device W
  unfolding get_key
  update_key_value name d = update_found (get_key name d) d

  -- values->setObject(…) for the key at a place of the array, if there is one.
  abbrev pub put_at : Option Key → ℕ → Device W → Device W
  unfolding put_entry
  put_at none i d = d
  put_at (some k) i d = put_entry i k d

  -- The loop over the keys, with `n` of them before its iterator. Its body releases the iterator, and
  -- each turn, the last one included, asks it for the next key.
  unfoldable pub populate_keys : ℕ → KeyIterator → Device W → Reply W
  unfolding is_freed advance release put_at
  populate_keys zero it d = if is_freed it then used_freed d else replied success d
  populate_keys (suc n) it d =
      let rest =
        populate_keys n (release (advance it)) (put_at (get_elem? d.keys it.next) it.next d) in
      if is_freed it then used_freed d else rest

  unfoldable pub populate_values : Device W → Reply W
  unfolding populate_keys with_collection
  populate_values d = populate_keys (length d.keys) with_collection d

  unfoldable pub populate_list : List Bytes → Device W → Device W
  unfolding get_key put_entry
  populate_list [] d = d
  populate_list (name ∷ names) d = populate_list names (put_found (get_key name d) d)

  abbrev pub populate : Bool → Option (List Bytes) → Device W → Reply W
  unfolding populate_values populate_list
  populate true names d = populate_values d
  populate false none d = replied unsupported d
  populate false (some names) d = replied success (populate_list names d)

  abbrev pub answer_message : Option Bytes → Bool → Option (List Bytes) → Device W → Reply W
  unfolding update_key_value
  answer_message (some name) all names d = let (r, d') = update_key_value name d in replied r d'
  answer_message none all names d = populate all names d

  -- setProperties; `none` as a message is an object that is no dictionary.
  unfoldable pub set_properties : Option Message → Device W → Reply W
  set_properties none d = replied unsupported d
  set_properties (some m) d = answer_message m.update_key_value m.populate_values m.populate_list d

module _ {W : Type 0} where
  unfoldable pub register_interrupt : ℕ → ℕ → ℕ → ℕ → Device W → IoReturn × Device W
  register_interrupt source target handler refcon d = (
    success,
    record d {
      interrupt = record { target = target; handler = handler; refcon = refcon; source = source };
    },
  )

  unfoldable pub unregister_interrupt : ℕ → Device W → IoReturn × Device W
  unregister_interrupt source d = (success, d)

  unfoldable pub enable_interrupt : ℕ → Device W → IoReturn × Device W
  enable_interrupt source d = (success, d)

  unfoldable pub disable_interrupt : ℕ → Device W → IoReturn × Device W
  disable_interrupt source d = (success, d)

  -- The call of the handler that causeInterrupt makes, if it makes one.
  unfoldable pub cause_interrupt : ℕ → Device W → IoReturn × Option Interrupt
  cause_interrupt source d = (success, if d.interrupt.handler == 0 then none else some d.interrupt)

  unfoldable pub set_debug : Bool → Device W → Device W
  set_debug b d = record d { debug = b }
