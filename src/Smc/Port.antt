-- ===== src/Smc/Port.antt =====
-- The command and data ports of fakesmc/FakeSMCDevice.cpp. A byte register keeps its wrap-around.
use fake_smc3_with_plugins.Prelude.{
  ltb, ◌==◌, if◌then◌else◌, get_elem?, get_or, set, Bytes, read_bytes, strlen, overwrite, zeros, ℕ,
  ◌+◌, ◌-◌, ◌*◌, ◌%◌, ◌^◌, Option, none, some, [], ◌∷◌,
}
pub mod Transfer
pub mod Protocol
use fake_smc3_with_plugins.Smc.Key.{Key, Callback, get_value}
use fake_smc3_with_plugins.Smc.Device.{Status, Device}
use fake_smc3_with_plugins.Smc.Store.{
  get_key, get_key_at, put_key, add_key_with_value, save_key_to_nvram,
}

abbrev pub read_cmd : ℕ
read_cmd = 0x10

abbrev pub write_cmd : ℕ
write_cmd = 0x11

abbrev pub get_key_by_index_cmd : ℕ
get_key_by_index_cmd = 0x12

abbrev pub get_key_type_cmd : ℕ
get_key_type_cmd = 0x13

-- The switch of applesmc_io_cmd_writeb.
unfoldable pub command_status : ℕ → ℕ → ℕ
command_status val old =
    if val == read_cmd
    then 0x0c
    else if val == write_cmd
    then 0x0c
    else if val == get_key_by_index_cmd
    then 0x0c
    else if val == get_key_type_cmd
    then 0x0c
    else old

-- applesmc_io_cmd_writeb
unfoldable pub cmd_writeb : ℕ → Status → Status
unfolding command_status
cmd_writeb val s = record s {
  status = command_status val s.status;
  cmd = val % 256;
  read_pos = 0;
  data_pos = 0;
  key_index = 0;
}

-- applesmc_io_cmd_readb
unfoldable pub cmd_readb : Status → ℕ
cmd_readb s = s.status

-- read_pos++
abbrev pub bump : Status → Status
bump s = record s { read_pos = (s.read_pos + 1) % 256 }

-- The reads give the byte and the registers after it; `none` is an access outside of an array.
unfoldable pub read_value : Status → Option (ℕ × Status)
read_value s = elim (get_elem? s.value s.data_pos) [
  | none ↦ none
  | some b ↦
      let next = (s.data_pos + 1) % 256 in
      if next == s.data_len
      then some (b, record s { data_pos = next; status = 0x00; value = zeros 255 })
      else some (b, record s { data_pos = next; status = 0x05 })
]

unfoldable pub read_key_info : Status → Option (ℕ × Status)
read_key_info s = elim (get_elem? s.key_info s.data_pos) [
  | none ↦ none
  | some b ↦
      let next = (s.data_pos + 1) % 256 in
      if next == s.data_len
      then some (b, record s { data_pos = next; status = 0x00; key_info = zeros 6 })
      else some (b, record s { data_pos = next; status = 0x05 })
]

-- if (s->data_pos == 4) s->status = 0x00;
abbrev pub end_of_name : Status → Status
end_of_name s = record s { status = if s.data_pos == 4 then 0x00 else s.status }

unfoldable pub read_name : Status → Option (ℕ × Status)
read_name s =
    if ltb s.data_pos 4
    then elim (get_elem? s.key s.data_pos) [
      | none ↦ none
      | some b ↦ some (b, end_of_name (record s { data_pos = (s.data_pos + 1) % 256 }))
    ]
    else some (0, end_of_name s)

-- applesmc_io_data_readb
unfoldable pub data_readb : Status → Option (ℕ × Status)
unfolding read_value read_key_info read_name
data_readb s =
    if s.cmd == read_cmd
    then (if ltb s.data_pos s.data_len then read_value s else some (0, s))
    else if s.cmd == write_cmd
    then some (0, record s { status = 0x00 })
    else if s.cmd == get_key_by_index_cmd
    then (if s.status == 0 then some (0, s) else read_name s)
    else if s.cmd == get_key_type_cmd
    then (if ltb s.data_pos s.data_len then read_key_info s else some (0, s))
    else some (0, s)

-- key_index += val << (24 - read_pos * 8)
abbrev pub add_index_byte : ℕ → Status → Status
add_index_byte val s = record s {
  key_index = (s.key_index + val * 2 ^ (24 - s.read_pos * 8)) % 2 ^ 32;
  status = 0x04;
  read_pos = (s.read_pos + 1) % 256;
}

abbrev pub put_name_byte : ℕ → Status → Status
put_name_byte val s =
    if ltb s.read_pos 4
    then record s { key = set s.key s.read_pos (val % 256); status = 0x04 }
    else s

-- The entries of key_info behind the size: a character of the type, or 0 behind its end.
unfoldable pub type_byte : Bytes → ℕ → ℕ
type_byte typ i = if ltb i (strlen typ) then get_or typ i 0 else 0

unfoldable pub info_of : Key → Bytes
unfolding type_byte
info_of k =
    k.size
    ∷ type_byte k.type 0
    ∷ type_byte k.type 1
    ∷ type_byte k.type 2
    ∷ type_byte k.type 3
    ∷ 0
    ∷ []

module _ {W : Type 0} where
  abbrev pub with_status : Status → Device W → Device W
  with_status s d = record d { status = s }

  abbrev pub found_name : Option Key → Device W → Option Bytes × Device W
  found_name (some k) d = (some k.name, d)
  found_name none d = (none, with_status (record d.status { status_1e = 0xb8; status = 0x00 }) d)

  -- applesmc_get_key_by_index
  unfoldable pub get_key_by_index : ℕ → Device W → Option Bytes × Device W
  unfolding get_key_at
  get_key_by_index index d = found_name (get_key_at index d) d

  abbrev pub fill_found_info : Option (ℕ × Key) → Device W → Device W
  fill_found_info (some (i, k)) d = with_status (record d.status { key_info = info_of k }) d
  fill_found_info none d = with_status (record d.status { status_1e = 0x84 }) d

  -- applesmc_fill_info
  unfoldable pub fill_info : Device W → Device W
  unfolding get_key
  fill_info d = fill_found_info (get_key d.status.key d) d

  -- if (key) bcopy(key, s->key, 4);
  abbrev pub copy_name : Option Bytes × Device W → Device W
  copy_name (none, d) = d
  copy_name (some name, d) = with_status (record d.status { key = read_bytes 4 name }) d

  abbrev pub complete_index : Device W → Device W
  complete_index d =
      if d.status.read_pos == 4
      then copy_name
          (get_key_by_index d.status.key_index (with_status (record d.status { status = 0x05 }) d))
      else d

  -- The case APPLESMC_GET_KEY_BY_INDEX_CMD of applesmc_io_data_writeb.
  unfoldable pub index_writeb : ℕ → Device W → Device W
  index_writeb val d =
      complete_index
        (if ltb d.status.read_pos 4 then with_status (add_index_byte val d.status) d else d)

  abbrev pub complete_type : Device W → Device W
  complete_type d =
      if d.status.read_pos == 4
      then fill_info (with_status (record d.status { data_len = 6; status = 0x05; data_pos = 0 }) d)
      else d

  -- The case APPLESMC_GET_KEY_TYPE_CMD of applesmc_io_data_writeb.
  unfoldable pub type_writeb : ℕ → Device W → Device W
  type_writeb val d = complete_type (with_status (bump (put_name_byte val d.status)) d)

module _ {W : Type 0} (call : Callback W) where
  abbrev pub fill_found : Option (ℕ × Key) → Device W → Device W
  fill_found none d = with_status (record d.status { status_1e = 0x84 }) d
  fill_found (some (i, k)) d =
      let (k', w') = get_value call k d.world in
      with_status
        (record d.status { value = overwrite (read_bytes k'.size k'.value) d.status.value })
        (put_key i k' w' d)

  -- applesmc_fill_data: snprintf makes the name of the four bytes as they are.
  unfoldable pub fill_data : Device W → Device W
  unfolding get_key
  fill_data d = fill_found (get_key d.status.key d) d

  -- The case APPLESMC_READ_CMD of applesmc_io_data_writeb.
  unfoldable pub read_writeb : ℕ → Device W → Device W
  read_writeb val d =
      let s = d.status in
      let done =
        if ltb s.read_pos 4
        then with_status (record s { key = set s.key s.read_pos (val % 256); status = 0x04 }) d
        else if s.read_pos == 4
        then fill_data
            (with_status (record s { data_len = val % 256; status = 0x05; data_pos = 0 }) d)
        else d in
      with_status (bump done.status) done

  abbrev pub save_added : Option ℕ × Device W → Device W
  save_added (none, d) = d
  save_added (some i, d) = save_key_to_nvram call i d

  -- addKeyWithValue(name, 0, data_len, value), bzero(value, 255), and saveKeyToNVRAM of the key.
  unfoldable pub commit_write : Device W → Device W
  commit_write d =
      let s = d.status in
      let (key, d') = add_key_with_value call s.key none s.data_len (some s.value) d in
      save_added (key, with_status (record d'.status { value = zeros 255 }) d')

  unfoldable pub store_byte : ℕ → Device W → Device W
  store_byte val d =
      let s = d.status in
      let next = (s.data_pos + 1) % 256 in
      let s' = record s {
        value = set s.value s.data_pos (val % 256);
        data_pos = next;
        status = 0x05;
      } in
      if next == s.data_len
      then commit_write (with_status (record s' { status = 0x00 }) d)
      else with_status s' d

  -- The case APPLESMC_WRITE_CMD of applesmc_io_data_writeb.
  unfoldable pub write_writeb : ℕ → Device W → Device W
  write_writeb val d =
      let s = d.status in
      let done =
        if ltb s.read_pos 4
        then with_status (record s { key = set s.key s.read_pos (val % 256); status = 0x04 }) d
        else if s.read_pos == 4
        then with_status (record s { status = 0x05; data_pos = 0; data_len = val % 256 }) d
        else if ltb s.data_pos s.data_len
        then store_byte val d
        else d in
      with_status (bump done.status) done

  -- applesmc_io_data_writeb
  unfoldable pub data_writeb : ℕ → Device W → Device W
  unfolding read_writeb write_writeb index_writeb type_writeb
  data_writeb val d =
      if d.status.cmd == read_cmd
      then read_writeb val d
      else if d.status.cmd == write_cmd
      then write_writeb val d
      else if d.status.cmd == get_key_by_index_cmd
      then index_writeb val d
      else if d.status.cmd == get_key_type_cmd
      then type_writeb val d
      else d
