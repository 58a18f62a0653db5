-- ===== src/Smc/Key/Laws.antt =====
-- The well-formedness of a key, kept by every operation of fakesmc/FakeSMCKey.cpp.
use fake_smc3_with_plugins.Prelude.{
  ap, Bool-cases, ℕ, ◌+◌, ◌<◌, ◌≡◌, refl, inl, inr, true, Option, none, some, arith, Bytes, length,
  read_bytes, length-read_bytes, length-zeros, ◌==◌, if◌then◌else◌,
}
use fake_smc3_with_plugins.Smc.Key.{
  Key, Callback, Request, get_value_callback, set_value_callback, copy_symbol, type_or_default,
  value_or_zeros, init_named, init, notify, get_value, store_value, set_value_from_buffer,
  set_handler,
}

-- The buffers have the sizes that they are allocated with, and the value is never empty.
pub record IsWellFormed (k : Key) : Type 0 where
  pub name_length : length k.name ≡ 5
  pub type_length : length k.type ≡ 5
  pub size_pos : 0 < k.size
  pub size_byte : k.size < 256
  pub value_length : length k.value ≡ k.size

pub length-copy_symbol : (from : Bytes) → length (copy_symbol from) ≡ 5
unfolding copy_symbol
length-copy_symbol from = length-read_bytes 5 _

length-value_or_zeros : (v : Option Bytes) (size : ℕ) → length (value_or_zeros v size) ≡ size
unfolding value_or_zeros
length-value_or_zeros none size = length-zeros size
length-value_or_zeros (some v) size = length-read_bytes size v

-- A key that init makes, from a size of an unsigned char, is well formed.
pub init-IsWellFormed :
    (name type : Option Bytes) (size : ℕ) (value : Option Bytes) (handler : Option ℕ) {k : Key}
    → size < 256
    → init name type size value handler ≡ some k
    → IsWellFormed k
unfolding init init_named
init-IsWellFormed none type size value handler h e = absurd (cc)
init-IsWellFormed (some n) type size value handler h e = ground (
  arith,
  length-copy_symbol n,
  length-copy_symbol (type_or_default type size),
  length-value_or_zeros value (if size == 0 then size + 1 else size),
)

-- The sizes of the buffers survive the handler's call.
pub notify-IsWellFormed :
    {W : Type 0} (call : Callback W) (r : Request) (h : Option ℕ) (k : Key) (w : W)
    → IsWellFormed k
    → IsWellFormed (notify call r h k w).0
unfolding notify
notify-IsWellFormed call r none k w v = v
notify-IsWellFormed call r (some h) k w v = record {
  name_length = v.name_length;
  type_length = v.type_length;
  size_pos = v.size_pos;
  size_byte = v.size_byte;
  value_length = length-read_bytes k.size _;
}

pub get_value-IsWellFormed :
    {W : Type 0} (call : Callback W) (k : Key) (w : W)
    → IsWellFormed k
    → IsWellFormed (get_value call k w).0
unfolding get_value
get_value-IsWellFormed call k w v = notify-IsWellFormed call get_value_callback k.handler k w v

stored-IsWellFormed :
    (buffer : Bytes) (size : ℕ) (k : Key)
    → 0 < size
    → size < 256
    → IsWellFormed k
    → IsWellFormed (record k { size = size; value = read_bytes size buffer })
stored-IsWellFormed buffer size k pos small v = record {
  name_length = v.name_length;
  type_length = v.type_length;
  size_pos = pos;
  size_byte = small;
  value_length = length-read_bytes size buffer;
}

-- setValueFromBuffer keeps a key well formed, whatever buffer it is given and whatever the handler
-- answers, if the size is that of an unsigned char.
pub set_value_from_buffer-IsWellFormed :
    {W : Type 0} (call : Callback W) (buffer : Option Bytes) (size : ℕ) (k : Key) (w : W)
    → size < 256
    → IsWellFormed k
    → IsWellFormed (set_value_from_buffer call buffer size k w).1
unfolding set_value_from_buffer store_value
set_value_from_buffer-IsWellFormed call none size k w small v = v
set_value_from_buffer-IsWellFormed call (some b) size k w small v = elim (Bool-cases (size == 0)) [
  | inl e ↦ rw e v
  | inr e ↦ rw e (
      notify-IsWellFormed call set_value_callback k.handler _ w
        (stored-IsWellFormed b size k (ground arith) small v))
]

-- A key without a handler holds, after a write, exactly the bytes and the size that were written.
pub set_value_from_buffer_plain :
    {W : Type 0} (call : Callback W) (buffer : Bytes) (size : ℕ) (k : Key) (w : W)
    → 0 < size
    → k.handler ≡ none
    → set_value_from_buffer call (some buffer) size k w
      ≡ (true, record k { size = size; value = read_bytes size buffer }, w)
unfolding set_value_from_buffer store_value notify
set_value_from_buffer_plain call buffer size k w pos e = ground arith

pub get_value_plain :
    {W : Type 0} (call : Callback W) (k : Key) (w : W)
    → k.handler ≡ none
    → get_value call k w ≡ (k, w)
unfolding get_value notify
get_value_plain call k w e = ap (λ h. notify call get_value_callback h k w) e

-- A read or a write of the value leaves the name and the handler alone.
pub name-get_value :
    {W : Type 0} (call : Callback W) (k : Key) (w : W) → (get_value call k w).0.name ≡ k.name
unfolding get_value notify
name-get_value call k w = ground arith

pub name-set_value_from_buffer :
    {W : Type 0} (call : Callback W) (buffer : Option Bytes) (size : ℕ) (k : Key) (w : W)
    → (set_value_from_buffer call buffer size k w).1.name ≡ k.name
unfolding set_value_from_buffer store_value notify
name-set_value_from_buffer call none size k w = refl
name-set_value_from_buffer call (some b) size k w = ground arith

pub name-set_handler : (h : Option ℕ) (k : Key) → (set_handler h k).1.name ≡ k.name
unfolding set_handler
name-set_handler none k = refl
name-set_handler (some h) k = refl

pub set_handler-IsWellFormed :
    (h : Option ℕ) (k : Key) → IsWellFormed k → IsWellFormed (set_handler h k).1
unfolding set_handler
set_handler-IsWellFormed none k v = v
set_handler-IsWellFormed (some h) k v = record {
  name_length = v.name_length;
  type_length = v.type_length;
  size_pos = v.size_pos;
  size_byte = v.size_byte;
  value_length = v.value_length;
}

pub size-get_value :
    {W : Type 0} (call : Callback W) (k : Key) (w : W) → (get_value call k w).0.size ≡ k.size
unfolding get_value notify
size-get_value call k w = ground arith

pub handler-get_value :
    {W : Type 0} (call : Callback W) (k : Key) (w : W) → (get_value call k w).0.handler ≡ k.handler
unfolding get_value notify
handler-get_value call k w = ground arith
