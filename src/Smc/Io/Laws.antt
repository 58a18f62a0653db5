-- ===== src/Smc/Io/Laws.antt =====
-- Which port does what, in fakesmc/FakeSMCDevice.cpp.
use fake_smc3_with_plugins.Prelude.{
  Bool, ◌⊎◌, true, false, refl, subst, none, ==→eq, Bool-cases, sym, ap, inl, inr, ◌==◌,
  if◌then◌else◌, ℕ, ◌≡◌, Option, some,
}
use fake_smc3_with_plugins.Smc.Key.{Callback}
use fake_smc3_with_plugins.Smc.Device.{Status, Device}
use fake_smc3_with_plugins.Smc.Port.{with_status, cmd_writeb, cmd_readb, data_readb, data_writeb}
use fake_smc3_with_plugins.Smc.Io.{
  take_error, write_port, read_port, data_port, cmd_port, error_code_port, port_of, io_read8,
  io_write8,
}

-- A pending error is taken and cleared; where there is none, clearing changes nothing.
take_error-cleared : (s : Status) → take_error s ≡ (s.status_1e, record s { status_1e = 0x00 })
take_error-cleared s = go (Bool-cases (s.status_1e == 0))
  where
    same : (n : ℕ) → s.status_1e ≡ n → record s { status_1e = n } ≡ s
    same n e = ap (λ m. record s { status_1e = m }) (sym e)

    go :
        (s.status_1e == 0 ≡ true) ⊎ (s.status_1e == 0 ≡ false)
        → take_error s ≡ (s.status_1e, record s { status_1e = 0x00 })
    go (inl t) = let e = ==→eq s.status_1e 0 t in rw (t, same 0 e, e)
    go (inr f) = rw f

keep_some : (r : Option (ℕ × Status)) → elim r [ none ↦ none | some r ↦ some r ] ≡ r
keep_some none = refl
keep_some (some (v, s)) = refl

-- What a read of the port returns, from whether it is the data, the command and the error port.
abbrev result_with : Bool → Bool → Bool → Status → Option (ℕ × Status)
result_with a b c s =
    if a
    then data_readb s
    else if b
    then some (s.status, s)
    else if c
    then some (s.status_1e, record s { status_1e = 0x00 })
    else some (0, s)

abbrev read_result : ℕ → Status → Option (ℕ × Status)
read_result port s = result_with (port == data_port) (port == cmd_port) (port == error_code_port) s

abbrev read_with : Bool → Bool → Bool → Status → Option (ℕ × Status)
read_with a b c s = elim (if a then data_readb s else some (0, s)) [
  | none ↦ none
  | some r ↦ let r' = if b then (r.1.status, r.1) else r in some (if c then take_error r'.1 else r')
]

read_port-other :
    (port : ℕ) (s : Status)
    → port == data_port ≡ false
    → port == cmd_port ≡ false
    → port == error_code_port ≡ false
    → read_port port s ≡ read_result port s
unfolding cmd_readb
read_port-other port s f g h = go f g h
  where
    go :
        {a b c : Bool} → a ≡ false → b ≡ false → c ≡ false → read_with a b c s ≡ result_with a b c s
    go {a = true} x y z = cc
    go {a = false} {b = true} x y z = cc
    go {a = false} {b = false} {c = true} x y z = cc
    go {a = false} {b = false} {c = false} x y z = refl

read_port_lem : (port : ℕ) (s : Status) → read_port port s ≡ read_result port s
unfolding cmd_readb
read_port_lem port s =
    go (Bool-cases (port == data_port)) (Bool-cases (port == cmd_port))
      (Bool-cases (port == error_code_port))
  where
    at :
        (n : ℕ)
        → port == n ≡ true
        → read_port n s ≡ read_result n s
        → read_port port s ≡ read_result port s
    at n t = subst (λ m. read_port m s ≡ read_result m s) (sym (==→eq port n t))

    go :
        (port == data_port ≡ true) ⊎ (port == data_port ≡ false)
        → (port == cmd_port ≡ true) ⊎ (port == cmd_port ≡ false)
        → (port == error_code_port ≡ true) ⊎ (port == error_code_port ≡ false)
        → read_port port s ≡ read_result port s
    go (inl t) b c = at data_port t (keep_some (data_readb s))
    go (inr f) (inl t) c = at cmd_port t refl
    go (inr f) (inr g) (inl t) = at error_code_port t (ap some (take_error-cleared s))
    go (inr f) (inr g) (inr h) = read_port-other port s f g h

-- What each port of the device answers to a read: the data port the next byte of the transfer, the
-- command port the status, the error port the pending error, which it clears, and any other port 0.
pub io_read8_lem :
    (offset : ℕ) (address : Option ℕ) (s : Status)
    → let port = port_of address offset in
      io_read8 offset address s ≡ (
        if port == data_port
        then data_readb s
        else if port == cmd_port
        then some (s.status, s)
        else if port == error_code_port
        then some (s.status_1e, record s { status_1e = 0x00 })
        else some (0, s))
unfolding io_read8
io_read8_lem offset address s = read_port_lem (port_of address offset) s

abbrev write_result : {W : Type 0} → Callback W → ℕ → ℕ → Device W → Device W
write_result call port value d =
    if port == data_port
    then data_writeb call value d
    else if port == cmd_port
    then with_status (cmd_writeb value d.status) d
    else d

write_port_lem :
    {W : Type 0} (call : Callback W) (port value : ℕ) (d : Device W)
    → write_port call port value d ≡ write_result call port value d
write_port_lem call port value d = elim (Bool-cases (port == data_port)) [
  | inl t ↦
      subst (λ n. write_port call n value d ≡ write_result call n value d)
        (sym (==→eq port data_port t)) refl
  | inr f ↦ rw f
]

-- What each port does with a written byte: the command port starts a command, the data port feeds
-- it, and any other port ignores the byte.
pub io_write8_lem :
    {W : Type 0} (call : Callback W) (offset value : ℕ) (address : Option ℕ) (d : Device W)
    → let port = port_of address offset in
      io_write8 call offset value address d ≡ (
        if port == data_port
        then data_writeb call value d
        else if port == cmd_port
        then with_status (cmd_writeb value d.status) d
        else d)
unfolding io_write8
io_write8_lem call offset value address d = write_port_lem call (port_of address offset) value d
