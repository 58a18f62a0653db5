-- ===== src/Smc/Port/Protocol/Bounds.antt =====
-- The array accesses of a read of the data port of fakesmc/FakeSMCDevice.cpp.
use fake_smc3_with_plugins.Prelude.{
  length, get_or, get_elem?-eq-get_or, get_elem?-none, ℕ, zero, suc, ◌+◌, ◌≤◌, ◌<◌, ◌≡◌, refl, ap,
  ◌∙◌, ◌≢◌, none, some, arith,
}
use fake_smc3_with_plugins.Smc.Device.{Status}
use fake_smc3_with_plugins.Smc.Port.{
  get_key_type_cmd, cmd_writeb, data_readb, read_value, read_name, read_key_info,
}
use fake_smc3_with_plugins.Smc.Port.Transfer.{drain, prepend, drain-suc}
use fake_smc3_with_plugins.Smc.Port.Protocol.{IsSized}

-- A read stays inside of the arrays, unless it is one of a key's type whose length register is
-- more than the six bytes that there are.
pub data_readb_in_bounds :
    (s : Status)
    → IsSized s
    → s.data_len < 256
    → (s.cmd ≡ get_key_type_cmd → s.data_len ≤ 6)
    → data_readb s ≢ none
unfolding data_readb read_value read_name read_key_info
data_readb_in_bounds s z l t f = ground (
  arith,
  f,
  t,
  get_elem?-eq-get_or s.value s.data_pos 0,
  get_elem?-eq-get_or s.key s.data_pos 0,
  get_elem?-eq-get_or s.key_info s.data_pos 0,
)

-- A read of the type that does not reach the end of the transfer goes one byte further.
type_step :
    (s : Status) (p : ℕ)
    → s.cmd ≡ get_key_type_cmd
    → length s.key_info ≡ 6
    → 6 < s.data_len
    → s.data_len < 256
    → s.data_pos ≡ p
    → p < 6
    → data_readb s ≡ some (get_or s.key_info p 0, record s { data_pos = p + 1; status = 0x05 })
unfolding data_readb
type_step s p c z l h e lt = ground (arith, get_elem?-eq-get_or s.key_info p 0)

drain_fault : (n : ℕ) (s : Status) → data_readb s ≡ none → drain (suc n) s ≡ none
unfolding drain
drain_fault n s e = rw (e, drain)

type_reads_out :
    (k : ℕ) (s : Status) (p : ℕ)
    → s.cmd ≡ get_key_type_cmd
    → length s.key_info ≡ 6
    → 6 < s.data_len
    → s.data_len < 256
    → s.data_pos ≡ p
    → p + k ≡ 6
    → drain (suc k) s ≡ none
type_reads_out zero s p c z l h e q =
    drain_fault 0 s (unfold data_readb in ground (arith, get_elem?-none s.key_info 6))
type_reads_out (suc k) s p c z l h e q =
    drain-suc (suc k) s _ _ (type_step s p c z l h e (omega arith))
    ∙ ap (prepend (get_or s.key_info p 0)) (
        type_reads_out k (record s { data_pos = p + 1; status = 0x05 }) (p + 1) c z l h refl
          (omega arith))

-- Where an earlier transfer left a length of more than six, a host that sends the type command and
-- then reads, with no name between, gets to the end of key_info: the seventh read is outside of the
-- array.
pub type_command_reads_out :
    (s : Status)
    → IsSized s
    → 6 < s.data_len
    → s.data_len < 256
    → drain 7 (cmd_writeb get_key_type_cmd s) ≡ none
unfolding cmd_writeb
type_command_reads_out s z l h =
    type_reads_out 6 (cmd_writeb get_key_type_cmd s) 0 refl z.info_length l h refl (omega arith)
