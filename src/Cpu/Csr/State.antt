-- ===== src/Cpu/Csr/State.antt =====
-- `class State` of include/cpu/csr.h, and src/cpu/csr.cc. The vector of 4096 registers is a function
-- from addresses; every address that the code passes comes from a 12-bit field or is a constant.

use rv64_emulator.Common.{ℕ, Bool, false, ◌&&◌, ◌||◌, not, bit_and, bit_or}
use rv64_emulator.Common.{◌==◌, if◌then◌else◌}
use rv64_emulator.Bits.Digit.{bit_not}
use rv64_emulator.Bits.Fields.{field, set_field}
use rv64_emulator.Bits.Copy.{copy_fields}
use rv64_emulator.Cpu.Csr.Addr.{
  csr_misa, csr_mstatus, csr_sstatus, csr_sie, csr_sip, csr_mie, csr_mip, csr_tselect, csr_tdata1,
  csr_mideleg, csr_medeleg, csr_mvendor_id, csr_march_id, csr_mimp_id, csr_satp,
  csr_m_interrupt_mask, csr_s_interrupt_mask, csr_s_exception_mask,
}
use rv64_emulator.Cpu.Csr.Layout.{
  sstatus_read_fields, sstatus_write_fields, mstatus_write_fields, satp_mode, sxl, uxl, misa_a,
  misa_i, misa_m, misa_s, misa_u, misa_mxl,
}

pub record State : Type 0 where
  pub wfi : Bool
  pub csr : ℕ → ℕ

-- `desc->f` and `desc->f = x` for a field given by its offset and width.
abbrev pub get : ℕ → ℕ × ℕ → ℕ
get v (lo, w) = field v lo w

abbrev pub put : ℕ → ℕ × ℕ → ℕ → ℕ
put v (lo, w) x = set_field v lo w x

-- `csr_[a] = v`
abbrev pub update : (ℕ → ℕ) → ℕ → ℕ → ℕ → ℕ
update f a v b = if a == b then v else f b

-- `~kCsrSInterruptMask` on uint64_t
abbrev pub not_s_interrupt : ℕ
not_s_interrupt = bit_not 64 csr_s_interrupt_mask

-- RiscvMXL::kRv64
abbrev mxl_rv64 : ℕ
mxl_rv64 = 2

-- The lengths that the constructor and Reset put into mstatus.
unfoldable pub init_mstatus : ℕ → ℕ
init_mstatus v = put (put v sxl mxl_rv64) uxl mxl_rv64

unfoldable pub init_misa : ℕ → ℕ
init_misa v =
    put (put (put (put (put (put v misa_mxl mxl_rv64) misa_i 1) misa_m 1) misa_a 1) misa_s 1) misa_u
      1

-- State::State
unfoldable pub new_state : State
unfolding init_mstatus init_misa
new_state = record {
  wfi = false;
  csr = update (update (λ a. 0) csr_misa (init_misa 0)) csr_mstatus (init_mstatus 0);
}

-- State::Read
unfoldable pub read : State → ℕ → ℕ
read s addr =
    if addr == csr_sstatus
    then copy_fields sstatus_read_fields (s.csr csr_mstatus) 0
    else if addr == csr_sie
    then bit_and (s.csr csr_mie) csr_s_interrupt_mask
    else if addr == csr_sip
    then bit_and (s.csr csr_mip) csr_s_interrupt_mask
    else if addr == csr_tselect || addr == csr_tdata1
    then 0
    else s.csr addr

-- The value that a write stores into satp: an unsupported mode leaves the old one.
unfoldable pub satp_value : ℕ → ℕ → ℕ
satp_value old val =
    if not (get val satp_mode == 0) && not (get val satp_mode == 8)
    then put val satp_mode (get old satp_mode)
    else val

-- The supervisor's view of mie and mip: clear its bits, then set those of the value.
unfoldable pub merge_s_interrupt : ℕ → ℕ → ℕ
merge_s_interrupt old val = bit_or (bit_and old not_s_interrupt) (bit_and val csr_s_interrupt_mask)

-- State::Write, on the register array.
unfoldable pub write_csr : (ℕ → ℕ) → ℕ → ℕ → ℕ → ℕ
write_csr c addr val =
    if addr == csr_sstatus
    then update c csr_mstatus (copy_fields sstatus_write_fields val (c csr_mstatus))
    else if addr == csr_mie || addr == csr_mip
    then update c addr (bit_and val csr_m_interrupt_mask)
    else if addr == csr_sie
    then update c csr_mie (merge_s_interrupt (c csr_mie) val)
    else if addr == csr_sip
    then update c csr_mip (merge_s_interrupt (c csr_mip) val)
    else if addr == csr_mstatus
    then update c csr_mstatus (copy_fields mstatus_write_fields val (c csr_mstatus))
    else if addr == csr_mideleg
    then update c addr (bit_and val csr_s_interrupt_mask)
    else if addr == csr_medeleg
    then update c addr (bit_and val csr_s_exception_mask)
    else if addr == csr_misa
        || addr == csr_tselect
        || addr == csr_tdata1
        || addr == csr_mvendor_id
        || addr == csr_march_id
        || addr == csr_mimp_id
    then c
    else if addr == csr_satp
    then update c addr (satp_value (c addr) val)
    else update c addr val

unfoldable pub write : State → ℕ → ℕ → State
unfolding write_csr
write s addr val = record s { csr = write_csr s.csr addr val }

-- State::GetWfi, State::SetWfi
unfoldable pub get_wfi : State → Bool
get_wfi s = s.wfi

unfoldable pub set_wfi : State → Bool → State
set_wfi s wfi = record s { wfi = wfi }

-- State::Reset
unfoldable pub reset : State → State
unfolding init_mstatus
reset s = record {
  wfi = false;
  csr = update (update (λ a. 0) csr_misa (s.csr csr_misa)) csr_mstatus (init_mstatus 0);
}
