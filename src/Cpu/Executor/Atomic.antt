-- ===== src/Cpu/Executor/Atomic.antt =====
-- The A extension: AmoLrExec, AmoScExec and AmoTypeExec. Their widths are powers of two, as DecodeInfo
-- makes them; the remainder by a width of 0, which C++ leaves undefined, does not arise.
use rv64_emulator.Common.{ℕ, ◌%◌, ◌^◌, Bool, ◌&&◌, not, nonzero, ltb, ◌==◌, none, some}
use rv64_emulator.Common.{le_bytes, of_le_bytes, if◌then◌else◌, bit_and, bit_or, bit_xor}
use rv64_emulator.Words.{sext, add_wrap, slt}
use rv64_emulator.Device.Mmio.{MmioDevice}
use rv64_emulator.Cpu.Trap.{none_trap, load_address_misaligned, store_address_misaligned}
use rv64_emulator.Cpu.Mmu.Access.{ok, trapped}
use rv64_emulator.Cpu.Decode.Table.{InstToken}
use rv64_emulator.Cpu.Decode.Info.{DecodeInfo}
use rv64_emulator.Cpu.Hart.{AmoReservation, Cpu, set_xreg}
use rv64_emulator.Cpu.Hart
use rv64_emulator.Cpu.Executor.Value.{Value, value, illegal, undefined, Exec, ill_trap}

-- std::min and std::max under an order.
abbrev pub min_by : (ℕ → ℕ → Bool) → ℕ → ℕ → ℕ
min_by lt a b = if lt b a then b else a

abbrev pub max_by : (ℕ → ℕ → Bool) → ℕ → ℕ → ℕ
max_by lt a b = if lt a b then b else a

-- The switch of AmoTypeExec on rs2's register and the memory's value; word tokens see the low
-- words, sign-extended unless the token is unsigned.
unfoldable pub amo_value : InstToken → ℕ → ℕ → Value
amo_value InstToken.amoswap_w v mem = value (sext 32 v)
amo_value InstToken.amoswap_d v mem = value v
amo_value InstToken.amoadd_w v mem = value (add_wrap 64 (sext 32 v) (sext 32 mem))
amo_value InstToken.amoadd_d v mem = value (add_wrap 64 v mem)
amo_value InstToken.amoxor_w v mem = value (bit_xor (sext 32 v) (sext 32 mem))
amo_value InstToken.amoxor_d v mem = value (bit_xor v mem)
amo_value InstToken.amoand_w v mem = value (bit_and (sext 32 v) (sext 32 mem))
amo_value InstToken.amoand_d v mem = value (bit_and v mem)
amo_value InstToken.amoor_w v mem = value (bit_or (sext 32 v) (sext 32 mem))
amo_value InstToken.amoor_d v mem = value (bit_or v mem)
amo_value InstToken.amomin_w v mem = value (min_by slt (sext 32 v) (sext 32 mem))
amo_value InstToken.amomin_d v mem = value (min_by slt v mem)
amo_value InstToken.amomax_w v mem = value (max_by slt (sext 32 v) (sext 32 mem))
amo_value InstToken.amomax_d v mem = value (max_by slt v mem)
amo_value InstToken.amominu_w v mem = value (min_by ltb (v % 2 ^ 32) (mem % 2 ^ 32))
amo_value InstToken.amominu_d v mem = value (min_by ltb v mem)
amo_value InstToken.amomaxu_w v mem = value (max_by ltb (v % 2 ^ 32) (mem % 2 ^ 32))
amo_value InstToken.amomaxu_d v mem = value (max_by ltb v mem)
amo_value _ v mem = illegal

-- What LR writes to rd.
unfoldable pub lr_value : InstToken → ℕ → ℕ
lr_value InstToken.lr_w val = sext 32 val
lr_value _ val = val

-- Which of the three functions handles a token.
pub data AmoKind : Type 0 where
  reserved_load conditional_store read_modify_write : AmoKind

unfoldable pub amo_kind : InstToken → AmoKind
amo_kind InstToken.lr_w = reserved_load
amo_kind InstToken.lr_d = reserved_load
amo_kind InstToken.sc_w = conditional_store
amo_kind InstToken.sc_d = conditional_store
amo_kind _ = read_modify_write

-- The test of AmoScExec on the reservation.
unfoldable pub reservation_matches : AmoReservation → ℕ → ℕ → ℕ → Bool
reservation_matches r addr size hart_id =
    r.addr == addr && r.size == size && nonzero r.valid && r.hart_id == hart_id

module _ {B : Type 0} (m : MmioDevice B) (c : Cpu B) (info : DecodeInfo) where
  -- The two registers, and the test of alignment.
  abbrev rs1_val : ℕ
  rs1_val = c.xregs info.rs1

  abbrev rs2_val : ℕ
  rs2_val = c.xregs info.rs2

  abbrev misaligned : Bool
  misaligned = not (rs1_val % info.mem_size == 0)

  -- Executor::AmoLrExec. The reservation is made before the load, and stays when that traps.
  unfoldable pub amo_lr_exec : Exec B
  unfolding lr_value
  amo_lr_exec =
      let reservation : AmoReservation = record {
        addr = rs1_val;
        size = info.mem_size;
        valid = 1;
        hart_id = c.hart_id;
      } in
      if not (rs2_val == 0)
      then some (ill_trap info.word, c)
      else if misaligned
      then some (record { type = load_address_misaligned; val = info.pc }, c)
      else elim (Hart.load m (record c { reservation = reservation }) rs1_val info.mem_size) [
        | none ↦ none
        | some (trapped t, c1) ↦ some (t, c1)
        | some (ok bytes, c1) ↦
            some (none_trap, set_xreg c1 info.rd (lr_value info.token (of_le_bytes bytes)))
      ]

  -- Executor::AmoScExec
  unfoldable pub amo_sc_exec : Exec B
  unfolding reservation_matches
  amo_sc_exec =
      let r = c.reservation in
      let cleared = record c { reservation = record r { valid = 0 } } in
      if misaligned
      then some (record { type = store_address_misaligned; val = info.pc }, c)
      else if reservation_matches r rs1_val info.mem_size c.hart_id
      then elim (Hart.store m cleared rs1_val info.mem_size (le_bytes 8 rs2_val)) [
        | none ↦ none
        | some (trapped t, c1) ↦ some (t, c1)
        | some (ok u, c1) ↦ some (none_trap, set_xreg c1 info.rd 0)
      ]
      else some (none_trap, set_xreg (if r.hart_id == c.hart_id then cleared else c) info.rd 1)

  -- The store and the register write that end AmoTypeExec.
  unfoldable pub amo_write : Cpu B → ℕ → Value → Exec B
  amo_write c1 mem illegal = some (ill_trap info.word, c1)
  amo_write c1 mem undefined = none
  amo_write c1 mem (value v) = elim (Hart.store m c1 rs1_val info.mem_size (le_bytes 8 v)) [
    | none ↦ none
    | some (trapped t, c2) ↦ some (t, c2)
    | some (ok u, c2) ↦
        some (none_trap, set_xreg c2 info.rd (if info.mem_size == 8 then mem else sext 32 mem))
  ]

  -- The read-modify-write half of AmoTypeExec.
  unfoldable pub amo_rmw_exec : Exec B
  unfolding amo_value amo_write
  amo_rmw_exec =
      if misaligned
      then some (record { type = load_address_misaligned; val = info.pc }, c)
      else elim (Hart.load m c rs1_val info.mem_size) [
        | none ↦ none
        | some (trapped t, c1) ↦ some (t, c1)
        | some (ok bytes, c1) ↦
            amo_write c1 (of_le_bytes bytes) (amo_value info.token rs2_val (of_le_bytes bytes))
      ]

  -- Executor::AmoTypeExec
  unfoldable pub amo_type_exec : Exec B
  unfolding amo_kind amo_lr_exec amo_sc_exec amo_rmw_exec
  amo_type_exec = elim (amo_kind info.token) [
    | reserved_load ↦ amo_lr_exec
    | conditional_store ↦ amo_sc_exec
    | read_modify_write ↦ amo_rmw_exec
  ]
