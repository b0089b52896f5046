-- ===== src/Tests/Harts.antt =====
-- Runs of a hart whose bus is one memory at address 0.
use mathlib.Core.Path.{subst}
use rv64_emulator.Common.{ℕ, ◌≡◌, ◌≢◌, ◌^◌, ◌*◌, ◌≤◌, refl, sym, ◌∙◌, arith, [], ◌∷◌}
use rv64_emulator.Common.{◌<◌, length, Option, some, none, true, false, replicate, done}
use rv64_emulator.Device.Dram.{Dram, dram_device}
use rv64_emulator.Device.Dram
use rv64_emulator.Cpu.Trap.{
  Trap, is_interrupt, trap_to_cause, machine_timer_interrupt, illegal_instruction,
  environment_call_from_u_mode, no_trap, is_trap,
}
use rv64_emulator.Cpu.Mode.{user, machine, reserved, mode_eq}
use rv64_emulator.Cpu.Csr.Addr.{csr_mie, csr_mip, csr_mstatus, csr_medeleg}
use rv64_emulator.Cpu.Csr.State.{
  State, get_wfi, read, write, write_csr, new_state, update, init_mstatus,
}
use rv64_emulator.Cpu.Csr.Invariant.{IsValid, write-IsValid, new_state-IsValid}
use rv64_emulator.Cpu.Mmu.Entry.{Sv39TlbEntry, empty_entry}
use rv64_emulator.Cpu.Mmu.Sv39.{
  Sv39, new_sv39, look_up_tlb, flush_tlb, get_tlb_entry, new_entry, is_legal_address, matches, fill,
  page_table_walk, page_entry_index, visit,
}
use rv64_emulator.Cpu.Mmu.Sv39.Tlb.{look_up_tlb-flush_tlb, get_tlb_entry_cached}
use rv64_emulator.Cpu.Mmu.Access
use rv64_emulator.Cpu.Hart.{Cpu, AmoReservation, fetch}
use rv64_emulator.Bits.Copy.{copy_fields}
use rv64_emulator.Libs.Util.{interrupt_bits_to_trap, trap_to_mask}
use rv64_emulator.Cpu.Executor.Dispatch.{exec}
use rv64_emulator.Cpu.Executor.Alu.{imm_type_exec}
use rv64_emulator.Cpu.Decode.Info.{DecodeInfo, decode}
use rv64_emulator.Cpu.Decode.Table.{InstToken, get_token}
use rv64_emulator.Cpu.Executor.System.{sret_exec, mret_exec}
use rv64_emulator.Cpu.Trapping.{handle_trap, traps_to_s, final_interrupt}
use rv64_emulator.Cpu.Trapping.Entry.{
  EntersMachine, EntersSupervisor, handle_trap-EntersMachine, handle_trap-EntersSupervisor,
}
use rv64_emulator.Cpu.Trapping.ReturnS.{ResumesBelow, sret-handle_trap}
use rv64_emulator.Cpu.Trapping.Return.{Resumes, mret-handle_trap}
use rv64_emulator.Cpu.Trapping.Interrupt.{IsTakeable, final_interrupt-IsTakeable}
use rv64_emulator.Cpu.Trapping.Priority.{rank, final_interrupt_first}
use rv64_emulator.Cpu.Tick.{Lines, tick}
use rv64_emulator.Device.Dram.Bytes.{OfBytes, dram_device-HoldsBytes}
use rv64_emulator.Cpu.Hart.Valid.{new_cpu-IsValid}
use rv64_emulator.Cpu.Hart.Valid
use rv64_emulator.Cpu.Tick.Valid.{tick-IsValid}
use rv64_emulator.Cpu.Hart.{new_cpu}

-- `addi x1, x0, 5`
abbrev program : Dram
program = record { size = 4; memory = 0x93 ∷ 0x00 ∷ 0x50 ∷ 0x00 ∷ [] }

abbrev no_reservation : AmoReservation
no_reservation = record { addr = 0; size = 0; valid = 0; hart_id = 0 }

abbrev hart : Cpu Dram
hart = record {
  pc = 0;
  instret = 0;
  hart_id = 0;
  state = record { wfi = false; csr = update (λ a. 0) csr_medeleg 0x100 };
  xregs = λ r. 0;
  priv_mode = user;
  mmu = record { index = 0; cache_hit = 0; cache_miss = 0; tlb = []; bus = program };
  reservation = no_reservation;
}

-- A trap that hart delegates to S mode, and one that it does not.
abbrev ecall : Trap
ecall = record { type = environment_call_from_u_mode; val = 4 }

abbrev illegal : Trap
illegal = record { type = illegal_instruction; val = 0xffff }

illegal_stays : traps_to_s hart.state user illegal_instruction ≡ false
unfolding traps_to_s mode_eq read is_interrupt trap_to_cause
illegal_stays = refl

ecall_delegated : traps_to_s hart.state user environment_call_from_u_mode ≡ true
unfolding traps_to_s mode_eq read is_interrupt trap_to_cause
ecall_delegated = refl

illegal_is_trap : is_trap illegal_instruction ≡ true
unfolding is_trap
illegal_is_trap = refl

ecall_is_trap : is_trap environment_call_from_u_mode ≡ true
unfolding is_trap
ecall_is_trap = refl

-- MRET, or any other word: the return functions read nothing of it unless they refuse.
abbrev mret_info : DecodeInfo
mret_info = record {
  word = 0x30200073;
  op = 0x73;
  rd = 0;
  rs1 = 0;
  rs2 = 2;
  pc = 0;
  imm = 0;
  token = InstToken.mret;
  size = 4;
  mem_size = 0;
}

mret-handle_trap_example : Resumes hart 0 (mret_exec 0 (handle_trap hart illegal 0) mret_info)
mret-handle_trap_example = mret-handle_trap 0 hart mret_info illegal 0 illegal_is_trap illegal_stays

handle_trap-EntersMachine_example : EntersMachine hart illegal 0 (handle_trap hart illegal 0)
handle_trap-EntersMachine_example =
    handle_trap-EntersMachine hart illegal 0 illegal_is_trap illegal_stays

handle_trap-EntersSupervisor_example : EntersSupervisor hart ecall 0 (handle_trap hart ecall 0)
handle_trap-EntersSupervisor_example =
    handle_trap-EntersSupervisor hart ecall 0 ecall_is_trap ecall_delegated

not_reserved : user ≢ reserved
not_reserved e = ground arith

sret-handle_trap_example : ResumesBelow hart 0 (sret_exec 0 (handle_trap hart ecall 0) mret_info)
sret-handle_trap_example =
    sret-handle_trap 0 hart mret_info ecall 0 ecall_is_trap ecall_delegated not_reserved refl

-- Registers with a machine timer interrupt pending and enabled.
abbrev armed : State
armed = write (write (write new_state csr_mie 0x80) csr_mip 0x80) csr_mstatus 8

armed-IsValid : IsValid armed
armed-IsValid =
    write-IsValid _ csr_mstatus 8
      (write-IsValid _ csr_mip 0x80
        (write-IsValid new_state csr_mie 0x80 new_state-IsValid (omega arith)) (omega arith))
      (omega arith)

armed_timer : final_interrupt armed machine ≡ machine_timer_interrupt
unfolding final_interrupt write read write_csr new_state mode_eq copy_fields init_mstatus
    interrupt_bits_to_trap trap_to_mask
armed_timer = refl

armed_taken : final_interrupt armed machine ≢ no_trap
armed_taken e = timer_is_not_none (sym armed_timer ∙ e)
  where
    timer_is_not_none : machine_timer_interrupt ≢ no_trap
    timer_is_not_none q = ground arith

final_interrupt-IsTakeable_example : IsTakeable armed machine (final_interrupt armed machine)
final_interrupt-IsTakeable_example =
    final_interrupt-IsTakeable armed machine armed-IsValid armed_taken

armed_takeable : IsTakeable armed machine machine_timer_interrupt
armed_takeable =
    subst (IsTakeable armed machine) armed_timer
      (final_interrupt-IsTakeable armed machine armed-IsValid armed_taken)

final_interrupt_first_example : rank (final_interrupt armed machine) ≤ rank machine_timer_interrupt
final_interrupt_first_example =
    final_interrupt_first armed machine machine_timer_interrupt armed-IsValid (omega arith)
      armed_takeable armed_taken

-- No line of the platform is raised.
abbrev quiet : Lines
quiet = record { meip = false; seip = false; msip = false; mtip = false; update = false }

abbrev or_hart : Option (Cpu Dram) → Cpu Dram
or_hart none = hart
or_hart (some c) = c

-- A new hart over the same memory.
abbrev fresh : Cpu Dram
fresh = new_cpu 0 no_reservation (new_sv39 program)

fresh-IsValid : Valid.IsValid OfBytes fresh
fresh-IsValid =
    new_cpu-IsValid OfBytes 0 no_reservation program (omega arith)
      (omega arith, (omega arith, (omega arith, (omega arith, tt))))

stepped : tick dram_device 0 quiet fresh ≡ some (or_hart (tick dram_device 0 quiet fresh))
unfolding tick Dram.load get_wfi fetch Access.fetch mode_eq read decode get_token exec imm_type_exec
    new_cpu new_sv39 new_state
stepped = refl

tick-IsValid_example :
    Valid.IsValid OfBytes (or_hart (tick dram_device 0 quiet fresh))
    × (fresh.xregs 0 ≡ 0 → (or_hart (tick dram_device 0 quiet fresh)).xregs 0 ≡ 0)
tick-IsValid_example =
    tick-IsValid OfBytes dram_device 0 quiet fresh _ dram_device-HoldsBytes (omega arith)
      fresh-IsValid stepped

-- A table of one gigabyte leaf at address 0, and the buffer of two unused entries.
abbrev tables : Dram
tables = record { size = 8; memory = 0xcf ∷ replicate 7 0 }

abbrev satp : ℕ
satp = 8 * 2 ^ 60

abbrev mmu : Sv39 Dram
mmu = new_sv39 tables

look_up_tlb-flush_tlb_example :
    (look_up_tlb satp 0x1000 (flush_tlb 0x1000 0 mmu).tlb ≡ none)
    × (look_up_tlb satp 0x1000 (flush_tlb 0 0 mmu).tlb ≡ none)
look_up_tlb-flush_tlb_example = look_up_tlb-flush_tlb mmu satp 0x1000

abbrev leaf_entry : Sv39TlbEntry
leaf_entry = new_entry satp 0x1000 0xcf 3

abbrev translated : Sv39 Dram
translated = record mmu { cache_miss = 1; index = 1; tlb = leaf_entry ∷ empty_entry ∷ [] }

translation : get_tlb_entry dram_device satp 0x1000 mmu ≡ done (some leaf_entry, translated)
unfolding get_tlb_entry new_sv39 Dram.load is_legal_address look_up_tlb matches fill page_table_walk
    page_entry_index visit
translation = refl

in_buffer : mmu.index < length mmu.tlb
unfolding new_sv39
in_buffer = omega arith

get_tlb_entry_cached_example : look_up_tlb satp 0x1000 translated.tlb ≡ some leaf_entry
get_tlb_entry_cached_example =
    get_tlb_entry_cached dram_device satp 0x1000 mmu translated leaf_entry in_buffer translation
